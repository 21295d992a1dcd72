-- ===== src/Scheduler/Planning.antt =====
-- `plan_prefill` of engine/scheduler/scheduler.py.
pub mod Allotment
use full_inference_engine.Base.{
  ℕ, zero, suc, ◌-◌, min, Bool, true, false, not, ◌||◌, Option, none, some, List, [], ◌∷◌, ◌++◌,
  String, String_discrete, ◌==◌, length, Dict, lookup, Outcome, Action, ok, raise, value_error,
  index_error, raise_if, get, ◌>>◌, ◌>>=◌,
}
use full_inference_engine.Runtime.States.{is_prefilling}
use full_inference_engine.Runtime.Requests.{GenerationRequest, remaining_prefill_tokens}
use full_inference_engine.Scheduler.{Scheduler}

abbrev pub Plan : Type 0
Plan = GenerationRequest × ℕ

-- Puts a plan before those that follow.
abbrev pub planned {ℓ} : {S : Type ℓ} → Plan → Outcome S (List Plan) → Outcome S (List Plan)
planned p (ok plans s) = ok (p ∷ plans) s
planned p (raise e s) = raise e s

module _ {C : Type 0} where
  -- `visits` rounds of the loop; `popleft` of an empty deque is the `IndexError`.
  pub plan_loop : ℕ → ℕ → ℕ → Action (Scheduler C) (List Plan)
  plan_loop zero chunk_size token_budget s = ok [] s
  plan_loop (suc visits) chunk_size token_budget s = elim s.prefill_order [
    | [] ↦ raise index_error s
    | id ∷ order ↦ elim (lookup String_discrete id s.active) [
      | none ↦ plan_loop visits chunk_size token_budget (record s { prefill_order = order })
      | some r ↦ elim (is_prefilling r.state) [
        | false ↦
            plan_loop visits chunk_size token_budget (record s { prefill_order = order ++ id ∷ [] })
        | true ↦
            let count : ℕ = min (min (remaining_prefill_tokens r) chunk_size) token_budget in
            elim (count == 0) [
              | true ↦
                  plan_loop visits chunk_size token_budget
                    (record s { prefill_order = order ++ id ∷ [] })
              | false ↦ elim ((token_budget - count) == 0) [
                | true ↦ ok ((r, count) ∷ []) (record s { prefill_order = order ++ id ∷ [] })
                | false ↦
                    planned (r, count)
                      (plan_loop visits chunk_size (token_budget - count)
                        (record s { prefill_order = order ++ id ∷ [] }))
              ]
            ]
      ]
    ]
  ]

  pub plan_prefill : ℕ → ℕ → Action (Scheduler C) (List Plan)
  plan_prefill chunk_size token_budget = do
    raise_if ((chunk_size == 0) || (token_budget == 0)) value_error
    s ← get
    plan_loop (length s.prefill_order) chunk_size token_budget
