-- ===== src/Scheduler/Planning/Allotment.antt =====
-- What `plan_prefill` plans: the greedy allotment of the token budget, in the order of the round.
use full_inference_engine.Base.{
  ℕ, zero, suc, ◌+◌, ◌-◌, ◌≤◌, ◌<◌, ◌≡◌, refl, ◌∙◌, ap, sym, subst, dec_lt, min, true, none, some,
  List, [], ◌∷◌, ◌++◌, String, String_discrete, is_yes, ◌||◌, ◌==◌, if◌then◌else◌, length, Dict,
  lookup, Outcome, ok, raise, value_error, All, Bool-cases, Option-cases, inl, inr, arith,
}
use mathlib.Core.List.{append_assoc, append-nil}
use full_inference_engine.Runtime.States.{is_prefilling}
use full_inference_engine.Runtime.Requests.{GenerationRequest, remaining_prefill_tokens}
use full_inference_engine.Scheduler.{Scheduler}
use full_inference_engine.Scheduler.Planning.{Plan, planned, plan_loop, plan_prefill}

abbrev pub count_id : String → List String → ℕ
count_id id [] = 0
count_id id (x ∷ xs) = (if is_yes (String_discrete x id) then 1 else 0) + count_id id xs

-- What a request can use in one round.
abbrev pub demand : Dict String GenerationRequest → ℕ → String → ℕ
demand active chunk_size id = elim (lookup String_discrete id active) [
  | none ↦ 0
  | some r ↦ if is_prefilling r.state then min (remaining_prefill_tokens r) chunk_size else 0
]

abbrev pub demands : Dict String GenerationRequest → ℕ → List String → ℕ
demands active chunk_size [] = 0
demands active chunk_size (id ∷ ids) = demand active chunk_size id + demands active chunk_size ids

-- Each request in turn gets what it can use of what is left.
abbrev pub grant : Dict String GenerationRequest → String → ℕ → List Plan → List Plan
grant active id zero plans = plans
grant active id (suc n) plans = elim (lookup String_discrete id active) [
  | none ↦ plans
  | some r ↦ (r, suc n) ∷ plans
]

pub allot : Dict String GenerationRequest → ℕ → ℕ → List String → List Plan
allot active chunk_size budget [] = []
allot active chunk_size budget (id ∷ ids) =
    let share : ℕ = min (demand active chunk_size id) budget in
    grant active id share (allot active chunk_size (budget - share) ids)

abbrev pub granted : List Plan → ℕ
granted [] = 0
granted ((r, n) ∷ plans) = n + granted plans

pub granted-allot :
    (active : Dict String GenerationRequest) (chunk_size budget : ℕ) (ids : List String)
    → granted (allot active chunk_size budget ids) ≡ min budget (demands active chunk_size ids)
unfolding allot
granted-allot active chunk_size budget [] = omega arith
granted-allot active chunk_size budget (id ∷ ids) =
    let share : ℕ = min (demand active chunk_size id) budget in
    ground (arith, granted-allot active chunk_size (budget - share) ids)

-- A plan that is allowed: for a request in PREFILLING, not empty, within the chunk and what is left to do.
abbrev pub Allowed : ℕ → Plan → Type 0
Allowed chunk_size (r, n) =
    (is_prefilling r.state ≡ true) × (0 < n) × (n ≤ chunk_size) × (n ≤ remaining_prefill_tokens r)

pub allot-Allowed :
    (active : Dict String GenerationRequest) (chunk_size budget : ℕ) (ids : List String)
    → All (Allowed chunk_size) (allot active chunk_size budget ids)
unfolding allot
allot-Allowed active chunk_size budget [] = tt
allot-Allowed active chunk_size budget (id ∷ ids) =
    let share : ℕ = min (demand active chunk_size id) budget in
    ground (arith, allot-Allowed active chunk_size (budget - share) ids)

allot_spent :
    (active : Dict String GenerationRequest) (chunk_size : ℕ) (ids : List String)
    → allot active chunk_size 0 ids ≡ []
unfolding allot
allot_spent active chunk_size [] = refl
allot_spent active chunk_size (id ∷ ids) = ground (arith, allot_spent active chunk_size ids)

pub count_id-append :
    (x : String) (us vs : List String) → count_id x (us ++ vs) ≡ count_id x us + count_id x vs
count_id-append x [] vs = omega arith
count_id-append x (u ∷ us) vs = omega (arith, count_id-append x us vs)

abbrev pub in_order : {C : Type 0} → Scheduler C → List String → Scheduler C
in_order s order = record s { prefill_order = order }

-- No id more often than before, and an active one as often.
abbrev pub SameRound : {C : Type 0} → Scheduler C → String → List String → List String → Type 0
SameRound s x order' order =
    (count_id x order' ≤ count_id x order)
    × ((r : GenerationRequest)
        → lookup String_discrete x s.active ≡ some r
        → count_id x order' ≡ count_id x order)

-- The loop returns this allotment, and its order has all active ids, as often as before.
abbrev pub Plans :
    {C : Type 0}
    → Scheduler C
    → ℕ
    → ℕ
    → List String
    → List String
    → Outcome (Scheduler C) (List Plan)
    → Type 0
Plans s chunk_size budget ids order outcome =
    (order' : List String) × (outcome
      ≡ ok (allot s.active chunk_size budget ids) (in_order s order'))
    × ((x : String) → SameRound s x order' order)

module _ {C : Type 0} (s : Scheduler C) (chunk_size : ℕ) (some_chunk : 0 < chunk_size) where
  module _ (id : String) (ids order : List String) (n budget : ℕ) where
    step_gone :
        lookup String_discrete id s.active ≡ none
        → (plan_loop (suc n) chunk_size budget (in_order s (id ∷ order))
            ≡ plan_loop n chunk_size budget (in_order s order))
          × (allot s.active chunk_size budget (id ∷ ids) ≡ allot s.active chunk_size budget ids)
    unfolding plan_loop allot
    step_gone e = ground arith

    step_idle :
        (r : GenerationRequest)
        → lookup String_discrete id s.active ≡ some r
        → demand s.active chunk_size id ≡ 0
        → (plan_loop (suc n) chunk_size budget (in_order s (id ∷ order))
            ≡ plan_loop n chunk_size budget (in_order s (order ++ id ∷ [])))
          × (allot s.active chunk_size budget (id ∷ ids) ≡ allot s.active chunk_size budget ids)
    unfolding plan_loop allot
    step_idle r e d = ground arith

    step_last :
        (r : GenerationRequest)
        → lookup String_discrete id s.active ≡ some r
        → 0 < budget
        → budget ≤ demand s.active chunk_size id
        → (plan_loop (suc n) chunk_size budget (in_order s (id ∷ order))
            ≡ ok ((r, budget) ∷ []) (in_order s (order ++ id ∷ [])))
          × (allot s.active chunk_size budget (id ∷ ids) ≡ (r, budget) ∷ [])
    unfolding plan_loop allot
    step_last r e h d = ground (arith, allot_spent s.active chunk_size ids)

    step_more :
        (r : GenerationRequest) (d : ℕ)
        → lookup String_discrete id s.active ≡ some r
        → demand s.active chunk_size id ≡ d
        → 0 < d
        → d < budget
        → (plan_loop (suc n) chunk_size budget (in_order s (id ∷ order))
            ≡ planned (r, d) (plan_loop n chunk_size (budget - d) (in_order s (order ++ id ∷ []))))
          × (allot s.active chunk_size budget (id ∷ ids)
              ≡ (r, d) ∷ allot s.active chunk_size (budget - d) ids)
    unfolding plan_loop allot
    step_more r d e h k l = ground arith

  count_rotated :
      (x id : String) (order : List String)
      → count_id x (order ++ id ∷ []) ≡ count_id x (id ∷ order)
  count_rotated x id order = omega (arith, count_id-append x order (id ∷ []))

  Plans-step :
      (id : String) (ids tail : List String) (budget : ℕ)
      → ((b : ℕ)
          → 0 < b
          → Plans s chunk_size b ids
              (ids ++ tail)
              (plan_loop (length ids) chunk_size b (in_order s (ids ++ tail))))
      → ((b : ℕ)
          → 0 < b
          → Plans s chunk_size b ids
              (ids ++ (tail ++ id ∷ []))
              (plan_loop (length ids) chunk_size b (in_order s (ids ++ (tail ++ id ∷ [])))))
      → 0 < budget
      → Plans s chunk_size budget
          (id ∷ ids)
          (id ∷ (ids ++ tail))
          (plan_loop (suc (length ids)) chunk_size budget (in_order s (id ∷ (ids ++ tail))))
  Plans-step id ids tail budget here there h =
      elim (Option-cases (lookup String_discrete id s.active)) [
        | inl e ↦
            let step = step_gone id ids (ids ++ tail) (length ids) budget e in
            let ih = here budget h in
            (
              ih.0,
              step.0 ∙ ih.1 ∙ ap (λ ps. ok ps (in_order s ih.0)) (sym step.1),
              λ x. (omega (arith, (ih.2 x).0), λ r k. ground (arith, (ih.2 x).1 r k)),
            )
        | inr (r, e) ↦ elim (dec_lt (demand s.active chunk_size id) budget) [
          | no enough ↦
              let step = step_last id ids (ids ++ tail) (length ids) budget r e h (omega arith) in
              (
                (ids ++ tail) ++ id ∷ [],
                step.0 ∙ ap (λ ps. ok ps (in_order s ((ids ++ tail) ++ id ∷ []))) (sym step.1),
                λ x. (
                  omega (arith, count_rotated x id (ids ++ tail)),
                  λ q k. count_rotated x id (ids ++ tail),
                ),
              )
          | yes less ↦ elim (dec_lt 0 (demand s.active chunk_size id)) [
            | no idle ↦
                let step = step_idle id ids (ids ++ tail) (length ids) budget r e (omega arith) in
                let ih = there budget h in
                (
                  ih.0,
                  step.0
                      ∙ ap (λ order. plan_loop (length ids) chunk_size budget (in_order s order))
                          (append_assoc ids tail (id ∷ []))
                      ∙ ih.1
                      ∙ ap (λ ps. ok ps (in_order s ih.0)) (sym step.1),
                  λ x. (omega (arith, (ih.2 x).0, rotated x), λ q k. (ih.2 x).1 q k ∙ rotated x),
                )
            | yes some_demand ↦
                let d : ℕ = demand s.active chunk_size id in
                let step =
                  step_more id ids (ids ++ tail) (length ids) budget r d e refl some_demand less in
                let ih = there (budget - d) (omega arith) in
                (
                  ih.0,
                  step.0
                      ∙ ap
                          (λ order.
                            planned (r, d)
                              (plan_loop (length ids) chunk_size (budget - d) (in_order s order)))
                          (append_assoc ids tail (id ∷ []))
                      ∙ ap (planned (r, d)) ih.1
                      ∙ ap (λ ps. ok ps (in_order s ih.0)) (sym step.1),
                  λ x. (omega (arith, (ih.2 x).0, rotated x), λ q k. (ih.2 x).1 q k ∙ rotated x),
                )
          ]
        ]
      ]
    where
      rotated :
          (x : String) → count_id x (ids ++ (tail ++ id ∷ [])) ≡ count_id x (id ∷ (ids ++ tail))
      rotated x =
          sym (ap (count_id x) (append_assoc ids tail (id ∷ []))) ∙ count_rotated x id (ids ++ tail)

  plan_loop_run :
      (ids tail : List String) (budget : ℕ)
      → 0 < budget
      → Plans s chunk_size budget ids
          (ids ++ tail)
          (plan_loop (length ids) chunk_size budget (in_order s (ids ++ tail)))
  plan_loop_run [] tail budget h =
      (tail, unfold plan_loop allot in refl, λ x. (omega arith, λ r e. refl))
  plan_loop_run (id ∷ ids) tail budget h =
      Plans-step id ids tail budget (plan_loop_run ids tail) (plan_loop_run ids (tail ++ id ∷ [])) h

-- From a positive chunk size and token budget plan_prefill never fails: it returns the greedy allotment of
-- the budget over the active requests in the order of the round, and it changes nothing but that order,
-- which holds each active request as often as before.
pub plan_prefill-Plans :
    {C : Type 0} (s : Scheduler C) (chunk_size budget : ℕ)
    → 0 < chunk_size
    → 0 < budget
    → Plans s chunk_size budget s.prefill_order s.prefill_order (plan_prefill chunk_size budget s)
plan_prefill-Plans s chunk_size budget h k =
    let run =
      subst
        (λ order.
          Plans s chunk_size budget s.prefill_order order
            (plan_loop (length s.prefill_order) chunk_size budget (in_order s order)))
        (append-nil s.prefill_order) (plan_loop_run s chunk_size h s.prefill_order [] budget k) in
    (run.0, unfold plan_prefill in ground (arith, run.1), run.2)

pub plan_prefill_refused :
    {C : Type 0} (s : Scheduler C) (chunk_size budget : ℕ)
    → ((chunk_size == 0) || (budget == 0)) ≡ true
    → plan_prefill chunk_size budget s ≡ raise value_error s
unfolding plan_prefill
plan_prefill_refused s chunk_size budget bad = ground arith

-- The plans of plan_prefill are for requests in PREFILLING, each with at least one token, no more than a
-- chunk and no more than the request still has to prefill; together they use the token budget up, or all
-- that the active requests can use if that is less.
pub plan_prefill-budget :
    {C : Type 0} (s s' : Scheduler C) (chunk_size budget : ℕ) (plans : List Plan)
    → plan_prefill chunk_size budget s ≡ ok plans s'
    → All (Allowed chunk_size) plans
      × (granted plans ≡ min budget (demands s.active chunk_size s.prefill_order))
plan_prefill-budget {C} s s' chunk_size budget plans e =
    elim (Bool-cases ((chunk_size == 0) || (budget == 0))) [
      | inl bad ↦ absurd (plan_refused bad)
      | inr good ↦
          let run = plan_prefill-Plans s chunk_size budget (ground arith) (ground arith) in
          let same : allot s.active chunk_size budget s.prefill_order ≡ plans =
            result_of (sym run.1 ∙ e) in
          subst
            (λ ps.
              All (Allowed chunk_size) ps
              × (granted ps ≡ min budget (demands s.active chunk_size s.prefill_order)))
            same
            (
              allot-Allowed s.active chunk_size budget s.prefill_order,
              granted-allot s.active chunk_size budget s.prefill_order,
            )
    ]
  where
    plan_refused : ((chunk_size == 0) || (budget == 0)) ≡ true → ⊥
    plan_refused bad = unfold plan_prefill in ground arith

    result_of : {p q : List Plan} {u v : Scheduler C} → ok p u ≡ ok q v → p ≡ q
    result_of k = cc
