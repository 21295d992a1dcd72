-- ===== src/Scheduler/Runs.antt =====
-- Sequences of calls on the scheduler of engine/scheduler/scheduler.py.
use full_inference_engine.Base.{
  ℕ, ◌≡◌, refl, ◌∙◌, ap, sym, subst, Bool, false, not, ◌||◌, Option, none, some, List, [], ◌∷◌,
  String, String_discrete, lookup, arith, inl, inr, Bool-cases, Option-cases, final, Ensures-final,
  ltb, is_some, ◌==◌,
}
use full_inference_engine.Cache.Paging.{KvBlockManager}
use full_inference_engine.Cache.Paging.Valid.{IsConsistent}
use full_inference_engine.Cache.PrefixInterface.{PrefixOps, PrefixLaws}
use full_inference_engine.Runtime.Requests.{GenerationRequest}
use full_inference_engine.Scheduler.{
  Scheduler, is_zero, make, submit, mark_decoding, finish, fail, preempt, cancel,
}
use full_inference_engine.Scheduler.Admission.{admit_available}
use full_inference_engine.Scheduler.Admission.Order.{admit_available-Admits}
use full_inference_engine.Scheduler.Planning.{plan_prefill}
use full_inference_engine.Scheduler.Planning.Allotment.{
  plan_prefill-Plans, plan_prefill_refused, Plans, SameRound, count_id,
}
use full_inference_engine.Scheduler.Orderly.{IsOrderly, one_if}
use full_inference_engine.Scheduler.Submission.{submit-IsOrderly}
use full_inference_engine.Scheduler.Lifecycle.{
  mark_decoding-IsOrderly, finish-IsOrderly, fail-IsOrderly, preempt-IsOrderly, cancel-IsOrderly,
}

pub data Call : Type 0 where
  submitting : GenerationRequest → ℕ → Call
  admitting : Option ℕ → (ℕ → ℕ) → Call
  decoding_of : String → ℕ → Call
  finishing : String → Option String → ℕ → Call
  failing : String → Option String → ℕ → Call
  preempting : String → Option String → ℕ → Call
  cancelling : String → Option String → ℕ → Call
  planning : ℕ → ℕ → Call

-- The ids that the engine uses itself are not submitted.
abbrev pub Permitted : (String → Bool) → Call → Type 0
Permitted engine (submitting r now) = engine r.request_id ≡ false
Permitted engine _ = Unit {0}

module _ {C : Type 0} (ops : PrefixOps C) where
  -- What a call leaves, whether it returns or raises.
  abbrev pub after : Call → Scheduler C → Scheduler C
  after (submitting r now) s = final (submit r now s)
  after (admitting limit clock) s = final (admit_available ops limit clock s)
  after (decoding_of id now) s = final (mark_decoding id now s)
  after (finishing id reason now) s = final (finish id reason now s)
  after (failing id reason now) s = final (fail id reason now s)
  after (preempting id reason now) s = final (preempt id reason now s)
  after (cancelling id reason now) s = final (cancel id reason now s)
  after (planning chunk_size budget) s = final (plan_prefill chunk_size budget s)

  abbrev pub run : List Call → Scheduler C → Scheduler C
  run [] s = s
  run (call ∷ calls) s = run calls (after call s)

abbrev pub AllPermitted : (String → Bool) → List Call → Type 0
AllPermitted engine [] = Unit {0}
AllPermitted engine (call ∷ calls) = Permitted engine call × AllPermitted engine calls

module _ {C : Type 0} (engine : String → Bool) where
  plan_prefill-IsOrderly :
      (chunk_size budget : ℕ) (s : Scheduler C)
      → IsOrderly engine s
      → IsOrderly engine (final (plan_prefill chunk_size budget s))
  plan_prefill-IsOrderly chunk_size budget s v =
      elim (Bool-cases ((chunk_size == 0) || (budget == 0))) [
        | inl bad ↦
            subst (λ o. IsOrderly engine (final o))
              (sym (plan_prefill_refused s chunk_size budget bad)) v
        | inr good ↦
            planned_orderly (plan_prefill-Plans s chunk_size budget (ground arith) (ground arith))
      ]
    where
      rounds :
          (order' : List String) (x : String)
          → SameRound s x order' s.prefill_order
          → count_id x order' ≡ one_if (is_some (lookup String_discrete x s.active))
      rounds order' x (fewer, same) = elim (Option-cases (lookup String_discrete x s.active)) [
        | inl e ↦ ground (arith, v.in_round x)
        | inr (r, e) ↦ same r e ∙ v.in_round x
      ]

      planned_orderly :
          Plans s chunk_size budget s.prefill_order s.prefill_order
            (plan_prefill chunk_size budget s)
          → IsOrderly engine (final (plan_prefill chunk_size budget s))
      planned_orderly (order', e, same) =
          subst (λ o. IsOrderly engine (final o)) (sym e)
            (record {
              consistent = v.consistent;
              one_entry = v.one_entry;
              keyed = v.keyed;
              queue_waits = v.queue_waits;
              once = v.once;
              tables = v.tables;
              guests = v.guests;
              in_round = λ x. rounds order' x (same x);
            })

  admitting-IsOrderly :
      (ops : PrefixOps C)
      → PrefixLaws ops
      → (limit : Option ℕ) (clock : ℕ → ℕ) (s : Scheduler C) → IsOrderly engine s
      → IsOrderly engine (final (admit_available ops limit clock s))
  admitting-IsOrderly ops laws limit clock s v =
      Ensures-final (IsOrderly engine) _ (admit_available ops limit clock s)
        (admit_available-Admits engine ops laws limit clock s v) (λ a u h. h.0)

  after-IsOrderly :
      (ops : PrefixOps C)
      → PrefixLaws ops
      → (call : Call) (s : Scheduler C) → Permitted engine call
      → IsOrderly engine s
      → IsOrderly engine (after ops call s)
  after-IsOrderly ops laws (submitting r now) s h v = submit-IsOrderly engine s r now v h
  after-IsOrderly ops laws (admitting limit clock) s h v =
      admitting-IsOrderly ops laws limit clock s v
  after-IsOrderly ops laws (decoding_of id now) s h v = mark_decoding-IsOrderly engine s id now v
  after-IsOrderly ops laws (finishing id reason now) s h v =
      finish-IsOrderly engine id reason now s v
  after-IsOrderly ops laws (failing id reason now) s h v = fail-IsOrderly engine id reason now s v
  after-IsOrderly ops laws (preempting id reason now) s h v =
      preempt-IsOrderly engine s id reason now v
  after-IsOrderly ops laws (cancelling id reason now) s h v =
      cancel-IsOrderly engine s id reason now v
  after-IsOrderly ops laws (planning chunk_size budget) s h v =
      plan_prefill-IsOrderly chunk_size budget s v

  -- Whatever calls the engine makes on an orderly scheduler, and whether or not they raise, it stays orderly:
  -- the manager is consistent, a request either waits once or is active once, those in the queue are WAITING
  -- and those that are active are PREFILLING or DECODING, of the ids that are not the engine's own
  -- exactly the active ones hold a block table, and exactly the active ones take part in the prefill round,
  -- each once.
  pub run-IsOrderly :
      (ops : PrefixOps C)
      → PrefixLaws ops
      → (calls : List Call) (s : Scheduler C) → AllPermitted engine calls
      → IsOrderly engine s
      → IsOrderly engine (run ops calls s)
  run-IsOrderly ops laws [] s h v = v
  run-IsOrderly ops laws (call ∷ calls) s h v =
      run-IsOrderly ops laws calls _ h.1 (after-IsOrderly ops laws call s h.0 v)

-- What the constructor builds.
abbrev pub made : {C : Type 0} → KvBlockManager → Option ℕ → Option C → ℕ → Scheduler C
made m max_waiting cache reserved = record {
  block_manager = m;
  max_waiting_requests = max_waiting;
  prefix_cache = cache;
  reserved_blocks = reserved;
  waiting_queue = [];
  active = [];
  prefill_order = [];
  rejected_count = 0;
  admission_count = 0;
  preemption_count = 0;
  recomputed_tokens_total = 0;
  recompute_ns_total = 0;
  progress_epoch = 0;
}

pub made-IsOrderly :
    {C : Type 0} (engine : String → Bool) (m : KvBlockManager) (max_waiting : Option ℕ)
    (cache : Option C) (reserved : ℕ)
    → IsConsistent m
    → ((id : String) → engine id ≡ false → lookup String_discrete id m.requests ≡ none)
    → IsOrderly engine (made m max_waiting cache reserved)
unfolding lookup
made-IsOrderly engine m max_waiting cache reserved w own = record {
  consistent = w;
  one_entry = tt;
  keyed = λ id r e. absurd (ground arith);
  queue_waits = tt;
  once = λ id. omega arith;
  tables = λ id e. ap is_some (own id e);
  guests = λ id e. refl;
  in_round = λ id. refl;
}

-- A constructor that returns has built a scheduler that is orderly, over a consistent manager whose tables
-- are the engine's own.
pub make-IsOrderly :
    {C : Type 0} (engine : String → Bool) (m : KvBlockManager) (max_waiting : Option ℕ)
    (cache : Option C) (reserved : ℕ) (s : Scheduler C)
    → IsConsistent m
    → ((id : String) → engine id ≡ false → lookup String_discrete id m.requests ≡ none)
    → make m max_waiting cache reserved ≡ some s
    → IsOrderly engine s
unfolding make
make-IsOrderly engine m max_waiting cache reserved s w own e =
    elim (Bool-cases (is_zero max_waiting || not (ltb reserved m.allocator.num_blocks))) [
      | inl bad ↦ absurd (ground arith)
      | inr fine ↦
          subst (IsOrderly engine) {x = made m max_waiting cache reserved} {y = s} (ground arith)
            (made-IsOrderly engine m max_waiting cache reserved w own)
    ]
