-- ===== src/Scheduler/Submission.antt =====
-- `submit` of engine/scheduler/scheduler.py.
use full_inference_engine.Base.{
  ℕ, suc, ◌≡◌, refl, sym, subst, Bool, true, false, not, ◌||◌, ◌&&◌, value_error, some, [], ◌∷◌,
  ◌++◌, String, String_discrete, length, is_some, lookup, All-append, arith, ◌⊎◌, inl, inr, Outcome,
  ok, raise, final,
}
use full_inference_engine.Runtime.States.{
  waiting, cancelled, rejected, is_waiting, allowed_transition,
}
use full_inference_engine.Runtime.Requests.{GenerationRequest, moved}
use full_inference_engine.Runtime.Requests.Calls.{transition_waiting}
use full_inference_engine.Scheduler.{Scheduler, reached, is_queued, on_request, submit}
use full_inference_engine.Scheduler.Orderly.{IsOrderly}
use full_inference_engine.Scheduler.Queues.{count_queued-append, is_queued-count_queued}
use full_inference_engine.Scheduler.Upkeep.{IsOrderly-counters, IsOrderly-enqueue}

-- Nothing is wrong with the request, and its id is new.
abbrev pub may_submit : {C : Type 0} → Scheduler C → GenerationRequest → Bool
may_submit s r =
    is_waiting r.state
    && not (
        is_some (lookup String_discrete r.request_id s.active)
        || is_queued r.request_id s.waiting_queue)

abbrev pub enqueued : {C : Type 0} → Scheduler C → GenerationRequest → Scheduler C
enqueued s r = record s { waiting_queue = s.waiting_queue ++ r ∷ [] }

abbrev pub Submits :
    {C : Type 0}
    → Scheduler C
    → GenerationRequest
    → ℕ
    → Outcome (Scheduler C) (Bool × GenerationRequest)
    → Type 0
Submits s r now outcome =
    ((may_submit s r ≡ false) × (outcome ≡ raise value_error s))
    ⊎ ((may_submit s r ≡ true)
        × (reached s.max_waiting_requests (length s.waiting_queue) ≡ true)
        × (outcome
            ≡ ok (false, moved rejected (some "QUEUE_FULL") now r)
                (record s { rejected_count = suc s.rejected_count })))
    ⊎ ((may_submit s r ≡ true)
        × (reached s.max_waiting_requests (length s.waiting_queue) ≡ false)
        × (outcome ≡ ok (true, r) (enqueued s r)))

rejected_allowed :
    (allowed_transition waiting rejected ≡ true) × (allowed_transition waiting cancelled ≡ true)
unfolding allowed_transition
rejected_allowed = (refl, refl)

-- submit raises ValueError and changes nothing for a request that is not WAITING or whose id is taken;
-- with a full queue it rejects the request and counts it; otherwise the request stands last in the queue.
pub submit-Submits :
    {C : Type 0} (s : Scheduler C) (r : GenerationRequest) (now : ℕ)
    → Submits s r now (submit r now s)
unfolding submit on_request
submit-Submits s r now =
    ground (arith, transition_waiting rejected (some "QUEUE_FULL") now r, rejected_allowed)

module _ {C : Type 0} (engine : String → Bool) where
  pub submit-IsOrderly :
      (s : Scheduler C) (r : GenerationRequest) (now : ℕ)
      → IsOrderly engine s
      → engine r.request_id ≡ false
      → IsOrderly engine (final (submit r now s))
  submit-IsOrderly s r now v guest = elim (submit-Submits s r now) [
    | inl (bad, e) ↦ subst (λ o. IsOrderly engine (final o)) (sym e) v
    | inr rest ↦ elim rest [
      | inl (fine, full, e) ↦
          subst (λ o. IsOrderly engine (final o)) (sym e)
            (IsOrderly-counters engine s _ _ _ _ _ _ v)
      | inr (fine, room, e) ↦
          subst (λ o. IsOrderly engine (final o)) (sym e)
            (IsOrderly-enqueue engine s r (s.waiting_queue ++ r ∷ []) v
              (
                is_queued-count_queued r.request_id s.waiting_queue (ground arith),
                ground arith,
                guest,
              )
              (All-append (λ q. is_waiting q.state ≡ true) s.waiting_queue (r ∷ []) v.queue_waits
                (ground arith, tt))
              (λ x. count_queued-append x r s.waiting_queue))
    ]
  ]
