-- ===== src/Scheduler/Lifecycle.antt =====
-- `finish`, `fail`, `mark_decoding`, `preempt` and `cancel` of engine/scheduler/scheduler.py keep the
-- invariant of the scheduler.
use full_inference_engine.Base.{
  ℕ, suc, ◌≡◌, ◌∙◌, ap, sym, subst, Bool, true, Option, none, some, List, String, String_discrete,
  lookup, insert, arith, ◌⊎◌, inl, inr, Option-cases, Action, ok, raise, final, get, modify, pure,
  ◌>>◌, key_error, ◌>>=◌, final_bind,
}
use full_inference_engine.Runtime.States.{
  RequestState, waiting, decoding, finished, failed, cancelled, is_waiting,
}
use full_inference_engine.Runtime.Requests.{GenerationRequest, transition, moved, yielded}
use full_inference_engine.Runtime.Requests as Requests
use full_inference_engine.Runtime.Requests.Calls.{transition-Updates, preempt-Updates, of_Updates}
use full_inference_engine.Runtime.Requests.Moves.{moved_state, moved_id, yielded_facts}
use full_inference_engine.Scheduler.{
  Scheduler, take_queued, requeue_in_arrival_order, on_request, advance_progress, mark_decoding,
  detach, finish, fail, preempt, cancel,
}
use full_inference_engine.Scheduler.Orderly.{IsOrderly, is_active}
use full_inference_engine.Scheduler.Queues.{All-requeue, count_queued-requeue, take_queued-some}
use full_inference_engine.Scheduler.Upkeep.{
  IsFree, IsOrderly-advance, IsOrderly-counters, IsOrderly-detach, IsOrderly-enqueue,
  IsOrderly-update, IsOrderly-dequeue, final-on_request,
}

module _ {C : Type 0} (engine : String → Bool) where
  -- `finish`, `fail` and `cancel` of an active request.
  retire : RequestState → String → Option String → ℕ → Action (Scheduler C) GenerationRequest
  retire next id reason now = do
    r ← detach id
    r' ← on_request (transition next reason now) r
    advance_progress r'

  retire-IsOrderly :
      (next : RequestState) (id : String) (reason : Option String) (now : ℕ) (s : Scheduler C)
      → IsOrderly engine s
      → IsOrderly engine (final (retire next id reason now s))
  unfolding retire
  retire-IsOrderly next id reason now s v = IsOrderly-detach engine id _ s v (λ r s' w free here.
      final_bind (IsOrderly engine) (on_request (transition next reason now) r) advance_progress s'
        (λ a u e. IsOrderly-advance engine a u (
          subst (IsOrderly engine)
            (sym (final-on_request engine (transition next reason now) r s') ∙ ap final e) w))
        (λ x u e.
          subst (IsOrderly engine)
            (sym (final-on_request engine (transition next reason now) r s') ∙ ap final e) w))

  pub finish-IsOrderly :
      (id : String) (reason : Option String) (now : ℕ) (s : Scheduler C)
      → IsOrderly engine s
      → IsOrderly engine (final (finish id reason now s))
  unfolding finish retire
  finish-IsOrderly id reason now s v = retire-IsOrderly finished id reason now s v

  pub fail-IsOrderly :
      (id : String) (reason : Option String) (now : ℕ) (s : Scheduler C)
      → IsOrderly engine s
      → IsOrderly engine (final (fail id reason now s))
  unfolding fail retire
  fail-IsOrderly id reason now s v = retire-IsOrderly failed id reason now s v

  mark_decoding-none :
      (s : Scheduler C) (id : String) (now : ℕ)
      → lookup String_discrete id s.active ≡ none
      → mark_decoding id now s ≡ raise key_error s
  unfolding mark_decoding
  mark_decoding-none s id now e = ground arith

  mark_decoding-some :
      (s : Scheduler C) (id : String) (now : ℕ) (r : GenerationRequest)
      → lookup String_discrete id s.active ≡ some r
      → final (mark_decoding id now s) ≡ record s {
        active = insert String_discrete id (final (transition decoding none now r)) s.active;
      }
  unfolding mark_decoding
  mark_decoding-some s id now r e = ground arith

  pub mark_decoding-IsOrderly :
      (s : Scheduler C) (id : String) (now : ℕ)
      → IsOrderly engine s
      → IsOrderly engine (final (mark_decoding id now s))
  mark_decoding-IsOrderly s id now v = elim (Option-cases (lookup String_discrete id s.active)) [
    | inl e ↦ subst (λ o. IsOrderly engine (final o)) (sym (mark_decoding-none s id now e)) v
    | inr (r, e) ↦ subst (IsOrderly engine) (sym (mark_decoding-some s id now r e)) (
        IsOrderly-update engine s id r (final (transition decoding none now r)) v e (
          of_Updates (λ q. (q.request_id ≡ id) × (is_active q ≡ true)) r (moved decoding none now r)
            _ (transition-Updates decoding none now r) (v.keyed id r e)
            (λ g. (
              moved_id decoding none now r ∙ (v.keyed id r e).0,
              decoding_active (moved decoding none now r) (moved_state decoding none now r),
            ))))
  ]
    where
      decoding_active : (q : GenerationRequest) → q.state ≡ decoding → is_active q ≡ true
      decoding_active q h = ground arith

  preempt_rest :
      String → Option String → ℕ → GenerationRequest → Action (Scheduler C) GenerationRequest
  preempt_rest id reason now r = do
    s ← get
    r' ← on_request (Requests.preempt reason s.progress_epoch now) r
    modify (λ s. record s { waiting_queue = requeue_in_arrival_order r' s.waiting_queue })
    modify (λ s. record s { preemption_count = suc s.preemption_count })
    pure r'

  -- The rest of `preempt`: the request raises, or is yielded and queued.
  final-preempt_rest :
      (s : Scheduler C) (id : String) (reason : Option String) (now : ℕ) (r : GenerationRequest)
      → (final (preempt_rest id reason now r s) ≡ s)
        ⊎ (preempt_rest id reason now r s
            ≡ ok (yielded s.progress_epoch now (moved waiting reason now r)) (record s {
              waiting_queue =
                  requeue_in_arrival_order
                    (yielded s.progress_epoch now (moved waiting reason now r))
                    s.waiting_queue;
              preemption_count = suc s.preemption_count;
            }))
  unfolding preempt_rest on_request
  final-preempt_rest s id reason now r =
      ground (arith, preempt-Updates reason s.progress_epoch now r)

  pub preempt-IsOrderly :
      (s : Scheduler C) (id : String) (reason : Option String) (now : ℕ)
      → IsOrderly engine s
      → IsOrderly engine (final (preempt id reason now s))
  unfolding preempt preempt_rest
  preempt-IsOrderly s id reason now v =
      IsOrderly-detach engine id (preempt_rest id reason now) s v (λ r s' w free here.
        elim (final-preempt_rest s' id reason now r) [
          | inl e ↦ subst (IsOrderly engine) (sym e) w
          | inr e ↦
              subst (λ o. IsOrderly engine (final o)) (sym e)
                (IsOrderly-counters engine
                  (record s' {
                    waiting_queue =
                        requeue_in_arrival_order
                          (yielded s'.progress_epoch now (moved waiting reason now r))
                          s'.waiting_queue;
                  })
                  _ _ _ _ _ _
                  (requeued r s' w (
                    subst (IsFree engine s')
                      (sym ((yielded_facts s'.progress_epoch now reason r).0 ∙ here)) free)))
        ])
    where
      requeued :
          (r : GenerationRequest) (s' : Scheduler C)
          → IsOrderly engine s'
          → IsFree engine s' (yielded s'.progress_epoch now (moved waiting reason now r)).request_id
          → IsOrderly engine (record s' {
            waiting_queue =
                requeue_in_arrival_order
                  (yielded s'.progress_epoch now (moved waiting reason now r))
                  s'.waiting_queue;
          })
      requeued r s' w free =
          IsOrderly-enqueue engine s' (yielded s'.progress_epoch now (moved waiting reason now r)) _
            w free
            (All-requeue (λ q. is_waiting q.state ≡ true) _ s'.waiting_queue
              (yielded_facts s'.progress_epoch now reason r).1 w.queue_waits)
            (λ x. count_queued-requeue x _ s'.waiting_queue)

  cancel_active :
      (s : Scheduler C) (id : String) (reason : Option String) (now : ℕ)
      → take_queued id s.waiting_queue ≡ none
      → cancel id reason now s ≡ retire cancelled id reason now s
  unfolding cancel retire
  cancel_active s id reason now e = ground arith

  cancel_queued :
      (s : Scheduler C) (id : String) (reason : Option String) (now : ℕ) (r : GenerationRequest)
      (queue : List GenerationRequest)
      → take_queued id s.waiting_queue ≡ some (r, queue)
      → cancel id reason now s
        ≡ on_request (transition cancelled reason now) r (record s { waiting_queue = queue })
  unfolding cancel
  cancel_queued s id reason now r queue e = ground arith

  pub cancel-IsOrderly :
      (s : Scheduler C) (id : String) (reason : Option String) (now : ℕ)
      → IsOrderly engine s
      → IsOrderly engine (final (cancel id reason now s))
  cancel-IsOrderly s id reason now v = elim (Option-cases (take_queued id s.waiting_queue)) [
    | inl e ↦
        subst (λ o. IsOrderly engine (final o)) (sym (cancel_active s id reason now e))
          (retire-IsOrderly cancelled id reason now s v)
    | inr ((r, queue), e) ↦
        subst (λ o. IsOrderly engine (final o)) (sym (cancel_queued s id reason now r queue e))
          (subst (IsOrderly engine)
            (sym (final-on_request engine (transition cancelled reason now) r _))
            (IsOrderly-dequeue engine s queue v
              (take_queued-some id id s.waiting_queue (r, queue) e v.queue_waits).1
              (λ x.
                omega
                  (arith, (take_queued-some x id s.waiting_queue (r, queue) e v.queue_waits).0))))
  ]
