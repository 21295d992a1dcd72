-- ===== src/Scheduler/Upkeep.antt =====
-- The changes that the methods of the scheduler are made of, and the invariant across each.
use full_inference_engine.Base.{
  ℕ, ◌≤◌, ◌≡◌, ◌∙◌, ap, sym, subst, Bool, true, false, none, some, List, ◌∷◌, String,
  String_discrete, lookup, insert, lookup-insert, lookup-erase_self, false_of, insert-Distinct, All,
  arith, inl, inr, Error, Action, ok, raise, final, >>=-ok, >>=-raise, ◌>>=◌,
}
use full_inference_engine.Cache.Paging.{KvBlockManager}
use full_inference_engine.Runtime.States.{is_waiting}
use full_inference_engine.Runtime.Requests.{GenerationRequest}
use full_inference_engine.Scheduler.{Scheduler, on_request, on_manager, advance_progress, detach}
use full_inference_engine.Scheduler.Orderly.{
  IsOrderly, count_queued, is_active, detached, insert-Keyed, detach-Detaches,
}

-- A call of the manager within the scheduler.
pub on_manager_ok :
    {C A : Type 0} (call : Action KvBlockManager A) (s : Scheduler C) {a : A} {m : KvBlockManager}
    → call s.block_manager ≡ ok a m
    → on_manager call s ≡ ok a (record s { block_manager = m })
unfolding on_manager
on_manager_ok call s e = ground arith

pub on_manager_raise :
    {C A : Type 0} (call : Action KvBlockManager A) (s : Scheduler C) {x : Error}
    {m : KvBlockManager}
    → call s.block_manager ≡ raise x m
    → on_manager call s ≡ raise x (record s { block_manager = m })
unfolding on_manager
on_manager_raise call s e = ground arith

module _ {C : Type 0} (engine : String → Bool) where
  -- The counters are no part of the invariant.
  pub IsOrderly-counters :
      (s : Scheduler C) (rejections admissions preemptions tokens ns epoch : ℕ)
      → IsOrderly engine s
      → IsOrderly engine (record s {
        rejected_count = rejections;
        admission_count = admissions;
        preemption_count = preemptions;
        recomputed_tokens_total = tokens;
        recompute_ns_total = ns;
        progress_epoch = epoch;
      })
  IsOrderly-counters s a b c d e f v = record {
    consistent = v.consistent;
    one_entry = v.one_entry;
    keyed = v.keyed;
    queue_waits = v.queue_waits;
    once = v.once;
    tables = v.tables;
    guests = v.guests;
    in_round = v.in_round;
  }

  pub final-on_request :
      (call : Action GenerationRequest (Unit {0})) (r : GenerationRequest) (s : Scheduler C)
      → final (on_request call r s) ≡ s
  unfolding on_request
  final-on_request call r s = ground arith

  pub IsOrderly-advance :
      (a : GenerationRequest) (s : Scheduler C)
      → IsOrderly engine s
      → IsOrderly engine (final (advance_progress a s))
  unfolding advance_progress
  IsOrderly-advance a s v = IsOrderly-counters s _ _ _ _ _ _ v

  -- Nobody waits or is active under this id, and the engine does not use it.
  abbrev pub IsFree : Scheduler C → String → Type 0
  IsFree s id =
      (count_queued id s.waiting_queue ≡ 0)
      × (lookup String_discrete id s.active ≡ none)
      × (engine id ≡ false)

  pub not_engine :
      (s : Scheduler C) (id : String) (r : GenerationRequest)
      → IsOrderly engine s
      → lookup String_discrete id s.active ≡ some r
      → engine id ≡ false
  not_engine s id r v e = ground (arith, v.guests id)

  pub IsOrderly-detach :
      {B : Type 0} (id : String) (f : GenerationRequest → Action (Scheduler C) B) (s : Scheduler C)
      → IsOrderly engine s
      → ((r : GenerationRequest) (s' : Scheduler C)
          → IsOrderly engine s'
          → IsFree s' id
          → r.request_id ≡ id
          → IsOrderly engine (final (f r s')))
      → IsOrderly engine (final ((detach id >>= f) s))
  IsOrderly-detach id f s v h = elim (detach-Detaches engine s id v) [
    | inl (e, run) ↦ subst (λ o. IsOrderly engine (final o)) (sym (>>=-raise (detach id) f run)) v
    | inr (r, t, e, found, run, w, q) ↦
        subst (λ o. IsOrderly engine (final o)) (sym (>>=-ok (detach id) f run))
          (h r (detached s id t) w
            (q, lookup-erase_self String_discrete id s.active v.one_entry, not_engine s id r v e)
            (v.keyed id r e).0)
  ]

  -- To put a request of a free id into the queue, wherever it stands there.
  pub IsOrderly-enqueue :
      (s : Scheduler C) (r : GenerationRequest) (queue : List GenerationRequest)
      → IsOrderly engine s
      → IsFree s r.request_id
      → All (λ q. is_waiting q.state ≡ true) queue
      → ((x : String) → count_queued x queue ≡ count_queued x (r ∷ s.waiting_queue))
      → IsOrderly engine (record s { waiting_queue = queue })
  IsOrderly-enqueue s r queue v free waits counts = record {
    consistent = v.consistent;
    one_entry = v.one_entry;
    keyed = v.keyed;
    queue_waits = waits;
    once = λ x. elim (String_discrete r.request_id x) [
      | yes p ↦ ground (arith, counts x, same_count x p)
      | no p ↦ ground (arith, counts x, v.once x)
    ];
    tables = v.tables;
    guests = λ x e. elim (String_discrete r.request_id x) [
      | yes p ↦ absurd (false_of (ap engine p ∙ e) free.2)
      | no p ↦ ground (arith, counts x, v.guests x e)
    ];
    in_round = v.in_round;
  }
    where
      same_count :
          (x : String)
          → r.request_id ≡ x
          → (count_queued x s.waiting_queue ≡ 0) × (lookup String_discrete x s.active ≡ none)
      same_count x p =
          subst
            (λ y. (count_queued y s.waiting_queue ≡ 0) × (lookup String_discrete y s.active ≡ none))
            p (free.0, free.1)

  pub IsOrderly-update :
      (s : Scheduler C) (id : String) (r r' : GenerationRequest)
      → IsOrderly engine s
      → lookup String_discrete id s.active ≡ some r
      → (r'.request_id ≡ id) × (is_active r' ≡ true)
      → IsOrderly engine (record s { active = insert String_discrete id r' s.active })
  IsOrderly-update s id r r' v e fits = record {
    consistent = v.consistent;
    one_entry = insert-Distinct String_discrete id r' s.active v.one_entry;
    keyed = insert-Keyed s.active id r' v.keyed fits;
    queue_waits = v.queue_waits;
    once = λ x. ground (arith, lookup-insert String_discrete id x r' s.active, v.once x);
    tables = λ x k. ground (arith, lookup-insert String_discrete id x r' s.active, v.tables x);
    guests = λ x k. ground (arith, lookup-insert String_discrete id x r' s.active, v.guests x);
    in_round = λ x. ground (arith, lookup-insert String_discrete id x r' s.active, v.in_round x);
  }

  pub IsOrderly-dequeue :
      (s : Scheduler C) (queue : List GenerationRequest)
      → IsOrderly engine s
      → All (λ q. is_waiting q.state ≡ true) queue
      → ((x : String) → count_queued x queue ≤ count_queued x s.waiting_queue)
      → IsOrderly engine (record s { waiting_queue = queue })
  IsOrderly-dequeue s queue v waits fewer = record {
    consistent = v.consistent;
    one_entry = v.one_entry;
    keyed = v.keyed;
    queue_waits = waits;
    once = λ x. omega (arith, v.once x, fewer x);
    tables = v.tables;
    guests = λ x e. omega (arith, v.guests x e, fewer x);
    in_round = v.in_round;
  }
