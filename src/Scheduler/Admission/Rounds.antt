-- ===== src/Scheduler/Admission/Rounds.antt =====
-- How a round of the loop of `admit_available` ends: the head of the queue is turned away, or it becomes
-- active with the table that it has just got.
use full_inference_engine.Base.{
  ℕ, suc, ◌≤◌, ◌≡◌, refl, ◌∙◌, ap, sym, subst, Bool, true, Option, none, some, List, [], ◌∷◌, ◌++◌,
  String, String_discrete, lookup, insert, drop, lookup-insert, insert-Distinct, All, arith, ok,
  Ensures,
}
use full_inference_engine.Cache.Paging.{KvBlockManager, KvBlockAllocation}
use full_inference_engine.Cache.Paging.Valid.{IsConsistent}
use full_inference_engine.Runtime.States.{
  rejected, prefilling, is_waiting, allowed_transition, waiting,
}
use full_inference_engine.Runtime.Requests.{GenerationRequest, transition, moved}
use full_inference_engine.Runtime.Requests.Calls.{transition_waiting}
use full_inference_engine.Runtime.Requests.Moves.{moved_state, moved_id}
use full_inference_engine.Scheduler.{Scheduler, on_request}
use full_inference_engine.Scheduler.Admission.{
  Round, stopped, turned_away, admitted, turn_away, activate,
}
use full_inference_engine.Scheduler.Planning.Allotment.{count_id-append}
use full_inference_engine.Scheduler.Orderly.{IsOrderly, count_queued, is_active, insert-Keyed}
use full_inference_engine.Scheduler.Upkeep.{IsOrderly-dequeue, IsOrderly-counters}

allowed_next :
    (allowed_transition waiting prefilling ≡ true) × (allowed_transition waiting rejected ≡ true)
unfolding allowed_transition
allowed_next = (refl, refl)

module _ {C : Type 0} (engine : String → Bool) where
  -- `r` is at the head of the queue.
  abbrev pub Head : GenerationRequest → List GenerationRequest → Scheduler C → Type 0
  Head r queue s = IsOrderly engine s × (s.waiting_queue ≡ r ∷ queue)

  -- And the manager has just recorded a table for it.
  abbrev pub HasTable : GenerationRequest → List GenerationRequest → Scheduler C → Type 0
  HasTable r queue s' =
      (s : Scheduler C) × (m : KvBlockManager) × (t : KvBlockAllocation) × Head r queue s
      × (s' ≡ record s { block_manager = m })
      × IsConsistent m
      × (m.requests ≡ insert String_discrete r.request_id t s.block_manager.requests)

  -- What a round leaves.
  abbrev pub Rounds : GenerationRequest → List GenerationRequest → Round → Scheduler C → Type 0
  Rounds r queue stopped s = IsOrderly engine s × (s.waiting_queue ≡ r ∷ queue)
  Rounds r queue (turned_away r') s =
      IsOrderly engine s × (s.waiting_queue ≡ queue) × (r'.request_id ≡ r.request_id)
  Rounds r queue (admitted r') s =
      IsOrderly engine s × (s.waiting_queue ≡ queue) × (r'.request_id ≡ r.request_id)

  abbrev activated : Scheduler C → String → GenerationRequest → Scheduler C
  activated s id r' = record s {
    waiting_queue = drop 1 s.waiting_queue;
    active = insert String_discrete id r' s.active;
    prefill_order = s.prefill_order ++ id ∷ [];
    admission_count = suc s.admission_count;
  }

  activate_run :
      (s : Scheduler C) (r r' : GenerationRequest) (now : ℕ)
      → transition prefilling none now (record r { allocation = some r.request_id }) ≡ ok tt r'
      → activate now r s ≡ ok (admitted r') (activated s r.request_id r')
  unfolding activate on_request
  activate_run s r r' now e = ground arith

  IsOrderly-activated :
      (s : Scheduler C) (m : KvBlockManager) (r r' : GenerationRequest)
      (queue : List GenerationRequest) (t : KvBlockAllocation)
      → Head r queue s
      → IsConsistent m
      → m.requests ≡ insert String_discrete r.request_id t s.block_manager.requests
      → (r'.request_id ≡ r.request_id) × (is_active r' ≡ true)
      → IsOrderly engine (activated (record s { block_manager = m }) r.request_id r')
  IsOrderly-activated s m r r' queue t (v, q) w e fits = record {
    consistent = w;
    one_entry = insert-Distinct String_discrete r.request_id r' s.active v.one_entry;
    keyed = insert-Keyed s.active r.request_id r' v.keyed fits;
    queue_waits =
        subst (λ l. All (λ p. is_waiting p.state ≡ true) (drop 1 l)) (sym q)
          (subst (All (λ p. is_waiting p.state ≡ true)) q v.queue_waits).1;
    once = λ x. ground (
      arith,
      ap (count_queued x) q,
      lookup-insert String_discrete r.request_id x r' s.active,
      v.once x,
    );
    tables = λ x h. ground (
      arith,
      ap (lookup String_discrete x) e,
      lookup-insert String_discrete r.request_id x r' s.active,
      lookup-insert String_discrete r.request_id x t s.block_manager.requests,
      v.tables x,
    );
    guests = λ x h. ground (
      arith,
      ap (count_queued x) q,
      lookup-insert String_discrete r.request_id x r' s.active,
      v.guests x,
    );
    in_round = λ x. ground (
      arith,
      ap (count_queued x) q,
      lookup-insert String_discrete r.request_id x r' s.active,
      v.once x,
      count_id-append x s.prefill_order (r.request_id ∷ []),
      v.in_round x,
    );
  }

  -- The head of a queue waits, also after its fields have been set.
  first_waits :
      (s : Scheduler C) (r : GenerationRequest) (queue : List GenerationRequest)
      → Head r queue s
      → is_waiting r.state ≡ true
  first_waits s r queue (v, q) = (subst (All (λ p. is_waiting p.state ≡ true)) q v.queue_waits).0

  pub activate-Rounds :
      (now : ℕ) (r r₁ : GenerationRequest) (queue : List GenerationRequest) (s : Scheduler C)
      → r₁.request_id ≡ r.request_id
      → r₁.state ≡ r.state
      → HasTable r queue s
      → Ensures (Rounds r queue) (IsOrderly engine) (activate now r₁ s)
  activate-Rounds now r r₁ queue s' same_id same_state (s, m, t, h, e, w, tables) =
      let granted : GenerationRequest = record r₁ { allocation = some r₁.request_id } in
      let r' : GenerationRequest = moved prefilling none now granted in
      let id_kept : r'.request_id ≡ r.request_id = moved_id prefilling none now granted ∙ same_id in
      let run : activate now r₁ s' ≡ ok (admitted r') (activated s' r₁.request_id r') =
        activate_run s' r₁ r' now (
          transition_waiting prefilling none now granted
            (ap is_waiting same_state ∙ first_waits s r queue h) allowed_next.0) in
      let orderly : IsOrderly engine (activated (record s { block_manager = m }) r.request_id r') =
        IsOrderly-activated s m r r' queue t h w tables
          (id_kept, prefilling_active r' (moved_state prefilling none now granted)) in
      subst (Ensures (Rounds r queue) (IsOrderly engine)) (sym run) (
        subst (λ u. IsOrderly engine (activated u r₁.request_id r')) (sym e)
            (subst (λ i. IsOrderly engine (activated (record s { block_manager = m }) i r'))
              (sym same_id) orderly),
        ap (λ u. drop 1 u.waiting_queue) e ∙ ap (drop 1) h.1,
        id_kept,
      )
    where
      prefilling_active : (q : GenerationRequest) → q.state ≡ prefilling → is_active q ≡ true
      prefilling_active q k = ground arith

  turn_away_run :
      (s : Scheduler C) (r r' : GenerationRequest) (now : ℕ)
      → transition rejected (some "KV_CAPACITY_EXCEEDED") now r ≡ ok tt r'
      → turn_away now r s
        ≡ ok (turned_away r') (record s {
          waiting_queue = drop 1 s.waiting_queue;
          rejected_count = suc s.rejected_count;
        })
  unfolding turn_away on_request
  turn_away_run s r r' now e = ground arith

  pub turn_away-Rounds :
      (now : ℕ) (r : GenerationRequest) (queue : List GenerationRequest) (s : Scheduler C)
      → Head r queue s
      → Ensures (Rounds r queue) (IsOrderly engine) (turn_away now r s)
  turn_away-Rounds now r queue s (v, q) =
      let reason : Option String = some "KV_CAPACITY_EXCEEDED" in
      let run =
        turn_away_run s r (moved rejected reason now r) now (
          transition_waiting rejected reason now r (first_waits s r queue (v, q)) allowed_next.1) in
      subst (Ensures (Rounds r queue) (IsOrderly engine)) (sym run) (
        IsOrderly-counters engine (record s { waiting_queue = drop 1 s.waiting_queue }) _ _ _ _ _ _
            (IsOrderly-dequeue engine s (drop 1 s.waiting_queue) v
              (subst (λ l. All (λ p. is_waiting p.state ≡ true) (drop 1 l)) (sym q)
                (subst (All (λ p. is_waiting p.state ≡ true)) q v.queue_waits).1)
              (λ x. fewer x)),
        ap (drop 1) q,
        moved_id rejected reason now r,
      )
    where
      fewer :
          (x : String) → count_queued x (drop 1 s.waiting_queue) ≤ count_queued x s.waiting_queue
      fewer x = ground (arith, ap (count_queued x) q, ap (λ l. count_queued x (drop 1 l)) q)
