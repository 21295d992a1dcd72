-- ===== src/Scheduler/Admission/Invariant.antt =====
-- `admit_available` keeps the invariant of the scheduler, whatever the prefix cache answers.
use full_inference_engine.Base.{
  ℕ, ◌≡◌, refl, ◌∙◌, ap, sym, subst, min, Bool, true, false, Option, none, some, List, String,
  String_discrete, ltb, ◌==◌, if◌then◌else◌, length, is_some, lookup, inl, inr, Outcome, Action, ok,
  raise, final, Ensures, Ensures-bind, get, pure, ◌>>=◌,
}
use full_inference_engine.Cache.Paging.{KvBlockManager, KvBlockAllocation, reserve, attach_prefix}
use full_inference_engine.Cache.Paging.Valid.{IsConsistent}
use full_inference_engine.Cache.Paging.Admission.{reserve-Reserves, attach_prefix-outcome}
use full_inference_engine.Cache.PrefixInterface.{PrefixMatch, PrefixOps, PrefixLaws}
use full_inference_engine.Runtime.Requests.{
  GenerationRequest, some_items, prefill_token_ids, prefill_token_count, reserved_tokens,
}
use full_inference_engine.Runtime.Sampling.{can_reuse_cached_prediction}
use full_inference_engine.Scheduler.{Scheduler, reached, effective_capacity_tokens, on_manager}
use full_inference_engine.Scheduler.Admission.{
  Round, stopped, with_match, waits_for_progress, turn_away, activate, find_match, evict_one_block,
  reserve_first, place_fresh, place_matched, place, admit_head,
}
use full_inference_engine.Scheduler.Orderly.{IsOrderly}
use full_inference_engine.Scheduler.Upkeep.{on_manager_ok, on_manager_raise}
use full_inference_engine.Scheduler.Admission.Rounds.{
  Head, HasTable, Rounds, activate-Rounds, turn_away-Rounds,
}

module _ {C : Type 0} (engine : String → Bool) (r : GenerationRequest)
    (queue : List GenerationRequest) where
  -- A call of the manager that either grants `r` a table or changes nothing.
  abbrev Granted : Option KvBlockAllocation → Scheduler C → Type 0
  Granted none s = Head engine r queue s
  Granted (some t) s = HasTable engine r queue s

  reserve-Granted :
      (tokens : ℕ) (s : Scheduler C)
      → Head engine r queue s
      → Ensures Granted (IsOrderly engine) (on_manager (reserve r.request_id tokens 0) s)
  reserve-Granted tokens s h =
      elim (reserve-Reserves s.block_manager r.request_id tokens 0 h.0.consistent) [
        | inl (bad, e) ↦
            subst (Ensures Granted (IsOrderly engine))
              (sym (on_manager_raise (reserve r.request_id tokens 0) s e)) h.0
        | inr more ↦ elim more [
          | inl (fine, short, e) ↦
              subst (Ensures Granted (IsOrderly engine))
                (sym (on_manager_ok (reserve r.request_id tokens 0) s e)) h
          | inr (fine, bs, rest, free, len, e, w) ↦
              subst (Ensures Granted (IsOrderly engine))
                (sym (on_manager_ok (reserve r.request_id tokens 0) s e))
                (s, _, _, h, refl, w, refl)
        ]
      ]

  attach-HasTable :
      (blocks : List ℕ) (tokens : ℕ) (s : Scheduler C)
      → Head engine r queue s
      → Ensures
          (λ _. HasTable engine r queue)
          (IsOrderly engine)
          (on_manager (attach_prefix r.request_id blocks tokens) s)
  attach-HasTable blocks tokens s h =
      elim (attach_prefix-outcome s.block_manager r.request_id blocks tokens h.0.consistent) [
        | inl (bad, e) ↦
            subst (Ensures (λ _. HasTable engine r queue) (IsOrderly engine))
              (sym (on_manager_raise (attach_prefix r.request_id blocks tokens) s e)) h.0
        | inr (fine, e, w) ↦
            subst (Ensures (λ _. HasTable engine r queue) (IsOrderly engine))
              (sym (on_manager_ok (attach_prefix r.request_id blocks tokens) s e))
              (s, _, _, h, refl, w, refl)
      ]

  module _ (ops : PrefixOps C) (laws : PrefixLaws ops) where
    -- Another prefix cache, and a consistent manager with the same tables.
    IsOrderly-cache :
        (s : Scheduler C) (m : KvBlockManager) (cache : Option C)
        → IsOrderly engine s
        → IsConsistent m
        → m.requests ≡ s.block_manager.requests
        → IsOrderly engine (record s { block_manager = m; prefix_cache = cache })
    IsOrderly-cache s m cache v w same = record {
      consistent = w;
      one_entry = v.one_entry;
      keyed = v.keyed;
      queue_waits = v.queue_waits;
      once = v.once;
      tables = λ x h. ap (λ d. is_some (lookup String_discrete x d)) same ∙ v.tables x h;
      guests = v.guests;
      in_round = v.in_round;
    }

    find_match-Head :
        (s : Scheduler C)
        → Head engine r queue s
        → Ensures (λ _. Head engine r queue) (IsOrderly engine) (find_match ops r s)
    unfolding find_match
    find_match-Head s h = go s.prefix_cache (some_items (prefill_token_ids r))
      where
        looked_up :
            (o : Outcome C PrefixMatch)
            → Ensures
                (λ _. Head engine r queue)
                (IsOrderly engine)
                ((elim o as (λ _. Outcome (Scheduler C) (Option PrefixMatch)) [
                  | ok found cache' ↦ ok (some found) (record s { prefix_cache = some cache' })
                  | raise e cache' ↦ raise e (record s { prefix_cache = some cache' })
                ]))
        looked_up (ok found cache') =
            (IsOrderly-cache s s.block_manager _ h.0 h.0.consistent refl, h.1)
        looked_up (raise e cache') = IsOrderly-cache s s.block_manager _ h.0 h.0.consistent refl

        go :
            (cache : Option C) (any : Bool)
            → Ensures
                (λ _. Head engine r queue)
                (IsOrderly engine)
                (elim cache [
                  | none ↦ ok none s
                  | some c ↦
                      if any
                      then elim (ops.lookup_prefix s.block_manager.block_size_tokens
                          (prefill_token_ids r)
                          (can_reuse_cached_prediction r.sampling)
                          c) [
                            | ok found cache' ↦
                                ok (some found) (record s { prefix_cache = some cache' })
                            | raise e cache' ↦ raise e (record s { prefix_cache = some cache' })
                          ]
                      else ok none s
                ])
        go none any = h
        go (some c) false = h
        go (some c) true = looked_up (
            ops.lookup_prefix s.block_manager.block_size_tokens (prefill_token_ids r)
              (can_reuse_cached_prediction r.sampling) c)

    evict-Head :
        (cache : C) (s : Scheduler C)
        → Head engine r queue s
        → Ensures (λ _. Head engine r queue) (IsOrderly engine) (evict_one_block ops cache s)
    unfolding evict_one_block
    evict-Head cache s h =
        go (ops.evict_until_free 1 (s.block_manager, cache))
          (laws.evict_consistent 1 s.block_manager cache h.0.consistent)
          (laws.evict_requests 1 s.block_manager cache h.0.consistent)
      where
        go :
            (o : Outcome (KvBlockManager × C) ℕ)
            → IsConsistent (final o).0
            → (final o).0.requests ≡ s.block_manager.requests
            → Ensures
                (λ _. Head engine r queue)
                (IsOrderly engine)
                (elim o [
                  | ok freed (m, cache') ↦
                      ok freed (record s { block_manager = m; prefix_cache = some cache' })
                  | raise e (m, cache') ↦
                      raise e (record s { block_manager = m; prefix_cache = some cache' })
                ])
        go (ok freed (m, cache')) w same = (IsOrderly-cache s m (some cache') h.0 w same, h.1)
        go (raise e (m, cache')) w same = IsOrderly-cache s m (some cache') h.0 w same

    reserve_first-Granted :
        (s : Scheduler C)
        → Head engine r queue s
        → Ensures Granted (IsOrderly engine) (reserve_first ops r s)
    unfolding reserve_first
    reserve_first-Granted s h =
        Ensures-bind Granted (IsOrderly engine) Granted (on_manager (reserve r.request_id tokens 0))
          _ s (reserve-Granted tokens s h) again
      where
        tokens : ℕ
        tokens = min (prefill_token_count r) s.block_manager.block_size_tokens

        evicting :
            (s' : Scheduler C) (cache : Option C)
            → Head engine r queue s'
            → Ensures Granted (IsOrderly engine) (
                (elim cache as (λ _. Action (Scheduler C) (Option KvBlockAllocation)) [
                  | none ↦ pure none
                  | some c ↦ do
                    _ ← evict_one_block ops c
                    on_manager (reserve r.request_id tokens 0)
                ])
                  s')
        evicting s' none k = k
        evicting s' (some c) k =
            Ensures-bind (λ _. Head engine r queue) (IsOrderly engine) Granted
              (evict_one_block ops c) _ s' (evict-Head c s' k) (λ _ u l. reserve-Granted tokens u l)

        again :
            (a : Option KvBlockAllocation) (s' : Scheduler C)
            → Granted a s'
            → Ensures Granted (IsOrderly engine) (
                (elim a as (λ _. Action (Scheduler C) (Option KvBlockAllocation)) [
                  | some t ↦ pure (some t)
                  | none ↦ do
                    s ← get
                    elim s.prefix_cache [
                      | none ↦ pure none
                      | some cache ↦ do
                        _ ← evict_one_block ops cache
                        on_manager (reserve r.request_id tokens 0)
                    ]
                ])
                  s')
        again (some t) s' g = g
        again none s' g = evicting s' s'.prefix_cache g

    place_fresh-Rounds :
        (now : ℕ) (s : Scheduler C)
        → Head engine r queue s
        → Ensures (Rounds engine r queue) (IsOrderly engine) (place_fresh ops now r s)
    unfolding place_fresh
    place_fresh-Rounds now s h =
        Ensures-bind Granted (IsOrderly engine) (Rounds engine r queue) (reserve_first ops r) _ s
          (reserve_first-Granted s h) next
      where
        next :
            (a : Option KvBlockAllocation) (s' : Scheduler C)
            → Granted a s'
            → Ensures (Rounds engine r queue) (IsOrderly engine) (
                (elim a as (λ _. Action (Scheduler C) Round) [
                  | none ↦ pure stopped
                  | some t ↦ activate now r
                ])
                  s')
        next none s' g = g
        next (some t) s' g = activate-Rounds engine now r r queue s' refl refl g

    place_matched-Rounds :
        (now : ℕ) (found : PrefixMatch) (s : Scheduler C)
        → Head engine r queue s
        → Ensures (Rounds engine r queue) (IsOrderly engine) (place_matched ops now r found s)
    unfolding place_matched with_match
    place_matched-Rounds now found s h =
        Ensures-bind (λ _. HasTable engine r queue) (IsOrderly engine) (Rounds engine r queue)
          (on_manager (attach_prefix r.request_id found.physical_block_ids found.token_count)) _ s
          (attach-HasTable found.physical_block_ids found.token_count s h)
          (λ a s' t. activate-Rounds engine now r (with_match found r) queue s' refl refl t)

    place-Rounds :
        (now : ℕ) (s : Scheduler C)
        → Head engine r queue s
        → Ensures (Rounds engine r queue) (IsOrderly engine) (place ops now r s)
    unfolding place
    place-Rounds now s h =
        Ensures-bind (λ _. Head engine r queue) (IsOrderly engine) (Rounds engine r queue)
          (find_match ops r) _ s (find_match-Head s h) next
      where
        fresh :
            (m : PrefixMatch) (b : Bool) (s' : Scheduler C)
            → Head engine r queue s'
            → Ensures
                (Rounds engine r queue)
                (IsOrderly engine)
                ((if b then place_fresh ops now r else place_matched ops now r m) s')
        fresh m true s' k = place_fresh-Rounds now s' k
        fresh m false s' k = place_matched-Rounds now m s' k

        next :
            (a : Option PrefixMatch) (s' : Scheduler C)
            → Head engine r queue s'
            → Ensures (Rounds engine r queue) (IsOrderly engine) (
                (elim a as (λ _. Action (Scheduler C) Round) [
                  | none ↦ place_fresh ops now r
                  | some m ↦
                      if m.token_count == 0
                      then place_fresh ops now r
                      else place_matched ops now r m
                ])
                  s')
        next none s' k = place_fresh-Rounds now s' k
        next (some m) s' k = fresh m (m.token_count == 0) s' k

    pub admit_head-Rounds :
        (max_active : Option ℕ) (now : ℕ) (s : Scheduler C)
        → Head engine r queue s
        → Ensures (Rounds engine r queue) (IsOrderly engine) (admit_head ops max_active now r s)
    unfolding admit_head
    admit_head-Rounds max_active now s h =
        go (reached max_active (length s.active))
          (ltb (effective_capacity_tokens s) (reserved_tokens r)) (waits_for_progress s r)
      where
        go :
            (full large waits : Bool)
            → Ensures (Rounds engine r queue) (IsOrderly engine) (
                if full
                then ok stopped s
                else if large
                then turn_away now r s
                else if waits
                then ok stopped s
                else place ops now r s)
        go true large waits = h
        go false true waits = turn_away-Rounds engine now r queue s h
        go false false true = h
        go false false false = place-Rounds now s h
