-- ===== src/Scheduler/Admission.antt =====
-- `admit_available` of engine/scheduler/scheduler.py. Each round of its loop takes the head of the queue or
-- ends the loop, so that the loop is a recursion over the queue. `clock n` is what `perf_counter_ns()`
-- gives in the round that has `n` requests behind the head. The requests that a round turns away are
-- returned beside those that are admitted, since the caller shares these objects.
pub mod Rounds
pub mod Invariant
pub mod Order
pub mod Runs
use full_inference_engine.Base.{
  ℕ, zero, suc, ◌+◌, ◌≤◌, min, Bool, true, false, not, ◌&&◌, Option, none, some, List, [], ◌∷◌,
  ◌++◌, String, String_discrete, ltb, leb, ◌==◌, if◌then◌else◌, length, is_some, insert, drop,
  Outcome, Action, ok, raise, value_error, raise_if, get, modify, pure, ◌>>◌, ◌>>=◌,
}
use full_inference_engine.Cache.Paging.{KvBlockManager, KvBlockAllocation, reserve, attach_prefix}
use full_inference_engine.Cache.PrefixInterface.{PrefixMatch, PrefixOps}
use full_inference_engine.Runtime.States.{rejected, prefilling}
use full_inference_engine.Runtime.Sampling.{can_reuse_cached_prediction}
use full_inference_engine.Runtime.Requests.{
  GenerationRequest, transition, some_items, reserved_tokens, prefill_token_ids,
  prefill_token_count,
}
use full_inference_engine.Scheduler.{
  Scheduler, is_zero, reached, effective_capacity_tokens, on_manager, on_request,
}

-- What a round of the loop comes to: `break`, or the request that left the queue.
pub data Round : Type 0 where
  stopped : Round
  turned_away : GenerationRequest → Round
  admitted : GenerationRequest → Round

-- `request.prefilled_token_count = match.token_count` and the two lines below it.
pub with_match : PrefixMatch → GenerationRequest → GenerationRequest
with_match found r = record r {
  prefilled_token_count = found.token_count;
  cached_prefix_tokens = found.token_count;
  cached_next_token_id = found.next_token_id;
}

module _ {C : Type 0} where
  -- A request that yielded waits until something has been released, unless nothing runs.
  pub waits_for_progress : Scheduler C → GenerationRequest → Bool
  waits_for_progress s r =
      r.recomputing && (leb s.progress_epoch r.preempted_at_epoch && some_items s.active)

  pub turn_away : ℕ → GenerationRequest → Action (Scheduler C) Round
  turn_away now r = do
    modify (λ s. record s { waiting_queue = drop 1 s.waiting_queue })
    r' ← on_request (transition rejected (some "KV_CAPACITY_EXCEEDED") now) r
    modify (λ s. record s { rejected_count = suc s.rejected_count })
    pure (turned_away r')

  -- From `self.waiting.popleft()` to the end of the round.
  pub activate : ℕ → GenerationRequest → Action (Scheduler C) Round
  activate now r = do
    modify (λ s. record s { waiting_queue = drop 1 s.waiting_queue })
    r' ← on_request (transition prefilling none now) (record r { allocation = some r.request_id })
    modify (λ s. record s {
      active = insert String_discrete r.request_id r' s.active;
      prefill_order = s.prefill_order ++ r.request_id ∷ [];
      admission_count = suc s.admission_count;
    })
    pure (admitted r')

module _ {C : Type 0} (ops : PrefixOps C) where
  -- `match`: `none` without a prefix cache or without tokens.
  pub find_match : GenerationRequest → Action (Scheduler C) (Option PrefixMatch)
  find_match r s = elim s.prefix_cache [
    | none ↦ ok none s
    | some cache ↦
        if some_items (prefill_token_ids r)
        then elim (ops.lookup_prefix s.block_manager.block_size_tokens (prefill_token_ids r)
            (can_reuse_cached_prediction r.sampling) cache) [
              | ok found cache' ↦ ok (some found) (record s { prefix_cache = some cache' })
              | raise e cache' ↦ raise e (record s { prefix_cache = some cache' })
            ]
        else ok none s
  ]

  -- `self.prefix_cache.evict_until_free(1)`
  pub evict_one_block : C → Action (Scheduler C) ℕ
  evict_one_block cache s = elim (ops.evict_until_free 1 (s.block_manager, cache)) [
    | ok freed (m, cache') ↦ ok freed (record s { block_manager = m; prefix_cache = some cache' })
    | raise e (m, cache') ↦ raise e (record s { block_manager = m; prefix_cache = some cache' })
  ]

  -- The first block, if need be after an eviction.
  pub reserve_first : GenerationRequest → Action (Scheduler C) (Option KvBlockAllocation)
  reserve_first r = do
    s ← get
    let initial_tokens = min (prefill_token_count r) s.block_manager.block_size_tokens
    allocation ← on_manager (reserve r.request_id initial_tokens 0)
    elim allocation [
      | some t ↦ pure (some t)
      | none ↦ do
        s ← get
        elim s.prefix_cache [
          | none ↦ pure none
          | some cache ↦ do
            _ ← evict_one_block cache
            on_manager (reserve r.request_id initial_tokens 0)
        ]
    ]

  pub place_fresh : ℕ → GenerationRequest → Action (Scheduler C) Round
  place_fresh now r = do
    allocation ← reserve_first r
    elim allocation [ none ↦ pure stopped | some t ↦ activate now r ]

  pub place_matched : ℕ → GenerationRequest → PrefixMatch → Action (Scheduler C) Round
  place_matched now r found = do
    _ ← on_manager (attach_prefix r.request_id found.physical_block_ids found.token_count)
    activate now (with_match found r)

  pub place : ℕ → GenerationRequest → Action (Scheduler C) Round
  place now r = do
    found ← find_match r
    elim found [
      | none ↦ place_fresh now r
      | some m ↦ if m.token_count == 0 then place_fresh now r else place_matched now r m
    ]

  -- A round of the loop, with `r` at the head of the queue.
  pub admit_head : Option ℕ → ℕ → GenerationRequest → Action (Scheduler C) Round
  admit_head max_active now r s =
      if reached max_active (length s.active)
      then ok stopped s
      else if ltb (effective_capacity_tokens s) (reserved_tokens r)
      then turn_away now r s
      else if waits_for_progress s r
      then ok stopped s
      else place now r s

  pub admit_loop :
      Option ℕ
      → (ℕ → ℕ)
      → List GenerationRequest
      → Action (Scheduler C) (List GenerationRequest × List GenerationRequest)
  admit_loop max_active clock [] = pure ([], [])
  admit_loop max_active clock (r ∷ queue) = do
    round ← admit_head max_active (clock (length queue)) r
    elim round [
      | stopped ↦ pure ([], [])
      | turned_away r' ↦ do
        (taken, refused) ← admit_loop max_active clock queue
        pure (taken, r' ∷ refused)
      | admitted r' ↦ do
        (taken, refused) ← admit_loop max_active clock queue
        pure (r' ∷ taken, refused)
    ]

  pub admit_available :
      Option ℕ → (ℕ → ℕ) → Action (Scheduler C) (List GenerationRequest × List GenerationRequest)
  admit_available max_active clock = do
    raise_if (is_zero max_active) value_error
    s ← get
    admit_loop max_active clock s.waiting_queue
