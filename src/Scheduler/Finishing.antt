-- ===== src/Scheduler/Finishing.antt =====
-- How a finished request leaves the scheduler: `finish` of engine/scheduler/scheduler.py.
use full_inference_engine.Base.{
  ℕ, suc, ◌+◌, ◌≡◌, refl, ◌∙◌, Bool, true, false, Option, none, some, List, String, String_discrete,
  lookup, arith, ◌⊎◌, inl, inr, Bool-cases, Outcome, ok, raise, key_error, runtime_error, >>=-ok,
  >>=-raise, ◌>>=◌, if◌then◌else◌, count, lookup-erase_self,
}
use full_inference_engine.Cache.Paging.{KvBlockManager, KvBlockAllocation}
use full_inference_engine.Cache.Paging.Valid.{IsConsistent, Agrees-some, held_by}
use full_inference_engine.Cache.Paging.Admission.{request_released}
use full_inference_engine.Cache.Blocks.{request, owner_dec}
use full_inference_engine.Cache.Blocks.Loops.{get_or-lower}
use full_inference_engine.Cache.Blocks.Sharing.{held_Covered, released-IsValid}
use full_inference_engine.Cache.Blocks.Valid.{references, is_free}
use full_inference_engine.Runtime.States.{finished, is_decoding}
use full_inference_engine.Runtime.Requests.{GenerationRequest, moved, transition}
use full_inference_engine.Runtime.Requests.Calls.{transition_finished}
use full_inference_engine.Scheduler.{Scheduler, finish, advance_progress, on_request, detach}
use full_inference_engine.Scheduler.Orderly.{IsOrderly, detached, detach-Detaches}

abbrev pub retired : {C : Type 0} → Scheduler C → GenerationRequest → Scheduler C
retired s r = record s {
  progress_epoch = suc s.progress_epoch;
  recomputed_tokens_total = s.recomputed_tokens_total + r.recomputed_token_count;
  recompute_ns_total = s.recompute_ns_total + r.recompute_ns;
}

-- Between the two managers the request has given its blocks back: it has no table any more in either record,
-- every block has as many references fewer as it stood in the table, and a block is in the free list, once,
-- exactly if it has no reference left.
abbrev pub GivesBack : KvBlockManager → KvBlockManager → String → List ℕ → Type 0
GivesBack m m' id bs =
    (lookup String_discrete id m'.requests ≡ none)
    × (held_by m'.allocator id ≡ none)
    × ((b : ℕ)
        → (references m'.allocator b + count b bs ≡ references m.allocator b)
          × (count b m'.allocator.free_blocks
              ≡ (if is_free m.allocator.num_blocks b (references m'.allocator b) then 1 else 0)))

released-GivesBack :
    (m : KvBlockManager) (id : String) (t : KvBlockAllocation)
    → IsConsistent m
    → lookup String_discrete id m.requests ≡ some t
    → GivesBack m (request_released m id t.physical_block_ids) id t.physical_block_ids
released-GivesBack m id t v found =
    let held = (Agrees-some m id t v found).0 in
    let w = released-IsValid m.allocator (request id) t.physical_block_ids v.allocator_valid held in
    (
      lookup-erase_self String_discrete id m.requests v.one_entry,
      lookup-erase_self owner_dec (request id) m.allocator.allocations v.allocator_valid.one_entry,
      λ b. (
        get_or-lower m.allocator.refcounts t.physical_block_ids b
            (held_Covered m.allocator (request id) t.physical_block_ids v.allocator_valid held),
        w.free_exact b,
      ),
    )

-- How `finish` ends: the id is unknown; the request was not decoding; or it is finished.
abbrev pub Finishes :
    {C : Type 0}
    → Scheduler C
    → String
    → Option String
    → ℕ
    → Outcome (Scheduler C) GenerationRequest
    → Type 0
Finishes s id reason now outcome =
    ((lookup String_discrete id s.active ≡ none) × (outcome ≡ raise key_error s))
    ⊎ ((r : GenerationRequest) × (t : KvBlockAllocation) × (lookup String_discrete id s.active
          ≡ some r)
        × (lookup String_discrete id s.block_manager.requests ≡ some t)
        × GivesBack s.block_manager (detached s id t).block_manager id t.physical_block_ids
        × (((is_decoding r.state ≡ false) × (outcome ≡ raise runtime_error (detached s id t)))
            ⊎ ((is_decoding r.state ≡ true)
                × (outcome
                    ≡ ok (record (moved finished reason now r) { held_pages_at_exit = true })
                        (retired (detached s id t) (moved finished reason now r))))))

finish_rest :
    {C : Type 0} (s : Scheduler C) (r : GenerationRequest) (reason : Option String) (now : ℕ)
    → (on_request (transition finished reason now) r >>= advance_progress) s ≡ (
        if is_decoding r.state
        then ok
            (record (moved finished reason now r) { held_pages_at_exit = true })
            (retired s (moved finished reason now r))
        else raise runtime_error s)
unfolding on_request advance_progress
finish_rest s r reason now = ground (arith, transition_finished reason now r)

-- On an orderly scheduler finish raises KeyError for an id that is not active and changes nothing. If the
-- request is not DECODING it raises RuntimeError, but by then the request has left the active ones and has
-- given its blocks back, and the progress epoch has not moved. Otherwise the request is FINISHED, has given
-- its blocks back and the epoch is one further. To give back is to lose the request's table, every block's
-- references being fewer by its places there and the block being free exactly if none is left.
pub finish-Finishes :
    {C : Type 0} (engine : String → Bool) (s : Scheduler C) (id : String) (reason : Option String)
    (now : ℕ)
    → IsOrderly engine s
    → Finishes s id reason now (finish id reason now s)
unfolding finish
finish-Finishes engine s id reason now v = elim (detach-Detaches engine s id v) [
  | inl (e, run) ↦ inl (
    e,
    >>=-raise (detach id) (λ r. on_request (transition finished reason now) r >>= advance_progress)
        run,
  )
  | inr (r, t, e, found, run, w, q) ↦
      let rest =
        >>=-ok (detach id) (λ r. on_request (transition finished reason now) r >>= advance_progress)
          run
        ∙ finish_rest (detached s id t) r reason now in
      inr (
        r,
        t,
        e,
        found,
        released-GivesBack s.block_manager id t v.consistent found,
        elim (Bool-cases (is_decoding r.state)) [
          | inl d ↦ inr (d, rest ∙ (rw d refl))
          | inr d ↦ inl (d, rest ∙ (rw d refl))
        ],
      )
]
