-- ===== src/Cache/Paging/Admission.antt =====
-- How requests come to hold blocks and give them back: `reserve`, `attach_prefix` and `release` of
-- `KVBlockManager`, branch by branch.
use full_inference_engine.Base.{
  ℕ, ◌+◌, ◌-◌, ◌*◌, ◌<◌, ◌≡◌, refl, ◌∙◌, ap, Bool, true, false, not, ◌&&◌, ◌||◌, Option, none, some,
  List, [], ◌++◌, String, String_discrete, ltb, leb, ◌==◌, if◌then◌else◌, length, lookup, insert,
  erase, is_some, ok, raise, ◌⊎◌, inl, inr, Outcome, reverse, value_error, key_error, lookup-insert,
  Bool-cases, Option-cases, arith, >>=-ok, subst,
}
use full_inference_engine.Cache.Blocks
use full_inference_engine.Cache.Blocks.{BlockAllocator, Owner, owner_dec, request, truthy, is_empty}
use full_inference_engine.Cache.Blocks.Valid.{claimed}
use full_inference_engine.Cache.Blocks.Outcomes.{Allocates, allocate-Allocates}
use full_inference_engine.Cache.Blocks.Sharing.{
  may_attach, attached, attached-IsValid, attach_guards, released, released-IsValid, release_held,
}
use full_inference_engine.Cache.Paging.{
  KvBlockAllocation, KvBlockManager, on_allocator, blocks_needed, record_allocation, reserve,
  attach_prefix, find, release,
}
use full_inference_engine.Cache.Paging.Needed.{
  IsFewest, blocks_needed-covers, blocks_needed-pos, missing-IsFewest, missing_short,
}
use full_inference_engine.Cache.Paging.Valid.{
  IsConsistent, IsConsistent-insert, IsConsistent-erase, Agrees-none, Agrees-some, held_by,
  on_allocator-ok, find-lookup,
}

-- The table that `reserve` and `attach_prefix` make.
abbrev pub table_of : KvBlockManager → String → List ℕ → ℕ → KvBlockAllocation
table_of m id block_ids sequence_length = record {
  request_id = id;
  block_size_tokens = m.block_size_tokens;
  physical_block_ids = block_ids;
  sequence_length = sequence_length;
}

abbrev pub with_table :
    KvBlockManager → BlockAllocator → String → KvBlockAllocation → KvBlockManager
with_table m a id t = record m { allocator = a; requests = insert String_discrete id t m.requests }

-- The guards of `reserve`.
abbrev pub may_reserve : KvBlockManager → String → ℕ → ℕ → Bool
may_reserve m id capacity sequence_length =
    not ((capacity == 0) || ltb capacity sequence_length)
    && not (is_some (lookup String_discrete id m.requests))

-- What `reserve` does: a refusal, a lack of blocks, or a table over newly granted blocks.
abbrev pub Reserves :
    KvBlockManager → String → ℕ → ℕ → Outcome KvBlockManager (Option KvBlockAllocation) → Type 0
Reserves m id capacity sequence_length result =
    (((may_reserve m id capacity sequence_length ≡ false) ⊎ (truthy (request id) ≡ false))
      × (result ≡ raise value_error m))
    ⊎ ((may_reserve m id capacity sequence_length ≡ true)
        × (length m.allocator.free_blocks * m.block_size_tokens < capacity)
        × (result ≡ ok none m))
    ⊎ ((may_reserve m id capacity sequence_length ≡ true)
        × (bs : List ℕ) × (rest : List ℕ) × (m.allocator.free_blocks ≡ rest ++ reverse bs)
        × IsFewest m 0 capacity (length bs)
        × (result
            ≡ ok (some (table_of m id bs sequence_length)) (
                with_table m (claimed m.allocator (request id) [] bs rest) id
                  (table_of m id bs sequence_length)))
        × IsConsistent (
            with_table m (claimed m.allocator (request id) [] bs rest) id
              (table_of m id bs sequence_length)))

reserve_refused :
    (m : KvBlockManager) (id : String) (capacity sequence_length : ℕ)
    → may_reserve m id capacity sequence_length ≡ false
    → reserve id capacity sequence_length m ≡ raise value_error m
unfolding reserve
reserve_refused m id capacity sequence_length h = ground arith

module _ (m : KvBlockManager) (id : String) (capacity sequence_length : ℕ)
    (h : may_reserve m id capacity sequence_length ≡ true) where
  abbrev allocation : Outcome BlockAllocator (Option (List ℕ))
  allocation = Blocks.allocate (request id) (blocks_needed m capacity) m.allocator

  reserve_raises :
      allocation ≡ raise value_error m.allocator
      → reserve id capacity sequence_length m ≡ raise value_error m
  unfolding reserve on_allocator
  reserve_raises e = ground arith

  reserve_short :
      allocation ≡ ok none m.allocator → reserve id capacity sequence_length m ≡ ok none m
  unfolding reserve on_allocator
  reserve_short e = ground arith

  reserve_granted :
      (bs : List ℕ) (a : BlockAllocator)
      → allocation ≡ ok (some bs) a
      → reserve id capacity sequence_length m
        ≡ ok
            (some (table_of m id bs sequence_length))
            (with_table m a id (table_of m id bs sequence_length))
  unfolding reserve on_allocator record_allocation
  reserve_granted bs a e = ground arith

-- On a consistent manager `reserve` raises `ValueError` and changes nothing if a guard fails or the id is
-- empty, returns `None` and changes nothing if too few blocks are free, and otherwise records a table
-- over newly granted blocks, which are the fewest that hold the capacity; the manager stays consistent. Too
-- few means that all free blocks together do not hold it.
pub reserve-Reserves :
    (m : KvBlockManager) (id : String) (capacity sequence_length : ℕ)
    → IsConsistent m
    → Reserves m id capacity sequence_length (reserve id capacity sequence_length m)
reserve-Reserves m id capacity sequence_length v =
    elim (Bool-cases (may_reserve m id capacity sequence_length)) [
      | inr refused ↦ inl (inl refused, reserve_refused m id capacity sequence_length refused)
      | inl passed ↦
          cases passed (
            allocate-Allocates m.allocator (request id) (blocks_needed m capacity)
              v.allocator_valid)
    ]
  where
    some_tokens : 0 < m.block_size_tokens
    some_tokens = grind (arith, v.same_size, v.allocator_valid.some_tokens)

    too_few :
        length m.allocator.free_blocks < blocks_needed m capacity
        → length m.allocator.free_blocks * m.block_size_tokens < capacity
    too_few short =
        let f : ℕ = length m.allocator.free_blocks in
        let fewer = missing_short m 0 capacity some_tokens f (omega arith) in
        subst (λ (n : ℕ). n * m.block_size_tokens < capacity) {x = 0 + f} {y = f} (omega arith)
          fewer

    cases :
        may_reserve m id capacity sequence_length ≡ true
        → Allocates m.allocator
            (request id)
            (blocks_needed m capacity)
            (Blocks.allocate (request id) (blocks_needed m capacity) m.allocator)
        → Reserves m id capacity sequence_length (reserve id capacity sequence_length m)
    cases passed (inl (guard, e)) = inl (
      inr (
          ground (
            arith,
            guard,
            Agrees-none m id v,
            blocks_needed-pos m capacity,
            v.same_size,
            v.allocator_valid.some_tokens,
          )),
      reserve_raises m id capacity sequence_length passed e,
    )
    cases passed (inr (inl (_, short, e))) =
        inr (inl (passed, too_few short, reserve_short m id capacity sequence_length passed e))
    cases passed (inr (inr (_, (bs, rest, e, split, l, w)))) = inr (
        inr (
          passed,
          bs,
          rest,
          split,
          missing-IsFewest m 0 capacity some_tokens (length bs) (omega arith),
          reserve_granted m id capacity sequence_length passed bs _ e,
          IsConsistent-insert m (claimed m.allocator (request id) [] bs rest) id
              (table_of m id bs sequence_length) v w refl
              (λ o. lookup-insert owner_dec (request id) o bs m.allocator.allocations) refl
              (grind (
                arith,
                l,
                blocks_needed-covers m capacity,
                v.same_size,
                v.allocator_valid.some_tokens,
              )),
        ))

-- All guards on the way of `attach_prefix`, those of the allocator included: the blocks are live and
-- distinct, and cover the shared tokens exactly, with the last block in use.
abbrev pub may_attach_prefix : KvBlockManager → String → List ℕ → ℕ → Bool
may_attach_prefix m id block_ids sequence_length =
    not (is_some (lookup String_discrete id m.requests))
    && (not (is_empty block_ids || (sequence_length == 0))
        && ((ltb (length block_ids * m.block_size_tokens - m.block_size_tokens) sequence_length
              && leb sequence_length (length block_ids * m.block_size_tokens))
            && may_attach m.allocator (request id) block_ids))

abbrev pub prefix_attached : KvBlockManager → String → List ℕ → ℕ → KvBlockManager
prefix_attached m id block_ids sequence_length =
    with_table m (attached m.allocator (request id) block_ids) id
      (table_of m id block_ids sequence_length)

attach_prefix-attached :
    (m : KvBlockManager) (id : String) (block_ids : List ℕ) (sequence_length : ℕ)
    → Blocks.attach (request id) block_ids m.allocator ≡ (
        if may_attach m.allocator (request id) block_ids
        then ok block_ids (attached m.allocator (request id) block_ids)
        else raise value_error m.allocator)
    → attach_prefix id block_ids sequence_length m ≡ (
        if may_attach_prefix m id block_ids sequence_length
        then ok
            (table_of m id block_ids sequence_length)
            (prefix_attached m id block_ids sequence_length)
        else raise value_error m)
unfolding attach_prefix on_allocator record_allocation
attach_prefix-attached m id block_ids sequence_length e =
    elim (Bool-cases (may_attach m.allocator (request id) block_ids)) [
      | inl passed ↦
          let e' =
            e
            ∙ ap
                (λ b.
                  if b
                  then ok block_ids (attached m.allocator (request id) block_ids)
                  else raise value_error m.allocator)
                passed in
          rw passed (ground (arith, e'))
      | inr refused ↦
          let e' =
            e
            ∙ ap
                (λ b.
                  if b
                  then ok block_ids (attached m.allocator (request id) block_ids)
                  else raise value_error m.allocator)
                refused in
          rw refused (ground (arith, e'))
    ]

-- On a consistent manager `attach_prefix` either fails a guard, raises `ValueError` and changes nothing,
-- or adds the request to the owners of the given blocks and keeps the manager consistent.
pub attach_prefix-outcome :
    (m : KvBlockManager) (id : String) (block_ids : List ℕ) (sequence_length : ℕ)
    → IsConsistent m
    → ((may_attach_prefix m id block_ids sequence_length ≡ false)
        × (attach_prefix id block_ids sequence_length m ≡ raise value_error m))
      ⊎ ((may_attach_prefix m id block_ids sequence_length ≡ true)
          × (attach_prefix id block_ids sequence_length m
              ≡ ok
                  (table_of m id block_ids sequence_length)
                  (prefix_attached m id block_ids sequence_length))
          × IsConsistent (prefix_attached m id block_ids sequence_length))
attach_prefix-outcome m id block_ids sequence_length v =
    elim (Bool-cases (may_attach_prefix m id block_ids sequence_length)) [
      | inr refused ↦ inl (
        refused,
        attach_prefix-attached m id block_ids sequence_length
              (attach_guards m.allocator (request id) block_ids v.allocator_valid)
            ∙ (rw refused),
      )
      | inl passed ↦ inr (
        passed,
        attach_prefix-attached m id block_ids sequence_length
              (attach_guards m.allocator (request id) block_ids v.allocator_valid)
            ∙ (rw passed),
        IsConsistent-insert m (attached m.allocator (request id) block_ids) id
            (table_of m id block_ids sequence_length) v
            (attached-IsValid m.allocator (request id) block_ids v.allocator_valid (ground arith)
              (ground arith))
            refl (λ o. lookup-insert owner_dec (request id) o block_ids m.allocator.allocations)
            refl (ground arith),
      )
    ]

abbrev pub request_released : KvBlockManager → String → List ℕ → KvBlockManager
request_released m id block_ids = record m {
  allocator = released m.allocator (request id) block_ids;
  requests = erase String_discrete id m.requests;
}

-- On a consistent manager `release` raises `KeyError` for an id that it does not know, and otherwise
-- returns the request's table, takes the request out of both records and keeps the manager consistent.
pub release-request :
    (m : KvBlockManager) (id : String)
    → IsConsistent m
    → ((lookup String_discrete id m.requests ≡ none) × (release id m ≡ raise key_error m))
      ⊎ ((t : KvBlockAllocation) × (lookup String_discrete id m.requests ≡ some t)
          × (release id m ≡ ok t (request_released m id t.physical_block_ids))
          × IsConsistent (request_released m id t.physical_block_ids))
unfolding find release
release-request m id v = elim (Option-cases (lookup String_discrete id m.requests)) [
  | inl e ↦ inl (e, ground arith)
  | inr (t, e) ↦ inr (t, e, released_ok t e, released_consistent t e)
]
  where
    held :
        (t : KvBlockAllocation)
        → lookup String_discrete id m.requests ≡ some t
        → held_by m.allocator id ≡ some t.physical_block_ids
    held t e = (Agrees-some m id t v e).0

    released_ok :
        (t : KvBlockAllocation)
        → lookup String_discrete id m.requests ≡ some t
        → release id m ≡ ok t (request_released m id t.physical_block_ids)
    released_ok t e =
        >>=-ok (find id) _ (find-lookup m id t e)
        ∙ >>=-ok (on_allocator (Blocks.release (request id))) (λ _ s. ok t s)
            (on_allocator-ok (Blocks.release (request id))
              (record m { requests = erase String_discrete id m.requests }) t.physical_block_ids _
              (release_held m.allocator (request id) t.physical_block_ids v.allocator_valid
                (held t e)))

    released_consistent :
        (t : KvBlockAllocation)
        → lookup String_discrete id m.requests ≡ some t
        → IsConsistent (request_released m id t.physical_block_ids)
    released_consistent t e =
        IsConsistent-erase m (released m.allocator (request id) t.physical_block_ids) id v
          (released-IsValid m.allocator (request id) t.physical_block_ids v.allocator_valid
            (held t e))
          refl refl
