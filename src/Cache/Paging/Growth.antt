-- ===== src/Cache/Paging/Growth.antt =====
-- How a request grows: `set_sequence_length`, `ensure_capacity` and `append_tokens` of
-- `KVBlockManager`, branch by branch.
use full_inference_engine.Base.{
  ℕ, ◌-◌, ◌*◌, ◌≤◌, ◌<◌, ◌≡◌, refl, subst, Bool, true, false, Option, none, some, List, ◌++◌,
  String, String_discrete, ltb, length, lookup, ok, ◌⊎◌, inl, inr, Outcome, reverse, lookup-insert,
  Bool-cases, arith, ltb→lt, length-append,
}
use full_inference_engine.Cache.Blocks
use full_inference_engine.Cache.Blocks.{BlockAllocator, Owner, owner_dec, request}
use full_inference_engine.Cache.Blocks.Valid.{IsValid, claimed}
use full_inference_engine.Cache.Blocks.Outcomes.{Extends, extend-Extends}
use full_inference_engine.Cache.Paging.{
  KvBlockAllocation, KvBlockManager, on_allocator, blocks_needed, store, ensure_capacity,
}
use full_inference_engine.Cache.Paging.Valid.{
  IsConsistent, IsConsistent-insert, Agrees-some, held_by, find-lookup,
}
use full_inference_engine.Cache.Paging.Admission.{with_table}

-- The table with `bs` behind its blocks.
abbrev pub longer : KvBlockAllocation → List ℕ → KvBlockAllocation
longer t bs = record t { physical_block_ids = t.physical_block_ids ++ bs }

abbrev pub extra : KvBlockManager → KvBlockAllocation → ℕ → ℕ
extra m t target = blocks_needed m target - length t.physical_block_ids

-- What `ensure_capacity` does for a request that it knows, behind the guard on the target.
abbrev pub Ensures :
    KvBlockManager → String → KvBlockAllocation → ℕ → Outcome KvBlockManager Bool → Type 0
Ensures m id t target result =
    ((extra m t target ≡ 0) × (result ≡ ok true m))
    ⊎ ((length m.allocator.free_blocks < extra m t target) × (result ≡ ok false m))
    ⊎ ((bs : List ℕ) × (rest : List ℕ) × (0 < extra m t target)
        × (m.allocator.free_blocks ≡ rest ++ reverse bs)
        × (length bs ≡ extra m t target)
        × (result
            ≡ ok true (
                with_table m (claimed m.allocator (request id) t.physical_block_ids bs rest) id
                  (longer t bs)))
        × IsConsistent (
            with_table m (claimed m.allocator (request id) t.physical_block_ids bs rest) id
              (longer t bs)))

module _ (m : KvBlockManager) (v : IsConsistent m) (id : String) (t : KvBlockAllocation)
    (known : lookup String_discrete id m.requests ≡ some t) where
  table :
      (held_by m.allocator id ≡ some t.physical_block_ids)
      × (t.block_size_tokens ≡ m.block_size_tokens)
      × (t.sequence_length ≤ length t.physical_block_ids * m.block_size_tokens)
  table = Agrees-some m id t v known

  longer-IsConsistent :
      (bs rest : List ℕ)
      → IsValid (claimed m.allocator (request id) t.physical_block_ids bs rest)
      → IsConsistent (
          with_table m
            (claimed m.allocator (request id) t.physical_block_ids bs rest)
            id
            (longer t bs))
  longer-IsConsistent bs rest w =
      IsConsistent-insert m (claimed m.allocator (request id) t.physical_block_ids bs rest) id
        (longer t bs) v w refl
        (λ o.
          lookup-insert owner_dec (request id) o (t.physical_block_ids ++ bs)
            m.allocator.allocations)
        table.1 (grind (arith, table, length-append t.physical_block_ids bs))

  module _ (target : ℕ) (fits : t.sequence_length ≤ target) where
    ensure_nothing : extra m t target ≡ 0 → ensure_capacity id target m ≡ ok true m
    unfolding ensure_capacity
    ensure_nothing e = ground (arith, find-lookup m id t known)

    abbrev extension : Outcome BlockAllocator (Option (List ℕ))
    extension = Blocks.extend (request id) (extra m t target) m.allocator

    ensure_short :
        0 < extra m t target
        → extension ≡ ok none m.allocator
        → ensure_capacity id target m ≡ ok false m
    unfolding ensure_capacity on_allocator
    ensure_short h e = ground (arith, find-lookup m id t known)

    ensure_grown :
        (bs : List ℕ) (a : BlockAllocator)
        → 0 < extra m t target
        → extension ≡ ok (some bs) a
        → ensure_capacity id target m ≡ ok true (with_table m a id (longer t bs))
    unfolding ensure_capacity on_allocator store
    ensure_grown bs a h e = ground (arith, find-lookup m id t known)

    -- For a known request `ensure_capacity` allocates exactly the missing blocks and appends them to the
    -- table, or, if too few are free, returns `False` and changes nothing.
    pub ensure_capacity-Ensures : Ensures m id t target (ensure_capacity id target m)
    ensure_capacity-Ensures = elim (Bool-cases (ltb 0 (extra m t target))) [
      | inr e ↦ inl (ground arith, ensure_nothing (ground arith))
      | inl e ↦
          cases (ltb→lt _ _ e)
            (extend-Extends m.allocator (request id) (extra m t target) v.allocator_valid)
    ]
      where
        cases :
            0 < extra m t target
            → Extends m.allocator (request id) (extra m t target) extension
            → Ensures m id t target (ensure_capacity id target m)
        cases h (inl (e, _)) = absurd (omega arith)
        cases h (inr (inl (_, e, _))) = absurd (ground (arith, table))
        cases h (inr (inr (inl (_, _, short, e)))) = inr (inl (short, ensure_short h e))
        cases h (inr (inr (inr (_, held, e, (bs, rest, granted, split, l, w))))) =
            let same : held ≡ t.physical_block_ids = ground (arith, table) in
            let granted' =
              subst (λ l. extension ≡ ok (some bs) (claimed m.allocator (request id) l bs rest))
                same granted in
            inr (
              inr (
                bs,
                rest,
                h,
                split,
                l,
                ensure_grown bs _ h granted',
                longer-IsConsistent bs rest
                    (subst (λ l. IsValid (claimed m.allocator (request id) l bs rest)) same w),
              ))
