-- ===== src/Cache/Paging/Tail.antt =====
-- `copy_on_write_tail` of `KVBlockManager`, branch by branch.
use full_inference_engine.Base.{
  ℕ, zero, suc, ◌-◌, ◌*◌, ◌%◌, ◌≤◌, ◌<◌, ◌≡◌, refl, ◌∙◌, ap, sym, subst, Option, none, some, List,
  [], ◌∷◌, ◌++◌, String, String_discrete, length, lookup, ok, raise, ◌⊎◌, inl, inr, Outcome,
  value_error, lookup-insert, negsuc, arith, get_elem?, set, length-set, ite,
}
use mathlib.Core.Path.{subst₂}
use full_inference_engine.Cache.Blocks
use full_inference_engine.Cache.Blocks.{BlockAllocator, Owner, owner_dec, request, normalize_index}
use full_inference_engine.Cache.Blocks.Valid.{IsValid, references}
use full_inference_engine.Cache.Blocks.CopyOnWrite.{
  swapped, Slot, Replaces, replace_shared-Replaces, normalize_index-last,
}
use full_inference_engine.Cache.Paging.{
  KvBlockAllocation, KvBlockManager, on_allocator, store, set_last, copy_on_write_tail,
}
use full_inference_engine.Cache.Paging.Valid.{
  IsConsistent, IsConsistent-insert, Agrees-some, held_by, find-lookup,
}
use full_inference_engine.Cache.Paging.Admission.{with_table}

set_last-set : (xs : List ℕ) (i b : ℕ) → length xs ≡ suc i → set_last xs b ≡ some (set xs i b)
unfolding set_last
set_last-set [] i b h = absurd (omega arith)
set_last-set (x ∷ []) zero b h = refl
set_last-set (x ∷ []) (suc i) b h = absurd (omega arith)
set_last-set (x ∷ y ∷ xs) zero b h = absurd (omega arith)
set_last-set (x ∷ y ∷ xs) (suc i) b h = rw (set_last-set (y ∷ xs) i b (omega arith))

-- The table with its last block replaced.
abbrev pub new_tail : KvBlockAllocation → ℕ → ℕ → KvBlockAllocation
new_tail t i block = record t { physical_block_ids = set t.physical_block_ids i block }

-- What `copy_on_write_tail` does for a request that it knows, with a partly filled last block `old`
-- in slot `i`.
abbrev pub CopiesTail :
    KvBlockManager
    → String
    → KvBlockAllocation
    → ℕ
    → ℕ
    → Outcome KvBlockManager (Option (ℕ × ℕ))
    → Type 0
CopiesTail m id t i old result =
    ((references m.allocator old ≤ 1) × (result ≡ raise value_error m))
    ⊎ ((1 < references m.allocator old) × (m.allocator.free_blocks ≡ []) × (result ≡ ok none m))
    ⊎ ((1 < references m.allocator old)
        × (new : ℕ) × (rest : List ℕ) × (m.allocator.free_blocks ≡ rest ++ new ∷ [])
        × (result
            ≡ ok (some (old, new)) (
                with_table m (swapped m.allocator (request id) t.physical_block_ids i old new rest)
                  id (new_tail t i new)))
        × IsConsistent (
            with_table m (swapped m.allocator (request id) t.physical_block_ids i old new rest) id
              (new_tail t i new)))

module _ (m : KvBlockManager) (v : IsConsistent m) (id : String) (t : KvBlockAllocation)
    (known : lookup String_discrete id m.requests ≡ some t)
    (partial : 0 < t.sequence_length % m.block_size_tokens) where
  abbrev replacement : Outcome BlockAllocator (Option (ℕ × ℕ))
  replacement = Blocks.replace_shared (request id) (negsuc 0) m.allocator

  tail_raises :
      replacement ≡ raise value_error m.allocator → copy_on_write_tail id m ≡ raise value_error m
  unfolding copy_on_write_tail on_allocator
  tail_raises e = ground (arith, find-lookup m id t known)

  tail_short : replacement ≡ ok none m.allocator → copy_on_write_tail id m ≡ ok none m
  unfolding copy_on_write_tail on_allocator
  tail_short e = ground (arith, find-lookup m id t known)

  tail_copied :
      (a : BlockAllocator) (i old new : ℕ)
      → length t.physical_block_ids ≡ suc i
      → replacement ≡ ok (some (old, new)) a
      → copy_on_write_tail id m ≡ ok (some (old, new)) (with_table m a id (new_tail t i new))
  unfolding copy_on_write_tail on_allocator store
  tail_copied a i old new l e =
      ground (arith, find-lookup m id t known, set_last-set t.physical_block_ids i new l)

  held : held_by m.allocator id ≡ some t.physical_block_ids
  held = (Agrees-some m id t v known).0

  not_empty : 0 < length t.physical_block_ids
  not_empty = grind (arith, (Agrees-some m id t v known).2)

  tail-IsConsistent :
      (a : BlockAllocator) (i new : ℕ)
      → IsValid a
      → ((o : Owner)
          → lookup owner_dec o a.allocations
            ≡ ite
                (owner_dec (request id) o)
                (some (set t.physical_block_ids i new))
                (lookup owner_dec o m.allocator.allocations))
      → a.block_size_tokens ≡ m.allocator.block_size_tokens
      → IsConsistent (with_table m a id (new_tail t i new))
  tail-IsConsistent a i new w allocated size =
      let (_, tokens, fits) = Agrees-some m id t v known in
      IsConsistent-insert m a id (new_tail t i new) v w size allocated tokens (
        subst (λ (l : ℕ). t.sequence_length ≤ l * m.block_size_tokens)
          (sym (length-set t.physical_block_ids i new)) fits)

  -- For a known request whose last block is partly filled, `copy_on_write_tail` on a consistent manager
  -- raises `ValueError` if the last block has one owner, returns `None` if no block is free, both without
  -- a trace; and otherwise puts a free block in the place of the last one, in both records, takes one
  -- reference from the old block and keeps the manager consistent.
  pub copy_on_write_tail-CopiesTail :
      (i : ℕ) × (old : ℕ) × (length t.physical_block_ids ≡ suc i)
      × (get_elem? t.physical_block_ids i ≡ some old)
      × CopiesTail m id t i old (copy_on_write_tail id m)
  copy_on_write_tail-CopiesTail =
      cases (replace_shared-Replaces m.allocator (request id) (negsuc 0) v.allocator_valid)
    where
      last : ℕ
      last = length t.physical_block_ids - 1

      last_lem : length t.physical_block_ids ≡ suc last
      last_lem = omega (arith, not_empty)

      index :
          (blocks : List ℕ)
          → held_by m.allocator id ≡ some blocks
          → (t.physical_block_ids ≡ blocks)
            × (normalize_index (negsuc 0) (length blocks) ≡ some last)
      index blocks e =
          let same : t.physical_block_ids ≡ blocks = ground (arith, held) in
          (same, normalize_index-last (length blocks) last (ap length (sym same) ∙ last_lem))

      slot_cases :
          (old : ℕ)
          → Slot m.allocator (request id) t.physical_block_ids last old replacement
          → CopiesTail m id t last old (copy_on_write_tail id m)
      slot_cases old (inl (few, e)) = inl (few, tail_raises e)
      slot_cases old (inr (inl (many, empty, e))) = inr (inl (many, empty, tail_short e))
      slot_cases old (inr (inr (many, new, rest, split, e, w))) = inr (
          inr (
            many,
            new,
            rest,
            split,
            tail_copied _ last old new last_lem e,
            tail-IsConsistent _ last new w (λ o. lookup-insert owner_dec (request id) o _ _) refl,
          ))

      cases :
          Replaces m.allocator (request id) (negsuc 0) replacement
          → (i : ℕ) × (old : ℕ) × (length t.physical_block_ids ≡ suc i)
            × (get_elem? t.physical_block_ids i ≡ some old)
            × CopiesTail m id t i old (copy_on_write_tail id m)
      cases (inl (e, _)) = absurd (ground (arith, held))
      cases (inr (inl (blocks, e, out, _))) = absurd (ground (arith, index blocks e))
      cases (inr (inr (blocks, i, old, e, inside, slot, result))) =
          let (same, at) = index blocks e in
          let i_last : i ≡ last = ground (arith, at) in
          let slot' = subst₂ (λ bs j. get_elem? bs j ≡ some old) (sym same) i_last slot in
          (
            last,
            old,
            last_lem,
            slot',
            slot_cases old (
                subst₂ (λ bs j. Slot m.allocator (request id) bs j old replacement) (sym same)
                  i_last result),
          )
