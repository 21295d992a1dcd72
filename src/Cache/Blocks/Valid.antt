-- ===== src/Cache/Blocks/Valid.antt =====
-- The invariant of `BlockAllocator`, and its parts that the operations keep.
use full_inference_engine.Base.{
  ℕ, zero, suc, [], ◌∷◌, get_elem?, ◌+◌, ◌≤◌, ◌<◌, ◌≡◌, ◌∙◌, ap, subst, some, List, ◌++◌, ltb, ◌==◌,
  if◌then◌else◌, length, get_or, count, reverse, ok, for_each, >>=-ok, arith, Bool, ◌&&◌, lookup,
  insert, Distinct, total, or_nil, Ascending, count-append, count-reverse, All-of_count,
  total-insert, insert-Distinct, Ascending-append_left,
}
use full_inference_engine.Cache.Blocks.{
  Owner, owner_dec, BlockAllocator, pop_blocks, write_refcount, take_blocks, refcount,
  read_refcount,
}
use full_inference_engine.Cache.Blocks.Loops.{
  InRange, mark, length-mark, get_or-mark, for_each-mark, pop_blocks_lem,
}

abbrev pub references : BlockAllocator → ℕ → ℕ
references a b = get_or a.refcounts b 0

-- A block is free when it exists and nobody refers to it.
abbrev pub is_free : ℕ → ℕ → ℕ → Bool
is_free n b r = ltb b n && (r == 0)

pub record IsValid (a : BlockAllocator) : Type 0 where
  pub some_blocks : 0 < a.num_blocks
  pub some_tokens : 0 < a.block_size_tokens
  pub sized : length a.refcounts ≡ a.num_blocks
  -- A refcount is the number of slots, over all owners, that hold the block.
  pub counted : (b : ℕ) → total b a.allocations ≡ references a b
  -- A block stands once in the free list if nobody holds it, and else not at all.
  pub free_exact :
      (b : ℕ) → count b a.free_blocks ≡ (if is_free a.num_blocks b (references a b) then 1 else 0)
  pub one_entry : Distinct owner_dec a.allocations
  pub ascending : Ascending a.free_blocks

-- The state that `take_blocks` leaves when it hands out `bs` and keeps `rest` free.
abbrev pub claimed : BlockAllocator → Owner → List ℕ → List ℕ → List ℕ → BlockAllocator
claimed a owner held bs rest = record a {
  free_blocks = rest;
  allocations = insert owner_dec owner (held ++ bs) a.allocations;
  refcounts = mark a.refcounts bs;
}

module _ (a : BlockAllocator) (v : IsValid a) (rest bs : List ℕ)
    (split : a.free_blocks ≡ rest ++ reverse bs) where
  count_split : (b : ℕ) → count b a.free_blocks ≡ count b rest + count b bs
  count_split b =
      omega (arith, ap (count b) split, count-append b rest (reverse bs), count-reverse b bs)

  pub claimed_InRange : InRange (length a.refcounts) bs
  claimed_InRange =
      All-of_count _ bs (λ b h. ground (arith, count_split b, v.free_exact b, v.sized))

  pub claimed-IsValid :
      (owner : Owner) (held : List ℕ)
      → or_nil (lookup owner_dec owner a.allocations) ≡ held
      → IsValid (claimed a owner held bs rest)
  claimed-IsValid owner held e = record {
    some_blocks = v.some_blocks;
    some_tokens = v.some_tokens;
    sized = length-mark a.refcounts bs ∙ v.sized;
    counted = λ b. ground (
      arith,
      total-insert owner_dec b owner (held ++ bs) a.allocations,
      ap (count b) e,
      count-append b held bs,
      v.counted b,
      v.free_exact b,
      count_split b,
      get_or-mark a.refcounts bs b claimed_InRange,
    );
    free_exact = λ b.
        ground (arith, v.free_exact b, count_split b, get_or-mark a.refcounts bs b claimed_InRange);
    one_entry = insert-Distinct owner_dec owner (held ++ bs) a.allocations v.one_entry;
    ascending = Ascending-append_left rest (reverse bs) (subst Ascending split v.ascending);
  }

abbrev pub Claims : BlockAllocator → Owner → List ℕ → ℕ → Type 0
Claims a owner held n =
    (bs rest : List ℕ) × (take_blocks owner held n a ≡ ok (some bs) (claimed a owner held bs rest))
    × (a.free_blocks ≡ rest ++ reverse bs)
    × (length bs ≡ n)

-- With enough free blocks, blocks are taken from the end of the free list.
pub take_blocks_lem :
    (a : BlockAllocator) (owner : Owner) (held : List ℕ) (n : ℕ)
    → IsValid a
    → n ≤ length a.free_blocks
    → Claims a owner held n
unfolding take_blocks
take_blocks_lem a owner held n v h =
    let (bs, rest, e, split, l) = pop_blocks_lem n a h in
    let a' : BlockAllocator = record a {
      free_blocks = rest;
      allocations = insert owner_dec owner (held ++ bs) a.allocations;
    } in
    (
      bs,
      rest,
      >>=-ok (pop_blocks n) _ e
          ∙ >>=-ok (for_each bs (write_refcount 1)) (λ _ s. ok (some bs) s)
              (for_each-mark a' bs (claimed_InRange a v rest bs split)),
      split,
      l,
    )

get_or-of_some : (xs : List ℕ) (i r : ℕ) → get_elem? xs i ≡ some r → get_or xs i 0 ≡ r
get_or-of_some [] i r h = absurd (ground arith)
get_or-of_some (x ∷ xs) zero r h = ground arith
get_or-of_some (x ∷ xs) (suc i) r h = get_or-of_some xs i r h

-- What `refcount` returns.
pub refcount-references :
    (b : ℕ) (a a' : BlockAllocator) (r : ℕ) → refcount b a ≡ ok r a' → references a b ≡ r
unfolding refcount read_refcount
refcount-references b a a' r e = ground (arith, get_or-of_some a.refcounts b r)
