-- ===== src/Cache/Blocks/Accounting.antt =====
-- What the counters of `BlockAllocator` report, who shares what, and that `release` undoes `allocate`.
use full_inference_engine.Base.{
  ℕ, zero, suc, ◌+◌, ◌<◌, ◌≡◌, refl, ◌∙◌, ap, sym, subst, none, some, List, [], ◌∷◌, ◌++◌, ltb,
  ◌==◌, if◌then◌else◌, length, count, sum, map, ltb→lt, ok, reverse, arith, Bool-cases, inl, inr,
  ◌≢◌, All, All-of_count, Dict, lookup, total, or_nil, get_or_above, count-append, count-reverse,
  total-erase, lookup-insert_self, lookup-insert_ne, erase-insert, sort, count-sort, sort-Ascending,
}
use full_inference_engine.Base.Sums.{
  sum_below, sum_below_congr, sum_below_add, sum_below_zero, sum_below-count, sum_below-get_or,
  eq_of_get_or, eq_of_Ascending,
}
use full_inference_engine.Cache.Blocks.{
  Owner, owner_dec, BlockAllocator, allocate, release, free_block_count, used_block_count,
  total_references,
}
use full_inference_engine.Cache.Blocks.Loops.{
  mark, lower, emptied, length-mark, length-lower, get_or-mark, get_or-lower, count-emptied,
}
use full_inference_engine.Cache.Blocks.Valid.{references, IsValid, claimed, claimed_InRange}
use full_inference_engine.Cache.Blocks.Outcomes.{Allocates, allocate-Allocates}
use full_inference_engine.Cache.Blocks.Sharing.{released, held_Covered, release_held}

free_below : (a : BlockAllocator) → IsValid a → All (λ b. b < a.num_blocks) a.free_blocks
free_below a v = All-of_count _ a.free_blocks (λ b h. ground (arith, v.free_exact b))

-- The number of blocks with an owner.
abbrev pub live_blocks : BlockAllocator → ℕ
live_blocks a = sum (map (λ r. if r == 0 then 0 else 1) a.refcounts)

sum_below_const : (n : ℕ) → sum_below n (λ b. 1) ≡ n
unfolding sum_below
sum_below_const zero = refl
sum_below_const (suc n) = omega (arith, sum_below_const n)

free_add_live :
    (a : BlockAllocator) → IsValid a → length a.free_blocks + live_blocks a ≡ a.num_blocks
free_add_live a v =
    let n = a.num_blocks in
    let free : sum_below n (λ b. count b a.free_blocks) ≡ length a.free_blocks =
      sum_below-count n a.free_blocks (free_below a v) in
    let live : sum_below n (λ b. if references a b == 0 then 0 else 1) ≡ live_blocks a =
      subst (λ (k : ℕ). sum_below k (λ b. if references a b == 0 then 0 else 1) ≡ live_blocks a)
        v.sized (sum_below-get_or (λ r. if r == 0 then 0 else 1) a.refcounts) in
    let each : sum_below n (λ b. count b a.free_blocks + (if references a b == 0 then 0 else 1))
        ≡ sum_below n (λ b. 1) =
      sum_below_congr n _ _ (λ b h. ground (arith, v.free_exact b)) in
    omega (
      arith,
      free,
      live,
      each,
      sum_below_add n (λ b. count b a.free_blocks) (λ b. if references a b == 0 then 0 else 1),
      sum_below_const n,
    )

-- `used_block_count` is the number of blocks that somebody holds, and with the free ones they are all.
pub used_block_count-live :
    (a : BlockAllocator)
    → IsValid a
    → (used_block_count a ≡ live_blocks a)
      × (free_block_count a + used_block_count a ≡ a.num_blocks)
unfolding used_block_count free_block_count
used_block_count-live a v = omega (arith, free_add_live a v)

abbrev pub slots : Dict Owner (List ℕ) → ℕ
slots [] = 0
slots ((o, bs) ∷ d) = length bs + slots d

abbrev AllBelow : ℕ → Dict Owner (List ℕ) → Type 0
AllBelow n [] = Unit {0}
AllBelow n ((o, bs) ∷ d) = All (λ b. b < n) bs × AllBelow n d

sum_below-total :
    (n : ℕ) (d : Dict Owner (List ℕ)) → AllBelow n d → sum_below n (λ b. total b d) ≡ slots d
sum_below-total n [] h = sum_below_zero n
sum_below-total n ((o, bs) ∷ d) h = omega (
  arith,
  sum_below_add n (λ b. count b bs) (λ b. total b d),
  sum_below-count n bs h.0,
  sum_below-total n d h.1,
)

AllBelow-of_total :
    (n : ℕ) (d : Dict Owner (List ℕ)) → ((b : ℕ) → 0 < total b d → b < n) → AllBelow n d
AllBelow-of_total n [] h = tt
AllBelow-of_total n ((o, bs) ∷ d) h = (
  All-of_count (λ b. b < n) bs (λ b k. h b (omega arith)),
  AllBelow-of_total n d (λ b k. h b (omega arith)),
)

below_of_count :
    (a : BlockAllocator) → IsValid a → (b : ℕ) → 0 < total b a.allocations → b < length a.refcounts
below_of_count a v b h = elim (Bool-cases (ltb b (length a.refcounts))) [
  | inl e ↦ ltb→lt _ _ e
  | inr e ↦ absurd (ground (arith, get_or_above a.refcounts b 0, v.counted b))
]

map_id : (xs : List ℕ) → sum (map (λ r. r) xs) ≡ sum xs
map_id [] = refl
map_id (x ∷ xs) = omega (arith, map_id xs)

-- `total_references` is the number of slots in all allocations.
pub total_references-slots :
    (a : BlockAllocator) → IsValid a → total_references a ≡ slots a.allocations
unfolding total_references
total_references-slots a v =
    let n = length a.refcounts in
    omega (
      arith,
      sum_below-total n a.allocations (AllBelow-of_total n a.allocations (below_of_count a v)),
      sum_below_congr n (λ b. total b a.allocations) (λ b. references a b) (λ b h. v.counted b),
      sum_below-get_or (λ r. r) a.refcounts,
      map_id a.refcounts,
    )

-- What a grant tells of the state before and after.
granted_inv :
    (a a' : BlockAllocator) (owner : Owner) (n : ℕ) (bs : List ℕ)
    → IsValid a
    → allocate owner n a ≡ ok (some bs) a'
    → (rest : List ℕ) × (a' ≡ claimed a owner [] bs rest)
      × (a.free_blocks ≡ rest ++ reverse bs)
      × (lookup owner_dec owner a.allocations ≡ none)
      × IsValid (claimed a owner [] bs rest)
granted_inv a a' owner n bs v e = go (allocate-Allocates a owner n v)
  where
    go :
        Allocates a owner n (allocate owner n a)
        → (rest : List ℕ) × (a' ≡ claimed a owner [] bs rest)
          × (a.free_blocks ≡ rest ++ reverse bs)
          × (lookup owner_dec owner a.allocations ≡ none)
          × IsValid (claimed a owner [] bs rest)
    go (inl refused) = absurd (ground arith)
    go (inr (inl short)) = absurd (ground arith)
    go (inr (inr (passed, (bs', rest, granted, split, l, valid)))) =
        let same : bs' ≡ bs = ground arith in
        (
          rest,
          ground arith,
          split ∙ ap (λ l. rest ++ reverse l) same,
          ground arith,
          subst (λ l. IsValid (claimed a owner [] l rest)) same valid,
        )

-- No other owner holds a block that `allocate` has just handed out.
pub allocate-exclusive :
    (a a' : BlockAllocator) (owner other : Owner) (n : ℕ) (bs cs : List ℕ) (b : ℕ)
    → IsValid a
    → allocate owner n a ≡ ok (some bs) a'
    → owner ≢ other
    → lookup owner_dec other a'.allocations ≡ some cs
    → 0 < count b bs
    → count b cs ≡ 0
allocate-exclusive a a' owner other n bs cs b v e distinct held stands =
    let (rest, after, split, absent, _) = granted_inv a a' owner n bs v e in
    let before : lookup owner_dec other a.allocations ≡ some cs =
      sym (lookup-insert_ne owner_dec owner other bs a.allocations distinct)
      ∙ ap (λ s. lookup owner_dec other s.allocations) (sym after)
      ∙ held in
    ground (
      arith,
      ap (count b) split,
      count-append b rest (reverse bs),
      count-reverse b bs,
      v.free_exact b,
      v.counted b,
      total-erase owner_dec b other a.allocations,
      ap (λ o. count b (or_nil o)) before,
    )

module _ (a : BlockAllocator) (owner : Owner) (bs rest : List ℕ) (v : IsValid a)
    (split : a.free_blocks ≡ rest ++ reverse bs)
    (absent : lookup owner_dec owner a.allocations ≡ none)
    (w : IsValid (claimed a owner [] bs rest)) where
  granted_held : lookup owner_dec owner (claimed a owner [] bs rest).allocations ≡ some bs
  granted_held = lookup-insert_self owner_dec owner bs a.allocations

  marked :
      (b : ℕ)
      → references (claimed a owner [] bs rest) b ≡ (if count b bs == 0 then references a b else 1)
  marked b = get_or-mark a.refcounts bs b (claimed_InRange a v rest bs split)

  free_counts : (b : ℕ) → count b a.free_blocks ≡ count b rest + count b bs
  free_counts b =
      omega (arith, ap (count b) split, count-append b rest (reverse bs), count-reverse b bs)

  refcounts_back : lower (mark a.refcounts bs) bs ≡ a.refcounts
  refcounts_back =
      eq_of_get_or _ _ (length-lower (mark a.refcounts bs) bs ∙ length-mark a.refcounts bs) λ b.
        ground (
          arith,
          marked b,
          free_counts b,
          v.free_exact b,
          get_or-lower (mark a.refcounts bs) bs b (held_Covered _ owner bs w granted_held),
        )

  free_back : sort (rest ++ emptied (mark a.refcounts bs) bs) ≡ a.free_blocks
  free_back = eq_of_Ascending _ _ (sort-Ascending _) v.ascending λ b. ground (
    arith,
    count-sort b (rest ++ emptied (mark a.refcounts bs) bs),
    count-append b rest (emptied (mark a.refcounts bs) bs),
    count-emptied (mark a.refcounts bs) bs b (held_Covered _ owner bs w granted_held),
    marked b,
    free_counts b,
    v.free_exact b,
  )

  undone : released (claimed a owner [] bs rest) owner bs ≡ a
  undone i = record a {
    free_blocks = free_back i;
    allocations = erase-insert owner_dec owner bs a.allocations absent i;
    refcounts = refcounts_back i;
  }

-- To release what `allocate` has just granted gives back the allocator as it was, to the last field.
pub release-allocate :
    (a a' : BlockAllocator) (owner : Owner) (n : ℕ) (bs : List ℕ)
    → IsValid a
    → allocate owner n a ≡ ok (some bs) a'
    → release owner a' ≡ ok bs a
release-allocate a a' owner n bs v e =
    let (rest, after, split, absent, w) = granted_inv a a' owner n bs v e in
    ap (release owner) after
    ∙ release_held _ owner bs w (lookup-insert_self owner_dec owner bs a.allocations)
    ∙ ap (ok bs) (undone a owner bs rest v split absent w)
