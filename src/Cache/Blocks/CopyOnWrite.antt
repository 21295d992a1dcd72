-- ===== src/Cache/Blocks/CopyOnWrite.antt =====
-- `BlockAllocator.replace_shared`: every branch, and that the allocator stays valid.
use full_inference_engine.Base.{
  ℕ, zero, suc, ◌+◌, ◌-◌, ◌≤◌, ◌<◌, ◌≡◌, refl, ◌∙◌, ap, subst, Option, none, some, List, [], ◌∷◌,
  ◌++◌, ltb, leb, ◌==◌, if◌then◌else◌, length, get_elem?, get_or, set, count, ok, raise, arith,
  Bool-cases, inl, inr, false, ◌⊎◌, length-append, lookup, insert, or_nil, get_or_above,
  count-append, total-insert, insert-Distinct, value_error, key_error, index_error, Outcome,
  Option-cases, get_or-set, length-set, ltb→lt, ℤ, pos, total-erase, Ascending, negsuc, count-set,
  Ascending-append_left, get_elem?-get_or,
}
use full_inference_engine.Cache.Blocks.{
  Owner, owner_dec, BlockAllocator, pop_free, normalize_index, swap_block, replace_shared,
}
use full_inference_engine.Cache.Blocks.Loops.{pop_free_lem, read_refcount_lem, write_refcount_lem}
use full_inference_engine.Cache.Blocks.Valid.{references, IsValid}

-- Slot `i` of the owner holds `new` instead of `old`.
abbrev pub swapped : BlockAllocator → Owner → List ℕ → ℕ → ℕ → ℕ → List ℕ → BlockAllocator
swapped a owner blocks i old new rest = record a {
  free_blocks = rest;
  allocations = insert owner_dec owner (set blocks i new) a.allocations;
  refcounts = set (set a.refcounts new 1) old (references a old - 1);
}

module _ (a : BlockAllocator) (v : IsValid a) (owner : Owner) (blocks : List ℕ) (i old : ℕ)
    (held : lookup owner_dec owner a.allocations ≡ some blocks)
    (slot : get_elem? blocks i ≡ some old) where
  old_below : 0 < references a old → old < length a.refcounts
  old_below h = elim (Bool-cases (ltb old (length a.refcounts))) [
    | inl e ↦ ltb→lt _ _ e
    | inr e ↦ absurd (ground (arith, get_or_above a.refcounts old 0))
  ]

  module _ (shared : 1 < references a old) (new : ℕ) (rest : List ℕ)
      (split : a.free_blocks ≡ rest ++ new ∷ []) where
    free_count : (b : ℕ) → count b a.free_blocks ≡ count b rest + (if new == b then 1 else 0)
    free_count b = omega (arith, ap (count b) split, count-append b rest (new ∷ []))

    -- The new block was free, so it is not the old one.
    new_free : (new < length a.refcounts) × (references a new ≡ 0) × ((old == new) ≡ false)
    new_free = ground (arith, free_count new, v.free_exact new, v.sized)

    swapped_refcount :
        (b : ℕ)
        → references (swapped a owner blocks i old new rest) b
          ≡ (if old == b then references a old - 1 else if new == b then 1 else references a b)
    swapped_refcount b =
        get_or-set (set a.refcounts new 1) old b (references a old - 1) 0
          (omega (arith, length-set a.refcounts new 1, old_below (omega arith)))
        ∙ ap (λ r. if old == b then references a old - 1 else r)
            (get_or-set a.refcounts new b 1 0 new_free.0)

    pub swapped-IsValid : IsValid (swapped a owner blocks i old new rest)
    swapped-IsValid = record {
      some_blocks = v.some_blocks;
      some_tokens = v.some_tokens;
      sized = length-set (set a.refcounts new 1) old _ ∙ length-set a.refcounts new 1 ∙ v.sized;
      counted = λ b. ground (
        arith,
        swapped_refcount b,
        total-insert owner_dec b owner (set blocks i new) a.allocations,
        ap (λ o. count b (or_nil o)) held,
        count-set b blocks i old new slot,
        v.counted b,
        new_free,
      );
      free_exact = λ b. ground (arith, swapped_refcount b, v.free_exact b, free_count b, new_free);
      one_entry = insert-Distinct owner_dec owner (set blocks i new) a.allocations v.one_entry;
      ascending = Ascending-append_left rest (new ∷ []) (subst Ascending split v.ascending);
    }

    swap_granted :
        pop_free a ≡ ok new (record a { free_blocks = rest })
        → swap_block owner blocks i old a
          ≡ ok (some (old, new)) (swapped a owner blocks i old new rest)
    unfolding swap_block
    swap_granted popped =
        let a1 : BlockAllocator = record a { free_blocks = rest } in
        let a2 : BlockAllocator = record a1 { refcounts = set a.refcounts new 1 } in
        let old_lt : old < length (set a.refcounts new 1) =
          omega (arith, length-set a.refcounts new 1, old_below (omega arith)) in
        let kept : get_or (set a.refcounts new 1) old 0 ≡ references a old =
          ground (arith, get_or-set a.refcounts new old 1 0 new_free.0, new_free) in
        ground (
          arith,
          read_refcount_lem a old (old_below (omega arith)),
          popped,
          write_refcount_lem a1 new 1 new_free.0,
          read_refcount_lem a2 old old_lt,
          write_refcount_lem a2 old (references a old - 1) old_lt,
          kept,
          ap length split,
          length-append rest (new ∷ []),
        )

-- What happens once the slot is found.
abbrev pub Slot :
    BlockAllocator → Owner → List ℕ → ℕ → ℕ → Outcome BlockAllocator (Option (ℕ × ℕ)) → Type 0
Slot a owner blocks i old result =
    ((references a old ≤ 1) × (result ≡ raise value_error a))
    ⊎ ((1 < references a old) × (a.free_blocks ≡ []) × (result ≡ ok none a))
    ⊎ ((1 < references a old)
        × (new : ℕ) × (rest : List ℕ) × (a.free_blocks ≡ rest ++ new ∷ [])
        × (result ≡ ok (some (old, new)) (swapped a owner blocks i old new rest))
        × IsValid (swapped a owner blocks i old new rest))

abbrev pub Replaces : BlockAllocator → Owner → ℤ → Outcome BlockAllocator (Option (ℕ × ℕ)) → Type 0
Replaces a owner index result =
    ((lookup owner_dec owner a.allocations ≡ none) × (result ≡ raise key_error a))
    ⊎ ((blocks : List ℕ) × (lookup owner_dec owner a.allocations ≡ some blocks)
        × (normalize_index index (length blocks) ≡ none)
        × (result ≡ raise index_error a))
    ⊎ ((blocks : List ℕ) × (i : ℕ) × (old : ℕ) × (lookup owner_dec owner a.allocations
          ≡ some blocks)
        × (normalize_index index (length blocks) ≡ some i)
        × (get_elem? blocks i ≡ some old)
        × Slot a owner blocks i old result)

normalize_index-lt : (index : ℤ) (len i : ℕ) → normalize_index index len ≡ some i → i < len
unfolding normalize_index
normalize_index-lt (pos j) len i h = ground arith
normalize_index-lt (negsuc j) len i h = ground arith

List-cases : (xs : List ℕ) → (xs ≡ []) ⊎ (0 < length xs)
List-cases [] = inl refl
List-cases (x ∷ xs) = inr (omega arith)

swap_refused :
    (a : BlockAllocator) (owner : Owner) (blocks : List ℕ) (i old : ℕ)
    → old < length a.refcounts
    → ((references a old ≤ 1) ⊎ (a.free_blocks ≡ []))
    → swap_block owner blocks i old a
      ≡ (if leb (references a old) 1 then raise value_error a else ok none a)
unfolding swap_block
swap_refused a owner blocks i old h why = ground (arith, read_refcount_lem a old h)

swap_block-Slot :
    (a : BlockAllocator) (owner : Owner) (blocks : List ℕ) (i old : ℕ)
    → IsValid a
    → lookup owner_dec owner a.allocations ≡ some blocks
    → get_elem? blocks i ≡ some old
    → old < length a.refcounts
    → Slot a owner blocks i old (swap_block owner blocks i old a)
swap_block-Slot a owner blocks i old v held slot h = elim (Bool-cases (leb (references a old) 1)) [
  | inl few ↦
      inl (ground arith, swap_refused a owner blocks i old h (inl (ground arith)) ∙ (rw few))
  | inr shared ↦ elim (List-cases a.free_blocks) [
    | inl none_free ↦ inr (
        inl (
          ground arith,
          none_free,
          swap_refused a owner blocks i old h (inr none_free) ∙ (rw shared),
        ))
    | inr some_free ↦
        let (new, rest, popped, split) = pop_free_lem a some_free in
        let many : 1 < references a old = ground arith in
        inr (
          inr (
            many,
            new,
            rest,
            split,
            swap_granted a v owner blocks i old held slot many new rest split popped,
            swapped-IsValid a v owner blocks i old held slot many new rest split,
          ))
  ]
]

count_of_get_elem? : (xs : List ℕ) (i x : ℕ) → get_elem? xs i ≡ some x → 0 < count x xs
count_of_get_elem? [] i x h = absurd (ground arith)
count_of_get_elem? (y ∷ xs) zero x h = ground arith
count_of_get_elem? (y ∷ xs) (suc i) x h = omega (arith, count_of_get_elem? xs i x h)

-- A block that somebody holds has a refcount.
held_below :
    (a : BlockAllocator) (owner : Owner) (blocks : List ℕ) (i old : ℕ)
    → IsValid a
    → lookup owner_dec owner a.allocations ≡ some blocks
    → get_elem? blocks i ≡ some old
    → old < length a.refcounts
held_below a owner blocks i old v held slot = elim (Bool-cases (ltb old (length a.refcounts))) [
  | inl e ↦ ltb→lt _ _ e
  | inr e ↦ absurd (
      ground (
        arith,
        get_or_above a.refcounts old 0,
        v.counted old,
        total-erase owner_dec old owner a.allocations,
        ap (λ o. count old (or_nil o)) held,
        count_of_get_elem? blocks i old slot,
      ))
]

-- On a valid allocator `replace_shared` refuses an unknown owner, a bad index and a block with one
-- owner, each with its error and without a trace; it returns `None` if no block is free; and otherwise
-- it moves one reference from the old block to the last free one, and leaves a valid allocator.
pub replace_shared-Replaces :
    (a : BlockAllocator) (owner : Owner) (index : ℤ)
    → IsValid a
    → Replaces a owner index (replace_shared owner index a)
unfolding replace_shared
replace_shared-Replaces a owner index v =
    elim (Option-cases (lookup owner_dec owner a.allocations)) [
      | inl e ↦ rw (e, replace_shared) (inl (refl, refl))
      | inr (blocks, e) ↦ elim (Option-cases (normalize_index index (length blocks))) [
        | inl out ↦ inr (inl (blocks, e, out, ground arith))
        | inr (i, inside) ↦
            let (old, slot) = found blocks i (normalize_index-lt index (length blocks) i inside) in
            let body =
              swap_block-Slot a owner blocks i old v e slot
                (held_below a owner blocks i old v e slot) in
            inr (
              inr (
                blocks,
                i,
                old,
                e,
                inside,
                slot,
                subst (Slot a owner blocks i old) (ground arith) body,
              ))
      ]
    ]
  where
    found : (xs : List ℕ) (i : ℕ) → i < length xs → (x : ℕ) × (get_elem? xs i ≡ some x)
    found xs i h = (get_or xs i 0, get_elem?-get_or xs i 0 h)

-- Index -1 is the last slot.
pub normalize_index-last : (len i : ℕ) → len ≡ suc i → normalize_index (negsuc 0) len ≡ some i
unfolding normalize_index
normalize_index-last len i h = ground arith
