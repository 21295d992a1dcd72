-- ===== src/Cache/Blocks/Loops.antt =====
-- What the loops of `BlockAllocator` over block ids compute, when the ids are in range.
use full_inference_engine.Base.{
  ℕ, zero, suc, ◌+◌, ◌-◌, ◌≤◌, ◌<◌, ◌≡◌, refl, ◌∙◌, ap, sym, subst, some, List, [], ◌∷◌, ◌++◌, ltb,
  ◌==◌, if◌then◌else◌, length, get_or, set, count, reverse, ok, for_each, for_each_cons, >>=-ok,
  arith, length-set, get_or-set, get_or_above, get_elem?-get_or, All, Bool-cases, lt→ltb, inl, inr,
  length-append,
}
use mathlib.Core.List.{append_assoc, append-nil, reverse-cons}
use full_inference_engine.Cache.Blocks.{
  BlockAllocator, pop_last, pop_free, pop_blocks, read_refcount, write_refcount, add_reference,
  drop_references,
}

abbrev pub InRange : ℕ → List ℕ → Type 0
InRange n bs = All (λ b. b < n) bs

pub mark : List ℕ → List ℕ → List ℕ
mark rc [] = rc
mark rc (b ∷ bs) = mark (set rc b 1) bs

pub bump : List ℕ → List ℕ → List ℕ
bump rc [] = rc
bump rc (b ∷ bs) = bump (set rc b (get_or rc b 0 + 1)) bs

pub lower : List ℕ → List ℕ → List ℕ
lower rc [] = rc
lower rc (b ∷ bs) = lower (set rc b (get_or rc b 0 - 1)) bs

-- The blocks whose last reference goes.
pub emptied : List ℕ → List ℕ → List ℕ
emptied rc [] = []
emptied rc (b ∷ bs) =
    let rest = emptied (set rc b (get_or rc b 0 - 1)) bs in
    if (get_or rc b 0 - 1) == 0 then b ∷ rest else rest

pub length-mark : (rc bs : List ℕ) → length (mark rc bs) ≡ length rc
unfolding mark
length-mark rc [] = refl
length-mark rc (b ∷ bs) = length-mark (set rc b 1) bs ∙ length-set rc b 1

pub length-bump : (rc bs : List ℕ) → length (bump rc bs) ≡ length rc
unfolding bump
length-bump rc [] = refl
length-bump rc (b ∷ bs) = length-bump (set rc b _) bs ∙ length-set rc b _

pub length-lower : (rc bs : List ℕ) → length (lower rc bs) ≡ length rc
unfolding lower
length-lower rc [] = refl
length-lower rc (b ∷ bs) = length-lower (set rc b _) bs ∙ length-set rc b _

pub get_or-mark :
    (rc bs : List ℕ) (b : ℕ)
    → InRange (length rc) bs
    → get_or (mark rc bs) b 0 ≡ (if count b bs == 0 then get_or rc b 0 else 1)
unfolding mark
get_or-mark rc [] b h = refl
get_or-mark rc (x ∷ bs) b h = ground (
  arith,
  get_or-mark (set rc x 1) bs b (subst (λ n. InRange n bs) (sym (length-set rc x 1)) h.1),
  get_or-set rc x b 1 0 h.0,
)

pub get_or-bump :
    (rc bs : List ℕ) (b : ℕ)
    → InRange (length rc) bs
    → get_or (bump rc bs) b 0 ≡ get_or rc b 0 + count b bs
unfolding bump
get_or-bump rc [] b h = omega arith
get_or-bump rc (x ∷ bs) b h = ground (
  arith,
  get_or-bump (set rc x (get_or rc x 0 + 1)) bs b
      (subst (λ n. InRange n bs) (sym (length-set rc x _)) h.1),
  get_or-set rc x b (get_or rc x 0 + 1) 0 h.0,
)

-- Each block has at least as many references as are dropped.
abbrev pub Covered : List ℕ → List ℕ → Type 0
Covered rc bs = (b : ℕ) → count b bs ≤ get_or rc b 0

Covered-head : (rc bs : List ℕ) (x : ℕ) → Covered rc (x ∷ bs) → x < length rc
Covered-head rc bs x h = elim (Bool-cases (ltb x (length rc))) [
  | inl e ↦ ground arith
  | inr e ↦ absurd (ground (arith, h x, get_or_above rc x 0))
]

Covered-tail :
    (rc bs : List ℕ) (x : ℕ) → Covered rc (x ∷ bs) → Covered (set rc x (get_or rc x 0 - 1)) bs
Covered-tail rc bs x h b =
    ground (arith, h b, get_or-set rc x b (get_or rc x 0 - 1) 0 (Covered-head rc bs x h))

pub get_or-lower :
    (rc bs : List ℕ) (b : ℕ) → Covered rc bs → get_or (lower rc bs) b 0 + count b bs ≡ get_or rc b 0
unfolding lower
get_or-lower rc [] b h = omega arith
get_or-lower rc (x ∷ bs) b h = ground (
  arith,
  h x,
  get_or-lower (set rc x (get_or rc x 0 - 1)) bs b (Covered-tail rc bs x h),
  get_or-set rc x b (get_or rc x 0 - 1) 0 (Covered-head rc bs x h),
)

pub count-emptied :
    (rc bs : List ℕ) (b : ℕ)
    → Covered rc bs
    → count b (emptied rc bs)
      ≡ (if count b bs == 0 then 0 else if get_or rc b 0 == count b bs then 1 else 0)
unfolding emptied
count-emptied rc [] b h = refl
count-emptied rc (x ∷ bs) b h = ground (
  arith,
  h x,
  h b,
  Covered-tail rc bs x h b,
  count-emptied (set rc x (get_or rc x 0 - 1)) bs b (Covered-tail rc bs x h),
  get_or-set rc x b (get_or rc x 0 - 1) 0 (Covered-head rc bs x h),
)

pub write_refcount_lem :
    (a : BlockAllocator) (b v : ℕ)
    → b < length a.refcounts
    → write_refcount v b a ≡ ok tt (record a { refcounts = set a.refcounts b v })
unfolding write_refcount
write_refcount_lem a b v h = rw (lt→ltb b (length a.refcounts) h)

pub for_each-mark :
    (a : BlockAllocator) (bs : List ℕ)
    → InRange (length a.refcounts) bs
    → for_each bs (write_refcount 1) a ≡ ok tt (record a { refcounts = mark a.refcounts bs })
unfolding for_each mark
for_each-mark a [] h = refl
for_each-mark a (x ∷ bs) h =
    for_each_cons x bs (write_refcount 1) a _ (write_refcount_lem a x 1 h.0)
    ∙ for_each-mark (record a { refcounts = set a.refcounts x 1 }) bs
        (subst (λ n. InRange n bs) (sym (length-set a.refcounts x 1)) h.1)

pub read_refcount_lem :
    (a : BlockAllocator) (b : ℕ)
    → b < length a.refcounts
    → read_refcount b a ≡ ok (get_or a.refcounts b 0) a
unfolding read_refcount
read_refcount_lem a b h = rw (get_elem?-get_or a.refcounts b 0 h, read_refcount)

add_reference_lem :
    (a : BlockAllocator) (b : ℕ)
    → b < length a.refcounts
    → add_reference b a
      ≡ ok tt (record a { refcounts = set a.refcounts b (get_or a.refcounts b 0 + 1) })
unfolding add_reference
add_reference_lem a b h =
    >>=-ok (read_refcount b) _ (read_refcount_lem a b h) ∙ write_refcount_lem a b _ h

pub for_each-bump :
    (a : BlockAllocator) (bs : List ℕ)
    → InRange (length a.refcounts) bs
    → for_each bs add_reference a ≡ ok tt (record a { refcounts = bump a.refcounts bs })
unfolding for_each bump
for_each-bump a [] h = refl
for_each-bump a (x ∷ bs) h =
    for_each_cons x bs add_reference a _ (add_reference_lem a x h.0)
    ∙ for_each-bump (record a { refcounts = set a.refcounts x (get_or a.refcounts x 0 + 1) }) bs
        (subst (λ n. InRange n bs) (sym (length-set a.refcounts x _)) h.1)

pub drop_references_lem :
    (a : BlockAllocator) (bs freed : List ℕ)
    → Covered a.refcounts bs
    → drop_references bs freed a
      ≡ ok (freed ++ emptied a.refcounts bs) (record a { refcounts = lower a.refcounts bs })
unfolding drop_references write_refcount lower emptied
drop_references_lem a [] freed h = rw append-nil
drop_references_lem a (x ∷ bs) freed h =
    let x_lt = Covered-head a.refcounts bs x h in
    let r = get_or a.refcounts x 0 in
    let ih = λ (f : List ℕ).
      drop_references_lem (record a { refcounts = set a.refcounts x (r - 1) }) bs f
        (Covered-tail a.refcounts bs x h) in
    rw (read_refcount_lem a x x_lt, drop_references, lt→ltb x (length a.refcounts) x_lt)
      (elim (Bool-cases ((r - 1) == 0)) [
        | inl e ↦ rw (e, ih (freed ++ x ∷ []), append_assoc)
        | inr e ↦ rw (e, ih freed)
      ])

-- `pop_blocks` takes the end of the free list, the last block first.
abbrev pub Popped : BlockAllocator → ℕ → Type 0
Popped a n =
    (bs rest : List ℕ) × (pop_blocks n a ≡ ok bs (record a { free_blocks = rest }))
    × (a.free_blocks ≡ rest ++ reverse bs)
    × (length bs ≡ n)

pop_last_lem :
    (x : ℕ) (xs : List ℕ)
    → (rest : List ℕ) × (last : ℕ) × (pop_last (x ∷ xs) ≡ some (rest, last))
      × (x ∷ xs ≡ rest ++ last ∷ [])
unfolding pop_last
pop_last_lem x [] = ([], x, refl, refl)
pop_last_lem x (y ∷ xs) =
    let (rest, last, e, split) = pop_last_lem y xs in (x ∷ rest, last, rw e, ap (◌∷◌ x) split)

pop_free-pop_last :
    (a : BlockAllocator) (rest : List ℕ) (last : ℕ)
    → pop_last a.free_blocks ≡ some (rest, last)
    → pop_free a ≡ ok last (record a { free_blocks = rest })
unfolding pop_free
pop_free-pop_last a rest last h = rw (h, pop_free)

pub pop_free_lem :
    (a : BlockAllocator)
    → 0 < length a.free_blocks
    → (b : ℕ) × (rest : List ℕ) × (pop_free a ≡ ok b (record a { free_blocks = rest }))
      × (a.free_blocks ≡ rest ++ b ∷ [])
pop_free_lem a h = go a.free_blocks refl
  where
    go :
        (free : List ℕ)
        → a.free_blocks ≡ free
        → (b : ℕ) × (rest : List ℕ) × (pop_free a ≡ ok b (record a { free_blocks = rest }))
          × (a.free_blocks ≡ rest ++ b ∷ [])
    go [] e = absurd (omega (arith, ap length e))
    go (x ∷ xs) e =
        let (rest, last, p, split) = pop_last_lem x xs in
        (last, rest, pop_free-pop_last a rest last (ap pop_last e ∙ p), e ∙ split)

pop_blocks-suc :
    (n : ℕ) (a : BlockAllocator) (b : ℕ) (bs rest rest' : List ℕ)
    → pop_free a ≡ ok b (record a { free_blocks = rest })
    → pop_blocks n (record a { free_blocks = rest }) ≡ ok bs (record a { free_blocks = rest' })
    → pop_blocks (suc n) a ≡ ok (b ∷ bs) (record a { free_blocks = rest' })
unfolding pop_blocks
pop_blocks-suc n a b bs rest rest' e e' = rw (e, pop_blocks, e')

pub pop_blocks_lem : (n : ℕ) (a : BlockAllocator) → n ≤ length a.free_blocks → Popped a n
unfolding pop_blocks
pop_blocks_lem zero a h = ([], a.free_blocks, refl, sym (append-nil a.free_blocks), refl)
pop_blocks_lem (suc n) a h =
    let (b, rest, e, split) = pop_free_lem a (omega arith) in
    let (bs, rest', e', split', l) =
      pop_blocks_lem n (record a { free_blocks = rest })
        (omega (arith, ap length split, length-append rest (b ∷ []))) in
    (
      b ∷ bs,
      rest',
      pop_blocks-suc n a b bs rest rest' e e',
      split
          ∙ ap (λ l. l ++ b ∷ []) split'
          ∙ append_assoc rest' (reverse bs) (b ∷ [])
          ∙ ap (λ l. rest' ++ l) (sym (reverse-cons b bs)),
      omega arith,
    )
