-- ===== src/Cache/Blocks/Outcomes.antt =====
-- Every branch of the operations of `BlockAllocator`, and that each keeps the allocator valid.
use full_inference_engine.Base.{
  ℕ, zero, suc, ◌≤◌, ◌<◌, ◌≡◌, refl, ◌∙◌, ap, sym, subst, Option, none, some, List, [], ◌++◌, ltb,
  ◌==◌, if◌then◌else◌, length, reverse, ok, raise, arith, Bool-cases, ltb→lt, inl, inr, Bool, true,
  false, ◌&&◌, not, ◌⊎◌, lookup, or_nil, is_some, value_error, key_error, Outcome, Option-cases,
}
use full_inference_engine.Cache.Blocks.{
  Owner, owner_dec, truthy, BlockAllocator, take_blocks, allocate, extend,
}
use full_inference_engine.Cache.Blocks.Valid.{IsValid, claimed, claimed-IsValid, take_blocks_lem}

-- The guards of `allocate` pass.
abbrev pub may_allocate : BlockAllocator → Owner → ℕ → Bool
may_allocate a owner n =
    truthy owner && (not (n == 0) && not (is_some (lookup owner_dec owner a.allocations)))

abbrev pub Grants :
    BlockAllocator → Owner → List ℕ → ℕ → Outcome BlockAllocator (Option (List ℕ)) → Type 0
Grants a owner held n result =
    (bs rest : List ℕ) × (result ≡ ok (some bs) (claimed a owner held bs rest))
    × (a.free_blocks ≡ rest ++ reverse bs)
    × (length bs ≡ n)
    × IsValid (claimed a owner held bs rest)

abbrev pub Allocates :
    BlockAllocator → Owner → ℕ → Outcome BlockAllocator (Option (List ℕ)) → Type 0
Allocates a owner n result =
    ((may_allocate a owner n ≡ false) × (result ≡ raise value_error a))
    ⊎ ((may_allocate a owner n ≡ true) × (length a.free_blocks < n) × (result ≡ ok none a))
    ⊎ ((may_allocate a owner n ≡ true) × Grants a owner [] n result)

granted :
    (a : BlockAllocator) (owner : Owner) (held : List ℕ) (n : ℕ)
    → IsValid a
    → or_nil (lookup owner_dec owner a.allocations) ≡ held
    → n ≤ length a.free_blocks
    → Grants a owner held n (take_blocks owner held n a)
granted a owner held n v e h =
    let (bs, rest, taken, split, l) = take_blocks_lem a owner held n v h in
    (bs, rest, taken, split, l, claimed-IsValid a v rest bs split owner held e)

allocate_guards :
    (a : BlockAllocator) (owner : Owner) (n : ℕ)
    → allocate owner n a ≡ (
        if may_allocate a owner n
        then (if ltb (length a.free_blocks) n then ok none a else take_blocks owner [] n a)
        else raise value_error a)
unfolding allocate
allocate_guards a owner n = ground arith

fresh_owner :
    (a : BlockAllocator) (owner : Owner) (n : ℕ)
    → may_allocate a owner n ≡ true
    → or_nil (lookup owner_dec owner a.allocations) ≡ []
fresh_owner a owner n h = ground arith

-- On a valid allocator `allocate` refuses with `ValueError` exactly if a guard fails, returns `None`
-- exactly if too few blocks are free, and otherwise grants `n` blocks off the end of the free list;
-- the allocator that it leaves is valid.
pub allocate-Allocates :
    (a : BlockAllocator) (owner : Owner) (n : ℕ)
    → IsValid a
    → Allocates a owner n (allocate owner n a)
allocate-Allocates a owner n v =
    subst (Allocates a owner n) (sym (allocate_guards a owner n))
      (elim (Bool-cases (may_allocate a owner n)) [
        | inr refused ↦ rw refused (inl (refl, refl))
        | inl passed ↦ elim (Bool-cases (ltb (length a.free_blocks) n)) [
          | inl short ↦ rw (passed, short) (inr (inl (refl, ltb→lt _ _ short, refl)))
          | inr room ↦
              rw (passed, room)
                (inr (
                  inr (refl, granted a owner [] n v (fresh_owner a owner n passed) (ground arith))))
        ]
      ])

abbrev pub Extends : BlockAllocator → Owner → ℕ → Outcome BlockAllocator (Option (List ℕ)) → Type 0
Extends a owner n result =
    ((n ≡ 0) × (result ≡ raise value_error a))
    ⊎ ((0 < n) × (lookup owner_dec owner a.allocations ≡ none) × (result ≡ raise key_error a))
    ⊎ ((0 < n)
        × (is_some (lookup owner_dec owner a.allocations) ≡ true)
        × (length a.free_blocks < n)
        × (result ≡ ok none a))
    ⊎ ((0 < n)
        × (held : List ℕ) × (lookup owner_dec owner a.allocations ≡ some held)
        × Grants a owner held n result)

extend_held :
    (a : BlockAllocator) (owner : Owner) (n : ℕ) (held : List ℕ)
    → 0 < n
    → lookup owner_dec owner a.allocations ≡ some held
    → extend owner n a
      ≡ (if ltb (length a.free_blocks) n then ok none a else take_blocks owner held n a)
unfolding extend
extend_held a owner n held h e = ground arith

-- The same of `extend`: an owner that it does not know is a `KeyError`, and the new blocks stand behind
-- those that the owner holds.
pub extend-Extends :
    (a : BlockAllocator) (owner : Owner) (n : ℕ) → IsValid a → Extends a owner n (extend owner n a)
unfolding extend
extend-Extends a owner zero v = inl (refl, refl)
extend-Extends a owner (suc n) v = elim (Option-cases (lookup owner_dec owner a.allocations)) [
  | inl e ↦ inr (inl (omega arith, e, ground arith))
  | inr (held, e) ↦ elim (Bool-cases (ltb (length a.free_blocks) (suc n))) [
    | inl short ↦ inr (
        inr (
          inl (
            omega arith,
            rw e,
            ltb→lt _ _ short,
            ground (arith, extend_held a owner (suc n) held),
          )))
    | inr room ↦ inr (
        inr (
          inr (
            omega arith,
            held,
            e,
            subst (Grants a owner held (suc n))
                (sym (extend_held a owner (suc n) held (omega arith) e ∙ (rw room)))
                (granted a owner held (suc n) v (ap or_nil e) (ground arith)),
          )))
  ]
]
