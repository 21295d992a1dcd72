-- ===== src/Cache/Blocks/Sharing.antt =====
-- The operations of `BlockAllocator` on blocks that are in use: `attach`, `release`, `replace_shared`.
use full_inference_engine.Base.{
  ℕ, ◌≡◌, refl, ◌∙◌, ap, none, some, List, [], ◌∷◌, ◌++◌, ltb, ◌==◌, if◌then◌else◌, length, count,
  ok, raise, for_each, >>=-ok, arith, All, Bool-cases, inl, inr, Bool, true, false, ◌&&◌, not, ◌⊎◌,
  lookup, insert, erase, or_nil, get_or_above, count-append, All-of_count, All→count, total-insert,
  total-erase, insert-Distinct, erase-Distinct, is_some, sort, count-sort, sort-Ascending,
  value_error, key_error, Option-cases,
}
use full_inference_engine.Cache.Blocks.{
  Owner, owner_dec, truthy, BlockAllocator, check_live, add_reference, has_duplicates, is_empty,
  drop_references, read_refcount, attach, release,
}
use full_inference_engine.Cache.Blocks.Loops.{
  InRange, Covered, bump, lower, emptied, length-bump, length-lower, get_or-bump, get_or-lower,
  count-emptied, for_each-bump, drop_references_lem, read_refcount_lem,
}
use full_inference_engine.Cache.Blocks.Valid.{references, IsValid}

-- A block that exists and has an owner.
abbrev pub is_live : BlockAllocator → ℕ → Bool
is_live a b = ltb b a.num_blocks && not (references a b == 0)

abbrev pub all_live : BlockAllocator → List ℕ → Bool
all_live a [] = true
all_live a (b ∷ bs) = is_live a b && all_live a bs

check_live_lem :
    (a : BlockAllocator) (b : ℕ)
    → length a.refcounts ≡ a.num_blocks
    → check_live b a ≡ (if is_live a b then ok tt a else raise value_error a)
unfolding check_live
check_live_lem a b h = elim (Bool-cases (ltb b a.num_blocks)) [
  | inl e ↦ rw e (>>=-ok (read_refcount b) _ (read_refcount_lem a b (ground arith)) ∙ ground arith)
  | inr e ↦ rw e
]

for_each-check_live :
    (a : BlockAllocator) (bs : List ℕ)
    → length a.refcounts ≡ a.num_blocks
    → for_each bs check_live a ≡ (if all_live a bs then ok tt a else raise value_error a)
unfolding for_each
for_each-check_live a [] h = refl
for_each-check_live a (b ∷ bs) h = ground (arith, check_live_lem a b h, for_each-check_live a bs h)

All-of_all_live :
    (a : BlockAllocator) (bs : List ℕ) → all_live a bs ≡ true → All (λ b. is_live a b ≡ true) bs
All-of_all_live a [] h = tt
All-of_all_live a (b ∷ bs) h = (ground arith, All-of_all_live a bs (ground arith))

abbrev pub attached : BlockAllocator → Owner → List ℕ → BlockAllocator
attached a owner bs = record a {
  allocations = insert owner_dec owner bs a.allocations;
  refcounts = bump a.refcounts bs;
}

live_InRange :
    (a : BlockAllocator) (bs : List ℕ)
    → IsValid a
    → all_live a bs ≡ true
    → InRange (length a.refcounts) bs
live_InRange a bs v h = All-of_count _ bs (λ b k.
    ground (arith, v.sized, All→count (λ b. is_live a b ≡ true) bs (All-of_all_live a bs h) b k))

pub attached-IsValid :
    (a : BlockAllocator) (owner : Owner) (bs : List ℕ)
    → IsValid a
    → or_nil (lookup owner_dec owner a.allocations) ≡ []
    → all_live a bs ≡ true
    → IsValid (attached a owner bs)
attached-IsValid a owner bs v e h = record {
  some_blocks = v.some_blocks;
  some_tokens = v.some_tokens;
  sized = length-bump a.refcounts bs ∙ v.sized;
  counted = λ b. omega (
    arith,
    total-insert owner_dec b owner bs a.allocations,
    ap (count b) e,
    v.counted b,
    get_or-bump a.refcounts bs b (live_InRange a bs v h),
  );
  free_exact = λ b. ground (
    arith,
    v.free_exact b,
    All→count (λ b. is_live a b ≡ true) bs (All-of_all_live a bs h) b,
    get_or-bump a.refcounts bs b (live_InRange a bs v h),
  );
  one_entry = insert-Distinct owner_dec owner bs a.allocations v.one_entry;
  ascending = v.ascending;
}

-- The guards of `attach` pass.
abbrev pub may_attach : BlockAllocator → Owner → List ℕ → Bool
may_attach a owner bs =
    truthy owner
    && (not (is_empty bs)
        && (not (is_some (lookup owner_dec owner a.allocations))
            && (not (has_duplicates bs) && all_live a bs)))

attach_live :
    (a : BlockAllocator) (owner : Owner) (bs : List ℕ)
    → IsValid a
    → all_live a bs ≡ true
    → for_each bs add_reference (record a { allocations = insert owner_dec owner bs a.allocations })
      ≡ ok tt (attached a owner bs)
attach_live a owner bs v h =
    for_each-bump (record a { allocations = insert owner_dec owner bs a.allocations }) bs
      (live_InRange a bs v h)

pub attach_guards :
    (a : BlockAllocator) (owner : Owner) (bs : List ℕ)
    → IsValid a
    → attach owner bs a
      ≡ (if may_attach a owner bs then ok bs (attached a owner bs) else raise value_error a)
unfolding attach
attach_guards a owner bs v =
    ground (arith, for_each-check_live a bs v.sized, attach_live a owner bs v)

-- On a valid allocator `attach` refuses with `ValueError`, and without a trace, exactly if a guard fails;
-- otherwise each block has one more reference, and the allocator is valid.
pub attach-outcome :
    (a : BlockAllocator) (owner : Owner) (bs : List ℕ)
    → IsValid a
    → ((may_attach a owner bs ≡ false) × (attach owner bs a ≡ raise value_error a))
      ⊎ ((may_attach a owner bs ≡ true)
          × (attach owner bs a ≡ ok bs (attached a owner bs))
          × IsValid (attached a owner bs))
attach-outcome a owner bs v = elim (Bool-cases (may_attach a owner bs)) [
  | inl e ↦ inr (
    e,
    attach_guards a owner bs v ∙ (rw e),
    attached-IsValid a owner bs v (ground arith) (ground arith),
  )
  | inr e ↦ inl (e, attach_guards a owner bs v ∙ (rw e))
]

abbrev pub released : BlockAllocator → Owner → List ℕ → BlockAllocator
released a owner bs = record a {
  free_blocks = sort (a.free_blocks ++ emptied a.refcounts bs);
  allocations = erase owner_dec owner a.allocations;
  refcounts = lower a.refcounts bs;
}

pub held_Covered :
    (a : BlockAllocator) (owner : Owner) (bs : List ℕ)
    → IsValid a
    → lookup owner_dec owner a.allocations ≡ some bs
    → Covered a.refcounts bs
held_Covered a owner bs v e b = omega (
  arith,
  total-erase owner_dec b owner a.allocations,
  ap (λ o. count b (or_nil o)) e,
  v.counted b,
)

pub released-IsValid :
    (a : BlockAllocator) (owner : Owner) (bs : List ℕ)
    → IsValid a
    → lookup owner_dec owner a.allocations ≡ some bs
    → IsValid (released a owner bs)
released-IsValid a owner bs v e =
    let covered = held_Covered a owner bs v e in
    record {
      some_blocks = v.some_blocks;
      some_tokens = v.some_tokens;
      sized = length-lower a.refcounts bs ∙ v.sized;
      counted = λ b. omega (
        arith,
        total-erase owner_dec b owner a.allocations,
        ap (λ o. count b (or_nil o)) e,
        v.counted b,
        get_or-lower a.refcounts bs b covered,
      );
      free_exact = λ b. ground (
        arith,
        count-sort b (a.free_blocks ++ emptied a.refcounts bs),
        count-append b a.free_blocks (emptied a.refcounts bs),
        count-emptied a.refcounts bs b covered,
        get_or-lower a.refcounts bs b covered,
        v.free_exact b,
        v.sized,
        get_or_above a.refcounts b 0,
      );
      one_entry = erase-Distinct owner_dec owner a.allocations v.one_entry;
      ascending = sort-Ascending (a.free_blocks ++ emptied a.refcounts bs);
    }

pub release_held :
    (a : BlockAllocator) (owner : Owner) (bs : List ℕ)
    → IsValid a
    → lookup owner_dec owner a.allocations ≡ some bs
    → release owner a ≡ ok bs (released a owner bs)
unfolding release
release_held a owner bs v e =
    rw (e, release)
      (>>=-ok (drop_references bs [])
        (λ freed s. ok bs (record s { free_blocks = sort (s.free_blocks ++ freed) }))
        (drop_references_lem (record a { allocations = erase owner_dec owner a.allocations }) bs []
          (held_Covered a owner bs v e)))

-- `release` of an unknown owner is a `KeyError`; otherwise the owner is gone, each of its blocks has one
-- reference less, those with none left are free again, and the allocator is valid.
pub release-outcome :
    (a : BlockAllocator) (owner : Owner)
    → IsValid a
    → ((lookup owner_dec owner a.allocations ≡ none) × (release owner a ≡ raise key_error a))
      ⊎ ((bs : List ℕ) × (lookup owner_dec owner a.allocations ≡ some bs)
          × (release owner a ≡ ok bs (released a owner bs))
          × IsValid (released a owner bs))
release-outcome a owner v = elim (Option-cases (lookup owner_dec owner a.allocations)) [
  | inl e ↦ inl (e, unfold release in rw (e, release))
  | inr (bs, e) ↦ inr (bs, e, release_held a owner bs v e, released-IsValid a owner bs v e)
]
