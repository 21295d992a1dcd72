-- ===== src/Cache/Blocks/History.antt =====
-- Sequences of calls on a `BlockAllocator`, from its construction.
use full_inference_engine.Base.{
  ℕ, zero, suc, ◌+◌, ◌≤◌, ◌<◌, ◌≡◌, refl, ap, sym, subst, some, List, [], ◌∷◌, ltb, if◌then◌else◌,
  length, get_or, count, arith, inl, inr, final, ℤ, get_or-replicate, length-replicate, replicate,
  Ascending, All,
}
use full_inference_engine.Cache.Blocks.{
  Owner, BlockAllocator, range_from, make, allocate, attach, release, extend, replace_shared,
}
use full_inference_engine.Cache.Blocks.Valid.{IsValid}
use full_inference_engine.Cache.Blocks.Outcomes.{allocate-Allocates, extend-Extends}
use full_inference_engine.Cache.Blocks.Sharing.{attach-outcome, release-outcome}
use full_inference_engine.Cache.Blocks.CopyOnWrite.{replace_shared-Replaces}

count-range_from :
    (b first n : ℕ)
    → count b (range_from first n) ≡ (if ltb b first then 0 else if ltb b (first + n) then 1 else 0)
count-range_from b first zero = ground arith
count-range_from b first (suc n) = ground (arith, count-range_from b (suc first) n)

All-range_from : (k first n : ℕ) → k ≤ first → All (λ b. k ≤ b) (range_from first n)
All-range_from k first zero h = tt
All-range_from k first (suc n) h = (h, All-range_from k (suc first) n (omega arith))

length-range_from : (first n : ℕ) → length (range_from first n) ≡ n
length-range_from first zero = refl
length-range_from first (suc n) = ap suc (length-range_from (suc first) n)

range_from-Ascending : (first n : ℕ) → Ascending (range_from first n)
range_from-Ascending first zero = tt
range_from-Ascending first (suc n) =
    (All-range_from first (suc first) n (omega arith), range_from-Ascending (suc first) n)

-- From positive numbers the constructor builds a valid allocator, all of whose blocks are free.
pub make-IsValid :
    (num_blocks block_size : ℕ)
    → 0 < num_blocks
    → 0 < block_size
    → (a : BlockAllocator) × (make num_blocks block_size ≡ some a)
      × IsValid a
      × (length a.free_blocks ≡ num_blocks)
unfolding make
make-IsValid num_blocks block_size h k = (
  record {
    num_blocks = num_blocks;
    block_size_tokens = block_size;
    free_blocks = range_from 0 num_blocks;
    allocations = [];
    refcounts = replicate num_blocks 0;
  },
  ground arith,
  record {
    some_blocks = h;
    some_tokens = k;
    sized = length-replicate num_blocks 0;
    counted = λ b. sym (get_or-replicate num_blocks b 0);
    free_exact = λ b.
        let zero_count : get_or (replicate {A = ℕ} num_blocks 0) b 0 ≡ 0 =
          get_or-replicate num_blocks b 0 in
        ground (arith, count-range_from b 0 num_blocks, zero_count);
    one_entry = tt;
    ascending = range_from-Ascending 0 num_blocks;
  },
  length-range_from 0 num_blocks,
)

pub data Call : Type 0 where
  allocates : Owner → ℕ → Call
  attaches : Owner → List ℕ → Call
  releases : Owner → Call
  extends : Owner → ℕ → Call
  replaces : Owner → ℤ → Call

-- The allocator after a call, whether the call returned or raised.
unfoldable pub step : BlockAllocator → Call → BlockAllocator
step a (allocates owner n) = final (allocate owner n a)
step a (attaches owner bs) = final (attach owner bs a)
step a (releases owner) = final (release owner a)
step a (extends owner n) = final (extend owner n a)
step a (replaces owner index) = final (replace_shared owner index a)

unfoldable pub run : BlockAllocator → List Call → BlockAllocator
run a [] = a
run a (c ∷ cs) = run (step a c) cs

IsValid-at : {a b : BlockAllocator} → IsValid a → b ≡ a → IsValid b
IsValid-at v e = subst IsValid (sym e) v

pub step-IsValid : (a : BlockAllocator) (c : Call) → IsValid a → IsValid (step a c)
unfolding step
step-IsValid a (allocates owner n) v = elim (allocate-Allocates a owner n v) [
  | inl (_, e) ↦ IsValid-at v (ap final e)
  | inr (inl (_, _, e)) ↦ IsValid-at v (ap final e)
  | inr (inr (_, (bs, rest, e, _, _, w))) ↦ IsValid-at w (ap final e)
]
step-IsValid a (attaches owner bs) v = elim (attach-outcome a owner bs v) [
  | inl (_, e) ↦ IsValid-at v (ap final e)
  | inr (_, e, w) ↦ IsValid-at w (ap final e)
]
step-IsValid a (releases owner) v = elim (release-outcome a owner v) [
  | inl (_, e) ↦ IsValid-at v (ap final e)
  | inr (bs, _, e, w) ↦ IsValid-at w (ap final e)
]
step-IsValid a (extends owner n) v = elim (extend-Extends a owner n v) [
  | inl (_, e) ↦ IsValid-at v (ap final e)
  | inr (inl (_, _, e)) ↦ IsValid-at v (ap final e)
  | inr (inr (inl (_, _, _, e))) ↦ IsValid-at v (ap final e)
  | inr (inr (inr (_, held, _, (bs, rest, e, _, _, w)))) ↦ IsValid-at w (ap final e)
]
step-IsValid a (replaces owner index) v = elim (replace_shared-Replaces a owner index v) [
  | inl (_, e) ↦ IsValid-at v (ap final e)
  | inr (inl (_, _, _, e)) ↦ IsValid-at v (ap final e)
  | inr (inr (blocks, i, old, _, _, _, slot)) ↦ elim slot [
    | inl (_, e) ↦ IsValid-at v (ap final e)
    | inr (inl (_, _, e)) ↦ IsValid-at v (ap final e)
    | inr (inr (_, new, rest, _, e, w)) ↦ IsValid-at w (ap final e)
  ]
]

-- Whatever is called, in whatever order, and whether or not the calls raise: every refcount is the
-- number of slots that hold the block, and the free list holds exactly the blocks that nobody holds.
pub run-IsValid : (a : BlockAllocator) (cs : List Call) → IsValid a → IsValid (run a cs)
unfolding run
run-IsValid a [] v = v
run-IsValid a (c ∷ cs) v = run-IsValid (step a c) cs (step-IsValid a c v)
