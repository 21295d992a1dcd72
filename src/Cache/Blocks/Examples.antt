-- ===== src/Cache/Blocks/Examples.antt =====
-- The theorems on `BlockAllocator` at small pools, and test runs of its methods.
use full_inference_engine.Base.{
  ℕ, ◌≡◌, ◌+◌, refl, subst, some, none, List, [], ◌∷◌, ok, raise, arith, value_error, key_error,
  final, lookup, count, length, pos, negsuc, ◌⊎◌, true, false, refute,
}
use full_inference_engine.Cache.Blocks.{
  request, cache_owner, owner_dec, BlockAllocator, make, allocate, attach, release, extend,
  replace_shared, refcount, free_block_count, used_block_count, total_references,
}
use full_inference_engine.Cache.Blocks.Runs.{methods}
use full_inference_engine.Cache.Blocks.Valid.{IsValid, claimed}
use full_inference_engine.Cache.Blocks.Outcomes.{
  Allocates, allocate-Allocates, Extends, extend-Extends,
}
use full_inference_engine.Cache.Blocks.Sharing.{
  may_attach, attached, attach-outcome, released, release-outcome,
}
use full_inference_engine.Cache.Blocks.CopyOnWrite.{Replaces, replace_shared-Replaces}
use full_inference_engine.Cache.Blocks.Accounting.{
  live_blocks, used_block_count-live, slots, total_references-slots, allocate-exclusive,
  release-allocate,
}
use full_inference_engine.Cache.Blocks.History.{
  Call, allocates, attaches, step, run, make-IsValid, run-IsValid,
}

abbrev pool : BlockAllocator
pool = record {
  num_blocks = 4;
  block_size_tokens = 2;
  free_blocks = 0 ∷ 1 ∷ 2 ∷ 3 ∷ [];
  allocations = [];
  refcounts = 0 ∷ 0 ∷ 0 ∷ 0 ∷ [];
}

-- Request "a" holds blocks 3 and 2, and the prefix cache block 3.
abbrev shared_pool : BlockAllocator
shared_pool = record pool {
  free_blocks = 0 ∷ 1 ∷ [];
  allocations = (request "a", 3 ∷ 2 ∷ []) ∷ (cache_owner 0, 3 ∷ []) ∷ [];
  refcounts = 0 ∷ 0 ∷ 1 ∷ 2 ∷ [];
}

abbrev calls : List Call
calls = allocates (request "a") 2 ∷ attaches (cache_owner 0) (3 ∷ []) ∷ []

shared_pool-calls : run pool calls ≡ shared_pool
unfolding methods step run
shared_pool-calls = refl

allocate-run :
    allocate (request "a") 2 pool
    ≡ ok (some (3 ∷ 2 ∷ [])) (run pool (allocates (request "a") 2 ∷ []))
unfolding methods step run
allocate-run = refl

replace_shared_run :
    replace_shared (request "a") (pos 0) shared_pool
    ≡ ok (some (3, 1)) (record shared_pool {
      free_blocks = 0 ∷ [];
      allocations = (request "a", 1 ∷ 2 ∷ []) ∷ (cache_owner 0, 3 ∷ []) ∷ [];
      refcounts = 0 ∷ 1 ∷ 1 ∷ 1 ∷ [];
    })
unfolding methods step run
replace_shared_run = refl

release_twice_run :
    release (request "a") (final (release (request "a") shared_pool))
    ≡ raise key_error (record shared_pool {
      free_blocks = 0 ∷ 1 ∷ 2 ∷ [];
      allocations = (cache_owner 0, 3 ∷ []) ∷ [];
      refcounts = 0 ∷ 0 ∷ 0 ∷ 1 ∷ [];
    })
unfolding methods step run
release_twice_run = refl

refcount_run : refcount 3 shared_pool ≡ ok 2 shared_pool
unfolding methods step run
refcount_run = refl

made : make 4 2 ≡ some pool
unfolding methods step run
made = refl

make-IsValid_example :
    (a : BlockAllocator) × (make 4 2 ≡ some a) × IsValid a × (length a.free_blocks ≡ 4)
make-IsValid_example = make-IsValid 4 2 (omega arith) (omega arith)

pool-IsValid : IsValid pool
pool-IsValid = let (a, e, v, l) = make-IsValid_made in subst IsValid (ground (arith, made)) v
  where
    make-IsValid_made :
        (a : BlockAllocator) × (make 4 2 ≡ some a) × IsValid a × (length a.free_blocks ≡ 4)
    make-IsValid_made = make-IsValid 4 2 (omega arith) (omega arith)

run-IsValid_example : IsValid (run pool calls)
run-IsValid_example = run-IsValid pool calls pool-IsValid

shared_pool-IsValid : IsValid shared_pool
shared_pool-IsValid = subst IsValid shared_pool-calls (run-IsValid pool calls pool-IsValid)

allocate-Allocates_example : Allocates pool (request "a") 2 (allocate (request "a") 2 pool)
allocate-Allocates_example = allocate-Allocates pool (request "a") 2 pool-IsValid

extend-Extends_example : Extends shared_pool (request "a") 1 (extend (request "a") 1 shared_pool)
extend-Extends_example = extend-Extends shared_pool (request "a") 1 shared_pool-IsValid

attach-outcome_example :
    ((may_attach shared_pool (request "b") (2 ∷ []) ≡ false)
      × (attach (request "b") (2 ∷ []) shared_pool ≡ raise value_error shared_pool))
    ⊎ ((may_attach shared_pool (request "b") (2 ∷ []) ≡ true)
        × (attach (request "b") (2 ∷ []) shared_pool
            ≡ ok (2 ∷ []) (attached shared_pool (request "b") (2 ∷ [])))
        × IsValid (attached shared_pool (request "b") (2 ∷ [])))
attach-outcome_example = attach-outcome shared_pool (request "b") (2 ∷ []) shared_pool-IsValid

release-outcome_example :
    ((lookup owner_dec (request "a") shared_pool.allocations ≡ none)
      × (release (request "a") shared_pool ≡ raise key_error shared_pool))
    ⊎ ((bs : List ℕ) × (lookup owner_dec (request "a") shared_pool.allocations ≡ some bs)
        × (release (request "a") shared_pool ≡ ok bs (released shared_pool (request "a") bs))
        × IsValid (released shared_pool (request "a") bs))
release-outcome_example = release-outcome shared_pool (request "a") shared_pool-IsValid

replace_shared-Replaces_example :
    Replaces shared_pool
      (request "a")
      (negsuc 1)
      (replace_shared (request "a") (negsuc 1) shared_pool)
replace_shared-Replaces_example =
    replace_shared-Replaces shared_pool (request "a") (negsuc 1) shared_pool-IsValid

used_block_count-live_example :
    (used_block_count shared_pool ≡ live_blocks shared_pool)
    × (free_block_count shared_pool + used_block_count shared_pool ≡ 4)
used_block_count-live_example = used_block_count-live shared_pool shared_pool-IsValid

total_references-slots_example : total_references shared_pool ≡ slots shared_pool.allocations
total_references-slots_example = total_references-slots shared_pool shared_pool-IsValid

allocate-exclusive_example : count 1 (3 ∷ 2 ∷ []) ≡ 0
unfolding methods claimed
allocate-exclusive_example =
    allocate-exclusive shared_pool (final (allocate (request "b") 1 shared_pool)) (request "b")
      (request "a") 1 (1 ∷ []) (3 ∷ 2 ∷ []) 1 shared_pool-IsValid refl
      (refute (owner_dec (request "b") (request "a")) refl) refl (omega arith)

release-allocate_example :
    release (request "b") (final (allocate (request "b") 1 shared_pool)) ≡ ok (1 ∷ []) shared_pool
unfolding methods step run
release-allocate_example =
    release-allocate shared_pool (final (allocate (request "b") 1 shared_pool)) (request "b") 1
      (1 ∷ []) shared_pool-IsValid refl
