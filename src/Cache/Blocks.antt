-- ===== src/Cache/Blocks.antt =====
-- `BlockAllocator` of engine/cache/allocator.py: refcounted physical blocks. Block ids and counts are
-- naturals: a negative one is refused by the guard that refuses zero, or an id that is too large.
pub mod Loops
pub mod Valid
pub mod Outcomes
pub mod Sharing
pub mod CopyOnWrite
pub mod Accounting
pub mod History
pub mod Runs
mod Examples
use full_inference_engine.Base.{
  ℕ, zero, suc, ◌+◌, ◌-◌, ◌≡◌, refl, Bool, true, false, not, ◌&&◌, ◌||◌, Option, none, some, List,
  [], ◌∷◌, ◌++◌, String, String_discrete, ltb, leb, ◌==◌, if◌then◌else◌, length, get_elem?, set,
  replicate, count, sum, sort, Dict, lookup, insert, erase, is_some, Action, ok, raise, value_error,
  key_error, index_error, pure, throw, ◌>>=◌, ◌>>◌, get, modify, raise_if, for_each, ℕ_discrete,
  ite, ℤ, pos, negsuc, map,
}

-- Who holds blocks: a request under its id, a radix node or an exact entry of the prefix cache.
pub data Owner : Type 0 where
  request : String → Owner
  cache_owner : ℕ → Owner
  exact_owner : ℕ → Owner

pub owner_dec : (o p : Owner) → Dec (o ≡ p)
owner_dec = hlevel (String_discrete, ℕ_discrete)

-- Python's `bool(owner)`: of the owners only the empty text is false.
pub truthy : Owner → Bool
truthy (request name) = ite (String_discrete name "") false true
truthy (cache_owner n) = true
truthy (exact_owner n) = true

pub record BlockAllocator : Type 0 where
  pub num_blocks : ℕ
  pub block_size_tokens : ℕ
  pub free_blocks : List ℕ
  pub allocations : Dict Owner (List ℕ)
  pub refcounts : List ℕ

-- `range(first, first + n)`
abbrev pub range_from : ℕ → ℕ → List ℕ
range_from first zero = []
range_from first (suc n) = first ∷ range_from (suc first) n

-- `BlockAllocator.__init__`; `none` is its `ValueError`.
pub make : ℕ → ℕ → Option BlockAllocator
make num_blocks block_size_tokens =
    if (num_blocks == 0) || (block_size_tokens == 0)
    then none
    else some (record {
      num_blocks = num_blocks;
      block_size_tokens = block_size_tokens;
      free_blocks = range_from 0 num_blocks;
      allocations = [];
      refcounts = replicate num_blocks 0;
    })

-- `list.pop()`: the list without its last element, and that element.
pub pop_last : List ℕ → Option (List ℕ × ℕ)
pop_last [] = none
pop_last (x ∷ []) = some ([], x)
pop_last (x ∷ y ∷ xs) = elim (pop_last (y ∷ xs)) [
  | none ↦ none
  | some (rest, last) ↦ some (x ∷ rest, last)
]

pub pop_free : Action BlockAllocator ℕ
pop_free a = elim (pop_last a.free_blocks) [
  | none ↦ raise index_error a
  | some (rest, last) ↦ ok last (record a { free_blocks = rest })
]

-- `tuple(self._free_blocks.pop() for _ in range(count))`
pub pop_blocks : ℕ → Action BlockAllocator (List ℕ)
pop_blocks zero a = ok [] a
pop_blocks (suc n) a = elim (pop_free a) [
  | raise e a' ↦ raise e a'
  | ok b a' ↦ elim (pop_blocks n a') [ raise e a'' ↦ raise e a'' | ok bs a'' ↦ ok (b ∷ bs) a'' ]
]

-- `self._refcounts[block_id]`
pub read_refcount : ℕ → Action BlockAllocator ℕ
read_refcount b a = elim (get_elem? a.refcounts b) [ none ↦ raise index_error a | some r ↦ ok r a ]

-- `self._refcounts[block_id] = value`
pub write_refcount : ℕ → ℕ → Action BlockAllocator (Unit {0})
write_refcount value b a =
    if ltb b (length a.refcounts)
    then ok tt (record a { refcounts = set a.refcounts b value })
    else raise index_error a

pub add_reference : ℕ → Action BlockAllocator (Unit {0})
add_reference b = do r ← read_refcount b; write_refcount (r + 1) b

-- What `allocate` and `extend` share: take blocks, record them behind those that the owner has, and
-- give each its first reference.
pub take_blocks : Owner → List ℕ → ℕ → Action BlockAllocator (Option (List ℕ))
take_blocks owner held n = do
  block_ids ← pop_blocks n
  modify (λ a. record a { allocations = insert owner_dec owner (held ++ block_ids) a.allocations })
  for_each block_ids (write_refcount 1)
  pure (some block_ids)

pub allocate : Owner → ℕ → Action BlockAllocator (Option (List ℕ))
allocate owner n = do
  raise_if (not (truthy owner) || (n == 0)) value_error
  a ← get
  raise_if (is_some (lookup owner_dec owner a.allocations)) value_error
  if ltb (length a.free_blocks) n then pure none else take_blocks owner [] n

-- `len(set(xs)) != len(xs)`
pub has_duplicates : List ℕ → Bool
has_duplicates [] = false
has_duplicates (x ∷ xs) = not (count x xs == 0) || has_duplicates xs

pub check_live : ℕ → Action BlockAllocator (Unit {0})
check_live b a =
    if ltb b a.num_blocks
    then (do r ← read_refcount b; raise_if (r == 0) value_error) a
    else raise value_error a

abbrev pub is_empty {ℓ} : {A : Type ℓ} → List A → Bool
is_empty [] = true
is_empty (x ∷ xs) = false

pub attach : Owner → List ℕ → Action BlockAllocator (List ℕ)
attach owner block_ids = do
  raise_if (not (truthy owner) || is_empty block_ids) value_error
  a ← get
  raise_if (is_some (lookup owner_dec owner a.allocations)) value_error
  raise_if (has_duplicates block_ids) value_error
  for_each block_ids check_live
  modify (λ a. record a { allocations = insert owner_dec owner block_ids a.allocations })
  for_each block_ids add_reference
  pure block_ids

-- The loop of `release`: drop a reference of each block, and collect those that have none left.
pub drop_references : List ℕ → List ℕ → Action BlockAllocator (List ℕ)
drop_references [] freed a = ok freed a
drop_references (b ∷ bs) freed a = elim (read_refcount b a) [
  | raise e a' ↦ raise e a'
  | ok r a' ↦ elim (write_refcount (r - 1) b a') [
    | raise e a'' ↦ raise e a''
    | ok _ a'' ↦ drop_references bs (if (r - 1) == 0 then freed ++ b ∷ [] else freed) a''
  ]
]

pub release : Owner → Action BlockAllocator (List ℕ)
release owner a = elim (lookup owner_dec owner a.allocations) [
  | none ↦ raise key_error a
  | some block_ids ↦
      (do
        modify (λ a. record a { allocations = erase owner_dec owner a.allocations })
        freed ← drop_references block_ids []
        modify (λ a. record a { free_blocks = sort (a.free_blocks ++ freed) })
        pure block_ids)
        a
]

pub extend : Owner → ℕ → Action BlockAllocator (Option (List ℕ))
extend owner n = do
  raise_if (n == 0) value_error
  a ← get
  elim (lookup owner_dec owner a.allocations) [
    | none ↦ throw key_error
    | some held ↦ if ltb (length a.free_blocks) n then pure none else take_blocks owner held n
  ]

-- `index %= len(blocks)` behind the guard on the range: a negative index counts from the end.
pub normalize_index : ℤ → ℕ → Option ℕ
normalize_index (pos i) len = if ltb i len then some i else none
normalize_index (negsuc i) len = if ltb i len then some (len - suc i) else none

-- The part of `replace_shared` behind its guards on the owner and the index.
pub swap_block : Owner → List ℕ → ℕ → ℕ → Action BlockAllocator (Option (ℕ × ℕ))
swap_block owner blocks i old_block = do
  shared ← read_refcount old_block
  raise_if (leb shared 1) value_error
  a ← get
  if is_empty a.free_blocks then pure none else do
    new_block ← pop_free
    write_refcount 1 new_block
    r ← read_refcount old_block
    write_refcount (r - 1) old_block
    modify (λ a. record a {
      allocations = insert owner_dec owner (set blocks i new_block) a.allocations;
    })
    pure (some (old_block, new_block))

pub replace_shared : Owner → ℤ → Action BlockAllocator (Option (ℕ × ℕ))
replace_shared owner index a = elim (lookup owner_dec owner a.allocations) [
  | none ↦ raise key_error a
  | some blocks ↦ elim (normalize_index index (length blocks)) [
    | none ↦ raise index_error a
    | some i ↦ elim (get_elem? blocks i) [
      | none ↦ raise index_error a
      | some old_block ↦ swap_block owner blocks i old_block a
    ]
  ]
]

pub refcount : ℕ → Action BlockAllocator ℕ
refcount b a = if ltb b a.num_blocks then read_refcount b a else raise index_error a

pub free_block_count : BlockAllocator → ℕ
free_block_count a = length a.free_blocks

pub used_block_count : BlockAllocator → ℕ
used_block_count a = a.num_blocks - free_block_count a

-- `sum(refcount > 1 for refcount in self._refcounts)`
pub shared_block_count : BlockAllocator → ℕ
shared_block_count a = sum (map (λ r. if ltb 1 r then 1 else 0) a.refcounts)

pub total_references : BlockAllocator → ℕ
total_references a = sum a.refcounts
