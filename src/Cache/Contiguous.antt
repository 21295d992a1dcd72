-- ===== src/Cache/Contiguous.antt =====
-- `ContiguousKVAllocator` of engine/cache/allocator.py: one contiguous range of tokens per request,
-- first fit. Token numbers are naturals. `free_tokens` and the like are numbers of tokens; the
-- fragmentation, a float, is given by its numerator and denominator.
pub mod Ranges
pub mod Tiling
mod Examples
use full_inference_engine.Base.{
  ℕ, suc, ◌+◌, ◌-◌, ◌≤◌, max, Bool, true, false, ◌||◌, ◌&&◌, Option, none, some, List, [], ◌∷◌,
  ◌++◌, String, String_discrete, ltb, leb, ◌==◌, if◌then◌else◌, Dict, lookup, insert, erase,
  is_some, Action, ok, raise, value_error, key_error, pure, ◌>>=◌, ◌>>◌, get, modify, raise_if,
  is_yes,
}

-- (start, length)
abbrev pub Range : Type 0
Range = ℕ × ℕ

pub record ContiguousAllocation : Type 0 where
  pub request_id : String
  pub start_token : ℕ
  pub capacity_tokens : ℕ

pub record ContiguousAllocator : Type 0 where
  pub capacity_tokens : ℕ
  pub free_ranges : List Range
  pub allocations : Dict String ContiguousAllocation

-- `none` is the `ValueError`.
pub make : ℕ → Option ContiguousAllocator
make capacity =
    if capacity == 0
    then none
    else some
        (record { capacity_tokens = capacity; free_ranges = (0, capacity) ∷ []; allocations = [] })

-- The loop of `allocate` over the free ranges: the start of the first one that fits, and the ranges with
-- it cut down, or gone if nothing is left of it.
pub first_fit : ℕ → List Range → Option (ℕ × List Range)
first_fit needed [] = none
first_fit needed ((start, len) ∷ ranges) =
    if ltb len needed
    then elim (first_fit needed ranges) [
      | none ↦ none
      | some (found, rest) ↦ some (found, (start, len) ∷ rest)
    ]
    else if (len - needed) == 0
    then some (start, ranges)
    else some (start, (start + needed, len - needed) ∷ ranges)

pub allocate : String → ℕ → Action ContiguousAllocator (Option ContiguousAllocation)
allocate request_id needed = do
  raise_if (is_yes (String_discrete request_id "")) value_error
  raise_if (needed == 0) value_error
  c ← get
  raise_if (is_some (lookup String_discrete request_id c.allocations)) value_error
  elim (first_fit needed c.free_ranges) [
    | none ↦ pure none
    | some (start, ranges) ↦ do
      let allocation : ContiguousAllocation = record {
        request_id = request_id;
        start_token = start;
        capacity_tokens = needed;
      }
      modify (λ c. record c {
        free_ranges = ranges;
        allocations = insert String_discrete request_id allocation c.allocations;
      })
      pure (some allocation)
  ]

-- The order of tuples.
abbrev pub range_before : Range → Range → Bool
range_before r s = ltb r.0 s.0 || ((r.0 == s.0) && ltb r.1 s.1)

pub insert_range : Range → List Range → List Range
insert_range r [] = r ∷ []
insert_range r (s ∷ ranges) = if range_before s r then s ∷ insert_range r ranges else r ∷ s ∷ ranges

-- `self._free_ranges.sort()`
pub sort_ranges : List Range → List Range
sort_ranges [] = []
sort_ranges (r ∷ ranges) = insert_range r (sort_ranges ranges)

-- The loop of `release` over the sorted ranges, with the last element of `merged` in hand.
pub merge_from : Range → List Range → List Range
merge_from (start, len) [] = (start, len) ∷ []
merge_from (start, len) ((next, len') ∷ ranges) = elim ((start + len) == next) [
  | true ↦ merge_from (start, len + len') ranges
  | false ↦ (start, len) ∷ merge_from (next, len') ranges
]

pub merge : List Range → List Range
merge [] = []
merge (r ∷ ranges) = merge_from r ranges

pub release : String → Action ContiguousAllocator ContiguousAllocation
release request_id c = elim (lookup String_discrete request_id c.allocations) [
  | none ↦ raise key_error c
  | some allocation ↦ ok allocation (record c {
    free_ranges =
        merge (
          sort_ranges (c.free_ranges ++ (allocation.start_token, allocation.capacity_tokens) ∷ []));
    allocations = erase String_discrete request_id c.allocations;
  })
]

pub sum_lengths : List Range → ℕ
sum_lengths [] = 0
sum_lengths ((start, len) ∷ ranges) = len + sum_lengths ranges

pub max_length : List Range → ℕ
max_length [] = 0
max_length ((start, len) ∷ ranges) = max len (max_length ranges)

pub free_tokens : ContiguousAllocator → ℕ
free_tokens c = sum_lengths c.free_ranges

pub used_tokens : ContiguousAllocator → ℕ
used_tokens c = c.capacity_tokens - free_tokens c

pub largest_free_range_tokens : ContiguousAllocator → ℕ
largest_free_range_tokens c = max_length c.free_ranges

-- 1 - largest / free as a fraction, and 0 / 1 if nothing is free.
pub external_fragmentation : ContiguousAllocator → ℕ × ℕ
external_fragmentation c =
    if free_tokens c == 0
    then (0, 1)
    else (free_tokens c - largest_free_range_tokens c, free_tokens c)
