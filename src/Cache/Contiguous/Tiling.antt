-- ===== src/Cache/Contiguous/Tiling.antt =====
-- Free ranges and allocations tile the capacity of a contiguous allocator, in every branch of
-- `allocate` and `release` of engine/cache/allocator.py.
use full_inference_engine.Base.{
  ℕ, ◌+◌, ◌≤◌, ◌<◌, ◌≡◌, refl, ◌∙◌, sym, ◌≢◌, ◌⊎◌, inl, inr, Option, none, some, List, [], ◌∷◌,
  ◌++◌, String, String_discrete, Dict, ltb, if◌then◌else◌, Distinct, lookup, insert, erase, ok,
  Outcome, lookup-insert, lookup-erase_ne, lookup-erase_self, insert-Distinct, erase-Distinct,
  Option-cases, All-append, arith,
}
use full_inference_engine.Cache.Contiguous.{
  Range, ContiguousAllocation, ContiguousAllocator, make, first_fit, allocate, release, sort_ranges,
  merge, largest_free_range_tokens,
}
use full_inference_engine.Cache.Contiguous.Ranges.{
  covers, cover, NonEmpty, IsSeparated, IsDisjoint, cover-append, first_fit-none, first_fit-Fits,
  first_fit-NonEmpty, first_fit-IsSeparated, cover-sort_ranges, sort_ranges-NonEmpty,
  sort_ranges-IsOrdered, cover-merge, merge-NonEmpty, merge-IsSeparated,
}

-- How many of the allocations hold token `b`.
abbrev pub held : ℕ → Dict String ContiguousAllocation → ℕ
held b [] = 0
held b ((id, t) ∷ d) = covers b t.start_token t.capacity_tokens + held b d

-- Each token below the capacity lies in one free range or in one allocation, and the free ranges are
-- as few as can be: in order, not empty, and never two that touch.
pub record IsTiled (c : ContiguousAllocator) : Type 0 where
  pub tiles :
      (b : ℕ)
      → cover b c.free_ranges + held b c.allocations ≡ (if ltb b c.capacity_tokens then 1 else 0)
  pub not_empty : NonEmpty c.free_ranges
  pub separated : IsSeparated c.free_ranges
  pub positive :
      (id : String) (t : ContiguousAllocation)
      → lookup String_discrete id c.allocations ≡ some t
      → 0 < t.capacity_tokens
  pub one_entry : Distinct String_discrete c.allocations

held-insert :
    (b : ℕ) (id : String) (t : ContiguousAllocation) (d : Dict String ContiguousAllocation)
    → lookup String_discrete id d ≡ none
    → held b (insert String_discrete id t d) ≡ held b d + covers b t.start_token t.capacity_tokens
unfolding lookup insert
held-insert b id t [] h = omega arith
held-insert b id t ((j, u) ∷ d) h = ground (arith, held-insert b id t d)

held-erase :
    (b : ℕ) (id : String) (t : ContiguousAllocation) (d : Dict String ContiguousAllocation)
    → lookup String_discrete id d ≡ some t
    → held b (erase String_discrete id d) + covers b t.start_token t.capacity_tokens ≡ held b d
unfolding lookup erase
held-erase b id t [] h = absurd (ground arith)
held-erase b id t ((j, u) ∷ d) h = ground (arith, held-erase b id t d)

covers_le : (b start len : ℕ) → covers b start len ≤ 1
covers_le b start len = ground arith

-- What `allocate` hands out, and what it leaves.
abbrev pub placed : String → ℕ → ℕ → ContiguousAllocation
placed id start needed = record { request_id = id; start_token = start; capacity_tokens = needed }

abbrev pub placing :
    ContiguousAllocator → String → ContiguousAllocation → List Range → ContiguousAllocator
placing c id t ranges = record c {
  free_ranges = ranges;
  allocations = insert String_discrete id t c.allocations;
}

allocate_run :
    (c : ContiguousAllocator) (id : String) (needed : ℕ)
    → id ≢ ""
    → 0 < needed
    → lookup String_discrete id c.allocations ≡ none
    → allocate id needed c ≡ elim (first_fit needed c.free_ranges) [
      | none ↦ ok none c
      | some (start, ranges) ↦
          ok (some (placed id start needed)) (placing c id (placed id start needed) ranges)
    ]
unfolding allocate
allocate_run c id needed named some_tokens fresh = ground arith

pub IsTiled-placing :
    (c : ContiguousAllocator) (id : String) (needed start : ℕ) (rest : List Range)
    → IsTiled c
    → 0 < needed
    → lookup String_discrete id c.allocations ≡ none
    → first_fit needed c.free_ranges ≡ some (start, rest)
    → IsTiled (placing c id (placed id start needed) rest)
IsTiled-placing c id needed start rest v some_tokens fresh e = record {
  tiles = λ b. omega (
    arith,
    v.tiles b,
    (first_fit-Fits needed c.free_ranges start rest e).1 b,
    held-insert b id (placed id start needed) c.allocations fresh,
  );
  not_empty = first_fit-NonEmpty needed c.free_ranges start rest e v.not_empty;
  separated = first_fit-IsSeparated needed c.free_ranges start rest e v.separated;
  positive = λ j t h. ground (
    arith,
    lookup-insert String_discrete id j (placed id start needed) c.allocations,
    v.positive j t,
  );
  one_entry = insert-Distinct String_discrete id (placed id start needed) c.allocations v.one_entry;
}

-- `allocate` on a fresh id and a positive number of tokens.
abbrev pub Places :
    ContiguousAllocator
    → String
    → ℕ
    → Outcome ContiguousAllocator (Option ContiguousAllocation)
    → Type 0
Places c id needed outcome =
    ((outcome ≡ ok none c) × (largest_free_range_tokens c < needed))
    ⊎ ((t : ContiguousAllocation) × (c' : ContiguousAllocator) × (outcome ≡ ok (some t) c')
        × (needed ≤ largest_free_range_tokens c)
        × (t.request_id ≡ id)
        × (t.capacity_tokens ≡ needed)
        × (c'.allocations ≡ insert String_discrete id t c.allocations)
        × IsTiled c')

-- For a new id that is not empty and a positive count, allocate on a tiled allocator returns None
-- and changes nothing exactly if every free range is too short; otherwise it hands out a range of
-- the asked length, records it, and leaves free ranges and allocations that tile the capacity.
pub allocate-Places :
    (c : ContiguousAllocator) (id : String) (needed : ℕ)
    → IsTiled c
    → id ≢ ""
    → 0 < needed
    → lookup String_discrete id c.allocations ≡ none
    → Places c id needed (allocate id needed c)
allocate-Places c id needed v named some_tokens fresh =
    elim (Option-cases (first_fit needed c.free_ranges)) [
      | inl e ↦ inl (
        rw (allocate_run c id needed named some_tokens fresh, e) refl,
        unfold largest_free_range_tokens in first_fit-none needed c.free_ranges some_tokens e,
      )
      | inr ((start, rest), e) ↦ inr (
        placed id start needed,
        placing c id (placed id start needed) rest,
        rw (allocate_run c id needed named some_tokens fresh, e) refl,
        unfold largest_free_range_tokens in (first_fit-Fits needed c.free_ranges start rest e).0,
        refl,
        refl,
        refl,
        IsTiled-placing c id needed start rest v some_tokens fresh e,
      )
    ]

-- `release` of a known id.
abbrev pub Frees :
    ContiguousAllocator
    → String
    → ContiguousAllocation
    → Outcome ContiguousAllocator ContiguousAllocation
    → Type 0
Frees c id t outcome =
    (c' : ContiguousAllocator) × (outcome ≡ ok t c')
    × ((b : ℕ)
        → cover b c'.free_ranges ≡ cover b c.free_ranges + covers b t.start_token t.capacity_tokens)
    × (c'.allocations ≡ erase String_discrete id c.allocations)
    × IsTiled c'

-- The free ranges with the released one behind them.
abbrev with_range : ContiguousAllocator → ContiguousAllocation → List Range
with_range c t = c.free_ranges ++ (t.start_token, t.capacity_tokens) ∷ []

cover-with_range :
    (b : ℕ) (c : ContiguousAllocator) (t : ContiguousAllocation)
    → cover b (sort_ranges (with_range c t))
      ≡ cover b c.free_ranges + covers b t.start_token t.capacity_tokens
cover-with_range b c t = omega (
  arith,
  cover-sort_ranges b (with_range c t),
  cover-append b c.free_ranges ((t.start_token, t.capacity_tokens) ∷ []),
)

IsTiled-freed :
    (c : ContiguousAllocator) (id : String) (t : ContiguousAllocation)
    → IsTiled c
    → lookup String_discrete id c.allocations ≡ some t
    → IsTiled (record c {
      free_ranges = merge (sort_ranges (with_range c t));
      allocations = erase String_discrete id c.allocations;
    })
IsTiled-freed c id t v known =
    let sorted_disjoint : IsDisjoint (sort_ranges (with_range c t)) = λ b.
      ground (arith, cover-with_range b c t, v.tiles b, held-erase b id t c.allocations known) in
    let sorted_not_empty : NonEmpty (sort_ranges (with_range c t)) =
      sort_ranges-NonEmpty _
        (All-append (λ r. 0 < r.1) c.free_ranges _ v.not_empty (v.positive id t known, tt)) in
    record {
      tiles = λ b. omega (
        arith,
        v.tiles b,
        cover-merge b (sort_ranges (with_range c t)),
        cover-with_range b c t,
        held-erase b id t c.allocations known,
      );
      not_empty = merge-NonEmpty _ sorted_not_empty;
      separated =
          merge-IsSeparated _ (sort_ranges-IsOrdered (with_range c t)) sorted_not_empty
            sorted_disjoint;
      positive = λ j u h. elim (String_discrete id j) [
        | yes same ↦
            absurd (ground (arith, lookup-erase_self String_discrete id c.allocations v.one_entry))
        | no other ↦
            v.positive j u (sym (lookup-erase_ne String_discrete id j c.allocations other) ∙ h)
      ];
      one_entry = erase-Distinct String_discrete id c.allocations v.one_entry;
    }

-- For a known id, release on a tiled allocator returns its allocation, takes it out, makes exactly
-- its tokens free, and leaves free ranges that are sorted, not empty and as few as can be, and
-- that tile the capacity with the other allocations.
pub release-Frees :
    (c : ContiguousAllocator) (id : String) (t : ContiguousAllocation)
    → IsTiled c
    → lookup String_discrete id c.allocations ≡ some t
    → Frees c id t (release id c)
unfolding release merge erase
release-Frees c id t v known = (
  record c {
    free_ranges = merge (sort_ranges (with_range c t));
    allocations = erase String_discrete id c.allocations;
  },
  rw (known, release) refl,
  (λ b. cover-merge b (sort_ranges (with_range c t)) ∙ cover-with_range b c t),
  refl,
  IsTiled-freed c id t v known,
)

abbrev pub made : ℕ → ContiguousAllocator
made capacity = record {
  capacity_tokens = capacity;
  free_ranges = (0, capacity) ∷ [];
  allocations = [];
}

pub make-IsTiled :
    (capacity : ℕ) → 0 < capacity → (make capacity ≡ some (made capacity)) × IsTiled (made capacity)
make-IsTiled capacity h = (
  unfold make in ground arith,
  record {
    tiles = λ b. ground arith;
    not_empty = (h, tt);
    separated = (tt, tt);
    positive = λ id t e. absurd (unfold lookup in ground arith);
    one_entry = tt;
  },
)
