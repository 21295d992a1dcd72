-- ===== src/Cache/Contiguous/Ranges.antt =====
-- What the loops over free ranges do to the tokens that the ranges cover.
use full_inference_engine.Base.{
  ℕ, ◌+◌, ◌-◌, ◌≤◌, ◌<◌, ◌≡◌, refl, ◌&&◌, none, some, List, [], ◌∷◌, ◌++◌, ltb, leb, ◌==◌,
  if◌then◌else◌, arith, All, ◌⊎◌, inl, inr, Bool-cases, Option-cases,
}
use full_inference_engine.Cache.Contiguous.{
  Range, first_fit, range_before, insert_range, sort_ranges, merge_from, merge, max_length,
}

abbrev pub covers : ℕ → ℕ → ℕ → ℕ
covers b start len = if leb start b && ltb b (start + len) then 1 else 0

-- How many of the ranges hold token `b`.
abbrev pub cover : ℕ → List Range → ℕ
cover b [] = 0
cover b ((start, len) ∷ ranges) = covers b start len + cover b ranges

abbrev pub NonEmpty : List Range → Type 0
NonEmpty ranges = All (λ r. 0 < r.1) ranges

abbrev pub StartsAfter : ℕ → List Range → Type 0
StartsAfter e [] = Unit {0}
StartsAfter e ((start, len) ∷ ranges) = e < start

-- In order, and with a gap behind each range.
abbrev pub IsSeparated : List Range → Type 0
IsSeparated [] = Unit {0}
IsSeparated ((start, len) ∷ ranges) = StartsAfter (start + len) ranges × IsSeparated ranges

-- In order of their starts.
abbrev pub IsOrdered : List Range → Type 0
IsOrdered [] = Unit {0}
IsOrdered ((start, len) ∷ ranges) = All (λ r. start ≤ r.0) ranges × IsOrdered ranges

pub cover-append : (b : ℕ) (rs ss : List Range) → cover b (rs ++ ss) ≡ cover b rs + cover b ss
cover-append b [] ss = omega arith
cover-append b ((start, len) ∷ rs) ss = omega (arith, cover-append b rs ss)

-- `first_fit` fails exactly if every range is too short; it cuts what it finds off the free ranges, and
-- keeps them non-empty and separated.
abbrev pub Fits : ℕ → List Range → ℕ → List Range → Type 0
Fits needed ranges start rest =
    (needed ≤ max_length ranges) × ((b : ℕ) → cover b ranges ≡ covers b start needed + cover b rest)

pub first_fit-none :
    (needed : ℕ) (ranges : List Range)
    → 0 < needed
    → first_fit needed ranges ≡ none
    → max_length ranges < needed
unfolding first_fit max_length
first_fit-none needed [] h e = h
first_fit-none needed ((start, len) ∷ ranges) h e = ground (arith, first_fit-none needed ranges h)

pub first_fit-Fits :
    (needed : ℕ) (ranges : List Range) (start : ℕ) (rest : List Range)
    → first_fit needed ranges ≡ some (start, rest)
    → Fits needed ranges start rest
unfolding first_fit max_length
first_fit-Fits needed [] start rest e = absurd (ground arith)
first_fit-Fits needed ((s, len) ∷ ranges) start rest e =
    elim (Option-cases (first_fit needed ranges)) [
      | inl none_fits ↦ (ground arith, λ b. ground arith)
      | inr ((found, after), fits) ↦
          let (large, same) = first_fit-Fits needed ranges found after fits in
          (ground arith, λ b. ground (arith, same b))
    ]

pub first_fit-NonEmpty :
    (needed : ℕ) (ranges : List Range) (start : ℕ) (rest : List Range)
    → first_fit needed ranges ≡ some (start, rest)
    → NonEmpty ranges
    → NonEmpty rest
unfolding first_fit
first_fit-NonEmpty needed [] start rest e h = absurd (ground arith)
first_fit-NonEmpty needed ((s, len) ∷ ranges) start rest e h =
    elim (Option-cases (first_fit needed ranges)) [
      | inl none_fits ↦ ground arith
      | inr ((found, after), fits) ↦
          ground (arith, first_fit-NonEmpty needed ranges found after fits h.1)
    ]

StartsAfter-weaken :
    (e k : ℕ) (ranges : List Range) → e ≤ k → StartsAfter k ranges → StartsAfter e ranges
StartsAfter-weaken e k [] h s = tt
StartsAfter-weaken e k ((start, len) ∷ ranges) h s = omega arith

first_fit-StartsAfter :
    (needed k : ℕ) (ranges : List Range) (start : ℕ) (rest : List Range)
    → first_fit needed ranges ≡ some (start, rest)
    → StartsAfter k ranges
    → IsSeparated ranges
    → StartsAfter k rest
unfolding first_fit
first_fit-StartsAfter needed k [] start rest e h v = absurd (ground arith)
first_fit-StartsAfter needed k ((s, len) ∷ ranges) start rest e h v =
    elim (Option-cases (first_fit needed ranges)) [
      | inl none_fits ↦ ground (arith, StartsAfter-weaken k (s + len) ranges (omega arith))
      | inr ((found, after), fits) ↦
          ground (arith, StartsAfter-weaken k (s + len) ranges (omega arith))
    ]

-- The three ways in which the first range serves or passes.
first_fit_cases :
    (needed s len : ℕ) (ranges : List Range) (start : ℕ) (rest : List Range)
    → first_fit needed ((s, len) ∷ ranges) ≡ some (start, rest)
    → ((after : List Range) × (first_fit needed ranges ≡ some (start, after))
        × (rest ≡ (s, len) ∷ after))
      ⊎ (rest ≡ ranges)
      ⊎ ((needed < len) × (rest ≡ (s + needed, len - needed) ∷ ranges))
unfolding first_fit
first_fit_cases needed s len ranges start rest e = elim (Option-cases (first_fit needed ranges)) [
  | inl none_fits ↦ inr (ground arith)
  | inr ((found, after), fits) ↦ elim (Bool-cases (ltb len needed)) [
    | inl short ↦ inl (after, ground arith, ground arith)
    | inr long ↦ inr (ground arith)
  ]
]

pub first_fit-IsSeparated :
    (needed : ℕ) (ranges : List Range) (start : ℕ) (rest : List Range)
    → first_fit needed ranges ≡ some (start, rest)
    → IsSeparated ranges
    → IsSeparated rest
first_fit-IsSeparated needed [] start rest e v = absurd (unfold first_fit in ground arith)
first_fit-IsSeparated needed ((s, len) ∷ ranges) start rest e v =
    elim (first_fit_cases needed s len ranges start rest e) [
      | inl (after, fits, same) ↦ rw same (
        first_fit-StartsAfter needed (s + len) ranges start after fits v.0 v.1,
        first_fit-IsSeparated needed ranges start after fits v.1,
      )
      | inr (inl same) ↦ rw same v.1
      | inr (inr (small, same)) ↦
          rw same (
            StartsAfter-weaken (s + needed + (len - needed)) (s + len) ranges (omega arith) v.0,
            v.1,
          )
    ]

cover-insert_range :
    (b : ℕ) (r : Range) (ranges : List Range)
    → cover b (insert_range r ranges) ≡ cover b (r ∷ ranges)
unfolding insert_range
cover-insert_range b r [] = refl
cover-insert_range b r (s ∷ ranges) = ground (arith, cover-insert_range b r ranges)

pub cover-sort_ranges :
    (b : ℕ) (ranges : List Range) → cover b (sort_ranges ranges) ≡ cover b ranges
unfolding sort_ranges
cover-sort_ranges b [] = refl
cover-sort_ranges b (r ∷ ranges) =
    omega (arith, cover-insert_range b r (sort_ranges ranges), cover-sort_ranges b ranges)

All-insert_range :
    (P : Range → Type 0) (r : Range) (ranges : List Range)
    → P r
    → All P ranges
    → All P (insert_range r ranges)
unfolding insert_range
All-insert_range P r [] h k = (h, tt)
All-insert_range P r (s ∷ ranges) h k = elim (Bool-cases (range_before s r)) [
  | inl e ↦ rw e (k.0, All-insert_range P r ranges h k.1)
  | inr e ↦ rw e (h, k)
]

pub sort_ranges-NonEmpty : (ranges : List Range) → NonEmpty ranges → NonEmpty (sort_ranges ranges)
unfolding sort_ranges
sort_ranges-NonEmpty [] h = tt
sort_ranges-NonEmpty (r ∷ ranges) h =
    All-insert_range (λ q. 0 < q.1) r (sort_ranges ranges) h.0 (sort_ranges-NonEmpty ranges h.1)

All-weaken :
    (j k : ℕ) (ranges : List Range) → j ≤ k → All (λ r. k ≤ r.0) ranges → All (λ r. j ≤ r.0) ranges
All-weaken j k [] h all = tt
All-weaken j k (r ∷ ranges) h all = (omega arith, All-weaken j k ranges h all.1)

insert_range-IsOrdered :
    (r : Range) (ranges : List Range) → IsOrdered ranges → IsOrdered (insert_range r ranges)
unfolding insert_range
insert_range-IsOrdered r [] h = (tt, tt)
insert_range-IsOrdered r (s ∷ ranges) h = elim (Bool-cases (range_before s r)) [
  | inl e ↦ rw e (
    All-insert_range (λ q. s.0 ≤ q.0) r ranges (ground arith) h.0,
    insert_range-IsOrdered r ranges h.1,
  )
  | inr e ↦ rw e ((ground arith, All-weaken r.0 s.0 ranges (ground arith) h.0), h)
]

pub sort_ranges-IsOrdered : (ranges : List Range) → IsOrdered (sort_ranges ranges)
unfolding sort_ranges
sort_ranges-IsOrdered [] = tt
sort_ranges-IsOrdered (r ∷ ranges) =
    insert_range-IsOrdered r (sort_ranges ranges) (sort_ranges-IsOrdered ranges)

cover-merge_from :
    (b : ℕ) (r : Range) (ranges : List Range) → cover b (merge_from r ranges) ≡ cover b (r ∷ ranges)
unfolding merge_from
cover-merge_from b (start, len) [] = refl
cover-merge_from b (start, len) ((next, len') ∷ ranges) =
    ground
      (arith, cover-merge_from b (start, len + len') ranges, cover-merge_from b (next, len') ranges)

pub cover-merge : (b : ℕ) (ranges : List Range) → cover b (merge ranges) ≡ cover b ranges
unfolding merge
cover-merge b [] = refl
cover-merge b (r ∷ ranges) = cover-merge_from b r ranges

merge_from-NonEmpty :
    (r : Range) (ranges : List Range) → NonEmpty (r ∷ ranges) → NonEmpty (merge_from r ranges)
unfolding merge_from
merge_from-NonEmpty (start, len) [] h = h
merge_from-NonEmpty (start, len) ((next, len') ∷ ranges) h =
    ground (
      arith,
      merge_from-NonEmpty (start, len + len') ranges,
      merge_from-NonEmpty (next, len') ranges,
    )

pub merge-NonEmpty : (ranges : List Range) → NonEmpty ranges → NonEmpty (merge ranges)
unfolding merge
merge-NonEmpty [] h = tt
merge-NonEmpty (r ∷ ranges) h = merge_from-NonEmpty r ranges h

-- No token lies in two ranges.
abbrev pub IsDisjoint : List Range → Type 0
IsDisjoint ranges = (b : ℕ) → cover b ranges ≤ 1

merge_from-StartsAfter :
    (k : ℕ) (r : Range) (ranges : List Range) → k < r.0 → StartsAfter k (merge_from r ranges)
unfolding merge_from
merge_from-StartsAfter k (start, len) [] h = h
merge_from-StartsAfter k (start, len) ((next, len') ∷ ranges) h =
    ground (arith, merge_from-StartsAfter k (start, len + len') ranges h)

-- Ranges that are in order, non-empty and disjoint do not overlap.
next_after :
    (start len next len' : ℕ) (ranges : List Range)
    → start ≤ next
    → 0 < len'
    → IsDisjoint ((start, len) ∷ (next, len') ∷ ranges)
    → start + len ≤ next
next_after start len next len' ranges h k disjoint = ground (arith, disjoint next)

merge_from-IsSeparated :
    (r : Range) (ranges : List Range)
    → IsOrdered (r ∷ ranges)
    → NonEmpty (r ∷ ranges)
    → IsDisjoint (r ∷ ranges)
    → IsSeparated (merge_from r ranges)
unfolding merge_from
merge_from-IsSeparated (start, len) [] o h d = (tt, tt)
merge_from-IsSeparated (start, len) ((next, len') ∷ ranges) o h d =
    elim (Bool-cases ((start + len) == next)) [
      | inl e ↦
          rw (e, merge_from)
            (merge_from-IsSeparated (start, len + len') ranges (o.0.1, o.1.1) (omega arith, h.1.1)
              (λ b. ground (arith, d b)))
      | inr e ↦
          rw (e, merge_from)
            (
              merge_from-StartsAfter (start + len) (next, len') ranges
                  (ground (arith, next_after start len next len' ranges o.0.0 h.1.0 d)),
              merge_from-IsSeparated (next, len') ranges o.1 h.1 (λ b. omega (arith, d b)),
            )
    ]

pub merge-IsSeparated :
    (ranges : List Range)
    → IsOrdered ranges
    → NonEmpty ranges
    → IsDisjoint ranges
    → IsSeparated (merge ranges)
unfolding merge
merge-IsSeparated [] o h d = tt
merge-IsSeparated (r ∷ ranges) o h d = merge_from-IsSeparated r ranges o h d
