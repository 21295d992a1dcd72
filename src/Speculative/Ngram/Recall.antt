-- ===== src/Speculative/Ngram/Recall.antt =====
-- What the n-gram proposer proposes: what followed the latest earlier occurrence of the longest suffix.
use full_inference_engine.Base.{
  ℕ, zero, suc, ◌+◌, ◌-◌, ◌/◌, ◌*◌, ◌≤◌, ◌<◌, ◌≡◌, refl, sym, subst, min, true, false, Option, none,
  some, List, [], ◌∷◌, ◌==◌, length, drop, ◌⊎◌, inl, inr, arith, Bool-cases, dec_lt, length-take,
}
use full_inference_engine.Speculative.Ngram.{
  Proposal, NgramProposer, slice, occurs, scan, try_widths, propose,
}

length-drop : {A : Type 0} (n : ℕ) (xs : List A) → length (drop n xs) ≡ length xs - n
length-drop zero xs = omega arith
length-drop (suc n) [] = omega arith
length-drop (suc n) (x ∷ xs) = omega (arith, length-drop n xs)

-- What follows an occurrence at `start`.
abbrev pub continuation : List ℕ → ℕ → ℕ → ℕ → List ℕ
continuation tokens max_tokens width start = slice tokens (start + width) max_tokens

-- No start below `n` is an occurrence.
abbrev pub NoneBelow : List ℕ → ℕ → ℕ → Type 0
NoneBelow tokens width n = (start : ℕ) → start < n → occurs tokens width start ≡ false

-- The latest occurrence below `n`, and what follows it.
abbrev pub Latest : List ℕ → ℕ → ℕ → ℕ → List ℕ → Type 0
Latest tokens max_tokens width n found =
    (start : ℕ) × (start < n)
    × (occurs tokens width start ≡ true)
    × (found ≡ continuation tokens max_tokens width start)
    × ((later : ℕ) → start < later → later < n → occurs tokens width later ≡ false)

-- Behind an occurrence that ends before the suffix there is a token.
continuation_some :
    (tokens : List ℕ) (max_tokens width start : ℕ)
    → 0 < max_tokens
    → start + width < length tokens
    → (length (continuation tokens max_tokens width start) == 0) ≡ false
continuation_some tokens max_tokens width start h k = ground (
  arith,
  length-take max_tokens (drop (start + width) tokens),
  length-drop (start + width) tokens,
)

Scans : List ℕ → ℕ → ℕ → ℕ → Option (List ℕ) → Type 0
Scans tokens max_tokens width n found =
    ((found ≡ none) × NoneBelow tokens width n)
    ⊎ ((c : List ℕ) × (found ≡ some c) × Latest tokens max_tokens width n c)

scan-Scans :
    (tokens : List ℕ) (max_tokens width n : ℕ)
    → 0 < max_tokens
    → n + width ≤ length tokens
    → Scans tokens max_tokens width n (scan tokens max_tokens width n)
unfolding scan Scans
scan-Scans tokens max_tokens width zero h k = inl (refl, λ start l. absurd (omega arith))
scan-Scans tokens max_tokens width (suc n) h k = elim (Bool-cases (occurs tokens width n)) [
  | inl here ↦ inr (
    continuation tokens max_tokens width n,
    ground (arith, continuation_some tokens max_tokens width n),
    (n, omega arith, here, refl, λ later l m. absurd (omega arith)),
  )
  | inr gone ↦ elim (scan-Scans tokens max_tokens width n h (omega arith)) [
    | inl (e, none_below) ↦ inl (ground arith, λ start l. below start gone (none_below start) l)
    | inr (c, e, (start, l, m, q, latest)) ↦ inr (
      c,
      ground arith,
      (start, omega arith, m, q, λ later a b. below later gone (latest later a) b),
    )
  ]
]
  where
    below :
        (start : ℕ)
        → occurs tokens width n ≡ false
        → (start < n → occurs tokens width start ≡ false)
        → start < suc n
        → occurs tokens width start ≡ false
    below start gone earlier l = elim (dec_lt start n) [
      | yes less ↦ earlier less
      | no same ↦ subst (λ s. occurs tokens width s ≡ false) {x = n} {y = start} (omega arith) gone
    ]

-- How many starts there are for a width.
abbrev pub starts : List ℕ → ℕ → ℕ
starts tokens width = suc (length tokens - width - width)

Tries : List ℕ → ℕ → ℕ → ℕ → Option (List ℕ × ℕ) → Type 0
Tries tokens max_tokens min_match n found =
    ((found ≡ none)
      × ((k : ℕ) → k < n → NoneBelow tokens (min_match + k) (starts tokens (min_match + k))))
    ⊎ ((c : List ℕ) × (k : ℕ) × (found ≡ some (c, min_match + k))
        × (k < n)
        × Latest tokens max_tokens (min_match + k) (starts tokens (min_match + k)) c
        × ((wider : ℕ)
            → k < wider
            → wider < n
            → NoneBelow tokens (min_match + wider) (starts tokens (min_match + wider))))

try_widths-Tries :
    (tokens : List ℕ) (max_tokens min_match n : ℕ)
    → 0 < max_tokens
    → 0 < min_match
    → ((k : ℕ) → k < n → (min_match + k) * 2 ≤ length tokens)
    → Tries tokens max_tokens min_match n (try_widths tokens max_tokens min_match n)
unfolding try_widths Scans Tries
try_widths-Tries tokens max_tokens min_match zero h i j = inl (refl, λ k l. absurd (omega arith))
try_widths-Tries tokens max_tokens min_match (suc n) h i j =
    elim (scan-Scans tokens max_tokens (min_match + n) (starts tokens (min_match + n)) h
      (omega (arith, j n (omega arith)))) [
        | inr (c, e, latest) ↦
            inr (c, n, ground arith, omega arith, latest, λ wider l m. absurd (omega arith))
        | inl (e, none_below) ↦
            elim (try_widths-Tries tokens max_tokens min_match n h i (λ k l. j k (omega arith))) [
              | inl (g, narrower) ↦ inl (ground arith, λ k l. at k none_below (narrower k) l)
              | inr (c, k, g, l, latest, wider) ↦
                  inr (
                    c,
                    k,
                    ground arith,
                    omega arith,
                    latest,
                    λ w a b. at w none_below (wider w a) b,
                  )
            ]
      ]
  where
    at :
        (k : ℕ)
        → NoneBelow tokens (min_match + n) (starts tokens (min_match + n))
        → (k < n → NoneBelow tokens (min_match + k) (starts tokens (min_match + k)))
        → k < suc n
        → NoneBelow tokens (min_match + k) (starts tokens (min_match + k))
    at k here narrower l = elim (dec_lt k n) [
      | yes less ↦ narrower less
      | no same ↦
          subst (λ w. NoneBelow tokens (min_match + w) (starts tokens (min_match + w))) {x = n}
            {y = k} (omega arith) here
    ]

-- The widest suffix that is looked for.
abbrev pub largest : NgramProposer → List ℕ → ℕ
largest p tokens = min p.max_match (length tokens / 2)

abbrev pub NoMatch : List ℕ → ℕ → Type 0
NoMatch tokens width = NoneBelow tokens width (starts tokens width)

-- Nothing, because nothing may be proposed or no suffix occurs before; or what followed the latest earlier
-- occurrence of the longest suffix that occurs before.
abbrev pub Recalls : NgramProposer → List ℕ → ℕ → Proposal → Type 0
Recalls p tokens max_tokens r =
    ((r.token_ids ≡ [])
      × ((max_tokens ≡ 0)
          ⊎ ((width : ℕ) → p.min_match ≤ width → width ≤ largest p tokens → NoMatch tokens width)))
    ⊎ ((p.min_match ≤ r.matched_tokens)
        × (r.matched_tokens ≤ largest p tokens)
        × Latest tokens max_tokens r.matched_tokens (starts tokens r.matched_tokens) r.token_ids
        × ((wider : ℕ)
            → r.matched_tokens < wider
            → wider ≤ largest p tokens
            → NoMatch tokens wider))

module _ (p : NgramProposer) (tokens : List ℕ) (max_tokens : ℕ) where
  widths : ℕ
  widths = suc (largest p tokens) - p.min_match

  propose-none :
      0 < max_tokens
      → try_widths tokens max_tokens p.min_match widths ≡ none
      → (propose p tokens max_tokens).token_ids ≡ []
  unfolding propose widths
  propose-none h e = ground arith

  propose-some :
      (c : List ℕ) (width : ℕ)
      → 0 < max_tokens
      → try_widths tokens max_tokens p.min_match widths ≡ some (c, width)
      → propose p tokens max_tokens
        ≡ record { token_ids = c; method = "ngram"; matched_tokens = width }
  unfolding propose widths
  propose-some c width h e = ground arith

  recalled :
      (c : List ℕ) (width : ℕ)
      → Recalls p tokens max_tokens
          (record { token_ids = c; method = "ngram"; matched_tokens = width })
      → propose p tokens max_tokens
        ≡ record { token_ids = c; method = "ngram"; matched_tokens = width }
      → Recalls p tokens max_tokens (propose p tokens max_tokens)
  recalled c width h e = subst (Recalls p tokens max_tokens) (sym e) h

  shifted :
      (width : ℕ)
      → p.min_match ≤ width
      → ((k : ℕ) → k < widths → NoMatch tokens (p.min_match + k))
      → width ≤ largest p tokens
      → NoMatch tokens width
  unfolding widths
  shifted width l none_of m =
      subst (NoMatch tokens) {x = p.min_match + (width - p.min_match)} {y = width} (omega arith)
        (none_of (width - p.min_match) (omega arith))

  -- A proposer with a positive shortest match either proposes nothing, because nothing may be proposed or no
  -- suffix of an allowed width occurs earlier without overlap; or it proposes what followed the latest such
  -- occurrence of the longest suffix that has one, cut at the number of tokens asked for.
  pub propose-Recalls : 0 < p.min_match → Recalls p tokens max_tokens (propose p tokens max_tokens)
  unfolding Tries
  propose-Recalls h = elim (dec_lt 0 max_tokens) [
    | no nothing ↦ inl (unfold propose in ground arith, inl (omega arith))
    | yes asked ↦
        elim (try_widths-Tries tokens max_tokens p.min_match widths asked h (λ k l. fits k l)) [
          | inl (e, none_of) ↦
              inl (propose-none asked e, inr (λ width l m. shifted width l none_of m))
          | inr (c, k, e, l, latest, wider) ↦
              recalled c (p.min_match + k)
                (inr (
                  omega arith,
                  within k l,
                  latest,
                  λ w a b.
                      subst (NoMatch tokens) {x = p.min_match + (w - p.min_match)} {y = w}
                        (omega arith) (wider (w - p.min_match) (omega arith) (inside w k a b)),
                ))
                (propose-some c (p.min_match + k) asked e)
        ]
  ]
    where
      fits : (k : ℕ) → k < widths → (p.min_match + k) * 2 ≤ length tokens
      fits k l = unfold widths in omega arith

      within : (k : ℕ) → k < widths → p.min_match + k ≤ largest p tokens
      within k l = unfold widths in omega arith

      inside : (w k : ℕ) → p.min_match + k < w → w ≤ largest p tokens → w - p.min_match < widths
      inside w k a b = unfold widths in omega arith
