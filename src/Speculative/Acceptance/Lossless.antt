-- ===== src/Speculative/Acceptance/Lossless.antt =====
-- Speculation changes no output: what is committed are the target's own predictions.
use full_inference_engine.Base.{
  ℕ, zero, suc, ◌≤◌, ◌<◌, ◌≡◌, refl, ◌∙◌, ap, sym, min, Bool, true, false, not, ◌||◌, ◌&&◌, Option,
  none, some, List, [], ◌∷◌, ◌++◌, String, ◌==◌, if◌then◌else◌, length, take, ◌⊎◌, inl, inr, arith,
  length-take, length-append, dec_lt, Bool-cases, ◌≢◌, get_elem?, ℕ_discrete,
}
use full_inference_engine.Speculative.Acceptance.{
  GreedyCommit, accepted_count, candidates, member, emit, plan_greedy_commit,
}

take-take : {A : Type 0} (k n : ℕ) (xs : List A) → k ≤ n → take k (take n xs) ≡ take k xs
take-take zero n xs h = refl
take-take (suc k) zero xs h = absurd (omega arith)
take-take (suc k) (suc n) [] h = refl
take-take (suc k) (suc n) (x ∷ xs) h = ap (λ ys. x ∷ ys) (take-take k n xs (omega arith))

accepted_le : (draft target : List ℕ) → accepted_count draft target ≤ length draft
unfolding accepted_count
accepted_le [] target = omega arith
accepted_le (d ∷ draft) [] = omega arith
accepted_le (d ∷ draft) (t ∷ target) = ground (arith, accepted_le draft target)

-- What is accepted, and the token behind it, are the target's.
candidates-take :
    (draft target : List ℕ) (bonus : ℕ)
    → length draft ≡ length target
    → candidates draft target bonus
      ≡ take (suc (accepted_count draft target)) (target ++ bonus ∷ [])
unfolding candidates accepted_count
candidates-take [] [] bonus h = refl
candidates-take [] (t ∷ target) bonus h = absurd (omega arith)
candidates-take (d ∷ draft) [] bonus h = absurd (omega arith)
candidates-take (d ∷ draft) (t ∷ target) bonus h =
    ground (arith, candidates-take draft target bonus)

-- The first position where the draft differs from the target, or the draft's end.
abbrev pub IsFirstMiss : List ℕ → List ℕ → ℕ → Type 0
IsFirstMiss draft target k =
    (k ≤ length draft)
    × (take k draft ≡ take k target)
    × ((k ≡ length draft) ⊎ (get_elem? draft k ≢ get_elem? target k))

accepted_same :
    (draft target : List ℕ)
    → take (accepted_count draft target) draft ≡ take (accepted_count draft target) target
unfolding accepted_count
accepted_same [] [] = refl
accepted_same [] (t ∷ target) = refl
accepted_same (d ∷ draft) [] = refl
accepted_same (d ∷ draft) (t ∷ target) = ground (arith, accepted_same draft target)

accepted_differs :
    (draft target : List ℕ)
    → length draft ≡ length target
    → (accepted_count draft target ≡ length draft)
      ⊎ (get_elem? draft (accepted_count draft target)
          ≢ get_elem? target (accepted_count draft target))
unfolding accepted_count
accepted_differs [] target h = inl refl
accepted_differs (d ∷ draft) [] h = absurd (omega arith)
accepted_differs (d ∷ draft) (t ∷ target) h = elim (ℕ_discrete d t) [
  | yes p ↦ elim (accepted_differs draft target (omega arith)) [
    | inl e ↦ inl (ground arith)
    | inr e ↦ inr (ground arith)
  ]
  | no p ↦ inr (ground arith)
]

module _ (eos stop : List ℕ) (ignore_eos : Bool) where
  -- A token that ends the request.
  abbrev pub ends : ℕ → Bool
  ends token = member token stop || (not ignore_eos && member token eos)

  -- The loop emits the tokens up to the first that ends the request.
  abbrev pub until_end : List ℕ → List ℕ
  until_end [] = []
  until_end (token ∷ tokens) = if ends token then token ∷ [] else token ∷ until_end tokens

  emit-until_end : (tokens : List ℕ) → (emit eos stop ignore_eos tokens).0 ≡ until_end tokens
  unfolding emit
  emit-until_end [] = refl
  emit-until_end (token ∷ tokens) = ground (arith, emit-until_end tokens)

  emit-take :
      (tokens : List ℕ)
      → (emit eos stop ignore_eos tokens).0
        ≡ take (length (emit eos stop ignore_eos tokens).0) tokens
  unfolding emit
  emit-take [] = refl
  emit-take (token ∷ tokens) = ground (arith, emit-take tokens)

  length-emit : (tokens : List ℕ) → length (emit eos stop ignore_eos tokens).0 ≤ length tokens
  unfolding emit
  length-emit [] = omega arith
  length-emit (token ∷ tokens) = ground (arith, length-emit tokens)

  -- If no token ends the request, all are emitted.
  emit_all :
      (tokens : List ℕ)
      → (emit eos stop ignore_eos tokens).1 ≡ none
      → length (emit eos stop ignore_eos tokens).0 ≡ length tokens
  unfolding emit
  emit_all [] h = refl
  emit_all (token ∷ tokens) h = ground (arith, emit_all tokens)

  emit_some : (tokens : List ℕ) → 0 < length tokens → 0 < length (emit eos stop ignore_eos tokens).0
  unfolding emit
  emit_some [] h = absurd (omega arith)
  emit_some (token ∷ tokens) h = ground (arith, emit_some tokens)

take_all : {A : Type 0} (k : ℕ) (xs : List A) → length xs ≤ k → take k xs ≡ xs
take_all zero [] h = refl
take_all zero (x ∷ xs) h = absurd (omega arith)
take_all (suc k) [] h = refl
take_all (suc k) (x ∷ xs) h = ap (λ ys. x ∷ ys) (take_all k xs (omega arith))

take-min : {A : Type 0} (k n : ℕ) (xs : List A) → take k (take n xs) ≡ take (min k n) xs
take-min k n xs = elim (dec_lt n k) [
  | yes less ↦
      take_all k (take n xs) (omega (arith, length-take n xs))
      ∙ ap (λ m. take m xs) {x = n} {y = min k n} (omega arith)
  | no more ↦
      take-take k n xs (omega arith) ∙ ap (λ m. take m xs) {x = k} {y = min k n} (omega arith)
]

take-append : {A : Type 0} (k : ℕ) (xs ys : List A) → k ≤ length xs → take k (xs ++ ys) ≡ take k xs
take-append zero xs ys h = refl
take-append (suc k) [] ys h = absurd (omega arith)
take-append (suc k) (x ∷ xs) ys h = ap (λ zs. x ∷ zs) (take-append k xs ys (omega arith))

-- The guard of `plan_greedy_commit`.
abbrev pub is_refused : List ℕ → List ℕ → ℕ → Bool
is_refused draft target remaining =
    ((length draft == 0) || not (length draft == length target)) || (remaining == 0)

module _ (draft target : List ℕ) (bonus remaining : ℕ) (eos stop : List ℕ) (ignore_eos : Bool) where
  abbrev decided : ℕ
  decided = suc (accepted_count draft target)

  -- What a round commits, `k` being the first position that the draft did not foresee.
  abbrev pub Commits : GreedyCommit → Type 0
  Commits c =
      (k : ℕ) × IsFirstMiss draft target k
      × (c.emitted
          ≡ until_end eos stop ignore_eos (take (min remaining (suc k)) (target ++ bonus ∷ [])))
      × (0 < length c.emitted)
      × (c.cached_input_count ≡ length c.emitted)
      × (c.accepted_draft_tokens ≡ min k (length c.emitted))
      × (take c.accepted_draft_tokens draft ≡ take c.accepted_draft_tokens c.emitted)
      × (c.fully_accepted ≡ (k == length draft))
      × (c.terminal_reason ≡ none → (length c.emitted ≡ suc k) × (length c.emitted < remaining))

  abbrev outcome : List ℕ × Option String
  outcome = emit eos stop ignore_eos (take remaining (candidates draft target bonus))

  abbrev committed : GreedyCommit
  committed = record {
    emitted = outcome.0;
    accepted_draft_tokens = min (accepted_count draft target) (length outcome.0);
    cached_input_count = length outcome.0;
    fully_accepted = accepted_count draft target == length draft;
    terminal_reason = elim outcome.1 [
      | some reason ↦ some reason
      | none ↦ if length outcome.0 == remaining then some "LENGTH" else none
    ];
  }

  planned :
      is_refused draft target remaining ≡ false
      → plan_greedy_commit draft target bonus remaining eos stop ignore_eos ≡ some committed
  unfolding plan_greedy_commit
  planned h = ground arith

  module _ (h : is_refused draft target remaining ≡ false) where
    same_length : length draft ≡ length target
    same_length = ground arith

    some_remaining : 0 < remaining
    some_remaining = ground arith

    window :
        take remaining (candidates draft target bonus)
        ≡ take (min remaining decided) (target ++ bonus ∷ [])
    window =
        ap (take remaining) (candidates-take draft target bonus same_length)
        ∙ take-min remaining decided (target ++ bonus ∷ [])

    window_length : length (take remaining (candidates draft target bonus)) ≡ min remaining decided
    window_length = omega (
      arith,
      ap length window,
      length-take (min remaining decided) (target ++ bonus ∷ []),
      length-append target (bonus ∷ []),
      accepted_le draft target,
      same_length,
    )

    emitted_prefix : outcome.0 ≡ take (length outcome.0) (target ++ bonus ∷ [])
    emitted_prefix =
        emit-take eos stop ignore_eos (take remaining (candidates draft target bonus))
        ∙ ap (take (length outcome.0)) window
        ∙ take-take (length outcome.0) (min remaining decided) (target ++ bonus ∷ []) (
            omega (
              arith,
              length-emit eos stop ignore_eos (take remaining (candidates draft target bonus)),
              window_length,
            ))

    accepted_prefix :
        take committed.accepted_draft_tokens draft ≡ take committed.accepted_draft_tokens outcome.0
    accepted_prefix =
        let k : ℕ = min (accepted_count draft target) (length outcome.0) in
        sym (take-take k (accepted_count draft target) draft (omega arith))
        ∙ ap (take k) (accepted_same draft target)
        ∙ take-take k (accepted_count draft target) target (omega arith)
        ∙ sym (
            take-append k target (bonus ∷ [])
              (omega (arith, accepted_le draft target, same_length)))
        ∙ sym (take-take k (length outcome.0) (target ++ bonus ∷ []) (omega arith))
        ∙ ap (take k) (sym emitted_prefix)

    goes_on :
        committed.terminal_reason ≡ none
        → (length outcome.0 ≡ decided) × (length outcome.0 < remaining)
    goes_on e = ground (
      arith,
      emit_all eos stop ignore_eos (take remaining (candidates draft target bonus)),
      window_length,
      length-emit eos stop ignore_eos (take remaining (candidates draft target bonus)),
    )

  -- plan_greedy_commit refuses an empty draft, predictions of another length and no remaining tokens, each
  -- with ValueError. Otherwise there is a first position where draft and predictions differ, or the end of the
  -- draft, and it emits exactly what the target alone would: its own predictions up to and with that
  -- position (the bonus token at the end), cut at the tokens that remain and behind the first that ends the
  -- request. That is at least one token. As many inputs become visible as tokens are emitted, the accepted
  -- draft tokens are those before the position and are the first emitted ones, the draft is fully accepted
  -- exactly if the position is its end, and a request without a terminal reason has emitted all of this and
  -- has tokens left.
  pub plan_greedy_commit-Commits :
      ((is_refused draft target remaining ≡ true)
        × (plan_greedy_commit draft target bonus remaining eos stop ignore_eos ≡ none))
      ⊎ ((is_refused draft target remaining ≡ false)
          × (c : GreedyCommit) × (plan_greedy_commit draft target bonus remaining eos stop
                ignore_eos
              ≡ some c)
          × Commits c)
  plan_greedy_commit-Commits = elim (Bool-cases (is_refused draft target remaining)) [
    | inl bad ↦ inl (bad, unfold plan_greedy_commit in ground arith)
    | inr good ↦ inr (
      good,
      committed,
      planned good,
      (
        accepted_count draft target,
        (
          accepted_le draft target,
          accepted_same draft target,
          accepted_differs draft target (same_length good),
        ),
        emit-until_end eos stop ignore_eos (take remaining (candidates draft target bonus))
            ∙ ap (until_end eos stop ignore_eos) (window good),
        emit_some eos stop ignore_eos (take remaining (candidates draft target bonus))
            (omega (arith, window_length good, some_remaining good)),
        refl,
        refl,
        accepted_prefix good,
        refl,
        goes_on good,
      ),
    )
  ]
