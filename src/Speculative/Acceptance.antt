-- ===== src/Speculative/Acceptance.antt =====
-- `GreedyCommit` and `plan_greedy_commit` of engine/speculative/acceptance.py. Tokens and counts are
-- naturals.
pub mod Lossless
use full_inference_engine.Base.{
  ℕ, suc, ◌+◌, ◌-◌, min, Bool, true, false, not, ◌||◌, ◌&&◌, Option, none, some, List, [], ◌∷◌,
  ◌++◌, String, ◌==◌, if◌then◌else◌, length, take, get_or, count,
}

pub record GreedyCommit : Type 0 where
  pub emitted : List ℕ
  pub accepted_draft_tokens : ℕ
  pub cached_input_count : ℕ
  pub fully_accepted : Bool
  pub terminal_reason : Option String

-- The loop that counts the equal tokens in front.
pub accepted_count : List ℕ → List ℕ → ℕ
accepted_count [] target = 0
accepted_count (d ∷ draft) [] = 0
accepted_count (d ∷ draft) (t ∷ target) = if d == t then suc (accepted_count draft target) else 0

-- With lists of equal length the index is in range.
pub candidates : List ℕ → List ℕ → ℕ → List ℕ
candidates draft target bonus =
    let accepted = accepted_count draft target in
    if accepted == length draft
    then draft ++ bonus ∷ []
    else take accepted draft ++ get_or target accepted 0 ∷ []

abbrev pub member : ℕ → List ℕ → Bool
member token tokens = not (count token tokens == 0)

-- The loop that emits until a token ends the request.
pub emit : List ℕ → List ℕ → Bool → List ℕ → List ℕ × Option String
emit eos stop ignore_eos [] = ([], none)
emit eos stop ignore_eos (token ∷ tokens) =
    let rest = emit eos stop ignore_eos tokens in
    if member token stop
    then (token ∷ [], some "STOP")
    else if not ignore_eos && member token eos
    then (token ∷ [], some "EOS")
    else (token ∷ rest.0, rest.1)

-- `none` is the `ValueError`.
pub plan_greedy_commit : List ℕ → List ℕ → ℕ → ℕ → List ℕ → List ℕ → Bool → Option GreedyCommit
plan_greedy_commit draft target bonus remaining_tokens eos stop ignore_eos =
    let accepted = accepted_count draft target in
    let run = emit eos stop ignore_eos (take remaining_tokens (candidates draft target bonus)) in
    if ((length draft == 0) || not (length draft == length target)) || (remaining_tokens == 0)
    then none
    else some (record {
      emitted = run.0;
      accepted_draft_tokens = min accepted (length run.0);
      cached_input_count = length run.0;
      fully_accepted = accepted == length draft;
      terminal_reason = elim run.1 [
        | some reason ↦ some reason
        | none ↦ if length run.0 == remaining_tokens then some "LENGTH" else none
      ];
    })
