-- ===== src/Speculative/Ngram.antt =====
-- `Proposal` of engine/speculative/proposer.py and `NgramProposer` of engine/speculative/ngram.py. Tokens
-- and counts are naturals, so that the checks of `Proposal` hold.
pub mod Recall
use full_inference_engine.Base.{
  ℕ, zero, suc, ◌+◌, ◌-◌, ◌/◌, min, Bool, true, false, ◌||◌, Option, none, some, List, [], ◌∷◌,
  String, is_yes, ltb, ◌==◌, if◌then◌else◌, length, take, drop, ℕ_discrete,
}

pub record Proposal : Type 0 where
  pub token_ids : List ℕ
  pub method : String
  pub matched_tokens : ℕ

pub depth : Proposal → ℕ
depth p = length p.token_ids

pub record NgramProposer : Type 0 where
  pub min_match : ℕ
  pub max_match : ℕ

-- `none` is the `ValueError`.
pub make : ℕ → ℕ → Option NgramProposer
make min_match max_match =
    if (min_match == 0) || ltb max_match min_match
    then none
    else some (record { min_match = min_match; max_match = max_match })

pub tokens_discrete : Discrete (List ℕ)
tokens_discrete = hlevel ℕ_discrete

abbrev pub slice : List ℕ → ℕ → ℕ → List ℕ
slice tokens start n = take n (drop start tokens)

-- `tokens[start:start + width] == suffix`
abbrev pub occurs : List ℕ → ℕ → ℕ → Bool
occurs tokens width start =
    is_yes (tokens_discrete (slice tokens start width) (drop (length tokens - width) tokens))

-- The loop over the starts below `n`, the latest first.
pub scan : List ℕ → ℕ → ℕ → ℕ → Option (List ℕ)
scan tokens max_tokens width zero = none
scan tokens max_tokens width (suc start) =
    let earlier = scan tokens max_tokens width start in
    let continuation = slice tokens (start + width) max_tokens in
    if occurs tokens width start
    then (if length continuation == 0 then earlier else some continuation)
    else earlier

-- The loop over `n` widths from `min_match` on, the longest first; the width is returned with what is found.
pub try_widths : List ℕ → ℕ → ℕ → ℕ → Option (List ℕ × ℕ)
try_widths tokens max_tokens min_match zero = none
try_widths tokens max_tokens min_match (suc n) =
    let narrower = try_widths tokens max_tokens min_match n in
    let width = min_match + n in
    elim (scan tokens max_tokens width (suc (length tokens - width - width))) [
      | some continuation ↦ some (continuation, width)
      | none ↦ narrower
    ]

pub propose : NgramProposer → List ℕ → ℕ → Proposal
propose p tokens max_tokens =
    let largest = min p.max_match (length tokens / 2) in
    let nothing : Proposal = record { token_ids = []; method = "ngram"; matched_tokens = 0 } in
    if max_tokens == 0
    then nothing
    else elim (try_widths tokens max_tokens p.min_match (suc largest - p.min_match)) [
      | some (continuation, width) ↦ record {
        token_ids = continuation;
        method = "ngram";
        matched_tokens = width;
      }
      | none ↦ nothing
    ]
