-- ===== src/Speculative/Examples.antt =====
-- The theorems on speculation at short drafts.
use full_inference_engine.Base.{ℕ, ◌≡◌, ◌⊎◌, none, some, List, [], ◌∷◌, true, false, arith}
use full_inference_engine.Speculative.Acceptance.{GreedyCommit, plan_greedy_commit}
use full_inference_engine.Speculative.Acceptance.Lossless.{
  is_refused, Commits, plan_greedy_commit-Commits,
}
use full_inference_engine.Speculative.Ngram.{NgramProposer, propose}
use full_inference_engine.Speculative.Ngram.Recall.{Recalls, propose-Recalls}

abbrev draft : List ℕ
draft = 5 ∷ 6 ∷ 9 ∷ []

abbrev target : List ℕ
target = 5 ∷ 6 ∷ 7 ∷ []

plan_greedy_commit-Commits_example :
    ((is_refused draft target 8 ≡ true)
      × (plan_greedy_commit draft target 4 8 (2 ∷ []) [] false ≡ none))
    ⊎ ((is_refused draft target 8 ≡ false)
        × (c : GreedyCommit) × (plan_greedy_commit draft target 4 8 (2 ∷ []) [] false ≡ some c)
        × Commits draft target 4 8 (2 ∷ []) [] false c)
plan_greedy_commit-Commits_example = plan_greedy_commit-Commits draft target 4 8 (2 ∷ []) [] false

abbrev proposer : NgramProposer
proposer = record { min_match = 2; max_match = 4 }

abbrev history : List ℕ
history = 1 ∷ 2 ∷ 3 ∷ 4 ∷ 1 ∷ 2 ∷ []

propose-Recalls_example : Recalls proposer history 2 (propose proposer history 2)
propose-Recalls_example = propose-Recalls proposer history 2 (omega arith)
