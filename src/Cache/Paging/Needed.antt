-- ===== src/Cache/Paging/Needed.antt =====
-- How many blocks engine/cache/paging.py takes for so many tokens: the fewest that hold them.
use full_inference_engine.Base.{ℕ, suc, ◌+◌, ◌-◌, ◌*◌, ◌≤◌, ◌<◌, ◌≡◌, arith, dec_lt}
use native.Mathlib.Nat.{div-lt_iff_lt-mul, le_trans, mul-le-mul_right}
use full_inference_engine.Cache.Paging.{KvBlockManager, blocks_needed}

-- Behind `held` blocks these are the fewest that hold so many tokens.
abbrev pub IsFewest : KvBlockManager → ℕ → ℕ → ℕ → Type 0
IsFewest m held tokens n =
    (tokens ≤ (held + n) * m.block_size_tokens)
    × ((k : ℕ) → tokens ≤ (held + k) * m.block_size_tokens → n ≤ k)

-- Enough blocks for the tokens.
pub blocks_needed-covers :
    (m : KvBlockManager) (tokens : ℕ)
    → 0 < m.block_size_tokens
    → tokens ≤ blocks_needed m tokens * m.block_size_tokens
unfolding blocks_needed
blocks_needed-covers m tokens h = grind arith

pub blocks_needed-pos :
    (m : KvBlockManager) (tokens : ℕ)
    → 0 < m.block_size_tokens
    → 0 < tokens
    → 0 < blocks_needed m tokens
blocks_needed-pos m tokens h k = ground (arith, blocks_needed-covers m tokens h)

-- The source's formula gives the fewest blocks.
blocks_needed-least :
    (m : KvBlockManager) (tokens k : ℕ)
    → 0 < m.block_size_tokens
    → tokens ≤ k * m.block_size_tokens
    → blocks_needed m tokens ≤ k
unfolding blocks_needed
blocks_needed-least m tokens k h fits =
    let size : ℕ = m.block_size_tokens in
    let below = (div-lt_iff_lt-mul {k = size} {x = tokens + size - 1} {y = suc k} h).1 in
    omega (arith, below (grind (arith, fits, h)))

module _ (m : KvBlockManager) (held tokens : ℕ) (positive : 0 < m.block_size_tokens) where
  pub missing-IsFewest : (n : ℕ) → n ≡ blocks_needed m tokens - held → IsFewest m held tokens n
  missing-IsFewest n e = (
    le_trans (blocks_needed-covers m tokens positive)
        (mul-le-mul_right m.block_size_tokens (omega arith)),
    λ k fits. omega (arith, blocks_needed-least m tokens (held + k) positive fits),
  )

  pub missing_short :
      (free : ℕ)
      → free < blocks_needed m tokens - held
      → (held + free) * m.block_size_tokens < tokens
  missing_short free short = elim (dec_lt ((held + free) * m.block_size_tokens) tokens) [
    | yes less ↦ less
    | no more ↦
        absurd (omega (arith, blocks_needed-least m tokens (held + free) positive (omega arith)))
  ]
