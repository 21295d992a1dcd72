-- ===== src/Kernels/DecodeConfig/Splits.antt =====
-- The number of slices is the greatest power of two within the bounds.
use full_inference_engine.Base.{
  ℕ, zero, suc, ◌*◌, ◌/◌, ◌≤◌, ◌<◌, ◌≡◌, false, ◌||◌, some, ltb, ◌==◌, arith, Bool-cases, inl, inr,
}
use full_inference_engine.Kernels.DecodeConfig.{highest_bit, split_bound, choose_splits}

pub data IsPower : ℕ → Type 0 where
  unit : IsPower 1
  double : (n : ℕ) → IsPower n → IsPower (2 * n)

highest_bit-IsPower : (rounds n : ℕ) → IsPower (highest_bit rounds n)
unfolding highest_bit
highest_bit-IsPower zero n = unit
highest_bit-IsPower (suc rounds) n = elim (Bool-cases (ltb n 2)) [
  | inl e ↦ rw e unit
  | inr e ↦ rw e (double (highest_bit rounds (n / 2)) (highest_bit-IsPower rounds (n / 2)))
]

highest_bit-bounds :
    (rounds n : ℕ)
    → 0 < n
    → n ≤ rounds
    → (highest_bit rounds n ≤ n) × (n < 2 * highest_bit rounds n)
unfolding highest_bit
highest_bit-bounds zero n h k = absurd (omega arith)
highest_bit-bounds (suc rounds) n h k = ground (arith, highest_bit-bounds rounds (n / 2))

-- For positive rows, heads and lengths and a positive limit choose_splits returns a power of two within the
-- bounds, whose double is beyond them.
pub choose_splits-IsPower :
    (rows q_heads length multiprocessors block_n limit : ℕ)
    → (((rows == 0) || (q_heads == 0)) || (length == 0)) ≡ false
    → 0 < limit
    → (n : ℕ) × (choose_splits rows q_heads length multiprocessors block_n limit ≡ some n)
      × IsPower n
      × (n ≤ split_bound rows q_heads length multiprocessors block_n limit)
      × (split_bound rows q_heads length multiprocessors block_n limit < 2 * n)
unfolding choose_splits
choose_splits-IsPower rows q_heads length multiprocessors block_n limit h k =
    let bound : ℕ = split_bound rows q_heads length multiprocessors block_n limit in
    (
      highest_bit bound bound,
      ground arith,
      highest_bit-IsPower bound bound,
      (highest_bit-bounds bound bound (omega arith) (omega arith)).0,
      (highest_bit-bounds bound bound (omega arith) (omega arith)).1,
    )
