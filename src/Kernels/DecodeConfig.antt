-- ===== src/Kernels/DecodeConfig.antt =====
-- engine/kernels/paged_decode_config.py: the tile of a decode kernel and the number of slices.
pub mod Splits
use full_inference_engine.Base.{
  ℕ, zero, suc, ◌+◌, ◌-◌, ◌*◌, ◌/◌, min, max, Bool, true, false, ◌||◌, Option, none, some, ltb, leb,
  ◌==◌, if◌then◌else◌,
}

-- `none` is the `ValueError`.
pub select_paged_decode_config : ℕ → ℕ → Option (ℕ × ℕ)
select_paged_decode_config max_sequence_length batch_size =
    if (max_sequence_length == 0) || (batch_size == 0)
    then none
    else some (if leb 128 max_sequence_length then 128 else 64, 4)

-- `1 << (n.bit_length() - 1)`: halving `n` as often as it has bits; `n` rounds are enough.
pub highest_bit : ℕ → ℕ → ℕ
highest_bit zero n = 1
highest_bit (suc rounds) n =
    let half = highest_bit rounds (n / 2) in if ltb n 2 then 1 else 2 * half

-- The two bounds and the limit. The programs are not zero, so that this is the quotient rounded up.
abbrev pub split_bound : ℕ → ℕ → ℕ → ℕ → ℕ → ℕ → ℕ
split_bound rows q_heads max_sequence_length multiprocessors block_n limit =
    min
      (min (max 1 ((2 * multiprocessors + rows * q_heads - 1) / (rows * q_heads)))
        (max 1 (max_sequence_length / block_n)))
      limit

-- `none` is the `ValueError`.
pub choose_splits : ℕ → ℕ → ℕ → ℕ → ℕ → ℕ → Option ℕ
choose_splits rows q_heads max_sequence_length multiprocessors block_n limit =
    let splits = split_bound rows q_heads max_sequence_length multiprocessors block_n limit in
    if ((rows == 0) || (q_heads == 0)) || (max_sequence_length == 0)
    then none
    else some (if splits == 0 then 1 else highest_bit splits splits)
