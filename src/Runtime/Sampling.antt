-- ===== src/Runtime/Sampling.antt =====
-- `SamplingParams` of engine/runtime/sampling.py. A float is what an IEEE number stands for: not a
-- number, an infinity, or a signed fraction whose denominator is a power of two. Python compares two
-- floats by these values.
mod Examples
use full_inference_engine.Base.{
  ℕ, zero, ◌*◌, suc, Bool, true, false, not, ◌&&◌, ◌||◌, Option, none, some, List, [], ltb, leb,
  ◌==◌, ℤ, pos, negsuc, is_some, Action, value_error, raise_if, get, ◌>>◌, ◌>>=◌,
}

-- `finite n k` is n / 2 ^ k.
pub data Float : Type 0 where
  nan minus_infinity plus_infinity : Float
  finite : ℤ → ℕ → Float

pub power_of_two : ℕ → ℕ
power_of_two zero = 1
power_of_two (suc k) = 2 * power_of_two k

-- n / 2 ^ j ≤ m / 2 ^ k
pub le_finite : ℤ → ℕ → ℤ → ℕ → Bool
le_finite (pos n) j (pos m) k = leb (n * power_of_two k) (m * power_of_two j)
le_finite (pos n) j (negsuc m) k = false
le_finite (negsuc n) j (pos m) k = true
le_finite (negsuc n) j (negsuc m) k = leb (suc m * power_of_two j) (suc n * power_of_two k)

pub float_le : Float → Float → Bool
float_le nan y = false
float_le minus_infinity y = elim y [ nan ↦ false | _ ↦ true ]
float_le plus_infinity y = elim y [ plus_infinity ↦ true | _ ↦ false ]
float_le (finite n j) y = elim y [
  | nan ↦ false
  | minus_infinity ↦ false
  | plus_infinity ↦ true
  | finite m k ↦ le_finite n j m k
]

pub float_eq : Float → Float → Bool
float_eq x y = float_le x y && float_le y x

pub float_lt : Float → Float → Bool
float_lt x y = float_le x y && not (float_le y x)

abbrev pub zero_float : Float
zero_float = finite (pos 0) 0

abbrev pub one_float : Float
one_float = finite (pos 1) 0

abbrev pub two_float : Float
two_float = finite (pos 2) 0

abbrev pub minus_two_float : Float
minus_two_float = finite (negsuc 1) 0

pub record SamplingParams : Type 0 where
  pub temperature : Float
  pub top_p : Float
  pub top_k : ℤ
  pub min_p : Float
  pub repetition_penalty : Float
  pub presence_penalty : Float
  pub frequency_penalty : Float
  pub penalize_prompt : Bool
  pub seed : Option ℤ
  pub stop_token_ids : List ℕ
  pub ignore_eos : Bool
  pub logprobs : Option ℤ

-- lo ≤ x ≤ hi
pub in_range : Float → Float → Float → Bool
in_range lo x hi = float_le lo x && float_le x hi

pub is_negative : ℤ → Bool
is_negative (pos n) = false
is_negative (negsuc n) = true

-- 0 ≤ x ≤ bound
pub int_within : ℤ → ℕ → Bool
int_within (pos n) bound = leb n bound
int_within (negsuc n) bound = false

pub option_within : Option ℤ → ℕ → Bool
option_within none bound = true
option_within (some x) bound = int_within x bound

-- `__post_init__`: the checks, in order.
pub post_init : Action SamplingParams (Unit {0})
post_init = do
  p ← get
  raise_if (not (in_range zero_float p.temperature two_float)) value_error
  raise_if (not (float_lt zero_float p.top_p && float_le p.top_p one_float)) value_error
  raise_if (is_negative p.top_k) value_error
  raise_if (not (in_range zero_float p.min_p one_float)) value_error
  raise_if
      (not (float_lt zero_float p.repetition_penalty && float_le p.repetition_penalty two_float))
      value_error
  raise_if (not (in_range minus_two_float p.presence_penalty two_float)) value_error
  raise_if (not (in_range minus_two_float p.frequency_penalty two_float)) value_error
  raise_if (not (option_within p.logprobs 20)) value_error
  raise_if (not (option_within p.seed 9223372036854775807)) value_error

pub greedy : SamplingParams → Bool
greedy p = float_eq p.temperature zero_float || elim p.top_k [ pos k ↦ k == 1 | negsuc k ↦ false ]

pub has_penalties : SamplingParams → Bool
has_penalties p =
    not (float_eq p.repetition_penalty one_float)
    || (not (float_eq p.presence_penalty zero_float)
        || not (float_eq p.frequency_penalty zero_float))

pub deterministic : SamplingParams → Bool
deterministic p = greedy p || is_some p.seed

pub can_reuse_cached_prediction : SamplingParams → Bool
can_reuse_cached_prediction p = greedy p && (not (has_penalties p) && not (is_some p.logprobs))

-- `GREEDY`
abbrev pub greedy_params : SamplingParams
greedy_params = record {
  temperature = zero_float;
  top_p = one_float;
  top_k = pos 0;
  min_p = zero_float;
  repetition_penalty = one_float;
  presence_penalty = zero_float;
  frequency_penalty = zero_float;
  penalize_prompt = false;
  seed = none;
  stop_token_ids = [];
  ignore_eos = false;
  logprobs = none;
}
