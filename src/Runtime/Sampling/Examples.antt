-- ===== src/Runtime/Sampling/Examples.antt =====
-- The default parameters of engine/runtime/sampling.py.
use full_inference_engine.Base.{◌≡◌, refl, true, ok}
use full_inference_engine.Runtime.Sampling.{
  greedy_params, post_init, can_reuse_cached_prediction, in_range, float_le, float_lt, float_eq,
  le_finite, power_of_two, is_negative, option_within, int_within, greedy, has_penalties,
}

greedy_valid :
    (post_init greedy_params ≡ ok tt greedy_params)
    × (can_reuse_cached_prediction greedy_params ≡ true)
unfolding post_init can_reuse_cached_prediction in_range float_le float_lt float_eq le_finite
    power_of_two is_negative option_within int_within greedy has_penalties
greedy_valid = (refl, refl)
