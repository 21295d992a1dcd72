-- ===== src/Runtime/Requests/Examples.antt =====
-- A request through a preemption to its end, and the theorems at this run.
use full_inference_engine.Base.{
  ◌≡◌, refl, false, none, some, List, [], ◌∷◌, String_discrete, ok, arith,
}
use full_inference_engine.Runtime.Sampling.{greedy_params}
use full_inference_engine.Runtime.States.{
  waiting, prefilling, decoding, finished, allowed_transition,
}
use full_inference_engine.Runtime.Requests.{
  GenerationRequest, post_init, prefill_token_count, remaining_prefill_tokens, close_preemption,
  enter_prefilling, close_recompute, enter_decoding, close_wait, enter_terminal, moved, transition,
  yielded, preempt, resumed, complete_resumption, advanced, advance_prefill, appended, append_token,
}
use full_inference_engine.Runtime.Requests.Calls.{
  Call, run, transition_to, preempt_at, complete, advance, append,
}
use full_inference_engine.Runtime.Requests.Sound.{IsSound, run-IsSound}
use full_inference_engine.Runtime.Requests.Ended.{run-terminal, run-Extends, Extends}
use full_inference_engine.Runtime.Requests.Latency.{generation_time, decode_time}

-- GenerationRequest("a", 2, 3, prompt_token_ids=[7, 8]) at time 100.
abbrev fresh : GenerationRequest
fresh = record {
  request_id = "a";
  prompt_token_count = 2;
  max_new_tokens = 3;
  state = waiting;
  created_ns = 100;
  admitted_ns = none;
  prompt_token_ids = 7 ∷ 8 ∷ [];
  allocation = none;
  output_token_ids = [];
  sampling = greedy_params;
  output_logprobs = [];
  next_token_id = none;
  finish_reason = none;
  prefilled_token_count = 0;
  first_token_ns = none;
  last_token_ns = none;
  token_timestamps_ns = [];
  cached_prefix_tokens = 0;
  cached_next_token_id = none;
  preempted_count = 0;
  resuming = false;
  recomputing = false;
  preempted_at_epoch = 0;
  recomputed_token_count = 0;
  recompute_ns = 0;
  preempted_wait_ns = 0;
  preempted_ns = none;
  resume_started_ns = none;
  stalled_ns = 0;
  held_pages_at_exit = false;
  speculative_rounds = 0;
  speculative_proposed_tokens = 0;
  speculative_accepted_tokens = 0;
  speculative_fallbacks = 0;
}

fresh_valid : post_init fresh ≡ ok tt fresh
unfolding post_init String_discrete
fresh_valid = refl

fresh-IsSound : IsSound fresh
unfolding prefill_token_count
fresh-IsSound = record {
  prefill_within = omega arith;
  output_within = omega arith;
  stamped = refl;
  first_stamped = refl;
  last_stamped = refl;
  stalls = omega arith;
  parked = λ e. ground arith;
  ended = λ e. refl;
  rebuilt = λ e. refl;
  prompted = λ e. ground arith;
}

-- Admitted, prefilled, two tokens, yielded, rebuilt, one more token, finished.
abbrev life : List Call
life =
    transition_to prefilling none 110
    ∷ advance 2
    ∷ transition_to decoding none 120
    ∷ append 4 130
    ∷ append 5 140
    ∷ preempt_at (some "PREEMPTED") 3 150
    ∷ transition_to prefilling none 170
    ∷ advance 3
    ∷ transition_to decoding none 180
    ∷ complete
    ∷ append 6 190
    ∷ transition_to finished (some "LENGTH") 200
    ∷ []

life_end :
    (((run life fresh).output_token_ids ≡ 4 ∷ 5 ∷ 6 ∷ []) × ((run life fresh).stalled_ns ≡ 30))
    × ((decode_time (run life fresh) ≡ some 30) × ((run life fresh).recomputed_token_count ≡ 3))
unfolding transition moved enter_prefilling close_preemption enter_decoding close_recompute
    close_wait enter_terminal allowed_transition prefill_token_count remaining_prefill_tokens
    preempt yielded complete_resumption resumed advance_prefill advanced append_token appended
    decode_time generation_time
life_end = ((refl, refl), (refl, refl))

run-IsSound_example : IsSound (run life fresh)
run-IsSound_example = run-IsSound life fresh fresh-IsSound

run-Extends_example : Extends (run life fresh) (run (append 9 300 ∷ []) (run life fresh))
run-Extends_example = run-Extends (append 9 300 ∷ []) (run life fresh)

run-terminal_example :
    run (append 9 300 ∷ transition_to waiting none 310 ∷ []) (run life fresh) ≡ run life fresh
unfolding transition moved enter_prefilling close_preemption enter_decoding close_recompute
    close_wait enter_terminal allowed_transition prefill_token_count remaining_prefill_tokens
    preempt yielded complete_resumption resumed advance_prefill advanced append_token appended
run-terminal_example =
    run-terminal (append 9 300 ∷ transition_to waiting none 310 ∷ []) (run life fresh) refl
