-- ===== src/Runtime/Requests/Latency.antt =====
-- The latencies of engine/runtime/request.py, in nanoseconds. Times do not run backwards, so that no
-- difference is negative; `decode_time_ms` stops at zero itself.
use full_inference_engine.Base.{ℕ, ◌+◌, ◌-◌, Option, none, some, ltb, ◌==◌, if◌then◌else◌, length}
use full_inference_engine.Runtime.Requests.{GenerationRequest}

pub queue_time : GenerationRequest → Option ℕ
queue_time r = elim r.admitted_ns [ none ↦ none | some t ↦ some (t - r.created_ns) ]

pub total_queue_time : GenerationRequest → Option ℕ
total_queue_time r = elim (queue_time r) [ none ↦ none | some t ↦ some (t + r.preempted_wait_ns) ]

pub time_to_first_token : GenerationRequest → Option ℕ
time_to_first_token r = elim r.first_token_ns [ none ↦ none | some t ↦ some (t - r.created_ns) ]

unfoldable pub generation_time : GenerationRequest → Option ℕ
generation_time r = elim r.first_token_ns [
  | none ↦ none
  | some start ↦ elim r.last_token_ns [ none ↦ none | some end ↦ some (end - start) ]
]

-- `max(0.0, wall - stall)`
unfoldable pub decode_time : GenerationRequest → Option ℕ
decode_time r = elim (generation_time r) [ none ↦ none | some wall ↦ some (wall - r.stalled_ns) ]

-- The decode time over this number of gaps.
pub mean_inter_token_latency : GenerationRequest → Option (ℕ × ℕ)
mean_inter_token_latency r = elim (decode_time r) [
  | none ↦ none
  | some t ↦
      if ltb (length r.output_token_ids) 2 then none else some (t, length r.output_token_ids - 1)
]

pub record LatencyReport : Type 0 where
  pub queue : Option ℕ
  pub total_queue : Option ℕ
  pub first_token : Option ℕ
  pub generation : Option ℕ
  pub decode : Option ℕ
  pub stall : ℕ
  pub mean_inter_token : Option (ℕ × ℕ)
  pub output_tokens : ℕ

pub latency_report : GenerationRequest → LatencyReport
latency_report r = record {
  queue = queue_time r;
  total_queue = total_queue_time r;
  first_token = time_to_first_token r;
  generation = generation_time r;
  decode = decode_time r;
  stall = r.stalled_ns;
  mean_inter_token = mean_inter_token_latency r;
  output_tokens = length r.output_token_ids;
}

pub record RecomputeOverhead : Type 0 where
  pub preempted : ℕ
  pub recomputed_tokens : ℕ
  pub recompute : ℕ
  pub preempted_wait : ℕ
  pub tokens_per_output_token : ℕ × ℕ

-- The waste is given as a fraction.
pub recompute_overhead : GenerationRequest → RecomputeOverhead
recompute_overhead r = record {
  preempted = r.preempted_count;
  recomputed_tokens = r.recomputed_token_count;
  recompute = r.recompute_ns;
  preempted_wait = r.preempted_wait_ns;
  tokens_per_output_token =
      if length r.output_token_ids == 0
      then (0, 1)
      else (r.recomputed_token_count, length r.output_token_ids);
}
