-- ===== src/Scheduler/Figures.antt =====
-- `snapshot` of engine/scheduler/scheduler.py. A time is given by its nanoseconds; `D` is what the prefix
-- cache gives for itself.
use full_inference_engine.Base.{ℕ, Option, none, some, [], ◌∷◌, String, length}
use full_inference_engine.Cache.Paging
use full_inference_engine.Scheduler.{Scheduler, effective_capacity_tokens}

pub record SchedulerSnapshot (D : Type 0) : Type 0 where
  pub waiting_requests : ℕ
  pub active_requests : ℕ
  pub admission_count : ℕ
  pub rejected_count : ℕ
  pub preemption_count : ℕ
  pub progress_epoch : ℕ
  pub effective_capacity_tokens : ℕ
  pub recomputed_tokens_total : ℕ
  pub recompute_ns_total : ℕ
  pub head_request_id : Option String
  pub block_manager : Paging.Snapshot
  pub prefix_cache : Option D

pub snapshot : {C D : Type 0} → (C → D) → Scheduler C → SchedulerSnapshot D
snapshot cache_snapshot s = record {
  waiting_requests = length s.waiting_queue;
  active_requests = length s.active;
  admission_count = s.admission_count;
  rejected_count = s.rejected_count;
  preemption_count = s.preemption_count;
  progress_epoch = s.progress_epoch;
  effective_capacity_tokens = full_inference_engine.Scheduler.effective_capacity_tokens s;
  recomputed_tokens_total = s.recomputed_tokens_total;
  recompute_ns_total = s.recompute_ns_total;
  head_request_id = elim s.waiting_queue [ [] ↦ none | r ∷ queue ↦ some r.request_id ];
  block_manager = Paging.snapshot s.block_manager;
  prefix_cache = elim s.prefix_cache [ none ↦ none | some cache ↦ some (cache_snapshot cache) ];
}
