-- ===== src/Scheduler/Admission/Runs.antt =====
-- What a test run of `admit_available` of engine/scheduler/scheduler.py computes with.
use full_inference_engine.Scheduler.Admission.{
  waits_for_progress, activate, find_match, reserve_first, place_fresh, place, admit_head,
  admit_loop, admit_available,
}

-- To unfold this is to unfold the rounds of the loop, without a prefix cache.
unfoldable pub admission : Unit {0}
unfolding waits_for_progress activate find_match reserve_first place_fresh place admit_head
    admit_loop admit_available
admission = tt
