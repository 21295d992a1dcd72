-- ===== src/Server/Service/Examples.antt =====
-- The theorems on the service with an engine that takes every request and is done with it at once, and with
-- one that refuses a submission by raising.
use full_inference_engine.Base.{
  ◌≡◌, refl, Bool, true, false, none, some, List, [], ◌∷◌, String_discrete, lookup, insert, arith,
  ok, Action, inl,
}
use full_inference_engine.Runtime.States.{finished}
use full_inference_engine.Server.Handles.{make}
use full_inference_engine.Server.Service.{
  EngineOps, Service, stop, close, fail_all, complete_all, put_submission, start,
}
use full_inference_engine.Server.Service.Outstanding.{waits}
use full_inference_engine.Server.Service.Passes.{IsAccounted}
use full_inference_engine.Server.Service.Accounts.{
  Call, starting, submitting, putting, cancelling, passing, closing, run, HasEnded, run-IsAccounted,
}

abbrev engine : Action (Unit {0}) Bool → EngineOps (Unit {0})
engine answer = record {
  submit_request = λ id. answer;
  cancel_request = λ id reason. ok tt;
  step = ok tt;
  has_unfinished_requests = λ e. true;
  state_of = λ id e. finished;
  finish_reason_of = λ id e. some "EOS";
}

abbrev initial : Service (Unit {0})
initial = record {
  engine = tt;
  max_pending_submissions = 2;
  inbox = [];
  cancellations = [];
  active = [];
  handles = [];
  stopping = false;
  draining = false;
  thread = none;
  fatal_error = none;
  completed_count = 0;
  cancelled_count = 0;
  failed_count = 0;
}

initial-IsAccounted : IsAccounted initial
unfolding lookup
initial-IsAccounted = ([], omega arith, λ id e. absurd (ground arith), inl refl)

abbrev calls : List Call
calls =
    starting
    ∷ submitting "a" 3 2
    ∷ submitting "b" 1 1
    ∷ cancelling "b" "CLIENT_DISCONNECTED"
    ∷ passing "RuntimeError"
    ∷ submitting "c" 2 2
    ∷ []

run-IsAccounted_example :
    IsAccounted (run (engine (ok true)) calls initial)
    × HasEnded (
        stop
          (run (engine (ok true)) (passing "RuntimeError" ∷ []))
          (run (engine (ok true)) (putting "d" ∷ []))
          (run (engine (ok true)) calls initial))
run-IsAccounted_example =
    run-IsAccounted (engine (ok true)) calls (passing "RuntimeError" ∷ []) (putting "d" ∷ [])
      initial initial-IsAccounted

-- A submission whose guards are read before the service stops, and that is put after: its handle stands in an
-- inbox that the worker, started again, does not read.
late_put_run :
    waits "d" (
      run
        (engine (ok true))
        (closing ∷ putting "d" ∷ starting ∷ passing "RuntimeError" ∷ [])
        initial)
    ≡ true
unfolding lookup insert String_discrete close fail_all complete_all put_submission start
late_put_run = refl

abbrev too_long : Service (Unit {0})
too_long = record initial { thread = some true; inbox = "a" ∷ []; handles = ("a", make) ∷ [] }
