-- ===== src/Server/Handles/Examples.antt =====
-- The theorem on the callbacks of a handle, at a handle that is completed twice.
use full_inference_engine.Base.{◌≡◌, refl, none, some, [], ◌∷◌, List, count}
use full_inference_engine.Server.Handles.{make, on_complete, on_accept, accept, complete}
use full_inference_engine.Server.Handles.Once.{
  Call, completing, hearing_complete, hearing_accept, run, registered, run-completed,
}

abbrev calls : List Call
calls =
    hearing_complete 7
    ∷ hearing_accept 8
    ∷ completing (some "RuntimeError")
    ∷ completing none
    ∷ hearing_complete 7
    ∷ []

run-completed_example : count 7 (run calls make).ran ≡ registered 7 calls
unfolding complete accept on_complete on_accept
run-completed_example = run-completed calls 7 refl
