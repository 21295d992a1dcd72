-- ===== src/Server/Handles/Once.antt =====
-- Each callback of a handle runs once.
use full_inference_engine.Base.{
  ℕ, ◌+◌, ◌≡◌, refl, ◌∙◌, ap, true, Option, List, [], ◌∷◌, String, if◌then◌else◌, count,
  count-append, ◌==◌, arith, Bool-cases, inl, inr,
}
use full_inference_engine.Server.Handles.{
  RequestHandle, make, on_complete, on_accept, accept, complete,
}

pub data Call : Type 0 where
  completing : Option String → Call
  accepting : Call
  hearing_complete : ℕ → Call
  hearing_accept : ℕ → Call

abbrev pub perform : Call → RequestHandle → RequestHandle
perform (completing error) h = complete error h
perform accepting h = accept h
perform (hearing_complete callback) h = on_complete callback h
perform (hearing_accept callback) h = on_accept callback h

abbrev pub run : List Call → RequestHandle → RequestHandle
run [] h = h
run (call ∷ calls) h = run calls (perform call h)

-- How often a callback is registered by these calls.
abbrev pub registered : ℕ → List Call → ℕ
registered x [] = 0
registered x (completing error ∷ calls) = registered x calls
registered x (accepting ∷ calls) = registered x calls
registered x (hearing_complete callback ∷ calls) =
    (if callback == x then 1 else 0) + registered x calls
registered x (hearing_accept callback ∷ calls) =
    (if callback == x then 1 else 0) + registered x calls

-- A completed handle is accepted, and nothing waits for what has happened.
pub record IsSettled (h : RequestHandle) : Type 0 where
  pub completed_accepted : h.completed ≡ true → h.accepted ≡ true
  pub completed_ran : h.completed ≡ true → h.callbacks ≡ []
  pub accepted_ran : h.accepted ≡ true → h.accept_callbacks ≡ []

-- Where a callback is: run, or waiting for one of the two.
abbrev pub kept : ℕ → RequestHandle → ℕ
kept x h = count x h.ran + (count x h.callbacks + count x h.accept_callbacks)

perform-IsSettled : (call : Call) (h : RequestHandle) → IsSettled h → IsSettled (perform call h)
unfolding complete accept on_complete on_accept
perform-IsSettled (completing error) h v = record {
  completed_accepted = ground (arith, v.completed_accepted);
  completed_ran = ground (arith, v.completed_ran);
  accepted_ran = ground (arith, v.accepted_ran);
}
perform-IsSettled accepting h v = record {
  completed_accepted = ground (arith, v.completed_accepted);
  completed_ran = ground (arith, v.completed_ran);
  accepted_ran = ground (arith, v.accepted_ran);
}
perform-IsSettled (hearing_complete callback) h v = record {
  completed_accepted = ground (arith, v.completed_accepted);
  completed_ran = ground (arith, v.completed_ran);
  accepted_ran = ground (arith, v.accepted_ran);
}
perform-IsSettled (hearing_accept callback) h v = record {
  completed_accepted = ground (arith, v.completed_accepted);
  completed_ran = ground (arith, v.completed_ran);
  accepted_ran = ground (arith, v.accepted_ran);
}

accept-kept : (x : ℕ) (h : RequestHandle) → kept x (accept h) ≡ kept x h
unfolding accept
accept-kept x h = ground (arith, count-append x h.ran h.accept_callbacks)

complete-kept :
    (x : ℕ) (error : Option String) (h : RequestHandle) → kept x (complete error h) ≡ kept x h
unfolding complete
complete-kept x error h = elim (Bool-cases h.completed) [
  | inl e ↦ rw e refl
  | inr e ↦ rw e (accept-kept x _ ∙ omega (arith, count-append x h.ran h.callbacks))
]

-- A callback is registered, waits and runs as often.
perform-kept :
    (x : ℕ) (call : Call) (h : RequestHandle)
    → kept x (perform call h) ≡ kept x h + registered x (call ∷ [])
unfolding on_complete on_accept
perform-kept x (completing error) h = omega (arith, complete-kept x error h)
perform-kept x accepting h = omega (arith, accept-kept x h)
perform-kept x (hearing_complete callback) h =
    ground (arith, count-append x h.ran (callback ∷ []), count-append x h.callbacks (callback ∷ []))
perform-kept x (hearing_accept callback) h =
    ground (
      arith,
      count-append x h.ran (callback ∷ []),
      count-append x h.accept_callbacks (callback ∷ []),
    )

registered_first :
    (x : ℕ) (call : Call) (calls : List Call)
    → registered x (call ∷ calls) ≡ registered x (call ∷ []) + registered x calls
registered_first x (completing error) calls = omega arith
registered_first x accepting calls = omega arith
registered_first x (hearing_complete callback) calls = omega arith
registered_first x (hearing_accept callback) calls = omega arith

run-kept :
    (x : ℕ) (calls : List Call) (h : RequestHandle)
    → kept x (run calls h) ≡ kept x h + registered x calls
run-kept x [] h = omega arith
run-kept x (call ∷ calls) h =
    omega (
      arith,
      run-kept x calls (perform call h),
      perform-kept x call h,
      registered_first x call calls,
    )

run-IsSettled : (calls : List Call) (h : RequestHandle) → IsSettled h → IsSettled (run calls h)
run-IsSettled [] h v = v
run-IsSettled (call ∷ calls) h v = run-IsSettled calls (perform call h) (perform-IsSettled call h v)

make-IsSettled : IsSettled make
make-IsSettled = record {
  completed_accepted = λ e. absurd (ground arith);
  completed_ran = λ e. refl;
  accepted_ran = λ e. refl;
}

-- Once a handle is completed, whatever was called on it and in whatever order, every callback has run exactly
-- as often as it was registered, those for the admission too.
pub run-completed :
    (calls : List Call) (x : ℕ)
    → (run calls make).completed ≡ true
    → count x (run calls make).ran ≡ registered x calls
run-completed calls x e =
    let v = run-IsSettled calls make make-IsSettled in
    omega (
      arith,
      run-kept x calls make,
      ap (count x) (v.completed_ran e),
      ap (count x) (v.accepted_ran (v.completed_accepted e)),
    )

-- What these two do to the flag.
pub completed-accept : (h : RequestHandle) → (accept h).completed ≡ h.completed
unfolding accept
completed-accept h = ground arith

pub completed-complete :
    (error : Option String) (h : RequestHandle) → (complete error h).completed ≡ true
unfolding complete
completed-complete error h = elim (Bool-cases h.completed) [
  | inl e ↦ rw e refl
  | inr e ↦ rw e (completed-accept _)
]
