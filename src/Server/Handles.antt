-- ===== src/Server/Handles.antt =====
-- `RequestHandle` of engine/server/continuous.py. Its lock makes each method's change of the fields one step,
-- so that the methods are functions. A callback is known by a number; that it runs is a new entry of `ran`.
-- What a callback raises is dropped by the code and so is not here. An error is given by its text.
pub mod Once
mod Examples
use full_inference_engine.Base.{
  ℕ, Bool, true, false, Option, none, some, List, [], ◌∷◌, ◌++◌, String, if◌then◌else◌,
}

pub record RequestHandle : Type 0 where
  pub completed : Bool
  pub accepted : Bool
  pub error : Option String
  pub callbacks : List ℕ
  pub accept_callbacks : List ℕ
  pub ran : List ℕ

abbrev pub make : RequestHandle
make = record {
  completed = false;
  accepted = false;
  error = none;
  callbacks = [];
  accept_callbacks = [];
  ran = [];
}

pub on_complete : ℕ → RequestHandle → RequestHandle
on_complete callback h =
    if h.completed
    then record h { ran = h.ran ++ callback ∷ [] }
    else record h { callbacks = h.callbacks ++ callback ∷ [] }

pub on_accept : ℕ → RequestHandle → RequestHandle
on_accept callback h =
    if h.accepted
    then record h { ran = h.ran ++ callback ∷ [] }
    else record h { accept_callbacks = h.accept_callbacks ++ callback ∷ [] }

-- `_accept`
pub accept : RequestHandle → RequestHandle
accept h =
    if h.accepted
    then h
    else record h { accepted = true; accept_callbacks = []; ran = h.ran ++ h.accept_callbacks }

abbrev pub first_error : Option String → Option String → Option String
first_error (some e) new = some e
first_error none new = new

-- `_complete`
pub complete : Option String → RequestHandle → RequestHandle
complete error h =
    if h.completed
    then h
    else accept (record h {
      error = first_error h.error error;
      completed = true;
      callbacks = [];
      ran = h.ran ++ h.callbacks;
    })
