-- ===== src/Server/Service.antt =====
-- `ContinuousBatchingService` of engine/server/continuous.py: submission, cancellation, the passes of the
-- worker thread, and how the service drains and stops. A step is what one thread does between two points at
-- which the others may act: the check of a submission and its put are two, a drain and a stop are several,
-- and a pass of the worker is one. A handle is known by the id of its request. The statistics and metrics, which never stop the worker, and the
-- times of waits and joins are left out. An error is given by its text.

pub mod Outstanding
pub mod Moves
pub mod Passes
pub mod Accounts
mod Examples
use full_inference_engine.Base.{
  ℕ, suc, ◌+◌, Bool, true, false, not, ◌||◌, ◌&&◌, Option, none, some, List, [], ◌∷◌, ◌++◌, String,
  String_discrete, is_yes, leb, ◌==◌, if◌then◌else◌, length, is_some, Dict, lookup, insert, Outcome,
  Action, Error, ok, raise, get, modify, pure, ◌>>◌, ◌>>=◌,
}
use full_inference_engine.Runtime.States.{RequestState, failed, is_terminal}
use full_inference_engine.Server.Handles.{RequestHandle, make, accept, complete}

-- What the service asks of the engine; the last two read a request that the engine changes.
pub record EngineOps (E : Type 0) : Type 0 where
  pub submit_request : String → Action E Bool
  pub cancel_request : String → String → Action E (Unit {0})
  pub step : Action E (Unit {0})
  pub has_unfinished_requests : E → Bool
  pub state_of : String → E → RequestState
  pub finish_reason_of : String → E → Option String

pub record Service (E : Type 0) : Type 0 where
  pub engine : E
  pub max_pending_submissions : ℕ
  pub inbox : List String
  pub cancellations : List (String × String)
  pub active : List String
  pub handles : Dict String RequestHandle
  pub stopping : Bool
  pub draining : Bool
  pub thread : Option Bool
  pub fatal_error : Option String
  pub completed_count : ℕ
  pub cancelled_count : ℕ
  pub failed_count : ℕ

-- What `submit` comes to: the handle's id, or a `SubmitError` with its status code.
pub data Submission : Type 0 where
  submitted : String → Submission
  submit_error : ℕ → Submission

pub has : String → List String → Bool
has id [] = false
has id (x ∷ xs) = is_yes (String_discrete x id) || has id xs

pub without_id : String → List String → List String
without_id id [] = []
without_id id (x ∷ xs) =
    if is_yes (String_discrete x id) then without_id id xs else x ∷ without_id id xs

abbrev pub is_failed : RequestState → Bool
is_failed state = elim state [ failed ↦ true | _ ↦ false ]

-- Whether there is a thread that has ended.
abbrev pub has_ended : Option Bool → Bool
has_ended none = false
has_ended (some alive) = not alive

-- Whether there is a thread that is alive.
abbrev pub is_alive : Option Bool → Bool
is_alive none = false
is_alive (some alive) = alive

module _ {E : Type 0} where
  -- A change of one handle.
  pub on_handle : (RequestHandle → RequestHandle) → String → Service E → Service E
  on_handle change id s = elim (lookup String_discrete id s.handles) [
    | none ↦ s
    | some h ↦ record s { handles = insert String_discrete id (change h) s.handles }
  ]

  -- `start`
  pub start : Service E → Service E
  start s = elim s.thread [ some alive ↦ s | none ↦ record s { thread = some true } ]

  -- The guards of `submit`: the status code of the refusal.
  pub check_submission : ℕ → ℕ → Service E → Option ℕ
  check_submission prompt_tokens max_new_tokens s =
      if is_some s.fatal_error || has_ended s.thread
      then some 503
      else if s.draining || s.stopping
      then some 503
      else if (prompt_tokens == 0) || (max_new_tokens == 0)
      then some 400
      else none

  -- `put_nowait`, which takes no lock: other threads may have acted since the guards were read. `id` is what
  -- `uuid4` gives.
  pub put_submission : String → Service E → Submission × Service E
  put_submission id s =
      if leb s.max_pending_submissions (length s.inbox) then (submit_error 429, s) else (
        submitted id,
        record s { inbox = s.inbox ++ id ∷ []; handles = insert String_discrete id make s.handles },
      )

  -- `submit` where no other thread acts in between.
  pub submit : String → ℕ → ℕ → Service E → Submission × Service E
  submit id prompt_tokens max_new_tokens s =
      elim (check_submission prompt_tokens max_new_tokens s) [
        | some code ↦ (submit_error code, s)
        | none ↦ put_submission id s
      ]

  pub cancel : String → String → Service E → Service E
  cancel id reason s = elim (lookup String_discrete id s.handles) [
    | none ↦ s
    | some h ↦
        if h.completed then s else record s { cancellations = s.cancellations ++ (id, reason) ∷ [] }
  ]

  pub complete_all : Option String → List String → Service E → Service E
  complete_all error [] s = s
  complete_all error (id ∷ ids) s = complete_all error ids (on_handle (complete error) id s)

  -- `_fail_all`
  pub fail_all : String → Bool → Service E → Service E
  fail_all error mark_fatal s = complete_all (some error) (s.active ++ s.inbox) (record s {
    fatal_error = if mark_fatal then some error else s.fatal_error;
    active = [];
    inbox = [];
  })

  -- The first step of `drain`.
  pub begin_drain : Service E → Service E
  begin_drain s = record s { draining = true }

  pub cancel_all : String → List String → Service E → Service E
  cancel_all reason [] s = s
  cancel_all reason (id ∷ ids) s = cancel_all reason ids (cancel id reason s)

  -- `drain` behind its wait: what is still active is cancelled, and counted.
  pub end_drain : Service E → ℕ × Service E
  end_drain s = (length s.active, cancel_all "SERVER_SHUTDOWN" s.active s)

  -- `meanwhile` is what the other threads do while `drain` waits.
  pub drain : (Service E → Service E) → Service E → ℕ × Service E
  drain meanwhile s = end_drain (meanwhile (begin_drain s))

  -- The end of `stop`, with the worker gone.
  pub close : Service E → Service E
  close s = fail_all "server shutdown" false (record s { stopping = true; thread = none })

  -- `afterwards` is what the other threads do in the pause behind the cancellations.
  pub stop : (Service E → Service E) → (Service E → Service E) → Service E → Service E
  stop meanwhile afterwards s =
      close (if is_alive s.thread then afterwards (drain meanwhile s).1 else s)

module _ {E : Type 0} (ops : EngineOps E) where
  abbrev pub is_done : E → String → Bool
  is_done engine id = is_terminal (ops.state_of id engine)

  pub refusal_text : String → E → String
  refusal_text id engine = elim (ops.finish_reason_of id engine) [
    | some reason ↦ if is_yes (String_discrete reason "") then "request rejected" else reason
    | none ↦ "request rejected"
  ]

  -- `_drain_inbox`, for these handles in the inbox.
  pub drain_inbox : List String → Action (Service E) (Unit {0})
  drain_inbox [] s = ok tt s
  drain_inbox (id ∷ rest) s = elim (ops.submit_request id s.engine) [
    | raise e engine ↦ raise e (record s { engine = engine; inbox = rest })
    | ok accepted engine ↦ elim accepted [
      | false ↦ drain_inbox rest (
          on_handle (complete (some (refusal_text id engine))) id
            (record s { engine = engine; inbox = rest; failed_count = suc s.failed_count }))
      | true ↦ drain_inbox rest (
          on_handle accept id (record s {
            engine = engine;
            inbox = rest;
            active = if has id s.active then s.active else s.active ++ id ∷ [];
          }))
    ]
  ]

  -- `_apply_cancellations`, for these cancellations in the queue.
  pub apply_cancellations : List (String × String) → Action (Service E) (Unit {0})
  apply_cancellations [] s = ok tt s
  apply_cancellations ((id, reason) ∷ rest) s =
      elim (not (has id s.active) || is_done s.engine id) [
        | true ↦ apply_cancellations rest (record s { cancellations = rest })
        | false ↦ elim (ops.cancel_request id reason s.engine) [
          | raise e engine ↦ raise e (record s { engine = engine; cancellations = rest })
          | ok _ engine ↦ apply_cancellations rest (
              on_handle (complete none) id (record s {
                engine = engine;
                cancellations = rest;
                active = without_id id s.active;
                cancelled_count = suc s.cancelled_count;
              }))
        ]
      ]

  -- The ids whose requests are done, and the others.
  pub done_ids : E → List String → List String
  done_ids engine [] = []
  done_ids engine (id ∷ ids) =
      if is_done engine id then id ∷ done_ids engine ids else done_ids engine ids

  pub open_ids : E → List String → List String
  open_ids engine [] = []
  open_ids engine (id ∷ ids) =
      if is_done engine id then open_ids engine ids else id ∷ open_ids engine ids

  pub count_failed : E → List String → ℕ
  count_failed engine [] = 0
  count_failed engine (id ∷ ids) =
      if is_failed (ops.state_of id engine)
      then suc (count_failed engine ids)
      else count_failed engine ids

  pub count_finished : E → List String → ℕ
  count_finished engine [] = 0
  count_finished engine (id ∷ ids) =
      if is_failed (ops.state_of id engine)
      then count_finished engine ids
      else suc (count_finished engine ids)

  -- `_publish_completed`
  pub publish_completed : Service E → Service E
  publish_completed s =
      let done = done_ids s.engine s.active in
      complete_all none done (record s {
        active = open_ids s.engine s.active;
        failed_count = s.failed_count + count_failed s.engine done;
        completed_count = s.completed_count + count_finished s.engine done;
      })

  pub step_engine : Action (Service E) (Unit {0})
  step_engine s = elim (ops.step s.engine) [
    | ok _ engine ↦ ok tt (record s { engine = engine })
    | raise e engine ↦ raise e (record s { engine = engine })
  ]

  -- A round of the loop of `_worker`.
  pub worker_round : Action (Service E) (Unit {0})
  worker_round = do
    s ← get
    drain_inbox s.inbox
    s ← get
    apply_cancellations s.cancellations
    s ← get
    if not (ops.has_unfinished_requests s.engine)
        then pure tt
        else do step_engine; modify publish_completed

  -- The round with the `except` around the loop, behind which the thread ends. `error` is the text of what
  -- the engine raises.
  pub worker_pass : String → Service E → Service E
  worker_pass error s = elim (worker_round s) [
    | ok _ s' ↦ s'
    | raise e s' ↦ record (fail_all error true s') { thread = some false }
  ]
