-- ===== src/Server/Service/Accounts.antt =====
-- What callers, the worker and a shutdown of engine/server/continuous.py do together, in any order and on any
-- engine.
use full_inference_engine.Base.{
  ℕ, ◌≤◌, ◌≡◌, refl, sym, subst, Bool, true, false, Option, none, some, List, [], ◌∷◌, ◌++◌, String,
  String_discrete, if◌then◌else◌, leb, length, is_some, lookup, lookup-insert, arith, inl, inr, ◌⊎◌,
  Bool-cases, ◌∙◌, ap,
}
use full_inference_engine.Server.Handles.{RequestHandle, make}
use full_inference_engine.Server.Service.{
  EngineOps, Service, Submission, submit_error, has, is_alive, start, check_submission,
  put_submission, submit, cancel, begin_drain, cancel_all, end_drain, drain, close, stop,
  worker_pass,
}
use full_inference_engine.Server.Service.Outstanding.{
  waits, IsKept, has-append, fail_all-lost, fail_all_flags,
}
use full_inference_engine.Server.Service.Passes.{works, IsAccounted, worker_pass-IsAccounted}

-- What the threads do, each a step. `putting` is the put of a submission whose guards were read at any time
-- before.
pub data Call : Type 0 where
  starting : Call
  submitting : String → ℕ → ℕ → Call
  putting : String → Call
  cancelling : String → String → Call
  passing : String → Call
  draining : Call
  cancelling_leftovers : Call
  closing : Call

abbrev pub perform : {E : Type 0} → EngineOps E → Call → Service E → Service E
perform ops starting s = start s
perform ops (submitting id prompt_tokens max_new_tokens) s =
    (submit id prompt_tokens max_new_tokens s).1
perform ops (putting id) s = (put_submission id s).1
perform ops (cancelling id reason) s = cancel id reason s
perform ops (passing error) s = if works s then worker_pass ops error s else s
perform ops draining s = begin_drain s
perform ops cancelling_leftovers s = (end_drain s).1
perform ops closing s = close s

abbrev pub run : {E : Type 0} → EngineOps E → List Call → Service E → Service E
run ops [] s = s
run ops (call ∷ calls) s = run ops calls (perform ops call s)

module _ {E : Type 0} where
  start-IsAccounted : (s : Service E) → IsAccounted s → IsAccounted (start s)
  unfolding start
  start-IsAccounted s v = go s.thread refl
    where
      go :
          (o : Option Bool)
          → s.thread ≡ o
          → IsAccounted (elim o as (λ _. Service E) [
            | some alive ↦ s
            | none ↦ record s { thread = some true }
          ])
      go (some alive) e = v
      go none e = (
        v.0,
        v.1,
        v.2,
        elim v.3 [
          | inl k ↦ inl k
          | inr (f, h) ↦ inr (f, elim h [ inl k ↦ absurd (ground arith) | inr k ↦ inr k ])
        ],
      )

  put_submission-IsAccounted :
      (id : String) (s : Service E) → IsAccounted s → IsAccounted (put_submission id s).1
  unfolding put_submission has
  put_submission-IsAccounted id s (lost, few, k, h) =
      elim (Bool-cases (leb s.max_pending_submissions (length s.inbox))) [
        | inl full ↦ rw full (lost, few, k, h)
        | inr room ↦ rw room (
          lost,
          few,
          λ j. ground (
            arith,
            lookup-insert String_discrete id j make s.handles,
            has-append j s.inbox (id ∷ []),
            k j,
          ),
          h,
        )
      ]

  submit-IsAccounted :
      (id : String) (p m : ℕ) (s : Service E) → IsAccounted s → IsAccounted (submit id p m s).1
  unfolding submit
  submit-IsAccounted id p m s v = go (check_submission p m s)
    where
      Taken : Submission × Service E → Type 0
      Taken r = IsAccounted r.1

      go :
          (o : Option ℕ)
          → Taken (elim o as (λ _. Submission × Service E) [
            | some code ↦ (submit_error code, s)
            | none ↦ put_submission id s
          ])
      go (some code) = v
      go none = put_submission-IsAccounted id s v

  cancel-same :
      (id reason : String) (s : Service E)
      → (c : List (String × String)) × (cancel id reason s ≡ record s { cancellations = c })
  unfolding cancel
  cancel-same id reason s = go (lookup String_discrete id s.handles)
    where
      go :
          (o : Option RequestHandle)
          → (c : List (String × String)) × ((elim o as (λ _. Service E) [
            | none ↦ s
            | some h ↦
                if h.completed
                then s
                else record s { cancellations = s.cancellations ++ (id, reason) ∷ [] }
          ])
              ≡ record s { cancellations = c })
      go none = (s.cancellations, refl)
      go (some h) = elim (Bool-cases h.completed) [
        | inl e ↦ (s.cancellations, rw e refl)
        | inr e ↦ (s.cancellations ++ (id, reason) ∷ [], rw e refl)
      ]

  cancel-IsAccounted :
      (id reason : String) (s : Service E) → IsAccounted s → IsAccounted (cancel id reason s)
  cancel-IsAccounted id reason s v =
      let (c, e) = cancel-same id reason s in
      subst IsAccounted {x = record s { cancellations = c }} {y = cancel id reason s} (sym e) v

  cancel_all-IsAccounted :
      (reason : String) (ids : List String) (s : Service E)
      → IsAccounted s
      → IsAccounted (cancel_all reason ids s)
  unfolding cancel_all
  cancel_all-IsAccounted reason [] s v = v
  cancel_all-IsAccounted reason (id ∷ ids) s v =
      cancel_all-IsAccounted reason ids (cancel id reason s) (cancel-IsAccounted id reason s v)

  -- A service that is told to stop: all handles are completed but at most one, and all if there is no fatal
  -- error.
  abbrev pub HasEnded : Service E → Type 0
  HasEnded s =
      (lost : List String) × (length lost ≤ 1)
      × ((id : String) → waits id s ≡ true → has id lost ≡ true)
      × ((lost ≡ []) ⊎ (is_some s.fatal_error ≡ true))

  close-HasEnded : (s : Service E) → IsAccounted s → HasEnded (close s)
  unfolding close
  close-HasEnded s (lost, few, k, h) =
      let u : Service E = record s { stopping = true; thread = none } in
      (
        lost,
        few,
        fail_all-lost lost "server shutdown" false u k,
        elim h [
          | inl e ↦ inl e
          | inr (f, _) ↦ inr (ap is_some (fail_all_flags "server shutdown" false u).0 ∙ f)
        ],
      )

  close-IsAccounted : (s : Service E) → IsAccounted s → IsAccounted (close s)
  close-IsAccounted s v = go (close-HasEnded s v)
    where
      stops : (close s).stopping ≡ true
      stops =
          unfold close in
          (fail_all_flags "server shutdown" false (record s { stopping = true; thread = none })).1

      go : HasEnded (close s) → IsAccounted (close s)
      go (lost, few, k, h) = (
        lost,
        few,
        λ id w. ground (arith, k id w),
        elim h [ inl e ↦ inl e | inr f ↦ inr (f, inr stops) ],
      )

module _ {E : Type 0} (ops : EngineOps E) where
  pass-IsAccounted :
      (error : String) (s : Service E)
      → IsAccounted s
      → IsAccounted (if works s then worker_pass ops error s else s)
  pass-IsAccounted error s v = elim (Bool-cases (works s)) [
    | inr rests ↦ subst either {x = false} {y = works s} (sym rests) v
    | inl passes ↦
        subst either {x = true} {y = works s} (sym passes)
          (worker_pass-IsAccounted ops error s (nobody passes v.3))
  ]
    where
      either : Bool → Type 0
      either b = IsAccounted (if b then worker_pass ops error s else s)

      nobody :
          works s ≡ true
          → ((v.0 ≡ [])
              ⊎ ((is_some s.fatal_error ≡ true) × ((s.thread ≡ some false) ⊎ (s.stopping ≡ true))))
          → IsKept [] s
      nobody passes (inl e) = subst (λ l. IsKept l s) e v.2
      nobody passes (inr (f, inl e)) = absurd (ground arith)
      nobody passes (inr (f, inr e)) = absurd (ground arith)

  perform-IsAccounted :
      (call : Call) (s : Service E) → IsAccounted s → IsAccounted (perform ops call s)
  unfolding begin_drain end_drain
  perform-IsAccounted starting s v = start-IsAccounted s v
  perform-IsAccounted (submitting id p m) s v = submit-IsAccounted id p m s v
  perform-IsAccounted (putting id) s v = put_submission-IsAccounted id s v
  perform-IsAccounted (cancelling id reason) s v = cancel-IsAccounted id reason s v
  perform-IsAccounted (passing error) s v = pass-IsAccounted error s v
  perform-IsAccounted draining s v = v
  perform-IsAccounted cancelling_leftovers s v =
      cancel_all-IsAccounted "SERVER_SHUTDOWN" s.active s v
  perform-IsAccounted closing s v = close-IsAccounted s v

  keeps_account :
      (calls : List Call) (s : Service E) → IsAccounted s → IsAccounted (run ops calls s)
  keeps_account [] s v = v
  keeps_account (call ∷ calls) s v =
      keeps_account calls (perform ops call s) (perform-IsAccounted call s v)

  stop-HasEnded :
      (meanwhile afterwards : List Call) (s : Service E)
      → IsAccounted s
      → HasEnded (stop (run ops meanwhile) (run ops afterwards) s)
  unfolding stop drain
  stop-HasEnded meanwhile afterwards s v = close-HasEnded _ (before (is_alive s.thread))
    where
      before :
          (b : Bool)
          → IsAccounted (if b then run ops afterwards (drain (run ops meanwhile) s).1 else s)
      before false = v
      before true = keeps_account afterwards (drain (run ops meanwhile) s).1 (
          perform-IsAccounted cancelling_leftovers (run ops meanwhile (begin_drain s))
            (keeps_account meanwhile (begin_drain s) (perform-IsAccounted draining s v)))

  -- From a service of which this holds, as of a new one, and on any engine, also one that raises at any call,
  -- it goes on to hold in whatever order callers check and put submissions and cancel, the worker passes,
  -- and the service starts, drains and stops: at most one handle that is not completed is neither in the
  -- inbox nor active, and if there is one, a fatal error is recorded and the worker passes no more. When the
  -- service is then stopped, whatever the threads do while it drains, every handle is completed but at most
  -- that one, and without a fatal error every one.
  pub run-IsAccounted :
      (calls meanwhile afterwards : List Call) (s : Service E)
      → IsAccounted s
      → IsAccounted (run ops calls s)
        × HasEnded (stop (run ops meanwhile) (run ops afterwards) (run ops calls s))
  run-IsAccounted calls meanwhile afterwards s v = (
    keeps_account calls s v,
    stop-HasEnded meanwhile afterwards (run ops calls s) (keeps_account calls s v),
  )
