-- ===== src/Server/Service/Passes.antt =====
-- The passes of the worker of engine/server/continuous.py, and what becomes of the handles when the engine
-- raises.
use full_inference_engine.Base.{
  ◌≤◌, ◌≡◌, refl, ap, Bool, true, false, not, ◌&&◌, some, List, [], String, if◌then◌else◌, length,
  is_some, Outcome, ok, raise, Ensures-bind, modify, pure, ◌>>◌, arith, inl, inr, ◌⊎◌,
}
use full_inference_engine.Server.Service.{
  EngineOps, Service, is_alive, fail_all, drain_inbox, apply_cancellations, publish_completed,
  step_engine, worker_round, worker_pass,
}
use full_inference_engine.Server.Service.Outstanding.{
  IsKept, LosesOne, LosesOne-none, Keeps, fail_all-lost, fail_all_flags,
}
use full_inference_engine.Server.Service.Moves.{
  drain_inbox-Keeps, apply_cancellations-Keeps, publish_completed-IsKept,
}

-- The worker passes while its thread is alive and it is not told to stop.
abbrev pub works : {E : Type 0} → Service E → Bool
works s = is_alive s.thread && not s.stopping

-- At most one handle that is not completed is neither in the inbox nor active. If there is one, the service
-- has recorded a fatal error and the worker passes no more.
abbrev pub IsAccounted : {E : Type 0} → Service E → Type 0
IsAccounted s =
    (lost : List String) × (length lost ≤ 1)
    × IsKept lost s
    × ((lost ≡ [])
        ⊎ ((is_some s.fatal_error ≡ true) × ((s.thread ≡ some false) ⊎ (s.stopping ≡ true))))

module _ {E : Type 0} (ops : EngineOps E) where
  step_engine-Keeps : (s : Service E) → IsKept [] s → Keeps (step_engine ops s)
  unfolding step_engine
  step_engine-Keeps s v = go (ops.step s.engine)
    where
      go :
          (o : Outcome E (Unit {0}))
          → Keeps (elim o as (λ _. Outcome (Service E) (Unit {0})) [
            | ok _ engine ↦ ok tt (record s { engine = engine })
            | raise e engine ↦ raise e (record s { engine = engine })
          ])
      go (ok _ engine) = v
      go (raise e engine) = LosesOne-none (record s { engine = engine }) v

  worker_round-Keeps : (s : Service E) → IsKept [] s → Keeps (worker_round ops s)
  unfolding worker_round
  worker_round-Keeps s v =
      Ensures-bind (λ _. IsKept []) LosesOne (λ _. IsKept []) (drain_inbox ops s.inbox) _ s
        (drain_inbox-Keeps ops s.inbox s refl v)
        (λ _ s₁ v₁.
          Ensures-bind (λ _. IsKept []) LosesOne (λ _. IsKept [])
            (apply_cancellations ops s₁.cancellations) _ s₁
            (apply_cancellations-Keeps ops s₁.cancellations s₁ v₁)
            (λ _ s₂ v₂. rest s₂ v₂ (not (ops.has_unfinished_requests s₂.engine))))
    where
      rest :
          (s₂ : Service E)
          → IsKept [] s₂
          → (b : Bool)
          → Keeps ((if b then pure tt else (step_engine ops >> modify (publish_completed ops))) s₂)
      rest s₂ v₂ true = v₂
      rest s₂ v₂ false =
          Ensures-bind (λ _. IsKept []) LosesOne (λ _. IsKept []) (step_engine ops) _ s₂
            (step_engine-Keeps s₂ v₂) (λ _ s₃ v₃. publish_completed-IsKept ops s₃ v₃)

  -- A pass that raises ends the worker with a fatal error.
  pub worker_pass-IsAccounted :
      (error : String) (s : Service E) → IsKept [] s → IsAccounted (worker_pass ops error s)
  unfolding worker_pass
  worker_pass-IsAccounted error s v = go (worker_round ops s) (worker_round-Keeps s v)
    where
      failing :
          (s' : Service E)
          → LosesOne s'
          → IsAccounted (record (fail_all error true s') { thread = some false })
      failing s' (lost, few, k) = (
        lost,
        few,
        λ id w. ground (arith, fail_all-lost lost error true s' k id w),
        inr (ap is_some (fail_all_flags error true s').0, inl refl),
      )

      go :
          (o : Outcome (Service E) (Unit {0}))
          → Keeps o
          → IsAccounted (elim o as (λ _. Service E) [
            | ok _ s' ↦ s'
            | raise e s' ↦ record (fail_all error true s') { thread = some false }
          ])
      go (ok _ s') k = ([], omega arith, k, inl refl)
      go (raise e s') k = failing s' k
