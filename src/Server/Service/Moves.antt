-- ===== src/Server/Service/Moves.antt =====
-- What the worker of engine/server/continuous.py does with one handle after the other loses none, but for one
-- whose submission raises.
use full_inference_engine.Base.{
  ℕ, suc, ◌+◌, ◌≡◌, refl, ap, Bool, true, false, not, ◌||◌, Option, none, some, List, [], ◌∷◌, ◌++◌,
  String, String_discrete, is_yes, if◌then◌else◌, Outcome, ok, raise, arith,
}
use full_inference_engine.Server.Handles.{accept, complete}
use full_inference_engine.Server.Service.{
  EngineOps, Service, has, without_id, on_handle, is_done, refusal_text, drain_inbox,
  apply_cancellations, done_ids, open_ids, count_failed, count_finished, publish_completed,
}
use full_inference_engine.Server.Service.Outstanding.{
  IsKept, has-append, has-without_id, waits_completed, waits_accepted, on_handle_rest,
  waits-complete_all, complete_all_rest, Keeps, LosesOne-none,
}

module _ {E : Type 0} (ops : EngineOps E) where
  -- What becomes of the handle that is taken from the inbox.
  refused_IsKept :
      (error : Option String) (id : String) (rest : List String) (engine : E) (n : ℕ)
      (s : Service E)
      → s.inbox ≡ id ∷ rest
      → IsKept [] s
      → IsKept [] (
          on_handle
            (complete error)
            id
            (record s { engine = engine; inbox = rest; failed_count = n }))
  unfolding has
  refused_IsKept error id rest engine n s q v j = ground (
    arith,
    waits_completed error id j (record s { engine = engine; inbox = rest; failed_count = n }),
    on_handle_rest (complete error) id
        (record s { engine = engine; inbox = rest; failed_count = n }),
    ap (has j) q,
    v j,
  )

  accepted_IsKept :
      (id : String) (rest : List String) (engine : E) (s : Service E)
      → s.inbox ≡ id ∷ rest
      → IsKept [] s
      → IsKept [] (
          on_handle accept id (record s {
            engine = engine;
            inbox = rest;
            active = if has id s.active then s.active else s.active ++ id ∷ [];
          }))
  unfolding has
  accepted_IsKept id rest engine s q v j = ground (
    arith,
    waits_accepted id j (record s {
      engine = engine;
      inbox = rest;
      active = if has id s.active then s.active else s.active ++ id ∷ [];
    }),
    on_handle_rest accept id (record s {
      engine = engine;
      inbox = rest;
      active = if has id s.active then s.active else s.active ++ id ∷ [];
    }),
    ap (has j) q,
    has-append j s.active (id ∷ []),
    same_has j,
    v j,
  )
    where
      same_of :
          (j : String) (d : Dec (id ≡ j))
          → (if is_yes d then has id s.active else true)
            ≡ (if is_yes d then has j s.active else true)
      same_of j (yes p) = ap (λ k. has k s.active) p
      same_of j (no p) = refl

      same_has :
          (j : String)
          → (if is_yes (String_discrete id j) then has id s.active else true)
            ≡ (if is_yes (String_discrete id j) then has j s.active else true)
      same_has j = same_of j (String_discrete id j)

  -- Of a handle whose submission raises nobody knows.
  left_out :
      (id : String) (rest : List String) (engine : E) (s : Service E)
      → s.inbox ≡ id ∷ rest
      → IsKept [] s
      → IsKept (id ∷ []) (record s { engine = engine; inbox = rest })
  unfolding has
  left_out id rest engine s q v j = ground (arith, ap (has j) q, v j)

  pub drain_inbox-Keeps :
      (ids : List String) (s : Service E)
      → s.inbox ≡ ids
      → IsKept [] s
      → Keeps (drain_inbox ops ids s)
  unfolding drain_inbox
  drain_inbox-Keeps [] s q v = v
  drain_inbox-Keeps (id ∷ rest) s q v = go (ops.submit_request id s.engine) (drain_inbox-Keeps rest)
    where
      go :
          (o : Outcome E Bool)
          → ((u : Service E) → u.inbox ≡ rest → IsKept [] u → Keeps (drain_inbox ops rest u))
          → Keeps (elim o as (λ _. Outcome (Service E) (Unit {0})) [
            | raise e engine ↦ raise e (record s { engine = engine; inbox = rest })
            | ok accepted engine ↦ elim accepted as (λ _. Outcome (Service E) (Unit {0})) [
              | false ↦ drain_inbox ops rest (
                  on_handle
                    (complete (some (refusal_text ops id engine)))
                    id
                    (record s { engine = engine; inbox = rest; failed_count = suc s.failed_count }))
              | true ↦ drain_inbox ops rest (
                  on_handle accept id (record s {
                    engine = engine;
                    inbox = rest;
                    active = if has id s.active then s.active else s.active ++ id ∷ [];
                  }))
            ]
          ])
      go (raise e engine) next = (id ∷ [], omega arith, left_out id rest engine s q v)
      go (ok false engine) next =
          next _ (on_handle_rest (complete (some (refusal_text ops id engine))) id _).0 (
            refused_IsKept (some (refusal_text ops id engine)) id rest engine (suc s.failed_count) s
              q v)
      go (ok true engine) next =
          next _ (on_handle_rest accept id _).0 (accepted_IsKept id rest engine s q v)

  cancelled_IsKept :
      (id : String) (rest : List (String × String)) (engine : E) (n : ℕ) (s : Service E)
      → IsKept [] s
      → IsKept [] (
          on_handle (complete none) id (record s {
            engine = engine;
            cancellations = rest;
            active = without_id id s.active;
            cancelled_count = n;
          }))
  cancelled_IsKept id rest engine n s v j = ground (
    arith,
    waits_completed none id j (record s {
      engine = engine;
      cancellations = rest;
      active = without_id id s.active;
      cancelled_count = n;
    }),
    on_handle_rest (complete none) id (record s {
      engine = engine;
      cancellations = rest;
      active = without_id id s.active;
      cancelled_count = n;
    }),
    has-without_id id j s.active,
    v j,
  )

  pub apply_cancellations-Keeps :
      (cs : List (String × String)) (s : Service E)
      → IsKept [] s
      → Keeps (apply_cancellations ops cs s)
  unfolding apply_cancellations
  apply_cancellations-Keeps [] s v = v
  apply_cancellations-Keeps ((id, reason) ∷ rest) s v =
      go (not (has id s.active) || is_done ops s.engine id) (ops.cancel_request id reason s.engine)
        (apply_cancellations-Keeps rest)
    where
      go :
          (b : Bool) (o : Outcome E (Unit {0}))
          → ((u : Service E) → IsKept [] u → Keeps (apply_cancellations ops rest u))
          → Keeps (elim b as (λ _. Outcome (Service E) (Unit {0})) [
            | true ↦ apply_cancellations ops rest (record s { cancellations = rest })
            | false ↦ elim o as (λ _. Outcome (Service E) (Unit {0})) [
              | raise e engine ↦ raise e (record s { engine = engine; cancellations = rest })
              | ok _ engine ↦ apply_cancellations ops rest (
                  on_handle (complete none) id (record s {
                    engine = engine;
                    cancellations = rest;
                    active = without_id id s.active;
                    cancelled_count = suc s.cancelled_count;
                  }))
            ]
          ])
      go true o next = next (record s { cancellations = rest }) v
      go false (raise e engine) next =
          LosesOne-none (record s { engine = engine; cancellations = rest }) v
      go false (ok _ engine) next =
          next _ (cancelled_IsKept id rest engine (suc s.cancelled_count) s v)

  done_or_open :
      (engine : E) (id : String) (ids : List String)
      → (has id (done_ids ops engine ids) || has id (open_ids ops engine ids)) ≡ has id ids
  unfolding done_ids open_ids has
  done_or_open engine id [] = refl
  done_or_open engine id (x ∷ ids) = ground (arith, done_or_open engine id ids)

  pub publish_completed-IsKept : (s : Service E) → IsKept [] s → IsKept [] (publish_completed ops s)
  unfolding publish_completed
  publish_completed-IsKept s v j =
      let u : Service E = record s {
        active = open_ids ops s.engine s.active;
        failed_count = s.failed_count + count_failed ops s.engine (done_ids ops s.engine s.active);
        completed_count =
            s.completed_count + count_finished ops s.engine (done_ids ops s.engine s.active);
      } in
      ground (
        arith,
        waits-complete_all none (done_ids ops s.engine s.active) j u,
        complete_all_rest none (done_ids ops s.engine s.active) u,
        done_or_open s.engine j s.active,
        v j,
      )
