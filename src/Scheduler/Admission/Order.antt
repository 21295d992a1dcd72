-- ===== src/Scheduler/Admission/Order.antt =====
-- The loop of `admit_available` keeps the invariant of the scheduler, and takes requests off the queue in
-- the order of the queue.
use full_inference_engine.Base.{
  ℕ, ◌≡◌, refl, ap, sym, subst, Bool, Option, List, [], ◌∷◌, ◌++◌, map, String, length, Action,
  Ensures, Ensures-bind, pure, ◌>>=◌, Bool-cases, inl, inr,
}
use full_inference_engine.Cache.PrefixInterface.{PrefixOps, PrefixLaws}
use full_inference_engine.Runtime.Requests.{GenerationRequest}
use full_inference_engine.Scheduler.{Scheduler, is_zero}
use full_inference_engine.Scheduler.Admission.{
  Round, stopped, turned_away, admitted, admit_head, admit_loop, admit_available,
}
use full_inference_engine.Scheduler.Orderly.{IsOrderly}
use full_inference_engine.Scheduler.Admission.Rounds.{Rounds}
use full_inference_engine.Scheduler.Admission.Invariant.{admit_head-Rounds}

-- The first list is dealt out to the other two, which keep its order.
pub data Deals : List String → List String → List String → Type 0 where
  nobody : Deals [] [] []
  to_first :
      (id : String) {ids xs ys : List String} → Deals ids xs ys → Deals (id ∷ ids) (id ∷ xs) ys
  to_second :
      (id : String) {ids xs ys : List String} → Deals ids xs ys → Deals (id ∷ ids) xs (id ∷ ys)

abbrev pub ids_of : List GenerationRequest → List String
ids_of rs = map (λ r. r.request_id) rs

module _ {C : Type 0} (engine : String → Bool) where
  -- Of the queue, the requests taken and refused are gone, and they stood before all that are left.
  abbrev pub Admits :
      List GenerationRequest
      → List GenerationRequest × List GenerationRequest
      → Scheduler C
      → Type 0
  Admits queue (taken, refused) s =
      IsOrderly engine s
      × (gone : List GenerationRequest) × (queue ≡ gone ++ s.waiting_queue)
      × Deals (ids_of gone) (ids_of taken) (ids_of refused)

module _ {C : Type 0} (engine : String → Bool) (ops : PrefixOps C) (laws : PrefixLaws ops) where
  admit_loop-Admits :
      (max_active : Option ℕ) (clock : ℕ → ℕ) (queue : List GenerationRequest) (s : Scheduler C)
      → IsOrderly engine s
      → s.waiting_queue ≡ queue
      → Ensures (Admits engine queue) (IsOrderly engine) (admit_loop ops max_active clock queue s)
  unfolding admit_loop
  admit_loop-Admits max_active clock [] s v q = (v, [], sym q, nobody)
  admit_loop-Admits max_active clock (r ∷ queue) s v q =
      Ensures-bind (Rounds engine r queue) (IsOrderly engine) (Admits engine (r ∷ queue))
        (admit_head ops max_active (clock (length queue)) r) _ s
        (admit_head-Rounds engine r queue ops laws max_active (clock (length queue)) s (v, q))
        (next (λ u w e. admit_loop-Admits max_active clock queue u w e))
    where
      next :
          ((u : Scheduler C)
            → IsOrderly engine u
            → u.waiting_queue ≡ queue
            → Ensures
                (Admits engine queue)
                (IsOrderly engine)
                (admit_loop ops max_active clock queue u))
          → (round : Round) (u : Scheduler C) → Rounds engine r queue round u
          → Ensures (Admits engine (r ∷ queue)) (IsOrderly engine) (
              (elim round
                  as (λ _. Action (Scheduler C) (List GenerationRequest × List GenerationRequest)) [
                    | stopped ↦ pure ([], [])
                    | turned_away r' ↦ do
                      (taken, refused) ← admit_loop ops max_active clock queue
                      pure (taken, r' ∷ refused)
                    | admitted r' ↦ do
                      (taken, refused) ← admit_loop ops max_active clock queue
                      pure (r' ∷ taken, refused)
                  ])
                u)
      next rest stopped u k = (k.0, [], sym k.1, nobody)
      next rest (turned_away r') u k =
          Ensures-bind (Admits engine queue) (IsOrderly engine) (Admits engine (r ∷ queue))
            (admit_loop ops max_active clock queue) _ u (rest u k.0 k.1)
            (λ a w m. (
              m.0,
              r ∷ m.1,
              ap (λ l. r ∷ l) m.2,
              subst (λ i. Deals (ids_of (r ∷ m.1)) (ids_of a.0) (i ∷ ids_of a.1)) (sym k.2)
                  (to_second r.request_id m.3),
            ))
      next rest (admitted r') u k =
          Ensures-bind (Admits engine queue) (IsOrderly engine) (Admits engine (r ∷ queue))
            (admit_loop ops max_active clock queue) _ u (rest u k.0 k.1)
            (λ a w m. (
              m.0,
              r ∷ m.1,
              ap (λ l. r ∷ l) m.2,
              subst (λ i. Deals (ids_of (r ∷ m.1)) (i ∷ ids_of a.0) (ids_of a.1)) (sym k.2)
                  (to_first r.request_id m.3),
            ))

  -- On an orderly scheduler, and with any prefix cache that keeps to its laws, admit_available leaves an
  -- orderly scheduler, also if it raises. If it returns, then those that it admits and those that it turns
  -- away are together a first part of the queue, each in the order of the queue, and the rest waits as before.
  pub admit_available-Admits :
      (max_active : Option ℕ) (clock : ℕ → ℕ) (s : Scheduler C)
      → IsOrderly engine s
      → Ensures
          (Admits engine s.waiting_queue)
          (IsOrderly engine)
          (admit_available ops max_active clock s)
  unfolding admit_available
  admit_available-Admits max_active clock s v = elim (Bool-cases (is_zero max_active)) [
    | inl bad ↦ rw bad v
    | inr good ↦ rw good (admit_loop-Admits max_active clock s.waiting_queue s v refl)
  ]
