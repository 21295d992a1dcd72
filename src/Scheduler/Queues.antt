-- ===== src/Scheduler/Queues.antt =====
-- The helpers of engine/scheduler/scheduler.py that search and change the waiting queue.
use full_inference_engine.Base.{
  ◌≡◌, refl, subst, true, false, some, List, [], ◌∷◌, ◌++◌, String, String_discrete, is_yes, All,
  arith, inl, inr, Bool-cases, Option-cases,
}
use full_inference_engine.Runtime.States.{is_waiting}
use full_inference_engine.Runtime.Requests.{GenerationRequest}
use full_inference_engine.Scheduler.{
  is_queued, take_queued, requeue_in_arrival_order, arrives_before,
}
use full_inference_engine.Scheduler.Orderly.{count_queued}

pub count_queued-requeue :
    (x : String) (r : GenerationRequest) (queue : List GenerationRequest)
    → count_queued x (requeue_in_arrival_order r queue) ≡ count_queued x (r ∷ queue)
unfolding requeue_in_arrival_order
count_queued-requeue x r [] = refl
count_queued-requeue x r (q ∷ queue) = ground (arith, count_queued-requeue x r queue)

pub All-requeue :
    (P : GenerationRequest → Type 0) (r : GenerationRequest) (queue : List GenerationRequest)
    → P r
    → All P queue
    → All P (requeue_in_arrival_order r queue)
unfolding requeue_in_arrival_order
All-requeue P r [] h k = (h, tt)
All-requeue P r (q ∷ queue) h k = elim (Bool-cases (arrives_before r q)) [
  | inl e ↦ rw e (h, k)
  | inr e ↦ rw e (k.0, All-requeue P r queue h k.1)
]

pub count_queued-append :
    (x : String) (r : GenerationRequest) (queue : List GenerationRequest)
    → count_queued x (queue ++ r ∷ []) ≡ count_queued x (r ∷ queue)
count_queued-append x r [] = refl
count_queued-append x r (q ∷ queue) = ground (arith, count_queued-append x r queue)

pub is_queued-count_queued :
    (x : String) (queue : List GenerationRequest)
    → is_queued x queue ≡ false
    → count_queued x queue ≡ 0
unfolding is_queued
is_queued-count_queued x [] h = refl
is_queued-count_queued x (q ∷ queue) h = ground (arith, is_queued-count_queued x queue)

-- What `take_queued` finds and leaves, in a queue of waiting requests.
abbrev pub Takes :
    String → List GenerationRequest → GenerationRequest × List GenerationRequest → Type 0
Takes x queue (r, rest) =
    (count_queued x queue ≡ count_queued x (r ∷ rest)) × All (λ q. is_waiting q.state ≡ true) rest

pub some_injective {ℓ} : {A : Type ℓ} {a b : A} → some a ≡ some b → a ≡ b
some_injective h = cc

pub take_queued-some :
    (x id : String) (queue : List GenerationRequest)
    (found : GenerationRequest × List GenerationRequest)
    → take_queued id queue ≡ some found
    → All (λ q. is_waiting q.state ≡ true) queue
    → Takes x queue found
unfolding take_queued
take_queued-some x id [] found e h = absurd (ground arith)
take_queued-some x id (q ∷ queue) found e h =
    elim (Bool-cases (is_yes (String_discrete q.request_id id))) [
      | inl here ↦
          subst (Takes x (q ∷ queue)) {x = (q, queue)} {y = found} (some_injective (ground arith))
            (refl, h.1)
      | inr no_match ↦ elim (Option-cases (take_queued id queue)) [
        | inl gone ↦ absurd (ground arith)
        | inr ((r, rest), there) ↦
            let ih = take_queued-some x id queue (r, rest) there h.1 in
            subst (Takes x (q ∷ queue)) {x = (r, q ∷ rest)} {y = found}
              (some_injective (ground arith)) (omega (arith, ih.0), (h.0, ih.1))
      ]
    ]
