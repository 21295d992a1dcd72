-- ===== src/Scheduler/Arrival.antt =====
-- First come, first served: the queue stays in order of arrival through yields, and the request that a
-- lack of memory hits is the newest active one, never the oldest.
use full_inference_engine.Base.{
  ◌≡◌, refl, ◌∙◌, ap, sym, subst, ◌≢◌, Bool, true, false, if◌then◌else◌, none, some, List, [], ◌∷◌,
  String, String_discrete, Dict, lookup, Distinct, All, Bool-cases, inl, inr, ◌⊎◌, false_of, arith,
  if_pos, if_neg,
}
use full_inference_engine.Base.Order.{pair_lt_irrefl, pair_lt_trans, pair_lt_total}
use full_inference_engine.Runtime.Requests.{GenerationRequest}
use full_inference_engine.Scheduler.{
  Scheduler, arrives_before, newest_of, newest_active, requeue_in_arrival_order,
}
use full_inference_engine.Scheduler.Orderly.{IsOrderly}
use full_inference_engine.Scheduler.Queues.{All-requeue, some_injective}

-- No request stands before one that arrived earlier.
abbrev pub InArrivalOrder : List GenerationRequest → Type 0
InArrivalOrder [] = Unit {0}
InArrivalOrder (r ∷ queue) = All (λ q. arrives_before q r ≡ false) queue × InArrivalOrder queue

before_irrefl : (r : GenerationRequest) → arrives_before r r ≡ false
before_irrefl r = pair_lt_irrefl r.created_ns r.request_id

before_trans :
    (p q r : GenerationRequest)
    → arrives_before p q ≡ true
    → arrives_before q r ≡ true
    → arrives_before p r ≡ true
before_trans p q r =
    pair_lt_trans p.created_ns p.request_id q.created_ns q.request_id r.created_ns r.request_id

-- What is not before `q` is not before `r` either, if `r` is before `q`.
not_before :
    (p q r : GenerationRequest)
    → arrives_before r q ≡ true
    → arrives_before p q ≡ false
    → arrives_before p r ≡ false
not_before p q r h k = ground (arith, before_trans p r q)

All-not_before :
    (q r : GenerationRequest) (queue : List GenerationRequest)
    → arrives_before r q ≡ true
    → All (λ p. arrives_before p q ≡ false) queue
    → All (λ p. arrives_before p r ≡ false) queue
All-not_before q r [] h k = tt
All-not_before q r (p ∷ queue) h k = (not_before p q r h k.0, All-not_before q r queue h k.1)

-- To requeue a request into a queue in order of arrival leaves a queue in order of arrival.
pub requeue-InArrivalOrder :
    (r : GenerationRequest) (queue : List GenerationRequest)
    → InArrivalOrder queue
    → InArrivalOrder (requeue_in_arrival_order r queue)
unfolding requeue_in_arrival_order
requeue-InArrivalOrder r [] h = (tt, tt)
requeue-InArrivalOrder r (q ∷ queue) h = elim (Bool-cases (arrives_before r q)) [
  | inl e ↦ rw e ((not_before q q r e (before_irrefl q), All-not_before q r queue e h.0), h)
  | inr e ↦ rw e (
    All-requeue (λ p. arrives_before p q ≡ false) r queue e h.0,
    requeue-InArrivalOrder r queue h.1,
  )
]

-- Nobody arrived after `r`.
abbrev pub IsNewest : GenerationRequest → Dict String GenerationRequest → Type 0
IsNewest r d =
    (id : String) (q : GenerationRequest)
    → lookup String_discrete id d ≡ some q
    → arrives_before r q ≡ false

-- The better of two is not before anything that the first is not before, nor before the second.
abbrev later_of : GenerationRequest → GenerationRequest → GenerationRequest
later_of best r = if arrives_before best r then r else best

later_of_lem :
    (best r q : GenerationRequest)
    → ((arrives_before best q ≡ false) ⊎ (q ≡ r))
    → arrives_before (later_of best r) q ≡ false
later_of_lem best r q h = go (arrives_before best r) refl h
  where
    go :
        (b : Bool)
        → arrives_before best r ≡ b
        → (arrives_before best q ≡ false) ⊎ (q ≡ r)
        → arrives_before (if b then r else best) q ≡ false
    go true e (inl k) = elim (Bool-cases (arrives_before r q)) [
      | inl bad ↦ absurd (false_of (before_trans best r q e bad) k)
      | inr fine ↦ fine
    ]
    go true e (inr k) = ap (arrives_before r) k ∙ before_irrefl r
    go false e (inl k) = k
    go false e (inr k) = ap (arrives_before best) k ∙ e

newest_of-best :
    (best : GenerationRequest) (d : Dict String GenerationRequest) (q : GenerationRequest)
    → arrives_before best q ≡ false
    → arrives_before (newest_of best d) q ≡ false
unfolding newest_of
newest_of-best best [] q h = h
newest_of-best best ((id, r) ∷ d) q h =
    newest_of-best (later_of best r) d q (later_of_lem best r q (inl h))

newest_of-IsNewest :
    (best : GenerationRequest) (d : Dict String GenerationRequest) → IsNewest (newest_of best d) d
unfolding newest_of lookup
newest_of-IsNewest best [] id q h = absurd (ground arith)
newest_of-IsNewest best ((j, r) ∷ d) id q h = elim (String_discrete j id) [
  | yes p ↦
      newest_of-best (later_of best r) d q
        (later_of_lem best r q (inr (some_injective (sym h ∙ if_pos (String_discrete j id) p _ _))))
  | no p ↦
      newest_of-IsNewest (later_of best r) d id q (sym (if_neg (String_discrete j id) p _ _) ∙ h)
]

-- The newest one is the first one or stands in the rest.
newest_of-mem :
    (best : GenerationRequest) (d : Dict String GenerationRequest)
    → Distinct String_discrete d
    → (newest_of best d ≡ best)
      ⊎ ((id : String) × (lookup String_discrete id d ≡ some (newest_of best d)))
unfolding newest_of lookup
newest_of-mem best [] h = inl refl
newest_of-mem best ((j, r) ∷ d) h =
    go (arrives_before best r) (newest_of-mem r d h.1) (newest_of-mem best d h.1)
  where
    found :
        (x : GenerationRequest) (id : String)
        → lookup String_discrete id d ≡ some x
        → lookup String_discrete id ((j, r) ∷ d) ≡ some x
    found x id e = elim (String_discrete j id) [
      | yes p ↦ absurd (ground (arith, ap (λ k. lookup String_discrete k d) p))
      | no p ↦ if_neg (String_discrete j id) p _ _ ∙ e
    ]

    here : lookup String_discrete j ((j, r) ∷ d) ≡ some r
    here = if_pos (String_discrete j j) refl _ _

    go :
        (b : Bool)
        → (newest_of r d ≡ r)
          ⊎ ((id : String) × (lookup String_discrete id d ≡ some (newest_of r d)))
        → (newest_of best d ≡ best)
          ⊎ ((id : String) × (lookup String_discrete id d ≡ some (newest_of best d)))
        → (newest_of (if b then r else best) d ≡ best)
          ⊎ ((id : String) × (lookup String_discrete id ((j, r) ∷ d)
                ≡ some (newest_of (if b then r else best) d)))
    go true (inl e) k = inr (j, here ∙ ap some (sym e))
    go true (inr (id, e)) k = inr (id, found (newest_of r d) id e)
    go false h (inl e) = inl e
    go false h (inr (id, e)) = inr (id, found (newest_of best d) id e)

newest_of_all :
    (d : Dict String GenerationRequest) (r : GenerationRequest)
    → Distinct String_discrete d
    → (elim d [ [] ↦ none | (id, q) ∷ others ↦ some (newest_of q others) ]) ≡ some r
    → IsNewest r d × ((id : String) × (lookup String_discrete id d ≡ some r))
unfolding lookup
newest_of_all [] r h e = absurd (ground arith)
newest_of_all ((j, q) ∷ d) r h e =
    subst
      (λ x.
        IsNewest x ((j, q) ∷ d)
        × ((id : String) × (lookup String_discrete id ((j, q) ∷ d) ≡ some x)))
      (some_injective e)
      (
        newest_first,
        elim (newest_of-mem q d h.1) [
          | inl same ↦ (j, if_pos (String_discrete j j) refl _ _ ∙ ap some (sym same))
          | inr (id, k) ↦ (id, found id k)
        ],
      )
  where
    newest_first : IsNewest (newest_of q d) ((j, q) ∷ d)
    newest_first id x k = elim (String_discrete j id) [
      | yes p ↦ newest_of-best q d x (
          ap (arrives_before q) (some_injective (sym k ∙ if_pos (String_discrete j id) p _ _))
          ∙ before_irrefl q)
      | no p ↦ newest_of-IsNewest q d id x (sym (if_neg (String_discrete j id) p _ _) ∙ k)
    ]

    found :
        (id : String)
        → lookup String_discrete id d ≡ some (newest_of q d)
        → lookup String_discrete id ((j, q) ∷ d) ≡ some (newest_of q d)
    found id k = elim (String_discrete j id) [
      | yes p ↦ absurd (ground (arith, ap (λ k. lookup String_discrete k d) p))
      | no p ↦ if_neg (String_discrete j id) p _ _ ∙ k
    ]

module _ {C : Type 0} (engine : String → Bool) (s : Scheduler C) (r : GenerationRequest) where
  -- The newest active request is active under its own id, and no active request arrived after it.
  pub newest_active-IsNewest :
      IsOrderly engine s
      → newest_active s ≡ some r
      → IsNewest r s.active × (lookup String_discrete r.request_id s.active ≡ some r)
  unfolding newest_active
  newest_active-IsNewest v e =
      let all = newest_of_all s.active r v.one_entry e in
      (
        all.0,
        subst (λ i. lookup String_discrete i s.active ≡ some r) (sym (v.keyed all.1.0 r all.1.1).0)
            all.1.1,
      )

  -- As long as there is another active request, the oldest active one is not the newest, so that it is not
  -- the one that yields its memory.
  pub newest_active-oldest :
      (o q : GenerationRequest)
      → IsOrderly engine s
      → newest_active s ≡ some r
      → lookup String_discrete o.request_id s.active ≡ some o
      → lookup String_discrete q.request_id s.active ≡ some q
      → o.request_id ≢ q.request_id
      → ((id : String) (p : GenerationRequest)
          → lookup String_discrete id s.active ≡ some p
          → arrives_before p o ≡ false)
      → r.request_id ≢ o.request_id
  newest_active-oldest o q v e ho hq other oldest same =
      let newest = newest_active-IsNewest v e in
      let r_is_o : r ≡ o =
        some_injective (sym newest.1 ∙ ap (λ i. lookup String_discrete i s.active) same ∙ ho) in
      other (
        pair_lt_total o.created_ns o.request_id q.created_ns q.request_id
          (ap (λ x. arrives_before x q) (sym r_is_o) ∙ newest.0 q.request_id q hq)
          (oldest q.request_id q hq))
