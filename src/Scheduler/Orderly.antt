-- ===== src/Scheduler/Orderly.antt =====
-- The invariant of the scheduler.
use full_inference_engine.Base.{
  ℕ, ◌+◌, ◌-◌, ◌≤◌, ◌≡◌, ◌∙◌, sym, Bool, true, false, ◌||◌, none, some, List, [], ◌∷◌, String,
  String_discrete, is_yes, if◌then◌else◌, is_some, Dict, lookup, insert, erase, lookup-insert,
  lookup-insert_ne, lookup-erase, erase-Distinct, Distinct, All, arith, ◌⊎◌, inl, inr, Option-cases,
  ok, raise, key_error,
}
use full_inference_engine.Cache.Paging.{KvBlockManager, KvBlockAllocation, release}
use full_inference_engine.Cache.Paging.Valid.{IsConsistent}
use full_inference_engine.Cache.Paging.Admission.{request_released, release-request}
use full_inference_engine.Runtime.States.{is_waiting, is_prefilling, is_decoding}
use full_inference_engine.Runtime.Requests.{GenerationRequest}
use full_inference_engine.Scheduler.{Scheduler, remove_id, detach, on_manager}
use full_inference_engine.Scheduler.Planning.Allotment.{count_id}

abbrev pub count_queued : String → List GenerationRequest → ℕ
count_queued id [] = 0
count_queued id (r ∷ queue) =
    (if is_yes (String_discrete r.request_id id) then 1 else 0) + count_queued id queue

abbrev pub one_if : Bool → ℕ
one_if true = 1
one_if false = 0

abbrev pub is_active : GenerationRequest → Bool
is_active r = is_prefilling r.state || is_decoding r.state

-- `engine` tells the ids under which the engine itself holds blocks, which no request has.
pub record IsOrderly {C : Type 0} (engine : String → Bool) (s : Scheduler C) : Type 0 where
  pub consistent : IsConsistent s.block_manager
  pub one_entry : Distinct String_discrete s.active
  pub keyed :
      (id : String) (r : GenerationRequest)
      → lookup String_discrete id s.active ≡ some r
      → (r.request_id ≡ id) × (is_active r ≡ true)
  pub queue_waits : All (λ r. is_waiting r.state ≡ true) s.waiting_queue
  pub once :
      (id : String)
      → count_queued id s.waiting_queue + one_if (is_some (lookup String_discrete id s.active)) ≤ 1
  pub tables :
      (id : String)
      → engine id ≡ false
      → is_some (lookup String_discrete id s.block_manager.requests)
        ≡ is_some (lookup String_discrete id s.active)
  pub guests :
      (id : String)
      → engine id ≡ true
      → count_queued id s.waiting_queue + one_if (is_some (lookup String_discrete id s.active)) ≡ 0
  pub in_round :
      (id : String)
      → count_id id s.prefill_order ≡ one_if (is_some (lookup String_discrete id s.active))

-- Each entry stands under its own id, and is being prefilled or decoded.
abbrev pub Keyed : Dict String GenerationRequest → Type 0
Keyed d =
    (id : String) (r : GenerationRequest)
    → lookup String_discrete id d ≡ some r
    → (r.request_id ≡ id) × (is_active r ≡ true)

pub insert-Keyed :
    (d : Dict String GenerationRequest) (id : String) (r : GenerationRequest)
    → Keyed d
    → (r.request_id ≡ id) × (is_active r ≡ true)
    → Keyed (insert String_discrete id r d)
insert-Keyed d id r h fits x q k = elim (String_discrete id x) [
  | yes p ↦ ground (arith, lookup-insert String_discrete id x r d, same_id x p)
  | no p ↦ h x q (sym (lookup-insert_ne String_discrete id x r d p) ∙ k)
]
  where
    same_id : (x : String) → id ≡ x → r.request_id ≡ x
    same_id x p = fits.0 ∙ p

pub count_id-remove_id :
    (x id : String) (order : List String)
    → count_id x (remove_id id order)
      ≡ (if is_yes (String_discrete id x) then count_id x order - 1 else count_id x order)
unfolding remove_id
count_id-remove_id x id [] = ground arith
count_id-remove_id x id (y ∷ order) = ground (arith, count_id-remove_id x id order)

abbrev pub detached : {C : Type 0} → Scheduler C → String → KvBlockAllocation → Scheduler C
detached s id t = record s {
  active = erase String_discrete id s.active;
  prefill_order = remove_id id s.prefill_order;
  block_manager = request_released s.block_manager id t.physical_block_ids;
}

-- To detach an unknown id is a KeyError and changes nothing; else the request leaves the active ones and
-- the round, and gives its table back.
abbrev pub Detaches : {C : Type 0} → (String → Bool) → Scheduler C → String → Type 0
Detaches engine s id =
    ((lookup String_discrete id s.active ≡ none) × (detach id s ≡ raise key_error s))
    ⊎ ((r : GenerationRequest) × (t : KvBlockAllocation) × (lookup String_discrete id s.active
          ≡ some r)
        × (lookup String_discrete id s.block_manager.requests ≡ some t)
        × (detach id s ≡ ok r (detached s id t))
        × IsOrderly engine (detached s id t)
        × (count_queued id s.waiting_queue ≡ 0))

module _ {C : Type 0} (engine : String → Bool) (s : Scheduler C) (id : String)
    (t : KvBlockAllocation) (v : IsOrderly engine s) where
  IsOrderly-detached :
      IsConsistent (request_released s.block_manager id t.physical_block_ids)
      → IsOrderly engine (detached s id t)
  IsOrderly-detached w = record {
    consistent = w;
    one_entry = erase-Distinct String_discrete id s.active v.one_entry;
    keyed = λ x r e.
        ground (arith, lookup-erase String_discrete id x s.active v.one_entry, v.keyed x r);
    queue_waits = v.queue_waits;
    once = λ x. ground (arith, lookup-erase String_discrete id x s.active v.one_entry, v.once x);
    tables = λ x e. ground (
      arith,
      lookup-erase String_discrete id x s.active v.one_entry,
      lookup-erase String_discrete id x s.block_manager.requests v.consistent.one_entry,
      v.tables x,
    );
    guests =
        λ x e. ground (arith, lookup-erase String_discrete id x s.active v.one_entry, v.guests x);
    in_round = λ x. ground (
      arith,
      lookup-erase String_discrete id x s.active v.one_entry,
      count_id-remove_id x id s.prefill_order,
      v.in_round x,
    );
  }

detach-none :
    {C : Type 0} (s : Scheduler C) (id : String)
    → lookup String_discrete id s.active ≡ none
    → detach id s ≡ raise key_error s
unfolding detach
detach-none s id e = ground arith

detach-some :
    {C : Type 0} (s : Scheduler C) (id : String) (r : GenerationRequest) (t : KvBlockAllocation)
    (m : KvBlockManager)
    → lookup String_discrete id s.active ≡ some r
    → release id s.block_manager ≡ ok t m
    → detach id s
      ≡ ok r (record s {
        active = erase String_discrete id s.active;
        prefill_order = remove_id id s.prefill_order;
        block_manager = m;
      })
unfolding detach on_manager
detach-some s id r t m e run = ground arith

pub detach-Detaches :
    {C : Type 0} (engine : String → Bool) (s : Scheduler C) (id : String)
    → IsOrderly engine s
    → Detaches engine s id
detach-Detaches engine s id v = elim (Option-cases (lookup String_discrete id s.active)) [
  | inl e ↦ inl (e, detach-none s id e)
  | inr (r, e) ↦ elim (release-request s.block_manager id v.consistent) [
    | inl gone ↦ absurd (ground (arith, v.tables id, v.guests id))
    | inr (t, found, run, w) ↦ inr (
      r,
      t,
      e,
      found,
      detach-some s id r t _ e run,
      IsOrderly-detached engine s id t v w,
      ground (arith, v.once id),
    )
  ]
]
