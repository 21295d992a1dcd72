-- ===== src/Server/Service/Outstanding.antt =====
-- At most one handle is forgotten: any other that is not completed is in the inbox or active.
use full_inference_engine.Base.{
  ◌≡◌, refl, ◌∙◌, ap, Bool, true, false, not, ◌||◌, Option, none, some, List, [], ◌∷◌, ◌++◌, String,
  String_discrete, is_yes, if◌then◌else◌, lookup, lookup-insert, Outcome, Ensures, length, ◌≤◌,
  arith, Option-cases, inl, inr,
}
use full_inference_engine.Server.Handles.{RequestHandle, accept, complete}
use full_inference_engine.Server.Handles.Once.{completed-accept, completed-complete}
use full_inference_engine.Server.Service.{
  Service, has, without_id, on_handle, complete_all, fail_all,
}

-- The handle is known and not completed.
abbrev pub waits : {E : Type 0} → String → Service E → Bool
waits id s = elim (lookup String_discrete id s.handles) [ none ↦ false | some h ↦ not h.completed ]

-- All handles but those in `lost`.
abbrev pub IsKept : {E : Type 0} → List String → Service E → Type 0
IsKept lost s =
    (id : String) → waits id s ≡ true → ((has id s.inbox || has id s.active) || has id lost) ≡ true

pub has-append : (id : String) (xs ys : List String) → has id (xs ++ ys) ≡ (has id xs || has id ys)
unfolding has
has-append id [] ys = refl
has-append id (x ∷ xs) ys = ground (arith, has-append id xs ys)

pub has-without_id :
    (id j : String) (xs : List String)
    → has j (without_id id xs) ≡ (if is_yes (String_discrete id j) then false else has j xs)
unfolding has without_id
has-without_id id j [] = ground arith
has-without_id id j (x ∷ xs) = ground (arith, has-without_id id j xs)

module _ {E : Type 0} where
  pub waits_completed :
      (error : Option String) (id j : String) (s : Service E)
      → waits j (on_handle (complete error) id s)
        ≡ (if is_yes (String_discrete id j) then false else waits j s)
  unfolding on_handle
  waits_completed error id j s = elim (Option-cases (lookup String_discrete id s.handles)) [
    | inl e ↦ elim (String_discrete id j) [
      | yes p ↦ ground (arith, ap (λ k. lookup String_discrete k s.handles) p)
      | no p ↦ ground arith
    ]
    | inr (h, e) ↦ ground (
      arith,
      lookup-insert String_discrete id j (complete error h) s.handles,
      completed-complete error h,
    )
  ]

  pub waits_accepted : (id j : String) (s : Service E) → waits j (on_handle accept id s) ≡ waits j s
  unfolding on_handle
  waits_accepted id j s = elim (Option-cases (lookup String_discrete id s.handles)) [
    | inl e ↦ ground arith
    | inr (h, e) ↦ elim (String_discrete id j) [
      | yes p ↦ ground (
        arith,
        ap (λ k. lookup String_discrete k s.handles) p,
        lookup-insert String_discrete id j (accept h) s.handles,
        completed-accept h,
      )
      | no p ↦ ground (arith, lookup-insert String_discrete id j (accept h) s.handles)
    ]
  ]

  -- A change of a handle moves nothing else.
  pub on_handle_rest :
      (change : RequestHandle → RequestHandle) (id : String) (s : Service E)
      → ((on_handle change id s).inbox ≡ s.inbox) × ((on_handle change id s).active ≡ s.active)
  unfolding on_handle
  on_handle_rest change id s = ground arith

  pub waits-complete_all :
      (error : Option String) (ids : List String) (j : String) (s : Service E)
      → waits j (complete_all error ids s) ≡ (if has j ids then false else waits j s)
  unfolding complete_all has
  waits-complete_all error [] j s = refl
  waits-complete_all error (id ∷ ids) j s = ground (
    arith,
    waits-complete_all error ids j (on_handle (complete error) id s),
    waits_completed error id j s,
  )

  pub complete_all_rest :
      (error : Option String) (ids : List String) (s : Service E)
      → ((complete_all error ids s).inbox ≡ s.inbox)
        × ((complete_all error ids s).active ≡ s.active)
  unfolding complete_all
  complete_all_rest error [] s = (refl, refl)
  complete_all_rest error (id ∷ ids) s =
      let rest = complete_all_rest error ids (on_handle (complete error) id s) in
      let here = on_handle_rest (complete error) id s in (rest.0 ∙ here.0, rest.1 ∙ here.1)

  complete_all_flags :
      (error : Option String) (ids : List String) (s : Service E)
      → ((complete_all error ids s).fatal_error ≡ s.fatal_error)
        × ((complete_all error ids s).stopping ≡ s.stopping)
  unfolding complete_all on_handle
  complete_all_flags error [] s = (refl, refl)
  complete_all_flags error (id ∷ ids) s =
      let rest = complete_all_flags error ids (on_handle (complete error) id s) in
      let here : (((on_handle (complete error) id s).fatal_error ≡ s.fatal_error)
          × ((on_handle (complete error) id s).stopping ≡ s.stopping)) =
        ground arith in
      (rest.0 ∙ here.0, rest.1 ∙ here.1)

  pub fail_all_flags :
      (error : String) (mark : Bool) (s : Service E)
      → ((fail_all error mark s).fatal_error ≡ (if mark then some error else s.fatal_error))
        × ((fail_all error mark s).stopping ≡ s.stopping)
  unfolding fail_all
  fail_all_flags error mark s = complete_all_flags (some error) (s.active ++ s.inbox) (record s {
    fatal_error = if mark then some error else s.fatal_error;
    active = [];
    inbox = [];
  })

  -- After `_fail_all` only the lost handles wait.
  pub fail_all-lost :
      (lost : List String) (error : String) (mark : Bool) (s : Service E)
      → IsKept lost s
      → (id : String) → waits id (fail_all error mark s) ≡ true
      → has id lost ≡ true
  unfolding fail_all
  fail_all-lost lost error mark s v id e = ground (
    arith,
    waits-complete_all (some error) (s.active ++ s.inbox) id (record s {
      fatal_error = if mark then some error else s.fatal_error;
      active = [];
      inbox = [];
    }),
    has-append id s.active s.inbox,
    v id,
  )

abbrev pub LosesOne : {E : Type 0} → Service E → Type 0
LosesOne s = (lost : List String) × (length lost ≤ 1) × IsKept lost s

-- A call that returns has lost nobody, and one that raises at most one.
abbrev pub Keeps : {E : Type 0} → Outcome (Service E) (Unit {0}) → Type 0
Keeps = Ensures (λ _. IsKept []) LosesOne

pub LosesOne-none : {E : Type 0} (s : Service E) → IsKept [] s → LosesOne s
LosesOne-none s v = ([], omega arith, v)
