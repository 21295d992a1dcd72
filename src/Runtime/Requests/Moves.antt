-- ===== src/Runtime/Requests/Moves.antt =====
-- What a transition of a request changes, and what it leaves.
use full_inference_engine.Base.{
  ℕ, ◌+◌, ◌-◌, ◌≤◌, ◌≡◌, refl, ap, ◌∙◌, Bool, true, false, ◌&&◌, Option, none, List, length, arith,
  inl, inr, ◌⊎◌, if◌then◌else◌, String, Bool-cases, Option-cases,
}
use full_inference_engine.Runtime.States.{
  RequestState, waiting, prefilling, decoding, finished, cancelled, failed, rejected, is_terminal,
  is_waiting, is_decoding,
}
use full_inference_engine.Runtime.Requests.{
  GenerationRequest, some_items, close_preemption, enter_prefilling, close_recompute,
  enter_decoding, close_wait, enter_terminal, moved, yielded,
}

-- What no transition touches.
abbrev pub Kept : Type 0
Kept = ℕ × ℕ × Bool × List ℕ × ℕ × List ℕ × Option ℕ × Option ℕ

abbrev pub kept : GenerationRequest → Kept
kept r = (
  r.prefilled_token_count, r.prompt_token_count, r.resuming, r.output_token_ids, r.max_new_tokens,
  r.token_timestamps_ns, r.first_token_ns, r.last_token_ns,
)

kept-close_preemption : (now : ℕ) (r : GenerationRequest) → kept (close_preemption now r) ≡ kept r
unfolding close_preemption
kept-close_preemption now r = elim (Option-cases r.preempted_ns) [
  | inl e ↦ rw e refl
  | inr (t, e) ↦ rw e refl
]

kept-close_wait : (now : ℕ) (r : GenerationRequest) → kept (close_wait now r) ≡ kept r
unfolding close_wait
kept-close_wait now r = elim (Option-cases r.preempted_ns) [
  | inl e ↦ rw e refl
  | inr (t, e) ↦ rw e refl
]

kept-enter_decoding : (now : ℕ) (r : GenerationRequest) → kept (enter_decoding now r) ≡ kept r
unfolding enter_decoding close_recompute
kept-enter_decoding now r = elim (Bool-cases r.recomputing) [
  | inr e ↦ rw e refl
  | inl e ↦ elim (Option-cases r.resume_started_ns) [
    | inl f ↦ rw (e, f) refl
    | inr (t, f) ↦ rw (e, f) refl
  ]
]

pub kept-moved :
    (next : RequestState) (reason : Option String) (now : ℕ) (r : GenerationRequest)
    → kept (moved next reason now r) ≡ kept r
unfolding moved enter_prefilling enter_terminal
kept-moved waiting reason now r = refl
kept-moved prefilling reason now r = kept-close_wait now _ ∙ kept-close_preemption now _
kept-moved decoding reason now r = kept-close_wait now _ ∙ kept-enter_decoding now _
kept-moved finished reason now r = kept-close_wait now _
kept-moved cancelled reason now r = kept-close_wait now _
kept-moved failed reason now r = kept-close_wait now _
kept-moved rejected reason now r = kept-close_wait now _

abbrev pub Stalls : GenerationRequest → Type 0
Stalls r = r.stalled_ns ≤ r.recompute_ns + r.preempted_wait_ns

close_preemption-Stalls :
    (now : ℕ) (r : GenerationRequest) → Stalls r → Stalls (close_preemption now r)
unfolding close_preemption
close_preemption-Stalls now r h = ground arith

close_wait-Stalls : (now : ℕ) (r : GenerationRequest) → Stalls r → Stalls (close_wait now r)
unfolding close_wait
close_wait-Stalls now r h = ground arith

enter_decoding-Stalls : (now : ℕ) (r : GenerationRequest) → Stalls r → Stalls (enter_decoding now r)
unfolding enter_decoding close_recompute
enter_decoding-Stalls now r h = ground arith

pub moved-Stalls :
    (next : RequestState) (reason : Option String) (now : ℕ) (r : GenerationRequest)
    → Stalls r
    → Stalls (moved next reason now r)
unfolding moved enter_prefilling enter_terminal
moved-Stalls waiting reason now r h = h
moved-Stalls prefilling reason now r h = close_wait-Stalls now _ (close_preemption-Stalls now _ h)
moved-Stalls decoding reason now r h = close_wait-Stalls now _ (enter_decoding-Stalls now _ h)
moved-Stalls finished reason now r h = close_wait-Stalls now _ h
moved-Stalls cancelled reason now r h = close_wait-Stalls now _ h
moved-Stalls failed reason now r h = close_wait-Stalls now _ h
moved-Stalls rejected reason now r h = close_wait-Stalls now _ h

close_wait_unparked : (now : ℕ) (r : GenerationRequest) → (close_wait now r).preempted_ns ≡ none
unfolding close_wait
close_wait_unparked now r = ground arith

pub moved_parked :
    (next : RequestState) (reason : Option String) (now : ℕ) (r : GenerationRequest)
    → (next ≡ waiting) ⊎ ((moved next reason now r).preempted_ns ≡ none)
unfolding moved enter_prefilling enter_terminal
moved_parked waiting reason now r = inl refl
moved_parked prefilling reason now r = inr (close_wait_unparked now _)
moved_parked decoding reason now r = inr (close_wait_unparked now _)
moved_parked finished reason now r = inr (close_wait_unparked now _)
moved_parked cancelled reason now r = inr (close_wait_unparked now _)
moved_parked failed reason now r = inr (close_wait_unparked now _)
moved_parked rejected reason now r = inr (close_wait_unparked now _)

close_wait_facts :
    (now : ℕ) (r : GenerationRequest)
    → ((close_wait now r).state ≡ r.state) × ((close_wait now r).recomputing ≡ r.recomputing)
unfolding close_wait
close_wait_facts now r = ground arith

close_preemption_state :
    (now : ℕ) (r : GenerationRequest) → (close_preemption now r).state ≡ r.state
unfolding close_preemption
close_preemption_state now r = ground arith

enter_decoding_facts :
    (now : ℕ) (r : GenerationRequest)
    → ((enter_decoding now r).state ≡ r.state) × ((enter_decoding now r).recomputing ≡ false)
unfolding enter_decoding close_recompute
enter_decoding_facts now r = ground arith

pub moved_state :
    (next : RequestState) (reason : Option String) (now : ℕ) (r : GenerationRequest)
    → (moved next reason now r).state ≡ next
unfolding moved enter_prefilling enter_terminal
moved_state waiting reason now r = refl
moved_state prefilling reason now r = (close_wait_facts now _).0 ∙ close_preemption_state now _
moved_state decoding reason now r = (close_wait_facts now _).0 ∙ (enter_decoding_facts now _).0
moved_state finished reason now r = (close_wait_facts now _).0
moved_state cancelled reason now r = (close_wait_facts now _).0
moved_state failed reason now r = (close_wait_facts now _).0
moved_state rejected reason now r = (close_wait_facts now _).0

close_wait_id : (now : ℕ) (r : GenerationRequest) → (close_wait now r).request_id ≡ r.request_id
unfolding close_wait
close_wait_id now r = ground arith

close_preemption_id :
    (now : ℕ) (r : GenerationRequest) → (close_preemption now r).request_id ≡ r.request_id
unfolding close_preemption
close_preemption_id now r = ground arith

enter_decoding_id :
    (now : ℕ) (r : GenerationRequest) → (enter_decoding now r).request_id ≡ r.request_id
unfolding enter_decoding close_recompute
enter_decoding_id now r = ground arith

pub moved_id :
    (next : RequestState) (reason : Option String) (now : ℕ) (r : GenerationRequest)
    → (moved next reason now r).request_id ≡ r.request_id
unfolding moved enter_prefilling enter_terminal
moved_id waiting reason now r = refl
moved_id prefilling reason now r = close_wait_id now _ ∙ close_preemption_id now _
moved_id decoding reason now r = close_wait_id now _ ∙ enter_decoding_id now _
moved_id finished reason now r = close_wait_id now _
moved_id cancelled reason now r = close_wait_id now _
moved_id failed reason now r = close_wait_id now _
moved_id rejected reason now r = close_wait_id now _

-- A yielded request keeps its id and waits.
pub yielded_facts :
    (epoch now : ℕ) (reason : Option String) (r : GenerationRequest)
    → ((yielded epoch now (moved waiting reason now r)).request_id ≡ r.request_id)
      × (is_waiting (yielded epoch now (moved waiting reason now r)).state ≡ true)
unfolding yielded
yielded_facts epoch now reason r =
    (moved_id waiting reason now r, ap is_waiting (moved_state waiting reason now r))

pub moved_ended :
    (next : RequestState) (reason : Option String) (now : ℕ) (r : GenerationRequest)
    → is_terminal next ≡ true
    → (moved next reason now r).allocation ≡ none
unfolding moved enter_terminal
moved_ended waiting reason now r e = absurd (ground arith)
moved_ended prefilling reason now r e = absurd (ground arith)
moved_ended decoding reason now r e = absurd (ground arith)
moved_ended finished reason now r e = refl
moved_ended cancelled reason now r e = refl
moved_ended failed reason now r e = refl
moved_ended rejected reason now r e = refl

pub moved_rebuilt :
    (next : RequestState) (reason : Option String) (now : ℕ) (r : GenerationRequest)
    → is_decoding next ≡ true
    → (moved next reason now r).recomputing ≡ false
unfolding moved
moved_rebuilt waiting reason now r e = absurd (ground arith)
moved_rebuilt prefilling reason now r e = absurd (ground arith)
moved_rebuilt decoding reason now r e = (close_wait_facts now _).1 ∙ (enter_decoding_facts now _).1
moved_rebuilt finished reason now r e = absurd (ground arith)
moved_rebuilt cancelled reason now r e = absurd (ground arith)
moved_rebuilt failed reason now r e = absurd (ground arith)
moved_rebuilt rejected reason now r e = absurd (ground arith)

-- The bounds hang on what no transition touches.
abbrev pub needed : Kept → ℕ
needed k = if k.2 && some_items k.3 then (k.1 + length k.3) - 1 else k.1
