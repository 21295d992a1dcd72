-- ===== src/Runtime/Requests/Calls.antt =====
-- The calls that change a request, and what a sequence of them leaves.
use full_inference_engine.Base.{
  if◌then◌else◌, runtime_error, raise, ℕ, Option, String, List, [], ◌∷◌, Outcome, Action, ok, final,
  raised, ◌≡◌, ◌⊎◌, inl, inr, true, ◌||◌, length, ◌<◌, ◌≤◌, arith, subst, sym, ap,
}
use full_inference_engine.Runtime.States.{
  RequestState, is_decoding, is_waiting, finished, is_prefilling, allowed_transition, waiting,
}
use full_inference_engine.Runtime.Requests.{
  GenerationRequest, transition, preempt, complete_resumption, advance_prefill, append_token, moved,
  yielded, resumed, advanced, appended, remaining_prefill_tokens, prefill_token_count,
  enter_prefilling, enter_decoding, enter_terminal, close_wait, close_recompute, close_preemption,
  reserved_tokens, prefill_token_ids,
}

pub data Call : Type 0 where
  transition_to : RequestState → Option String → ℕ → Call
  preempt_at : Option String → ℕ → ℕ → Call
  complete : Call
  advance : ℕ → Call
  append : ℕ → ℕ → Call

abbrev pub perform : Call → Action GenerationRequest (Unit {0})
perform (transition_to next reason now) = transition next reason now
perform (preempt_at reason epoch now) = preempt reason epoch now
perform complete = complete_resumption
perform (advance count) = advance_prefill count
perform (append token now) = append_token token now

-- A call that raises leaves what it has changed, and the next one goes on from there.
abbrev pub run : List Call → GenerationRequest → GenerationRequest
run [] r = r
run (call ∷ calls) r = run calls (final (perform call r))

-- Each call raises, or passes its guards and makes one update.
abbrev pub Updates :
    (Type 0) → GenerationRequest → GenerationRequest → Outcome GenerationRequest (Unit {0}) → Type 0
Updates Guard r r' outcome =
    ((raised outcome ≡ true) × (final outcome ≡ r)) ⊎ (Guard × (outcome ≡ ok tt r'))

pub append_token-Updates :
    (token now : ℕ) (r : GenerationRequest)
    → Updates
        ((is_decoding r.state ≡ true) × (length r.output_token_ids < r.max_new_tokens))
        r
        (appended token now r)
        (append_token token now r)
unfolding append_token
append_token-Updates token now r = ground arith

pub advance_prefill-Updates :
    (count : ℕ) (r : GenerationRequest)
    → Updates
        ((is_prefilling r.state ≡ true) × ((0 < count) × (count ≤ remaining_prefill_tokens r)))
        r
        (advanced count r)
        (advance_prefill count r)
unfolding advance_prefill
advance_prefill-Updates count r = ground arith

pub complete_resumption-Updates :
    (r : GenerationRequest)
    → Updates
        ((is_decoding r.state ≡ true) × (r.resuming ≡ true))
        r
        (resumed r)
        (complete_resumption r)
unfolding complete_resumption
complete_resumption-Updates r = ground arith

pub transition-Updates :
    (next : RequestState) (reason : Option String) (now : ℕ) (r : GenerationRequest)
    → Updates
        ((allowed_transition r.state next ≡ true)
          × (is_decoding next ≡ true → r.prefilled_token_count ≡ prefill_token_count r))
        r
        (moved next reason now r)
        (transition next reason now r)
unfolding transition
transition-Updates next reason now r = ground arith

pub preempt-Updates :
    (reason : Option String) (epoch now : ℕ) (r : GenerationRequest)
    → Updates
        ((is_prefilling r.state || is_decoding r.state) ≡ true)
        r
        (yielded epoch now (moved waiting reason now r))
        (preempt reason epoch now r)
unfolding preempt transition allowed_transition
preempt-Updates reason epoch now r = ground arith

-- A call that raises changes nothing; else it makes an update.
pub of_Updates :
    {Guard : Type 0} (P : GenerationRequest → Type 0) (r r' : GenerationRequest)
    (outcome : Outcome GenerationRequest (Unit {0}))
    → Updates Guard r r' outcome
    → P r
    → (Guard → P r')
    → P (final outcome)
of_Updates P r r' outcome (inl e) h f = subst P (sym e.1) h
of_Updates P r r' outcome (inr (g, e)) h f = subst P (sym (ap final e)) (f g)

-- A waiting request goes where the table lets it.
pub transition_waiting :
    (next : RequestState) (reason : Option String) (now : ℕ) (r : GenerationRequest)
    → is_waiting r.state ≡ true
    → allowed_transition waiting next ≡ true
    → transition next reason now r ≡ ok tt (moved next reason now r)
unfolding transition allowed_transition
transition_waiting next reason now r h k = ground arith

-- Only a decoding request finishes.
pub transition_finished :
    (reason : Option String) (now : ℕ) (r : GenerationRequest)
    → transition finished reason now r
      ≡ (if is_decoding r.state then ok tt (moved finished reason now r) else raise runtime_error r)
unfolding transition allowed_transition
transition_finished reason now r = ground arith

-- To unfold this is to unfold `transition` and what admission reads.
unfoldable pub transitions : Unit {0}
unfolding transition moved enter_prefilling enter_decoding enter_terminal close_wait close_recompute
    close_preemption reserved_tokens prefill_token_count prefill_token_ids
transitions = tt
