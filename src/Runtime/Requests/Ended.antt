-- ===== src/Runtime/Requests/Ended.antt =====
-- What no sequence of calls on a request undoes: its end, and the tokens that it has produced.
use full_inference_engine.Base.{
  ℕ, ◌≡◌, refl, ◌∙◌, ap, sym, true, Option, List, [], ◌∷◌, ◌++◌, final, arith, String,
}
use mathlib.Core.List.{append_assoc, append-nil}
use full_inference_engine.Runtime.States.{RequestState, waiting, allowed_transition, is_terminal}
use full_inference_engine.Runtime.Requests.{
  GenerationRequest, close_preemption, enter_prefilling, close_recompute, enter_decoding,
  close_wait, enter_terminal, moved, yielded, resumed, advanced, appended,
}
use full_inference_engine.Runtime.Requests.Calls.{
  Call, perform, run, append_token-Updates, advance_prefill-Updates, complete_resumption-Updates,
  transition-Updates, preempt-Updates, of_Updates, transition_to, preempt_at, complete, advance,
  append,
}

-- No call gets past its guards any more.
pub perform-terminal :
    (call : Call) (r : GenerationRequest) → is_terminal r.state ≡ true → final (perform call r) ≡ r
perform-terminal (transition_to next reason now) r e =
    of_Updates (λ s. s ≡ r) r _ _ (transition-Updates next reason now r) refl
      (λ g. absurd (unfold allowed_transition in ground arith))
perform-terminal (preempt_at reason epoch now) r e =
    of_Updates (λ s. s ≡ r) r _ _ (preempt-Updates reason epoch now r) refl
      (λ g. absurd (ground arith))
perform-terminal complete r e =
    of_Updates (λ s. s ≡ r) r _ _ (complete_resumption-Updates r) refl (λ g. absurd (ground arith))
perform-terminal (advance count) r e =
    of_Updates (λ s. s ≡ r) r _ _ (advance_prefill-Updates count r) refl
      (λ g. absurd (ground arith))
perform-terminal (append token now) r e =
    of_Updates (λ s. s ≡ r) r _ _ (append_token-Updates token now r) refl
      (λ g. absurd (ground arith))

-- Once a request is finished, cancelled, failed or rejected, no sequence of calls changes it in
-- any field.
pub run-terminal :
    (calls : List Call) (r : GenerationRequest) → is_terminal r.state ≡ true → run calls r ≡ r
run-terminal [] r e = refl
run-terminal (call ∷ calls) r e =
    ap (run calls) (perform-terminal call r e) ∙ run-terminal calls r e

-- The tokens of `r` are the first ones of `r'`.
abbrev pub Extends : GenerationRequest → GenerationRequest → Type 0
Extends r r' = (more : List ℕ) × (r'.output_token_ids ≡ r.output_token_ids ++ more)

moved_outputs :
    (next : RequestState) (reason : Option String) (now : ℕ) (r : GenerationRequest)
    → (moved next reason now r).output_token_ids ≡ r.output_token_ids
unfolding moved enter_prefilling close_preemption enter_decoding close_recompute close_wait
    enter_terminal
moved_outputs next reason now r = ground arith

same-Extends : (r r' : GenerationRequest) → r'.output_token_ids ≡ r.output_token_ids → Extends r r'
same-Extends r r' e = ([], e ∙ sym (append-nil r.output_token_ids))

pub perform-Extends : (call : Call) (r : GenerationRequest) → Extends r (final (perform call r))
perform-Extends (transition_to next reason now) r =
    of_Updates (Extends r) r _ _ (transition-Updates next reason now r) (same-Extends r r refl)
      (λ g. same-Extends r (moved next reason now r) (moved_outputs next reason now r))
perform-Extends (preempt_at reason epoch now) r =
    of_Updates (Extends r) r _ _ (preempt-Updates reason epoch now r) (same-Extends r r refl) (λ g.
      same-Extends r (yielded epoch now (moved waiting reason now r))
        (unfold yielded in moved_outputs waiting reason now r))
perform-Extends complete r =
    of_Updates (Extends r) r _ _ (complete_resumption-Updates r) (same-Extends r r refl)
      (λ g. same-Extends r (resumed r) (unfold resumed in refl))
perform-Extends (advance count) r =
    of_Updates (Extends r) r _ _ (advance_prefill-Updates count r) (same-Extends r r refl)
      (λ g. same-Extends r (advanced count r) (unfold advanced in refl))
perform-Extends (append token now) r =
    of_Updates (Extends r) r _ _ (append_token-Updates token now r) (same-Extends r r refl)
      (λ g. (token ∷ [], unfold appended in refl))

-- No sequence of calls, preemptions included, takes back or changes a token that a request has
-- produced: later tokens only stand behind the earlier ones.
pub run-Extends : (calls : List Call) (r : GenerationRequest) → Extends r (run calls r)
run-Extends [] r = same-Extends r r refl
run-Extends (call ∷ calls) r =
    let first : Extends r (final (perform call r)) = perform-Extends call r in
    let rest : Extends (final (perform call r)) (run calls (final (perform call r))) =
      run-Extends calls _ in
    (
      first.0 ++ rest.0,
      rest.1 ∙ ap (λ ts. ts ++ rest.0) first.1 ∙ append_assoc r.output_token_ids first.0 rest.0,
    )
