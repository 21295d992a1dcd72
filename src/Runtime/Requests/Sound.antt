-- ===== src/Runtime/Requests/Sound.antt =====
-- The invariant of a request.
use full_inference_engine.Base.{
  inl, inr, ◌∙◌, false_of, subst, ℕ, ◌+◌, ◌≤◌, ◌<◌, ◌≡◌, refl, ap, sym, true, false, Option, none,
  List, [], ◌∷◌, ◌++◌, length, length-append, is_some, final, arith, String,
}
use full_inference_engine.Runtime.States.{
  RequestState, waiting, is_waiting, is_decoding, is_terminal,
}
use full_inference_engine.Runtime.Requests.{
  GenerationRequest, some_items, prefill_token_count, remaining_prefill_tokens, moved, yielded,
  resumed, advanced, appended,
}
use full_inference_engine.Runtime.Requests.Moves.{
  kept, needed, kept-moved, moved-Stalls, moved_parked, moved_state, moved_ended, moved_rebuilt,
}
use full_inference_engine.Runtime.Requests.Calls.{
  Call, perform, run, append_token-Updates, advance_prefill-Updates, complete_resumption-Updates,
  transition-Updates, preempt-Updates, of_Updates, transition_to, preempt_at, complete, advance,
  append,
}

pub record IsSound (r : GenerationRequest) : Type 0 where
  pub prefill_within : r.prefilled_token_count ≤ prefill_token_count r
  pub output_within : length r.output_token_ids ≤ r.max_new_tokens
  pub stamped : length r.token_timestamps_ns ≡ length r.output_token_ids
  pub first_stamped : is_some r.first_token_ns ≡ some_items r.output_token_ids
  pub last_stamped : is_some r.last_token_ns ≡ some_items r.output_token_ids
  pub stalls : r.stalled_ns ≤ r.recompute_ns + r.preempted_wait_ns
  pub parked : is_some r.preempted_ns ≡ true → is_waiting r.state ≡ true
  pub ended : is_terminal r.state ≡ true → r.allocation ≡ none
  pub rebuilt : is_decoding r.state ≡ true → r.recomputing ≡ false
  pub prompted : is_decoding r.state ≡ true → r.prompt_token_count ≤ r.prefilled_token_count

some_items-append {ℓ} : {A : Type ℓ} (xs : List A) (x : A) → some_items (xs ++ x ∷ []) ≡ true
some_items-append [] x = refl
some_items-append (y ∷ ys) x = refl

appended-IsSound :
    (token now : ℕ) (r : GenerationRequest)
    → length r.output_token_ids < r.max_new_tokens
    → IsSound r
    → IsSound (appended token now r)
unfolding appended prefill_token_count
appended-IsSound token now r room v = record {
  prefill_within = ground (
    arith,
    v.prefill_within,
    length-append r.output_token_ids (token ∷ []),
    some_items-append r.output_token_ids token,
  );
  output_within = omega (arith, length-append r.output_token_ids (token ∷ []));
  stamped = omega (
    arith,
    v.stamped,
    length-append r.output_token_ids (token ∷ []),
    length-append r.token_timestamps_ns (now ∷ []),
  );
  first_stamped = ground (arith, some_items-append r.output_token_ids token);
  last_stamped = sym (some_items-append r.output_token_ids token);
  stalls = v.stalls;
  parked = v.parked;
  ended = v.ended;
  rebuilt = v.rebuilt;
  prompted = v.prompted;
}

advanced-IsSound :
    (count : ℕ) (r : GenerationRequest)
    → count ≤ remaining_prefill_tokens r
    → IsSound r
    → IsSound (advanced count r)
unfolding advanced remaining_prefill_tokens prefill_token_count
advanced-IsSound count r fits v = record {
  prefill_within = ground (arith, v.prefill_within);
  output_within = v.output_within;
  stamped = v.stamped;
  first_stamped = v.first_stamped;
  last_stamped = v.last_stamped;
  stalls = v.stalls;
  parked = v.parked;
  ended = v.ended;
  rebuilt = v.rebuilt;
  prompted = λ d. omega (arith, v.prompted d);
}

resumed-IsSound : (r : GenerationRequest) → IsSound r → IsSound (resumed r)
unfolding resumed prefill_token_count
resumed-IsSound r v = record {
  prefill_within = omega arith;
  output_within = v.output_within;
  stamped = v.stamped;
  first_stamped = v.first_stamped;
  last_stamped = v.last_stamped;
  stalls = v.stalls;
  parked = v.parked;
  ended = v.ended;
  rebuilt = v.rebuilt;
  prompted = λ d. omega arith;
}

prompt_of_full :
    (r : GenerationRequest)
    → r.prefilled_token_count ≡ prefill_token_count r
    → r.prompt_token_count ≤ r.prefilled_token_count
unfolding prefill_token_count
prompt_of_full r e = ground arith

moved-IsSound :
    (next : RequestState) (reason : Option String) (now : ℕ) (r : GenerationRequest)
    → (is_decoding next ≡ true → r.prefilled_token_count ≡ prefill_token_count r)
    → IsSound r
    → IsSound (moved next reason now r)
unfolding prefill_token_count
moved-IsSound next reason now r full v =
    let same : kept r ≡ kept (moved next reason now r) = sym (kept-moved next reason now r) in
    record {
      prefill_within = subst (λ k. k.0 ≤ needed k) same v.prefill_within;
      output_within = subst (λ k. length k.3 ≤ k.4) same v.output_within;
      stamped = subst (λ k. length k.5 ≡ length k.3) same v.stamped;
      first_stamped = subst (λ k. is_some k.6 ≡ some_items k.3) same v.first_stamped;
      last_stamped = subst (λ k. is_some k.7 ≡ some_items k.3) same v.last_stamped;
      stalls = moved-Stalls next reason now r v.stalls;
      parked = λ p. elim (moved_parked next reason now r) [
        | inl e ↦ ap is_waiting (moved_state next reason now r ∙ e)
        | inr e ↦ absurd (false_of p (ap is_some e))
      ];
      ended = λ e.
          moved_ended next reason now r (ap is_terminal (sym (moved_state next reason now r)) ∙ e);
      rebuilt = λ d.
          moved_rebuilt next reason now r
            (ap is_decoding (sym (moved_state next reason now r)) ∙ d);
      prompted = λ d.
          subst (λ k. k.1 ≤ k.0) same
            (prompt_of_full r (full (ap is_decoding (sym (moved_state next reason now r)) ∙ d)));
    }

yielded-IsSound :
    (epoch now : ℕ) (r : GenerationRequest)
    → is_waiting r.state ≡ true
    → IsSound r
    → IsSound (yielded epoch now r)
unfolding yielded prefill_token_count
yielded-IsSound epoch now r parked v = record {
  prefill_within = ground arith;
  output_within = v.output_within;
  stamped = v.stamped;
  first_stamped = v.first_stamped;
  last_stamped = v.last_stamped;
  stalls = v.stalls;
  parked = λ p. parked;
  ended = λ e. refl;
  rebuilt = λ d. ground arith;
  prompted = λ d. ground arith;
}

pub perform-IsSound :
    (call : Call) (r : GenerationRequest) → IsSound r → IsSound (final (perform call r))
perform-IsSound (transition_to next reason now) r v =
    of_Updates IsSound r _ _ (transition-Updates next reason now r) v
      (λ g. moved-IsSound next reason now r g.1 v)
perform-IsSound (preempt_at reason epoch now) r v =
    of_Updates IsSound r _ _ (preempt-Updates reason epoch now r) v (λ g.
      yielded-IsSound epoch now _ (ap is_waiting (moved_state waiting reason now r))
        (moved-IsSound waiting reason now r (λ d. ground arith) v))
perform-IsSound complete r v =
    of_Updates IsSound r _ _ (complete_resumption-Updates r) v (λ g. resumed-IsSound r v)
perform-IsSound (advance count) r v =
    of_Updates IsSound r _ _ (advance_prefill-Updates count r) v
      (λ g. advanced-IsSound count r g.1.1 v)
perform-IsSound (append token now) r v =
    of_Updates IsSound r _ _ (append_token-Updates token now r) v
      (λ g. appended-IsSound token now r g.1 v)

-- Whatever calls are made on a sound request, and whether or not they raise, it stays sound: no
-- more is prefilled than the prefill needs, no more tokens are produced than asked for, each has
-- its time stamp, the stalls are part of the rebuilding and waiting times, only a waiting request
-- is parked, an ended one holds no allocation, and a decoding one is rebuilt and has its whole
-- prompt prefilled.
pub run-IsSound : (calls : List Call) (r : GenerationRequest) → IsSound r → IsSound (run calls r)
run-IsSound [] r v = v
run-IsSound (call ∷ calls) r v = run-IsSound calls _ (perform-IsSound call r v)
