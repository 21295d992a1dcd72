-- ===== src/Scheduler/Examples.antt =====
-- The theorems on the scheduler at a pool of four blocks of two tokens, without a prefix cache.
use full_inference_engine.Base.{
  ℕ, ◌+◌, ◌≡◌, refl, ◌≢◌, refute, ◌⊎◌, inl, inr, sym, subst, min, Bool, false, none, some, List, [],
  ◌∷◌, String, String_discrete, lookup, insert, All, arith, ok, Ensures,
}
use full_inference_engine.Base.Order.{text_lt}
use full_inference_engine.Cache.Paging.Runs.{paging, empty, empty-IsConsistent}
use full_inference_engine.Cache.PrefixInterface.{PrefixOps, PrefixLaws}
use full_inference_engine.Runtime.States.{waiting, prefilling, allowed_transition}
use full_inference_engine.Runtime.Sampling.{greedy_params}
use full_inference_engine.Runtime.Requests.{GenerationRequest, moved}
use full_inference_engine.Runtime.Requests.Calls.{transitions}
use full_inference_engine.Scheduler.{
  Scheduler, submit, finish, is_queued, on_manager, on_request, effective_capacity_tokens,
  newest_of, newest_active, requeue_in_arrival_order, arrives_before,
}
use full_inference_engine.Scheduler.Admission.{admit_available}
use full_inference_engine.Scheduler.Admission.Runs.{admission}
use full_inference_engine.Scheduler.Admission.Order.{Admits, admit_available-Admits}
use full_inference_engine.Scheduler.Planning.{plan_prefill}
use full_inference_engine.Scheduler.Planning.Allotment.{
  Plans, allot, in_order, Allowed, granted, demands, plan_prefill-Plans, plan_prefill-budget,
}
use full_inference_engine.Scheduler.Orderly.{IsOrderly}
use full_inference_engine.Scheduler.Submission.{Submits, submit-Submits}
use full_inference_engine.Scheduler.Arrival.{
  InArrivalOrder, requeue-InArrivalOrder, newest_active-oldest,
}
use full_inference_engine.Scheduler.Runs.{
  Call, submitting, admitting, run, made, made-IsOrderly, run-IsOrderly,
}
use full_inference_engine.Scheduler.Finishing.{Finishes, finish-Finishes}

-- A request for `prompt` tokens that arrives at `created`.
abbrev asked : String → ℕ → ℕ → GenerationRequest
asked id created prompt = record {
  request_id = id;
  prompt_token_count = prompt;
  max_new_tokens = 2;
  state = waiting;
  created_ns = created;
  admitted_ns = none;
  prompt_token_ids = [];
  allocation = none;
  output_token_ids = [];
  sampling = greedy_params;
  output_logprobs = [];
  next_token_id = none;
  finish_reason = none;
  prefilled_token_count = 0;
  first_token_ns = none;
  last_token_ns = none;
  token_timestamps_ns = [];
  cached_prefix_tokens = 0;
  cached_next_token_id = none;
  preempted_count = 0;
  resuming = false;
  recomputing = false;
  preempted_at_epoch = 0;
  recomputed_token_count = 0;
  recompute_ns = 0;
  preempted_wait_ns = 0;
  preempted_ns = none;
  resume_started_ns = none;
  stalled_ns = 0;
  held_pages_at_exit = false;
  speculative_rounds = 0;
  speculative_proposed_tokens = 0;
  speculative_accepted_tokens = 0;
  speculative_fallbacks = 0;
}

-- A prefix cache that never has anything.
abbrev no_cache : PrefixOps (Unit {0})
no_cache = record {
  lookup_prefix = λ size tokens exact.
      ok (record { physical_block_ids = []; token_count = 0; next_token_id = none; exact = false });
  evict_until_free = λ n state. ok 0 state;
}

no_cache_lawful : PrefixLaws no_cache
no_cache_lawful = record { evict_consistent = λ n m c w. w; evict_requests = λ n m c w. refl }

abbrev no_ids : String → Bool
no_ids id = false

abbrev start : Scheduler (Unit {0})
start = made empty none none 0

start-IsOrderly : IsOrderly no_ids start
start-IsOrderly =
    made-IsOrderly no_ids empty none none 0 empty-IsConsistent (λ id e. unfold lookup in refl)

abbrev two_calls : List Call
two_calls =
    submitting (asked "a" 1 3) 5 ∷ submitting (asked "b" 2 2) 6 ∷ admitting none (λ n. 10 + n) ∷ []

abbrev busy : Scheduler (Unit {0})
busy = run no_cache two_calls start

run-IsOrderly_example : IsOrderly no_ids busy
run-IsOrderly_example =
    run-IsOrderly no_ids no_cache no_cache_lawful two_calls start (refl, (refl, (tt, tt)))
      start-IsOrderly

busy-IsOrderly : IsOrderly no_ids busy
busy-IsOrderly =
    run-IsOrderly no_ids no_cache no_cache_lawful two_calls start (refl, (refl, (tt, tt)))
      start-IsOrderly

submit-Submits_example : Submits start (asked "a" 1 3) 5 (submit (asked "a" 1 3) 5 start)
submit-Submits_example = submit-Submits start (asked "a" 1 3) 5

admit_available-Admits_example :
    Ensures
      (Admits no_ids busy.waiting_queue)
      (IsOrderly no_ids)
      (admit_available no_cache (some 3) (λ n. n) busy)
admit_available-Admits_example =
    admit_available-Admits no_ids no_cache no_cache_lawful (some 3) (λ n. n) busy busy-IsOrderly

plan_prefill-Plans_example :
    Plans busy 2 3 busy.prefill_order busy.prefill_order (plan_prefill 2 3 busy)
plan_prefill-Plans_example = plan_prefill-Plans busy 2 3 (omega arith) (omega arith)

finish-Finishes_example : Finishes busy "a" (some "EOS") 30 (finish "a" (some "EOS") 30 busy)
finish-Finishes_example = finish-Finishes no_ids busy "a" (some "EOS") 30 busy-IsOrderly

requeue-InArrivalOrder_example :
    InArrivalOrder (requeue_in_arrival_order (asked "c" 1 1) (asked "a" 1 3 ∷ asked "b" 2 2 ∷ []))
requeue-InArrivalOrder_example =
    requeue-InArrivalOrder (asked "c" 1 1) (asked "a" 1 3 ∷ asked "b" 2 2 ∷ [])
      ((unfold text_lt in refl, tt), (tt, tt))

-- To unfold this is to unfold what `busy` runs.
unfoldable busy_run : Unit {0}
unfolding String_discrete paging admission transitions submit on_manager on_request
    effective_capacity_tokens newest_active newest_of lookup insert text_lt is_queued
    allowed_transition
busy_run = tt

busy_newest :
    newest_active busy
    ≡ some (moved prefilling none 10 (record (asked "b" 2 2) { allocation = some "b" }))
unfolding busy_run
busy_newest = refl

abbrev a_active : GenerationRequest
a_active = moved prefilling none 11 (record (asked "a" 1 3) { allocation = some "a" })

abbrev b_active : GenerationRequest
b_active = moved prefilling none 10 (record (asked "b" 2 2) { allocation = some "b" })

a_known : lookup String_discrete a_active.request_id busy.active ≡ some a_active
unfolding busy_run
a_known = refl

b_known : lookup String_discrete b_active.request_id busy.active ≡ some b_active
unfolding busy_run
b_known = refl

both_active : busy.active ≡ ("a", a_active) ∷ ("b", b_active) ∷ []
unfolding busy_run
both_active = refl

one_of_two :
    (id : String) (a b p : GenerationRequest)
    → lookup String_discrete id (("a", a) ∷ ("b", b) ∷ []) ≡ some p
    → (p ≡ a) ⊎ (p ≡ b)
unfolding lookup
one_of_two id a b p e = ground arith

a_is_not_b : a_active.request_id ≢ b_active.request_id
a_is_not_b =
    refute (String_discrete a_active.request_id b_active.request_id) (unfold busy_run in refl)

a_oldest :
    (id : String) (p : GenerationRequest)
    → lookup String_discrete id busy.active ≡ some p
    → arrives_before p a_active ≡ false
a_oldest id p e =
    elim (one_of_two id a_active b_active p
      (subst (λ d. lookup String_discrete id d ≡ some p) both_active e)) [
        | inl same ↦
            subst (λ q. arrives_before q a_active ≡ false) (sym same) (unfold busy_run in refl)
        | inr same ↦
            subst (λ q. arrives_before q a_active ≡ false) (sym same) (unfold busy_run in refl)
      ]

newest_active-oldest_example : b_active.request_id ≢ a_active.request_id
newest_active-oldest_example =
    newest_active-oldest no_ids busy b_active a_active b_active busy-IsOrderly busy_newest a_known
      b_known a_is_not_b a_oldest

plan_prefill-budget_example :
    All (Allowed 2) (allot busy.active 2 3 busy.prefill_order)
    × (granted (allot busy.active 2 3 busy.prefill_order)
        ≡ min 3 (demands busy.active 2 busy.prefill_order))
plan_prefill-budget_example =
    plan_prefill-budget busy
      (in_order busy (plan_prefill-Plans busy 2 3 (omega arith) (omega arith)).0) 2 3
      (allot busy.active 2 3 busy.prefill_order)
      (plan_prefill-Plans busy 2 3 (omega arith) (omega arith)).1
