-- ===== src/Runtime/Requests.antt =====
-- `GenerationRequest` of engine/runtime/request.py. `perf_counter_ns()` is the argument `now` of the
-- methods that read it. Times are naturals of nanoseconds; a latency, a float of milliseconds, is given
-- by its nanoseconds. The reference to the table of the manager, an object that both share, is the key
-- of that table in the manager.
pub mod Calls
pub mod Moves
pub mod Sound
pub mod Ended
pub mod Latency
mod Examples
use full_inference_engine.Base.{
  ℕ, suc, ◌+◌, ◌-◌, ◌*◌, Bool, true, false, not, ◌&&◌, ◌||◌, Option, none, some, List, [], ◌∷◌,
  ◌++◌, String, String_discrete, is_yes, ltb, leb, ◌==◌, if◌then◌else◌, length, is_some, Action,
  value_error, runtime_error, raise_if, get, modify, ◌>>◌, ◌>>=◌, lookup,
}
use full_inference_engine.Runtime.States.{
  RequestState, waiting, prefilling, decoding, finished, cancelled, failed, rejected,
  allowed_transition, is_waiting, is_prefilling, is_decoding, is_terminal,
}
use full_inference_engine.Runtime.Sampling.{SamplingParams, Float}
use full_inference_engine.Cache.Paging.{KvBlockManager}

pub record GenerationRequest : Type 0 where
  pub request_id : String
  pub prompt_token_count : ℕ
  pub max_new_tokens : ℕ
  pub state : RequestState
  pub created_ns : ℕ
  pub admitted_ns : Option ℕ
  pub prompt_token_ids : List ℕ
  pub allocation : Option String
  pub output_token_ids : List ℕ
  pub sampling : SamplingParams
  pub output_logprobs : List (List (ℕ × Float))
  pub next_token_id : Option ℕ
  pub finish_reason : Option String
  pub prefilled_token_count : ℕ
  pub first_token_ns : Option ℕ
  pub last_token_ns : Option ℕ
  pub token_timestamps_ns : List ℕ
  pub cached_prefix_tokens : ℕ
  pub cached_next_token_id : Option ℕ
  pub preempted_count : ℕ
  pub resuming : Bool
  pub recomputing : Bool
  pub preempted_at_epoch : ℕ
  pub recomputed_token_count : ℕ
  pub recompute_ns : ℕ
  pub preempted_wait_ns : ℕ
  pub preempted_ns : Option ℕ
  pub resume_started_ns : Option ℕ
  pub stalled_ns : ℕ
  pub held_pages_at_exit : Bool
  pub speculative_rounds : ℕ
  pub speculative_proposed_tokens : ℕ
  pub speculative_accepted_tokens : ℕ
  pub speculative_fallbacks : ℕ

-- `if xs`
abbrev pub some_items {ℓ} : {A : Type ℓ} → List A → Bool
some_items [] = false
some_items (x ∷ xs) = true

-- `xs[:-1]`
pub drop_last {ℓ} : {A : Type ℓ} → List A → List A
drop_last [] = []
drop_last (x ∷ xs) = if some_items xs then x ∷ drop_last xs else []

-- `__post_init__`
pub post_init : Action GenerationRequest (Unit {0})
post_init = do
  r ← get
  raise_if (is_yes (String_discrete r.request_id "")) value_error
  raise_if (r.prompt_token_count == 0) value_error
  raise_if (r.max_new_tokens == 0) value_error
  raise_if
      (some_items r.prompt_token_ids && not (length r.prompt_token_ids == r.prompt_token_count))
      value_error
  raise_if (not (leb r.prefilled_token_count r.prompt_token_count)) value_error
  raise_if (not (leb r.cached_prefix_tokens r.prefilled_token_count)) value_error

pub reserved_tokens : GenerationRequest → ℕ
reserved_tokens r = r.prompt_token_count + r.max_new_tokens

pub prefill_token_ids : GenerationRequest → List ℕ
prefill_token_ids r =
    if r.resuming && some_items r.output_token_ids
    then r.prompt_token_ids ++ drop_last r.output_token_ids
    else r.prompt_token_ids

pub prefill_token_count : GenerationRequest → ℕ
prefill_token_count r =
    if r.resuming && some_items r.output_token_ids
    then (r.prompt_token_count + length r.output_token_ids) - 1
    else r.prompt_token_count

-- Through the manager's table.
pub block_table : KvBlockManager → GenerationRequest → List ℕ
block_table m r = elim r.allocation [
  | none ↦ []
  | some id ↦ elim (lookup String_discrete id m.requests) [
    | none ↦ []
    | some t ↦ t.physical_block_ids
  ]
]

pub done : GenerationRequest → Bool
done r = is_terminal r.state

-- In a sound request the prefilled tokens are no more than the prefill needs, so that nothing is cut off.
pub remaining_prefill_tokens : GenerationRequest → ℕ
remaining_prefill_tokens r = prefill_token_count r - r.prefilled_token_count

-- The waiting time since the yield, on the way into PREFILLING.
pub close_preemption : ℕ → GenerationRequest → GenerationRequest
close_preemption now r = elim r.preempted_ns [
  | none ↦ r
  | some since ↦ record r {
    preempted_wait_ns = r.preempted_wait_ns + (now - since);
    stalled_ns = if is_some r.first_token_ns then r.stalled_ns + (now - since) else r.stalled_ns;
    preempted_ns = none;
    resume_started_ns = some now;
  }
]

pub enter_prefilling : ℕ → GenerationRequest → GenerationRequest
enter_prefilling now r =
    close_preemption now
      (record r { admitted_ns = elim r.admitted_ns [ none ↦ some now | some t ↦ some t ] })

-- The rebuilding time, on the way into DECODING.
pub close_recompute : ℕ → GenerationRequest → GenerationRequest
close_recompute now r = elim r.resume_started_ns [
  | none ↦ record r { recomputing = false }
  | some since ↦ record r {
    recomputing = false;
    recompute_ns = r.recompute_ns + (now - since);
    stalled_ns = if is_some r.first_token_ns then r.stalled_ns + (now - since) else r.stalled_ns;
    resume_started_ns = none;
  }
]

pub enter_decoding : ℕ → GenerationRequest → GenerationRequest
enter_decoding now r = if r.recomputing then close_recompute now r else r

-- The waiting time of a request that ends while it is parked.
pub close_wait : ℕ → GenerationRequest → GenerationRequest
close_wait now r = elim r.preempted_ns [
  | none ↦ r
  | some since ↦ record r {
    preempted_wait_ns = r.preempted_wait_ns + (now - since);
    preempted_ns = none;
  }
]

pub enter_terminal : Option String → GenerationRequest → GenerationRequest
enter_terminal reason r = record r { finish_reason = reason; allocation = none }

-- What `transition` does behind its guards: one `if` after the other.
pub moved : RequestState → Option String → ℕ → GenerationRequest → GenerationRequest
moved next reason now r =
    let stepped : GenerationRequest = record r { state = next } in
    let entered : GenerationRequest =
      if is_prefilling next then enter_prefilling now stepped else stepped in
    let rebuilt : GenerationRequest =
      if is_decoding next then enter_decoding now entered else entered in
    let closed : GenerationRequest = if is_waiting next then rebuilt else close_wait now rebuilt in
    if is_terminal next then enter_terminal reason closed else closed

pub transition : RequestState → Option String → ℕ → Action GenerationRequest (Unit {0})
transition next reason now = do
  r ← get
  raise_if (not (allowed_transition r.state next)) runtime_error
  raise_if (is_decoding next && not (r.prefilled_token_count == prefill_token_count r))
      runtime_error
  modify (moved next reason now)

pub yielded : ℕ → ℕ → GenerationRequest → GenerationRequest
yielded epoch now r = record r {
  allocation = none;
  prefilled_token_count = 0;
  cached_prefix_tokens = 0;
  cached_next_token_id = none;
  resuming = some_items r.output_token_ids;
  recomputing = true;
  preempted_count = suc r.preempted_count;
  preempted_at_epoch = epoch;
  preempted_ns = some now;
  resume_started_ns = none;
}

-- `now` is read twice: in `transition`, which does not use it on the way to WAITING, and for
-- `preempted_ns`.
pub preempt : Option String → ℕ → ℕ → Action GenerationRequest (Unit {0})
preempt reason epoch now = do
  r ← get
  raise_if (not (is_prefilling r.state || is_decoding r.state)) runtime_error
  transition waiting reason now
  modify (yielded epoch now)

pub resumed : GenerationRequest → GenerationRequest
resumed r = record r { resuming = false; prefilled_token_count = r.prompt_token_count }

pub complete_resumption : Action GenerationRequest (Unit {0})
complete_resumption = do
  r ← get
  raise_if (not (is_decoding r.state) || not r.resuming) runtime_error
  modify resumed

pub advanced : ℕ → GenerationRequest → GenerationRequest
advanced count r = record r {
  recomputed_token_count =
      if r.recomputing then r.recomputed_token_count + count else r.recomputed_token_count;
  prefilled_token_count = r.prefilled_token_count + count;
}

pub advance_prefill : ℕ → Action GenerationRequest (Unit {0})
advance_prefill count = do
  r ← get
  raise_if (not (is_prefilling r.state)) runtime_error
  raise_if ((count == 0) || ltb (remaining_prefill_tokens r) count) value_error
  modify (advanced count)

pub appended : ℕ → ℕ → GenerationRequest → GenerationRequest
appended token_id now r = record r {
  output_token_ids = r.output_token_ids ++ token_id ∷ [];
  first_token_ns = elim r.first_token_ns [ none ↦ some now | some t ↦ some t ];
  last_token_ns = some now;
  token_timestamps_ns = r.token_timestamps_ns ++ now ∷ [];
}

pub append_token : ℕ → ℕ → Action GenerationRequest (Unit {0})
append_token token_id now = do
  r ← get
  raise_if (not (is_decoding r.state)) runtime_error
  raise_if (leb r.max_new_tokens (length r.output_token_ids)) runtime_error
  modify (appended token_id now)
