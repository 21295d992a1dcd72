-- ===== src/Scheduler.antt =====
-- `FCFSScheduler` of engine/scheduler/scheduler.py, but for `admit_available` and `plan_prefill`, which
-- children of this module model. `C` is the type of prefix caches. A request is an object that the
-- scheduler shares with its caller: it is here as long as it waits or is active, and a method that lets it
-- go returns it. A method that reads `perf_counter_ns()` has the argument `now`.
pub mod Admission
pub mod Planning
pub mod Figures
pub mod Orderly
pub mod Queues
pub mod Upkeep
pub mod Submission
pub mod Lifecycle
pub mod Arrival
pub mod Finishing
pub mod Runs
mod Examples
use full_inference_engine.Base.{
  ℕ, suc, ◌+◌, ◌-◌, ◌*◌, Bool, true, false, not, ◌||◌, Option, none, some, List, [], ◌∷◌, ◌++◌,
  String, String_discrete, is_yes, ltb, leb, ◌==◌, if◌then◌else◌, length, is_some, Dict, lookup,
  insert, erase, Outcome, Action, ok, raise, value_error, key_error, raise_if, get, modify, pure,
  ◌>>◌, ◌>>=◌,
}
use full_inference_engine.Base.Order.{pair_lt}
use full_inference_engine.Cache.Paging
use full_inference_engine.Cache.Paging.{KvBlockManager}
use full_inference_engine.Runtime.States.{
  RequestState, waiting, prefilling, decoding, finished, cancelled, failed, rejected, is_waiting,
}
use full_inference_engine.Runtime.Requests.{GenerationRequest, transition}
use full_inference_engine.Runtime.Requests as Requests

pub record Scheduler (C : Type 0) : Type 0 where
  pub block_manager : KvBlockManager
  pub max_waiting_requests : Option ℕ
  pub prefix_cache : Option C
  pub reserved_blocks : ℕ
  pub waiting_queue : List GenerationRequest
  pub active : Dict String GenerationRequest
  pub prefill_order : List String
  pub rejected_count : ℕ
  pub admission_count : ℕ
  pub preemption_count : ℕ
  pub recomputed_tokens_total : ℕ
  pub recompute_ns_total : ℕ
  pub progress_epoch : ℕ

abbrev pub is_zero : Option ℕ → Bool
is_zero none = false
is_zero (some n) = n == 0

-- `len(xs) >= limit`, where there is a limit.
abbrev pub reached : Option ℕ → ℕ → Bool
reached none n = false
reached (some limit) n = leb limit n

-- `any(item.request_id == request_id for item in queue)`
pub is_queued : String → List GenerationRequest → Bool
is_queued id [] = false
is_queued id (r ∷ queue) = is_yes (String_discrete r.request_id id) || is_queued id queue

-- `deque.remove` of the first id that is equal, if there is one.
pub remove_id : String → List String → List String
remove_id id [] = []
remove_id id (x ∷ order) = if is_yes (String_discrete x id) then order else x ∷ remove_id id order

-- The first waiting request with this id, and the queue without it.
pub take_queued :
    String → List GenerationRequest → Option (GenerationRequest × List GenerationRequest)
take_queued id [] = none
take_queued id (r ∷ queue) =
    if is_yes (String_discrete r.request_id id)
    then some (r, queue)
    else elim (take_queued id queue) [ none ↦ none | some (found, rest) ↦ some (found, r ∷ rest) ]

-- The order of `(created_ns, request_id)`.
abbrev pub arrives_before : GenerationRequest → GenerationRequest → Bool
arrives_before r s = pair_lt r.created_ns r.request_id s.created_ns s.request_id

-- The loop of `max` over the requests behind the first one.
pub newest_of : GenerationRequest → Dict String GenerationRequest → GenerationRequest
newest_of best [] = best
newest_of best ((id, r) ∷ others) = newest_of (if arrives_before best r then r else best) others

-- `_requeue_in_arrival_order`
pub requeue_in_arrival_order : GenerationRequest → List GenerationRequest → List GenerationRequest
requeue_in_arrival_order r [] = r ∷ []
requeue_in_arrival_order r (queued ∷ queue) =
    if arrives_before r queued
    then r ∷ queued ∷ queue
    else queued ∷ requeue_in_arrival_order r queue

module _ {C : Type 0} where
  -- `none` is the `ValueError`.
  pub make : KvBlockManager → Option ℕ → Option C → ℕ → Option (Scheduler C)
  make manager max_waiting cache reserved =
      if is_zero max_waiting || not (ltb reserved manager.allocator.num_blocks)
      then none
      else some (record {
        block_manager = manager;
        max_waiting_requests = max_waiting;
        prefix_cache = cache;
        reserved_blocks = reserved;
        waiting_queue = [];
        active = [];
        prefill_order = [];
        rejected_count = 0;
        admission_count = 0;
        preemption_count = 0;
        recomputed_tokens_total = 0;
        recompute_ns_total = 0;
        progress_epoch = 0;
      })

  pub effective_capacity_tokens : Scheduler C → ℕ
  effective_capacity_tokens s =
      (s.block_manager.allocator.num_blocks - s.reserved_blocks) * s.block_manager.block_size_tokens

  -- A method of the manager.
  pub on_manager : {A : Type 0} → Action KvBlockManager A → Action (Scheduler C) A
  on_manager call s = elim (call s.block_manager) [
    | ok x m ↦ ok x (record s { block_manager = m })
    | raise e m ↦ raise e (record s { block_manager = m })
  ]

  -- A method of a request that the scheduler does not hold at that moment; the request is the result.
  pub on_request :
      Action GenerationRequest (Unit {0})
      → GenerationRequest
      → Action (Scheduler C) GenerationRequest
  on_request call r s = elim (call r) [ ok _ r' ↦ ok r' s | raise e r' ↦ raise e s ]

  -- `_advance_progress`
  pub advance_progress : GenerationRequest → Action (Scheduler C) GenerationRequest
  advance_progress r = do
    modify (λ s. record s {
      progress_epoch = suc s.progress_epoch;
      recomputed_tokens_total = s.recomputed_tokens_total + r.recomputed_token_count;
      recompute_ns_total = s.recompute_ns_total + r.recompute_ns;
    })
    pure (record r { held_pages_at_exit = true })

  pub submit : GenerationRequest → ℕ → Action (Scheduler C) (Bool × GenerationRequest)
  submit r now = do
    raise_if (not (is_waiting r.state)) value_error
    s ← get
    raise_if
        (is_some (lookup String_discrete r.request_id s.active)
          || is_queued r.request_id s.waiting_queue)
        value_error
    elim (reached s.max_waiting_requests (length s.waiting_queue)) [
      | true ↦ do
        r' ← on_request (transition rejected (some "QUEUE_FULL") now) r
        modify (λ s. record s { rejected_count = suc s.rejected_count })
        pure (false, r')
      | false ↦ do
        modify (λ s. record s { waiting_queue = s.waiting_queue ++ r ∷ [] })
        pure (true, r)
    ]

  -- The request stays active, changed in its place.
  pub mark_decoding : String → ℕ → Action (Scheduler C) GenerationRequest
  mark_decoding id now s = elim (lookup String_discrete id s.active) [
    | none ↦ raise key_error s
    | some r ↦ elim (transition decoding none now r) [
      | ok _ r' ↦ ok r' (record s { active = insert String_discrete id r' s.active })
      | raise e r' ↦ raise e (record s { active = insert String_discrete id r' s.active })
    ]
  ]

  -- What `finish`, `fail`, `preempt` and `cancel` begin with: `active.pop`, `_remove_prefill_order` and the
  -- manager's `release`.
  pub detach : String → Action (Scheduler C) GenerationRequest
  detach id s = elim (lookup String_discrete id s.active) [
    | none ↦ raise key_error s
    | some r ↦
        (do
          modify (λ s. record s { active = erase String_discrete id s.active })
          modify (λ s. record s { prefill_order = remove_id id s.prefill_order })
          _ ← on_manager (Paging.release id)
          pure r)
          s
  ]

  pub finish : String → Option String → ℕ → Action (Scheduler C) GenerationRequest
  finish id reason now = do
    r ← detach id
    r' ← on_request (transition finished reason now) r
    advance_progress r'

  pub fail : String → Option String → ℕ → Action (Scheduler C) GenerationRequest
  fail id reason now = do
    r ← detach id
    r' ← on_request (transition failed reason now) r
    advance_progress r'

  pub newest_active : Scheduler C → Option GenerationRequest
  newest_active s = elim s.active [ [] ↦ none | (id, r) ∷ others ↦ some (newest_of r others) ]

  pub preempt : String → Option String → ℕ → Action (Scheduler C) GenerationRequest
  preempt id reason now = do
    r ← detach id
    s ← get
    r' ← on_request (Requests.preempt reason s.progress_epoch now) r
    modify (λ s. record s { waiting_queue = requeue_in_arrival_order r' s.waiting_queue })
    modify (λ s. record s { preemption_count = suc s.preemption_count })
    pure r'

  pub cancel : String → Option String → ℕ → Action (Scheduler C) GenerationRequest
  cancel id reason now s = elim (take_queued id s.waiting_queue) [
    | some (r, queue) ↦
        on_request (transition cancelled reason now) r (record s { waiting_queue = queue })
    | none ↦
        (do r ← detach id; r' ← on_request (transition cancelled reason now) r; advance_progress r')
          s
  ]
