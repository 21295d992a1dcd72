-- ===== src/Cache/Paging.antt =====
-- engine/cache/paging.py (and the table of engine/cache/block_table.py): which physical blocks hold the
-- tokens of each request. Lengths and token indices are naturals.
pub mod Valid
pub mod Runs
pub mod Needed
pub mod Admission
pub mod Growth
pub mod Append
pub mod Locations
pub mod Tail
mod Examples
use full_inference_engine.Base.{
  ℕ, suc, ◌+◌, ◌-◌, ◌*◌, ◌/◌, ◌%◌, Bool, true, false, not, ◌&&◌, ◌||◌, Option, none, some, List, [],
  ◌∷◌, ◌++◌, String, String_discrete, ltb, leb, ◌==◌, if◌then◌else◌, length, get_elem?, set, sum,
  map, Dict, lookup, insert, erase, is_some, values, Action, ok, raise, value_error, key_error,
  index_error, pure, throw, ◌>>=◌, ◌>>◌, get, modify, raise_if, take, negsuc,
}
use full_inference_engine.Cache.Blocks
use full_inference_engine.Cache.Blocks.{BlockAllocator, request, is_empty}

pub record KvBlockAllocation : Type 0 where
  pub request_id : String
  pub block_size_tokens : ℕ
  pub physical_block_ids : List ℕ
  pub sequence_length : ℕ

pub capacity_tokens : KvBlockAllocation → ℕ
capacity_tokens t = length t.physical_block_ids * t.block_size_tokens

-- `none` is the `IndexError`, that of the guard or of the list.
pub physical_location : KvBlockAllocation → ℕ → Option (ℕ × ℕ)
physical_location t token_index =
    if ltb token_index (capacity_tokens t)
    then elim (get_elem? t.physical_block_ids (token_index / t.block_size_tokens)) [
      | none ↦ none
      | some block ↦ some (block, token_index % t.block_size_tokens)
    ]
    else none

pub record KvBlockManager : Type 0 where
  pub allocator : BlockAllocator
  pub block_size_tokens : ℕ
  pub requests : Dict String KvBlockAllocation

pub make : ℕ → ℕ → Option KvBlockManager
make num_blocks block_size_tokens = elim (Blocks.make num_blocks block_size_tokens) [
  | none ↦ none
  | some allocator ↦
      some (record { allocator = allocator; block_size_tokens = block_size_tokens; requests = [] })
]

-- A call of a method of `self.allocator`.
pub on_allocator : {A : Type 0} → Action BlockAllocator A → Action KvBlockManager A
on_allocator call m = elim (call m.allocator) [
  | ok x a ↦ ok x (record m { allocator = a })
  | raise e a ↦ raise e (record m { allocator = a })
]

pub blocks_needed : KvBlockManager → ℕ → ℕ
blocks_needed m tokens = (tokens + m.block_size_tokens - 1) / m.block_size_tokens

-- `self.requests[request_id] = KvBlockAllocation(...)`
pub record_allocation : String → List ℕ → ℕ → Action KvBlockManager KvBlockAllocation
record_allocation request_id block_ids sequence_length m =
    let allocation : KvBlockAllocation = record {
      request_id = request_id;
      block_size_tokens = m.block_size_tokens;
      physical_block_ids = block_ids;
      sequence_length = sequence_length;
    } in
    ok allocation (record m { requests = insert String_discrete request_id allocation m.requests })

pub reserve : String → ℕ → ℕ → Action KvBlockManager (Option KvBlockAllocation)
reserve request_id capacity sequence_length = do
  raise_if ((capacity == 0) || ltb capacity sequence_length) value_error
  m ← get
  raise_if (is_some (lookup String_discrete request_id m.requests)) value_error
  block_ids ← on_allocator (Blocks.allocate (request request_id) (blocks_needed m capacity))
  elim block_ids [
    | none ↦ pure none
    | some ids ↦ do
      allocation ← record_allocation request_id ids sequence_length
      pure (some allocation)
  ]

pub attach_prefix : String → List ℕ → ℕ → Action KvBlockManager KvBlockAllocation
attach_prefix request_id block_ids sequence_length = do
  m ← get
  raise_if (is_some (lookup String_discrete request_id m.requests)) value_error
  raise_if (is_empty block_ids || (sequence_length == 0)) value_error
  let capacity = length block_ids * m.block_size_tokens
  raise_if
      (not (ltb (capacity - m.block_size_tokens) sequence_length && leb sequence_length capacity))
      value_error
  _ ← on_allocator (Blocks.attach (request request_id) block_ids)
  record_allocation request_id block_ids sequence_length

-- `self.requests[request_id]`
pub find : String → Action KvBlockManager KvBlockAllocation
find request_id m = elim (lookup String_discrete request_id m.requests) [
  | none ↦ raise key_error m
  | some allocation ↦ ok allocation m
]

-- The allocation objects are shared by reference: a write to a field is seen through `requests`.
pub store : String → KvBlockAllocation → Action KvBlockManager (Unit {0})
store request_id allocation =
    modify (λ m. record m { requests = insert String_discrete request_id allocation m.requests })

-- `ids[-1] = block`; `none` is the `IndexError` of an empty list.
pub set_last : List ℕ → ℕ → Option (List ℕ)
set_last [] block = none
set_last (x ∷ []) block = some (block ∷ [])
set_last (x ∷ y ∷ xs) block = elim (set_last (y ∷ xs) block) [
  | none ↦ none
  | some rest ↦ some (x ∷ rest)
]

pub copy_on_write_tail : String → Action KvBlockManager (Option (ℕ × ℕ))
copy_on_write_tail request_id = do
  m ← get
  allocation ← find request_id
  raise_if ((allocation.sequence_length % m.block_size_tokens) == 0) value_error
  result ← on_allocator (Blocks.replace_shared (request request_id) (negsuc 0))
  elim result [
    | none ↦ pure none
    | some (old_block, new_block) ↦ elim (set_last allocation.physical_block_ids new_block) [
      | none ↦ throw index_error
      | some ids ↦ do
        store request_id (record allocation { physical_block_ids = ids })
        pure (some (old_block, new_block))
    ]
  ]

pub set_sequence_length : String → ℕ → Action KvBlockManager (Unit {0})
set_sequence_length request_id sequence_length = do
  allocation ← find request_id
  raise_if (ltb (capacity_tokens allocation) sequence_length) value_error
  store request_id (record allocation { sequence_length = sequence_length })

pub ensure_capacity : String → ℕ → Action KvBlockManager Bool
ensure_capacity request_id target_length = do
  m ← get
  allocation ← find request_id
  raise_if (ltb target_length allocation.sequence_length) value_error
  let extra_blocks = blocks_needed m target_length - length allocation.physical_block_ids
  if extra_blocks == 0 then pure true else do
    new_ids ← on_allocator (Blocks.extend (request request_id) extra_blocks)
    elim new_ids [
      | none ↦ pure false
      | some ids ↦ do
        store request_id
            (record allocation { physical_block_ids = allocation.physical_block_ids ++ ids })
        pure true
    ]

pub append_tokens : String → ℕ → Action KvBlockManager Bool
append_tokens request_id count = do
  raise_if (count == 0) value_error
  allocation ← find request_id
  let target_length = allocation.sequence_length + count
  fits ← ensure_capacity request_id target_length
  if not fits then pure false else do
    grown ← find request_id
    store request_id (record grown { sequence_length = target_length })
    pure true

pub release : String → Action KvBlockManager KvBlockAllocation
release request_id = do
  allocation ← find request_id
  modify (λ m. record m { requests = erase String_discrete request_id m.requests })
  _ ← on_allocator (Blocks.release (request request_id))
  pure allocation

pub record Snapshot : Type 0 where
  pub num_blocks : ℕ
  pub block_size_tokens : ℕ
  pub free_blocks : ℕ
  pub used_blocks : ℕ
  pub shared_blocks : ℕ
  pub block_references : ℕ
  pub active_requests : ℕ
  pub allocated_capacity_tokens : ℕ
  pub used_sequence_tokens : ℕ
  pub internal_fragmentation_tokens : ℕ

pub snapshot : KvBlockManager → Snapshot
snapshot m =
    let allocated = sum (map capacity_tokens (values m.requests)) in
    let used = sum (map (λ t. t.sequence_length) (values m.requests)) in
    record {
      num_blocks = m.allocator.num_blocks;
      block_size_tokens = m.block_size_tokens;
      free_blocks = Blocks.free_block_count m.allocator;
      used_blocks = Blocks.used_block_count m.allocator;
      shared_blocks = Blocks.shared_block_count m.allocator;
      block_references = Blocks.total_references m.allocator;
      active_requests = length m.requests;
      allocated_capacity_tokens = allocated;
      used_sequence_tokens = used;
      internal_fragmentation_tokens = allocated - used;
    }

-- `gather_paged_tokens` over a pool of pages of `block_size` entries each; `none` is an error: a page of
-- another size (`ValueError`), a length beyond the capacity, or a block that the pool does not have.
pub gather_pages {ℓ} : {A : Type ℓ} → List (List A) → List ℕ → Option (List A)
gather_pages pages [] = some []
gather_pages pages (b ∷ bs) = elim (get_elem? pages b) [
  | none ↦ none
  | some page ↦ elim (gather_pages pages bs) [ none ↦ none | some rest ↦ some (page ++ rest) ]
]

pub gather_paged_tokens {ℓ} :
    {A : Type ℓ} → ℕ → List (List A) → KvBlockAllocation → ℕ → Option (List A)
gather_paged_tokens page_tokens pages table sequence_length =
    if not (page_tokens == table.block_size_tokens)
      || not (leb sequence_length (capacity_tokens table))
    then none
    else elim (gather_pages pages table.physical_block_ids) [
      | none ↦ none
      | some tokens ↦ some (take sequence_length tokens)
    ]
