-- ===== src/Cache/Paging/Examples.antt =====
-- The theorems on `KVBlockManager` at a small pool, and test runs of its methods.
use full_inference_engine.Base.{
  ℕ, suc, inl, inr, ◌≡◌, ◌≤◌, ◌<◌, refl, subst, some, none, [], ◌∷◌, ok, raise, arith, value_error,
  key_error, lookup, String_discrete, ◌⊎◌, true, false, length, get_elem?,
}
use full_inference_engine.Cache.Blocks.{request}
use full_inference_engine.Cache.Paging.{
  KvBlockAllocation, KvBlockManager, capacity_tokens, physical_location, make, reserve,
  attach_prefix, copy_on_write_tail, set_sequence_length, append_tokens, release,
  gather_paged_tokens,
}
use full_inference_engine.Cache.Paging.Valid.{IsConsistent}
use full_inference_engine.Cache.Paging.Admission.{
  Reserves, reserve-Reserves, may_attach_prefix, prefix_attached, table_of, attach_prefix-outcome,
  request_released, release-request,
}
use full_inference_engine.Cache.Paging.Append.{
  stored, Appends, append_tokens-Appends, set_sequence_length-outcome,
}
use full_inference_engine.Cache.Paging.Locations.{Locates, physical_location-appended}
use full_inference_engine.Cache.Paging.Runs.{paging, empty, empty-IsConsistent}
use full_inference_engine.Cache.Paging.Tail.{CopiesTail, copy_on_write_tail-CopiesTail}

abbrev table_a : KvBlockAllocation
table_a = record {
  request_id = "a";
  block_size_tokens = 2;
  physical_block_ids = 3 ∷ 2 ∷ [];
  sequence_length = 3;
}

-- Request "a" holds three tokens in blocks 3 and 2.
abbrev one_request : KvBlockManager
one_request = record {
  allocator = record {
    num_blocks = 4;
    block_size_tokens = 2;
    free_blocks = 0 ∷ 1 ∷ [];
    allocations = (request "a", 3 ∷ 2 ∷ []) ∷ [];
    refcounts = 0 ∷ 0 ∷ 1 ∷ 1 ∷ [];
  };
  block_size_tokens = 2;
  requests = ("a", table_a) ∷ [];
}

abbrev table_b : KvBlockAllocation
table_b = record table_a { request_id = "b" }

-- Request "b" has attached the blocks of "a".
abbrev two_requests : KvBlockManager
two_requests = record {
  allocator = record {
    num_blocks = 4;
    block_size_tokens = 2;
    free_blocks = 0 ∷ 1 ∷ [];
    allocations = (request "a", 3 ∷ 2 ∷ []) ∷ (request "b", 3 ∷ 2 ∷ []) ∷ [];
    refcounts = 0 ∷ 0 ∷ 2 ∷ 2 ∷ [];
  };
  block_size_tokens = 2;
  requests = ("a", table_a) ∷ ("b", table_b) ∷ [];
}

made : make 4 2 ≡ some empty
unfolding paging
made = refl

reserve_run : reserve "a" 3 3 empty ≡ ok (some table_a) one_request
unfolding paging
reserve_run = refl

attach_prefix_run : attach_prefix "b" (3 ∷ 2 ∷ []) 3 one_request ≡ ok table_b two_requests
unfolding paging
attach_prefix_run = refl

append_tokens_short : append_tokens "a" 6 one_request ≡ ok false one_request
unfolding paging
append_tokens_short = refl

gather_run :
    gather_paged_tokens {A = ℕ} 2
      ((0 ∷ 1 ∷ []) ∷ (2 ∷ 3 ∷ []) ∷ (4 ∷ 5 ∷ []) ∷ (6 ∷ 7 ∷ []) ∷ [])
      table_a
      3
    ≡ some (6 ∷ 7 ∷ 4 ∷ [])
unfolding paging
gather_run = refl

location_run : physical_location table_a 2 ≡ some (2, 0)
unfolding paging
location_run = refl

reserve-Reserves_example : Reserves empty "a" 3 3 (reserve "a" 3 3 empty)
reserve-Reserves_example = reserve-Reserves empty "a" 3 3 empty-IsConsistent

one_request-IsConsistent : IsConsistent one_request
one_request-IsConsistent = reserved (reserve-Reserves empty "a" 3 3 empty-IsConsistent)
  where
    reserved : Reserves empty "a" 3 3 (reserve "a" 3 3 empty) → IsConsistent one_request
    reserved (inl (_, e)) = absurd (ground (arith, reserve_run))
    reserved (inr (inl (_, _, e))) = absurd (ground (arith, reserve_run))
    reserved (inr (inr (_, bs, rest, _, _, e, w))) =
        subst IsConsistent (ground (arith, e, reserve_run)) w

attach_prefix-outcome_example :
    ((may_attach_prefix one_request "b" (3 ∷ 2 ∷ []) 3 ≡ false)
      × (attach_prefix "b" (3 ∷ 2 ∷ []) 3 one_request ≡ raise value_error one_request))
    ⊎ ((may_attach_prefix one_request "b" (3 ∷ 2 ∷ []) 3 ≡ true)
        × (attach_prefix "b" (3 ∷ 2 ∷ []) 3 one_request
            ≡ ok
                (table_of one_request "b" (3 ∷ 2 ∷ []) 3)
                (prefix_attached one_request "b" (3 ∷ 2 ∷ []) 3))
        × IsConsistent (prefix_attached one_request "b" (3 ∷ 2 ∷ []) 3))
attach_prefix-outcome_example =
    attach_prefix-outcome one_request "b" (3 ∷ 2 ∷ []) 3 one_request-IsConsistent

two_requests-IsConsistent : IsConsistent two_requests
two_requests-IsConsistent =
    attached (attach_prefix-outcome one_request "b" (3 ∷ 2 ∷ []) 3 one_request-IsConsistent)
  where
    attached :
        ((may_attach_prefix one_request "b" (3 ∷ 2 ∷ []) 3 ≡ false)
            × (attach_prefix "b" (3 ∷ 2 ∷ []) 3 one_request ≡ raise value_error one_request))
          ⊎ ((may_attach_prefix one_request "b" (3 ∷ 2 ∷ []) 3 ≡ true)
              × (attach_prefix "b" (3 ∷ 2 ∷ []) 3 one_request
                  ≡ ok
                      (table_of one_request "b" (3 ∷ 2 ∷ []) 3)
                      (prefix_attached one_request "b" (3 ∷ 2 ∷ []) 3))
              × IsConsistent (prefix_attached one_request "b" (3 ∷ 2 ∷ []) 3))
        → IsConsistent two_requests
    attached (inl (_, e)) = absurd (ground (arith, attach_prefix_run))
    attached (inr (_, e, w)) = subst IsConsistent (ground (arith, attach_prefix_run)) w

release-request_example :
    ((lookup String_discrete "a" one_request.requests ≡ none)
      × (release "a" one_request ≡ raise key_error one_request))
    ⊎ ((t : KvBlockAllocation) × (lookup String_discrete "a" one_request.requests ≡ some t)
        × (release "a" one_request ≡ ok t (request_released one_request "a" t.physical_block_ids))
        × IsConsistent (request_released one_request "a" t.physical_block_ids))
release-request_example = release-request one_request "a" one_request-IsConsistent

set_sequence_length-outcome_example :
    ((lookup String_discrete "a" one_request.requests ≡ none)
      × (set_sequence_length "a" 4 one_request ≡ raise key_error one_request))
    ⊎ ((t : KvBlockAllocation) × (lookup String_discrete "a" one_request.requests ≡ some t)
        × (((capacity_tokens t < 4)
              × (set_sequence_length "a" 4 one_request ≡ raise value_error one_request))
            ⊎ ((4 ≤ capacity_tokens t)
                × (set_sequence_length "a" 4 one_request
                    ≡ ok tt (stored one_request "a" (record t { sequence_length = 4 })))
                × IsConsistent (stored one_request "a" (record t { sequence_length = 4 })))))
set_sequence_length-outcome_example =
    set_sequence_length-outcome one_request "a" 4 one_request-IsConsistent

append_tokens-Appends_example : Appends one_request "a" table_a 2 (append_tokens "a" 2 one_request)
unfolding paging
append_tokens-Appends_example =
    append_tokens-Appends one_request one_request-IsConsistent "a" table_a 2 refl (omega arith)

abbrev grown : KvBlockManager
grown = record {
  allocator = record {
    num_blocks = 4;
    block_size_tokens = 2;
    free_blocks = 0 ∷ [];
    allocations = (request "a", 3 ∷ 2 ∷ 1 ∷ []) ∷ [];
    refcounts = 0 ∷ 1 ∷ 1 ∷ 1 ∷ [];
  };
  block_size_tokens = 2;
  requests =
      ("a", record table_a { physical_block_ids = 3 ∷ 2 ∷ 1 ∷ []; sequence_length = 5 }) ∷ [];
}

append_tokens_run : append_tokens "a" 2 one_request ≡ ok true grown
unfolding paging
append_tokens_run = refl

physical_location-appended_example :
    (t' : KvBlockAllocation) × (lookup String_discrete "a" grown.requests ≡ some t')
    × Locates one_request table_a t' 2
unfolding paging
physical_location-appended_example =
    physical_location-appended one_request one_request-IsConsistent "a" table_a 2 refl (omega arith)
      grown append_tokens_run

copy_on_write_tail-CopiesTail_example :
    (i : ℕ) × (old : ℕ) × (length table_b.physical_block_ids ≡ suc i)
    × (get_elem? table_b.physical_block_ids i ≡ some old)
    × CopiesTail two_requests "b" table_b i old (copy_on_write_tail "b" two_requests)
unfolding paging
copy_on_write_tail-CopiesTail_example =
    copy_on_write_tail-CopiesTail two_requests two_requests-IsConsistent "b" table_b refl
      (omega arith)
