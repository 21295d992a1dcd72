-- ===== src/Cache/Prefix/Examples.antt =====
-- The theorems on the prefix cache at a cache with the first block of a prompt.
use full_inference_engine.Base.{arith, none, [], ◌∷◌, true, Ensures, lookup}
use full_inference_engine.Cache.Blocks.{cache_owner}
use full_inference_engine.Cache.Paging.{KvBlockManager}
use full_inference_engine.Cache.Paging.Runs.{empty}
use full_inference_engine.Cache.Prefix.{PrefixCache, lookup_prefix}
use full_inference_engine.Cache.Prefix.Longest.{Rooted, SameTree, Matches, lookup_prefix-Matches}

-- The tokens 7 and 8 stand in block 3.
abbrev one_node : PrefixCache
one_node = record {
  max_blocks = 2;
  nodes =
      (
        0,
        record {
          node_id = 0;
          parent_id = none;
          token_block = 7 ∷ 8 ∷ [];
          physical_block_id = 3;
          children = [];
          last_access = 1;
        },
      )
      ∷ [];
  edges = ((none, 7 ∷ 8 ∷ []), 0) ∷ [];
  exact = [];
  references = (3, 1) ∷ [];
  next_node_id = 1;
  next_entry_id = 0;
  clock = 1;
  lookups = 0;
  hits = 0;
  hit_tokens = 0;
  evictions = 0;
}

one_node-Rooted : Rooted one_node
unfolding lookup
one_node-Rooted edge id e = ground arith

lookup_prefix-Matches_example :
    Ensures
      (λ m c'. Matches one_node 2 (7 ∷ 8 ∷ 9 ∷ []) true m × SameTree one_node c')
      (λ _. ⊥)
      (lookup_prefix 2 (7 ∷ 8 ∷ 9 ∷ []) true one_node)
lookup_prefix-Matches_example =
    lookup_prefix-Matches 2 (7 ∷ 8 ∷ 9 ∷ []) true one_node one_node-Rooted

-- The pool after the cache has got a block for its node.
abbrev with_node : KvBlockManager
with_node = record empty {
  allocator = record empty.allocator {
    free_blocks = 0 ∷ 1 ∷ 2 ∷ [];
    allocations = (cache_owner 0, 3 ∷ []) ∷ [];
    refcounts = 0 ∷ 0 ∷ 0 ∷ 1 ∷ [];
  };
}
