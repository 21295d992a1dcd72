-- ===== src/Cache/PrefixInterface.antt =====
-- What the scheduler asks of a prefix cache: `PrefixMatch`, `lookup` and `evict_until_free` of
-- engine/cache/prefix.py. The cache and the scheduler share the manager, so that `evict_until_free`
-- changes both.
use full_inference_engine.Base.{ℕ, Bool, Option, List, Action, final, ◌≡◌}
use full_inference_engine.Cache.Paging.{KvBlockManager}
use full_inference_engine.Cache.Paging.Valid.{IsConsistent}

pub record PrefixMatch : Type 0 where
  pub physical_block_ids : List ℕ
  pub token_count : ℕ
  pub next_token_id : Option ℕ
  pub exact : Bool

-- `lookup` gets the manager's `block_size_tokens`, all that it reads of the manager.
pub record PrefixOps (C : Type 0) : Type 0 where
  pub lookup_prefix : ℕ → List ℕ → Bool → Action C PrefixMatch
  pub evict_until_free : ℕ → Action (KvBlockManager × C) ℕ

-- What the scheduler relies on: an eviction, also one that raises half way, leaves a consistent manager
-- with the tables that it had.
pub record PrefixLaws {C : Type 0} (ops : PrefixOps C) : Type 0 where
  pub evict_consistent :
      (n : ℕ) (m : KvBlockManager) (c : C)
      → IsConsistent m
      → IsConsistent (final (ops.evict_until_free n (m, c))).0
  pub evict_requests :
      (n : ℕ) (m : KvBlockManager) (c : C)
      → IsConsistent m
      → (final (ops.evict_until_free n (m, c))).0.requests ≡ m.requests
