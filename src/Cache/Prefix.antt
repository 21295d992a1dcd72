-- ===== src/Cache/Prefix.antt =====
-- `PrefixCache` of engine/cache/prefix.py: a radix tree whose nodes own one complete block each, and exact
-- entries that own all blocks of a prompt. The cache calls the allocator of the manager that it shares with
-- the scheduler, so that a method that changes both has both as its state. An owner is given by its number.
pub mod Evicting
pub mod Publishing
pub mod Longest
pub mod Figures
mod Examples
use full_inference_engine.Base.{
  ℕ, zero, suc, ◌+◌, ◌-◌, ◌*◌, ◌/◌, Bool, true, false, not, ◌||◌, ◌&&◌, Option, none, some, List,
  [], ◌∷◌, ◌++◌, map, is_yes, ltb, leb, ◌==◌, if◌then◌else◌, length, take, drop, is_some, Dict,
  lookup, insert, erase, values, ℕ_discrete, Outcome, Action, ok, raise, throw, key_error,
  index_error, get, modify, pure, ◌>>◌, ◌>>=◌, for_each,
}
use full_inference_engine.Cache.Blocks.{
  Owner, cache_owner, exact_owner, BlockAllocator, attach, release, refcount, free_block_count,
  is_empty,
}
use full_inference_engine.Cache.Paging.{KvBlockManager, KvBlockAllocation, on_allocator}
use full_inference_engine.Cache.PrefixInterface.{PrefixMatch, PrefixOps}

pub record PrefixNode : Type 0 where
  pub node_id : ℕ
  pub parent_id : Option ℕ
  pub token_block : List ℕ
  pub physical_block_id : ℕ
  pub children : List ℕ
  pub last_access : ℕ

pub record ExactEntry : Type 0 where
  pub entry_id : ℕ
  pub token_ids : List ℕ
  pub physical_block_ids : List ℕ
  pub next_token_id : ℕ
  pub last_access : ℕ

-- What may be evicted.
pub data Item : Type 0 where
  node_item : PrefixNode → Item
  entry_item : ExactEntry → Item

abbrev pub Edge : Type 0
Edge = Option ℕ × List ℕ

pub edge_dec : Discrete Edge
edge_dec = hlevel ℕ_discrete

pub tokens_dec : Discrete (List ℕ)
tokens_dec = hlevel ℕ_discrete

pub record PrefixCache : Type 0 where
  pub max_blocks : ℕ
  pub nodes : Dict ℕ PrefixNode
  pub edges : Dict Edge ℕ
  pub exact : Dict (List ℕ) ExactEntry
  pub references : Dict ℕ ℕ
  pub next_node_id : ℕ
  pub next_entry_id : ℕ
  pub clock : ℕ
  pub lookups : ℕ
  pub hits : ℕ
  pub hit_tokens : ℕ
  pub evictions : ℕ

abbrev pub make : ℕ → PrefixCache
make max_blocks = record {
  max_blocks = max_blocks;
  nodes = [];
  edges = [];
  exact = [];
  references = [];
  next_node_id = 0;
  next_entry_id = 0;
  clock = 0;
  lookups = 0;
  hits = 0;
  hit_tokens = 0;
  evictions = 0;
}

abbrev pub Shared : Type 0
Shared = KvBlockManager × PrefixCache

pub on_cache : {A : Type 0} → Action PrefixCache A → Action Shared A
on_cache call (m, c) = elim (call c) [ ok x c' ↦ ok x (m, c') | raise e c' ↦ raise e (m, c') ]

pub on_blocks : {A : Type 0} → Action BlockAllocator A → Action Shared A
on_blocks call (m, c) = elim (on_allocator call m) [
  | ok x m' ↦ ok x (m', c)
  | raise e m' ↦ raise e (m', c)
]

-- `d[key]`
pub item_at : {K V : Type 0} → Discrete K → K → Dict K V → Action PrefixCache V
item_at dec key d c = elim (lookup dec key d) [ none ↦ raise key_error c | some v ↦ ok v c ]

-- `_touch` of a node, and of an entry.
pub touch_node : ℕ → PrefixNode → Action PrefixCache (Unit {0})
touch_node id node = modify (λ c. record c {
  clock = suc c.clock;
  nodes = insert ℕ_discrete id (record node { last_access = suc c.clock }) c.nodes;
})

pub touch_entry : List ℕ → ExactEntry → Action PrefixCache (Unit {0})
touch_entry key entry = modify (λ c. record c {
  clock = suc c.clock;
  exact = insert tokens_dec key (record entry { last_access = suc c.clock }) c.exact;
})

-- The loop of `lookup`, with `n` blocks to go.
pub walk : ℕ → ℕ → List ℕ → Option ℕ → Action PrefixCache (List ℕ)
walk size zero tokens parent c = ok [] c
walk size (suc n) tokens parent c = elim (lookup edge_dec (parent, take size tokens) c.edges) [
  | none ↦ ok [] c
  | some id ↦
      (do
        node ← item_at ℕ_discrete id c.nodes
        touch_node id node
        blocks ← walk size n (drop size tokens) (some id)
        pure (node.physical_block_id ∷ blocks))
        c
]

pub count_hit : ℕ → Action PrefixCache (Unit {0})
count_hit tokens = modify (λ c. record c { hits = suc c.hits; hit_tokens = c.hit_tokens + tokens })

-- `PrefixCache.lookup`
pub lookup_prefix : ℕ → List ℕ → Bool → Action PrefixCache PrefixMatch
lookup_prefix size tokens allow_exact = do
  modify (λ c. record c { lookups = suc c.lookups })
  c ← get
  elim (if allow_exact then lookup tokens_dec tokens c.exact else none) [
    | some entry ↦ do
      touch_entry tokens entry
      count_hit (length tokens)
      pure (record {
        physical_block_ids = entry.physical_block_ids;
        token_count = length tokens;
        next_token_id = some entry.next_token_id;
        exact = true;
      })
    | none ↦ do
      blocks ← walk size ((length tokens - 1) / size) tokens none
      let token_count = length blocks * size
      if token_count == 0 then pure tt else count_hit token_count
      pure (record {
        physical_block_ids = blocks;
        token_count = token_count;
        next_token_id = none;
        exact = false;
      })
  ]

abbrev pub get_default : ℕ → Dict ℕ ℕ → ℕ
get_default b d = elim (lookup ℕ_discrete b d) [ none ↦ 0 | some n ↦ n ]

-- `_reference`
pub reference : List ℕ → Dict ℕ ℕ → Dict ℕ ℕ
reference [] d = d
reference (b ∷ bs) d = reference bs (insert ℕ_discrete b (suc (get_default b d)) d)
