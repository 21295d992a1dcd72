-- ===== src/Cache/Prefix/Evicting.antt =====
-- What `PrefixCache` of engine/cache/prefix.py evicts, and when.
pub mod Sizes
pub mod Pinned
pub mod Laws
use full_inference_engine.Base.{
  ℕ, zero, suc, ◌+◌, ◌-◌, ◌*◌, ◌/◌, Bool, true, false, not, ◌||◌, ◌&&◌, Option, none, some, List,
  [], ◌∷◌, ◌++◌, map, is_yes, ltb, leb, ◌==◌, if◌then◌else◌, length, take, drop, is_some, Dict,
  lookup, insert, erase, values, ℕ_discrete, Outcome, Action, ok, raise, throw, key_error,
  index_error, get, modify, pure, ◌>>◌, ◌>>=◌, for_each,
}
use full_inference_engine.Cache.Blocks.{
  Owner, cache_owner, exact_owner, BlockAllocator, attach, release, refcount, free_block_count,
  is_empty,
}
use full_inference_engine.Cache.Paging.{KvBlockManager, KvBlockAllocation, on_allocator}
use full_inference_engine.Cache.PrefixInterface.{PrefixMatch, PrefixOps}
use full_inference_engine.Cache.Prefix.{
  Edge, edge_dec, tokens_dec, PrefixNode, ExactEntry, Item, node_item, entry_item, PrefixCache,
  Shared, on_cache, on_blocks, item_at, get_default, lookup_prefix,
}

-- A round of `_unreference`; the counts in the dict are positive.
pub unreference_one : ℕ → Action PrefixCache (Unit {0})
unreference_one b = do
  c ← get
  n ← item_at ℕ_discrete b c.references
  modify (λ c. record c {
    references =
        if (n - 1) == 0
        then erase ℕ_discrete b c.references
        else insert ℕ_discrete b (n - 1) c.references;
  })

abbrev pub item_owner : Item → Owner
item_owner (node_item n) = cache_owner n.node_id
item_owner (entry_item e) = exact_owner e.entry_id

-- `_entry_blocks`
abbrev pub item_blocks : Item → List ℕ
item_blocks (node_item n) = n.physical_block_id ∷ []
item_blocks (entry_item e) = e.physical_block_ids

abbrev pub item_access : Item → ℕ × ℕ
item_access (node_item n) = (n.last_access, n.node_id)
item_access (entry_item e) = (e.last_access, e.entry_id)

-- `_is_freeable`: the loop of `any` over the blocks.
pub any_freeable : List ℕ → Action Shared Bool
any_freeable [] s = ok false s
any_freeable (b ∷ bs) s = elim (refcount b s.0.allocator) [
  | raise e a ↦ raise e s
  | ok r a ↦ elim (r == get_default b s.1.references) [
    | true ↦ ok true s
    | false ↦ any_freeable bs s
  ]
]

pub freeable : List Item → Action Shared (List Item)
freeable [] = pure []
freeable (x ∷ xs) = do
  keep ← any_freeable (item_blocks x)
  rest ← freeable xs
  pure (if keep then x ∷ rest else rest)

pub leaves : Dict ℕ PrefixNode → List Item
leaves [] = []
leaves ((id, n) ∷ d) = if is_empty n.children then node_item n ∷ leaves d else leaves d

abbrev pub candidates : PrefixCache → List Item
candidates c = leaves c.nodes ++ map entry_item (values c.exact)

-- The order of `min` by `(last_access, id)`.
abbrev pub used_before : Item → Item → Bool
used_before x y =
    ltb (item_access x).0 (item_access y).0
    || (((item_access x).0 == (item_access y).0) && ltb (item_access x).1 (item_access y).1)

pub oldest_of : Item → List Item → Item
oldest_of x [] = x
oldest_of x (y ∷ ys) = oldest_of (if used_before y x then y else x) ys

-- `d.pop(key)`
abbrev pub pop_node : ℕ → Action PrefixCache (Unit {0})
pop_node id = do
  c ← get
  _ ← item_at ℕ_discrete id c.nodes
  modify (λ c. record c { nodes = erase ℕ_discrete id c.nodes })

abbrev pub pop_edge : Edge → Action PrefixCache (Unit {0})
pop_edge edge = do
  c ← get
  _ ← item_at edge_dec edge c.edges
  modify (λ c. record c { edges = erase edge_dec edge c.edges })

abbrev pub pop_exact : List ℕ → Action PrefixCache (Unit {0})
pop_exact key = do
  c ← get
  _ ← item_at tokens_dec key c.exact
  modify (λ c. record c { exact = erase tokens_dec key c.exact })

-- `children.discard(id)`
pub without : ℕ → List ℕ → List ℕ
without id [] = []
without id (x ∷ xs) = if x == id then without id xs else x ∷ without id xs

pub forget_child : ℕ → Option ℕ → Dict ℕ PrefixNode → Dict ℕ PrefixNode
forget_child id none d = d
forget_child id (some p) d = elim (lookup ℕ_discrete p d) [
  | none ↦ d
  | some parent ↦ insert ℕ_discrete p (record parent { children = without id parent.children }) d
]

pub forget : Item → Action PrefixCache (Unit {0})
forget (entry_item e) = pop_exact e.token_ids
forget (node_item n) = do
  pop_edge (n.parent_id, n.token_block)
  pop_node n.node_id
  modify (λ c. record c { nodes = forget_child n.node_id n.parent_id c.nodes })

-- `_evict_one` behind the choice of the victim.
pub evict : Item → Action Shared Bool
evict victim = do
  _ ← on_blocks (release (item_owner victim))
  on_cache (for_each (item_blocks victim) unreference_one)
  on_cache (forget victim)
  on_cache (modify (λ c. record c { evictions = suc c.evictions }))
  pure true

pub evict_one : Bool → Action Shared Bool
evict_one only_freeable = do
  s ← get
  items ← if only_freeable then freeable (candidates s.1) else pure (candidates s.1)
  elim items [ [] ↦ pure false | x ∷ xs ↦ evict (oldest_of x xs) ]

-- How many evictions there can be.
abbrev pub cache_size : PrefixCache → ℕ
cache_size c = length c.nodes + length c.exact

-- `while wanted and self._evict_one(...)`, for at most so many rounds.
pub evict_while : (Shared → Bool) → Bool → ℕ → Action Shared (Unit {0})
evict_while wanted only_freeable zero s = ok tt s
evict_while wanted only_freeable (suc rounds) s = elim (wanted s) [
  | false ↦ ok tt s
  | true ↦
      (do
        more ← evict_one only_freeable
        elim more [ true ↦ evict_while wanted only_freeable rounds | false ↦ pure tt ])
        s
]

-- An eviction takes no free block, so that the difference is not negative.
pub evict_until_free : ℕ → Action Shared ℕ
evict_until_free required = do
  s ← get
  evict_while (λ s. ltb (free_block_count s.0.allocator) required) true (cache_size s.1)
  s' ← get
  pure (free_block_count s'.0.allocator - free_block_count s.0.allocator)

pub clear : Action Shared (Unit {0})
clear = do s ← get; evict_while (λ s. true) false (cache_size s.1)

-- `_evict_to_limit`
pub evict_to_limit : Action Shared (Unit {0})
evict_to_limit = do
  s ← get
  evict_while (λ s. ltb s.1.max_blocks (length s.1.references)) false (cache_size s.1)

-- The cache as the scheduler uses it.
abbrev pub prefix_ops : PrefixOps PrefixCache
prefix_ops = record { lookup_prefix = lookup_prefix; evict_until_free = evict_until_free }
