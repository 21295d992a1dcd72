-- ===== src/Cache/Prefix/Publishing.antt =====
-- `publish` of engine/cache/prefix.py.
use full_inference_engine.Base.{
  ℕ, zero, suc, ◌+◌, ◌-◌, ◌/◌, not, ◌&&◌, Option, none, some, List, [], ◌∷◌, ◌++◌, leb, ◌==◌,
  if◌then◌else◌, length, take, drop, is_some, lookup, insert, ℕ_discrete, Action, ok, raise,
  index_error, get, modify, pure, ◌>>◌, ◌>>=◌, count, min,
}
use full_inference_engine.Cache.Blocks.{cache_owner, exact_owner, attach}
use full_inference_engine.Cache.Paging.{KvBlockAllocation}
use full_inference_engine.Cache.Prefix.{
  edge_dec, tokens_dec, PrefixCache, Shared, on_cache, on_blocks, item_at, touch_node, touch_entry,
  reference,
}
use full_inference_engine.Cache.Prefix.Evicting.{evict_to_limit}

-- `children.add(id)`, if there is a parent.
pub add_child : ℕ → Option ℕ → Action PrefixCache (Unit {0})
add_child id none = pure tt
add_child id (some p) = do
  c ← get
  parent ← item_at ℕ_discrete p c.nodes
  let children =
      if count id parent.children == 0 then parent.children ++ id ∷ [] else parent.children
  modify (λ c. record c {
    nodes = insert ℕ_discrete p (record parent { children = children }) c.nodes;
  })

-- A new node for a block under `parent`; its number is returned.
pub publish_node : Option ℕ → List ℕ → ℕ → Action Shared ℕ
publish_node parent token_block physical_block = do
  s ← get
  let id = s.1.next_node_id
  on_cache (modify (λ c. record c { next_node_id = suc c.next_node_id }))
  _ ← on_blocks (attach (cache_owner id) (physical_block ∷ []))
  on_cache (modify (λ c. record c { references = reference (physical_block ∷ []) c.references }))
  on_cache (
      touch_node id (record {
        node_id = id;
        parent_id = parent;
        token_block = token_block;
        physical_block_id = physical_block;
        children = [];
        last_access = 0;
      }))
  on_cache (modify (λ c. record c { edges = insert edge_dec (parent, token_block) id c.edges }))
  on_cache (add_child id parent)
  pure id

-- The loop of `publish`, with `n` blocks to go; the result is how many were published.
pub publish_blocks : ℕ → ℕ → List ℕ → List ℕ → Option ℕ → Action Shared ℕ
publish_blocks size zero tokens blocks parent s = ok 0 s
publish_blocks size (suc n) tokens blocks parent s =
    elim (lookup edge_dec (parent, take size tokens) s.1.edges) [
      | some id ↦
          (do
            node ← on_cache (item_at ℕ_discrete id s.1.nodes)
            on_cache (touch_node id node)
            publish_blocks size n (drop size tokens) (drop 1 blocks) (some id))
            s
      | none ↦ elim blocks [
        | [] ↦ raise index_error s
        | b ∷ bs ↦
            (do
              id ← publish_node parent (take size tokens) b
              published ← publish_blocks size n (drop size tokens) bs (some id)
              pure (suc published))
              s
      ]
    ]

pub publish_exact : List ℕ → List ℕ → ℕ → Action Shared (Unit {0})
publish_exact tokens block_ids next_token_id = do
  s ← get
  let id = s.1.next_entry_id
  on_cache (modify (λ c. record c { next_entry_id = suc c.next_entry_id }))
  _ ← on_blocks (attach (exact_owner id) block_ids)
  on_cache (modify (λ c. record c { references = reference block_ids c.references }))
  on_cache (
      touch_entry tokens (record {
        entry_id = id;
        token_ids = tokens;
        physical_block_ids = block_ids;
        next_token_id = next_token_id;
        last_access = 0;
      }))

-- Whether `publish` adds an exact entry.
pub wants_exact : ℕ → List ℕ → Option ℕ → PrefixCache → Option ℕ
wants_exact prompt_blocks tokens none c = none
wants_exact prompt_blocks tokens (some next_token) c =
    if leb prompt_blocks c.max_blocks && not (is_some (lookup tokens_dec tokens c.exact))
    then some next_token
    else none

pub publish : List ℕ → KvBlockAllocation → Option ℕ → Action Shared ℕ
publish tokens allocation next_token_id = do
  s ← get
  if s.1.max_blocks == 0 then pure 0 else do
    let size = s.0.block_size_tokens
    let complete_blocks = min (length tokens / size) (length allocation.physical_block_ids)
    published ← publish_blocks size complete_blocks tokens allocation.physical_block_ids none
    s ← get
    let prompt_blocks = (length tokens + size - 1) / size
    elim (wants_exact prompt_blocks tokens next_token_id s.1) [
      | none ↦ pure tt
      | some next_token ↦
          publish_exact tokens (take prompt_blocks allocation.physical_block_ids) next_token
    ]
    evict_to_limit
    pure published
