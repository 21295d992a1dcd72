-- ===== src/Cache/Prefix/Longest.antt =====
-- What `lookup` of engine/cache/prefix.py finds: the longest path of complete blocks.
use full_inference_engine.Base.{
  ℕ, zero, suc, ◌+◌, ◌-◌, ◌*◌, ◌/◌, ◌≤◌, ◌≡◌, refl, ◌∙◌, ap, sym, subst, ◌⊎◌, inl, inr, Bool, true,
  false, Option, none, some, List, [], ◌∷◌, if◌then◌else◌, length, take, drop, is_some, Dict,
  lookup, insert, lookup-insert, ℕ_discrete, Outcome, ok, Ensures, Ensures-bind, pure, ◌>>=◌, arith,
  Option-cases, ◌==◌,
}
use native.Mathlib.Nat.{mul-le-mul_right, div-mul-le_self}
use full_inference_engine.Cache.PrefixInterface.{PrefixMatch}
use full_inference_engine.Cache.Prefix.{
  PrefixNode, ExactEntry, PrefixCache, Edge, edge_dec, tokens_dec, item_at, touch_node, touch_entry,
  walk, count_hit, lookup_prefix,
}

-- The block of a node, if there is such a node.
abbrev pub block_of : ℕ → Dict ℕ PrefixNode → Option ℕ
block_of id nodes = elim (lookup ℕ_discrete id nodes) [
  | none ↦ none
  | some n ↦ some n.physical_block_id
]

-- The blocks on the longest path from `parent` that the tokens spell, of at most `n` blocks.
pub longest : Dict Edge ℕ → (ℕ → Option ℕ) → ℕ → ℕ → List ℕ → Option ℕ → List ℕ
longest edges block size zero tokens parent = []
longest edges block size (suc n) tokens parent =
    elim (lookup edge_dec (parent, take size tokens) edges) [
      | none ↦ []
      | some id ↦ elim (block id) [
        | none ↦ []
        | some b ↦ b ∷ longest edges block size n (drop size tokens) (some id)
      ]
    ]

abbrev pub longest_path : PrefixCache → ℕ → ℕ → List ℕ → Option ℕ → List ℕ
longest_path c = longest c.edges (λ id. block_of id c.nodes)

-- Every edge leads to a node.
abbrev pub Rooted : PrefixCache → Type 0
Rooted c =
    (edge : Edge) (id : ℕ)
    → lookup edge_dec edge c.edges ≡ some id
    → is_some (block_of id c.nodes) ≡ true

-- The same edges, and the same nodes with the same blocks.
abbrev pub SameTree : PrefixCache → PrefixCache → Type 0
SameTree c c' = (c'.edges ≡ c.edges) × ((id : ℕ) → block_of id c'.nodes ≡ block_of id c.nodes)

longest_path_same :
    (c c' : PrefixCache) (size n : ℕ) (tokens : List ℕ) (parent : Option ℕ)
    → SameTree c c'
    → longest_path c' size n tokens parent ≡ longest_path c size n tokens parent
longest_path_same c c' size n tokens parent (edges, blocks) i =
    longest (edges i) (λ id. blocks id i) size n tokens parent

Rooted-SameTree : (c c' : PrefixCache) → SameTree c c' → Rooted c → Rooted c'
Rooted-SameTree c c' h r edge id e =
    ap is_some (h.1 id) ∙ r edge id (ap (lookup edge_dec edge) (sym h.0) ∙ e)

-- `touch` changes no edge and no block.
touched_SameTree :
    (id : ℕ) (node : PrefixNode) (n : ℕ) (c : PrefixCache)
    → lookup ℕ_discrete id c.nodes ≡ some node
    → SameTree c (record c {
      clock = n;
      nodes = insert ℕ_discrete id (record node { last_access = n }) c.nodes;
    })
touched_SameTree id node n c e = (
  refl,
  λ j. ground (arith, lookup-insert ℕ_discrete id j (record node { last_access = n }) c.nodes),
)

length-longest :
    (edges : Dict Edge ℕ) (block : ℕ → Option ℕ) (size n : ℕ) (tokens : List ℕ) (parent : Option ℕ)
    → length (longest edges block size n tokens parent) ≤ n
unfolding longest
length-longest edges block size zero tokens parent = omega arith
length-longest edges block size (suc n) tokens parent =
    go (lookup edge_dec (parent, take size tokens) edges)
      (length-longest edges block size n (drop size tokens))
  where
    go :
        (o : Option ℕ)
        → ((p : Option ℕ) → length (longest edges block size n (drop size tokens) p) ≤ n)
        → length (elim o as (λ _. List ℕ) [
          | none ↦ []
          | some id ↦ elim (block id) as (λ _. List ℕ) [
            | none ↦ []
            | some b ↦ b ∷ longest edges block size n (drop size tokens) (some id)
          ]
        ])
          ≤ suc n
    go none ih = omega arith
    go (some id) ih = ground (arith, ih (some id))

-- The loop finds this path, and with every edge leading to a node it does not raise.
abbrev Walks : PrefixCache → ℕ → ℕ → List ℕ → Option ℕ → Outcome PrefixCache (List ℕ) → Type 0
Walks c size n tokens parent =
    Ensures (λ blocks c'. (blocks ≡ longest_path c size n tokens parent) × SameTree c c') (λ _. ⊥)

abbrev touched : ℕ → PrefixNode → PrefixCache → PrefixCache
touched id node c = record c {
  clock = suc c.clock;
  nodes = insert ℕ_discrete id (record node { last_access = suc c.clock }) c.nodes;
}

module _ (size n : ℕ) (tokens : List ℕ) (parent : Option ℕ) (c : PrefixCache) where
  walk_end :
      lookup edge_dec (parent, take size tokens) c.edges ≡ none
      → (walk size (suc n) tokens parent c ≡ ok [] c)
        × (longest_path c size (suc n) tokens parent ≡ [])
  unfolding walk longest
  walk_end e = ground arith

  walk_on :
      (id : ℕ) (node : PrefixNode)
      → lookup edge_dec (parent, take size tokens) c.edges ≡ some id
      → lookup ℕ_discrete id c.nodes ≡ some node
      → (walk size (suc n) tokens parent c
          ≡ (walk size n (drop size tokens) (some id) >>= λ blocks.
                pure (node.physical_block_id ∷ blocks))
              (touched id node c))
        × (longest_path c size (suc n) tokens parent
            ≡ node.physical_block_id ∷ longest_path c size n (drop size tokens) (some id))
  unfolding walk longest item_at touch_node
  walk_on id node e k = ground arith

walk-Walks :
    (size n : ℕ) (tokens : List ℕ) (parent : Option ℕ) (c : PrefixCache)
    → Rooted c
    → Walks c size n tokens parent (walk size n tokens parent c)
unfolding walk longest
walk-Walks size zero tokens parent c r = (refl, (refl, λ id. refl))
walk-Walks size (suc n) tokens parent c r =
    elim (Option-cases (lookup edge_dec (parent, take size tokens) c.edges)) [
      | inl e ↦
          let step = walk_end size n tokens parent c e in
          subst (Walks c size (suc n) tokens parent) (sym step.0) (sym step.1, (refl, λ id. refl))
      | inr (id, e) ↦ elim (Option-cases (lookup ℕ_discrete id c.nodes)) [
        | inl k ↦ absurd (ground (arith, r (parent, take size tokens) id e))
        | inr (node, k) ↦
            let step = walk_on size n tokens parent c id node e k in
            let same = touched_SameTree id node (suc c.clock) c k in
            subst (Walks c size (suc n) tokens parent) (sym step.0) (
              Ensures-bind
                (λ blocks c'.
                  (blocks ≡ longest_path (touched id node c) size n (drop size tokens) (some id))
                  × SameTree (touched id node c) c')
                (λ _. ⊥)
                (λ blocks c'. (blocks ≡ longest_path c size (suc n) tokens parent) × SameTree c c')
                (walk size n (drop size tokens) (some id))
                (λ blocks. pure (node.physical_block_id ∷ blocks)) (touched id node c)
                (walk-Walks size n (drop size tokens) (some id) (touched id node c)
                  (Rooted-SameTree c (touched id node c) same r))
                (λ blocks c' h. (
                  ap (λ bs. node.physical_block_id ∷ bs)
                        (h.0
                          ∙ longest_path_same c (touched id node c) size n (drop size tokens)
                              (some id) same)
                      ∙ sym step.1,
                  (h.1.0 ∙ same.0, λ j. h.1.1 j ∙ same.1 j),
                )))
      ]
    ]

-- The exact entry of these tokens, where the caller allows one.
abbrev pub exact_of : PrefixCache → List ℕ → Bool → Option ExactEntry
exact_of c tokens allow_exact = if allow_exact then lookup tokens_dec tokens c.exact else none

-- What `lookup` returns: the exact entry; or the longest path, which leaves at least one token to compute.
abbrev pub Matches : PrefixCache → ℕ → List ℕ → Bool → PrefixMatch → Type 0
Matches c size tokens allow_exact m =
    ((entry : ExactEntry) × (exact_of c tokens allow_exact ≡ some entry)
      × (m ≡ record {
        physical_block_ids = entry.physical_block_ids;
        token_count = length tokens;
        next_token_id = some entry.next_token_id;
        exact = true;
      }))
    ⊎ ((exact_of c tokens allow_exact ≡ none)
        × (m.physical_block_ids ≡ longest_path c size ((length tokens - 1) / size) tokens none)
        × (m.token_count ≡ length m.physical_block_ids * size)
        × (m.token_count ≤ length tokens - 1)
        × (m.next_token_id ≡ none)
        × (m.exact ≡ false))

abbrev counted : PrefixCache → PrefixCache
counted c = record c { lookups = suc c.lookups }

abbrev hit : ℕ → PrefixCache → PrefixCache
hit n c = record c { hits = suc c.hits; hit_tokens = c.hit_tokens + n }

abbrev exact_match : ℕ → ExactEntry → PrefixMatch
exact_match n entry = record {
  physical_block_ids = entry.physical_block_ids;
  token_count = n;
  next_token_id = some entry.next_token_id;
  exact = true;
}

abbrev path_match : ℕ → List ℕ → PrefixMatch
path_match size blocks = record {
  physical_block_ids = blocks;
  token_count = length blocks * size;
  next_token_id = none;
  exact = false;
}

abbrev entry_touched : List ℕ → ExactEntry → PrefixCache → PrefixCache
entry_touched key entry c = record c {
  clock = suc c.clock;
  exact = insert tokens_dec key (record entry { last_access = suc c.clock }) c.exact;
}

module _ (size : ℕ) (tokens : List ℕ) (allow_exact : Bool) (c : PrefixCache) where
  lookup_exact :
      (entry : ExactEntry)
      → exact_of c tokens allow_exact ≡ some entry
      → lookup_prefix size tokens allow_exact c
        ≡ ok
            (exact_match (length tokens) entry)
            (hit (length tokens) (entry_touched tokens entry (counted c)))
  unfolding lookup_prefix touch_entry count_hit
  lookup_exact entry e = ground arith

  lookup_path :
      exact_of c tokens allow_exact ≡ none
      → lookup_prefix size tokens allow_exact c
        ≡ (walk size ((length tokens - 1) / size) tokens none >>= λ blocks s.
              ok
                (path_match size blocks)
                (if length blocks * size == 0 then s else hit (length blocks * size) s))
            (counted c)
  unfolding lookup_prefix count_hit
  lookup_path e = ground arith

  hit-SameTree :
      (b : Bool) (n : ℕ) (c' : PrefixCache)
      → SameTree c c'
      → SameTree c (if b then c' else hit n c')
  hit-SameTree true n c' h = h
  hit-SameTree false n c' h = h

  -- Where every edge leads to a node, lookup does not raise. It returns an exact entry if the caller allows
  -- one and there is one for these tokens; and otherwise the longest path of complete blocks that the tokens
  -- spell, as many tokens as these blocks have, which is less than all of them unless there are none. No
  -- edge and no node's block changes.
  pub lookup_prefix-Matches :
      Rooted c
      → Ensures
          (λ m c'. Matches c size tokens allow_exact m × SameTree c c')
          (λ _. ⊥)
          (lookup_prefix size tokens allow_exact c)
  lookup_prefix-Matches r = elim (Option-cases (exact_of c tokens allow_exact)) [
    | inr (entry, e) ↦
        subst (Ensures _ _) (sym (lookup_exact entry e)) (inl (entry, e, refl), (refl, λ id. refl))
    | inl e ↦ subst (Ensures _ _) (sym (lookup_path e)) (
        Ensures-bind
          (λ blocks c'.
            (blocks ≡ longest_path c size ((length tokens - 1) / size) tokens none) × SameTree c c')
          (λ _. ⊥) _ (walk size ((length tokens - 1) / size) tokens none) _ (counted c)
          (walk-Walks size ((length tokens - 1) / size) tokens none (counted c) r)
          (λ blocks c' h. (
            inr (e, h.0, refl, few blocks h.0, refl, refl),
            hit-SameTree (length blocks * size == 0) (length blocks * size) c' h.1,
          )))
  ]
    where
      few :
          (blocks : List ℕ)
          → blocks ≡ longest_path c size ((length tokens - 1) / size) tokens none
          → length blocks * size ≤ length tokens - 1
      few blocks h = omega (
        arith,
        mul-le-mul_right size (
            subst (λ bs. length bs ≤ (length tokens - 1) / size) (sym h)
              (length-longest c.edges (λ id. block_of id c.nodes) size ((length tokens - 1) / size)
                tokens none)),
        div-mul-le_self (length tokens - 1) size,
      )
