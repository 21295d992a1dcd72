-- ===== src/Cache/Prefix/Evicting/Sizes.antt =====
-- How the steps of an eviction of engine/cache/prefix.py change the number of items.
use full_inference_engine.Base.{
  ℕ, suc, ◌≡◌, refl, ◌∙◌, Option, none, some, List, [], ◌∷◌, length, Dict, lookup, insert, erase,
  length-erase, length-insert, ℕ_discrete, Outcome, Action, ok, raise, final, Ensures, Ensures-bind,
  modify, ◌>>=◌, for_each, arith, key_error,
}
use full_inference_engine.Cache.Prefix.{
  Edge, PrefixNode, ExactEntry, Item, node_item, entry_item, PrefixCache, item_at, tokens_dec,
}
use full_inference_engine.Cache.Prefix.Evicting.{
  unreference_one, forget_child, without, forget, cache_size, pop_node, pop_edge, pop_exact,
}

abbrev pub Any : {S : Type 0} → S → Type 0
Any s = Unit {0}

-- The cache has `n` items.
abbrev pub Sized : ℕ → PrefixCache → Type 0
Sized n c = cache_size c ≡ n

unreference_one_size :
    (b : ℕ) (c : PrefixCache) → cache_size (final (unreference_one b c)) ≡ cache_size c
unfolding unreference_one item_at
unreference_one_size b c = ground arith

pub unreference_size :
    (bs : List ℕ) (c : PrefixCache)
    → cache_size (final (for_each bs unreference_one c)) ≡ cache_size c
unfolding for_each
unreference_size [] c = refl
unreference_size (b ∷ bs) c =
    go (unreference_one b c) (unreference_one_size b c) (unreference_size bs)
  where
    go :
        (o : Outcome PrefixCache (Unit {0}))
        → cache_size (final o) ≡ cache_size c
        → ((c' : PrefixCache) → cache_size (final (for_each bs unreference_one c')) ≡ cache_size c')
        → cache_size
            (final (elim o [ ok _ c' ↦ for_each bs unreference_one c' | raise e c' ↦ raise e c' ]))
          ≡ cache_size c
    go (ok _ c') h rest = rest c' ∙ h
    go (raise e c') h rest = h

length-forget_child :
    (id : ℕ) (parent : Option ℕ) (d : Dict ℕ PrefixNode)
    → length (forget_child id parent d) ≡ length d
unfolding forget_child
length-forget_child id none d = refl
length-forget_child id (some p) d = go (lookup ℕ_discrete p d) refl
  where
    go :
        (o : Option PrefixNode)
        → lookup ℕ_discrete p d ≡ o
        → length (elim o [
          | none ↦ d
          | some parent ↦
              insert ℕ_discrete p (record parent { children = without id parent.children }) d
        ])
          ≡ length d
    go none e = refl
    go (some n) e = length-insert ℕ_discrete p n _ d e

-- What `item_at` comes to once the look-up is known.
abbrev item_of : {V : Type 0} → Option V → Action PrefixCache V
item_of o c = elim o [ none ↦ raise key_error c | some v ↦ ok v c ]

pub Sized-run :
    {A : Type 0} (n : ℕ) (o : Outcome PrefixCache A)
    → Sized n (final o)
    → Ensures (λ _. Sized n) Any o
Sized-run n (ok x c) h = h
Sized-run n (raise e c) h = tt

pop_edge-Sized :
    (edge : Edge) (n : ℕ) (c : PrefixCache)
    → Sized n c
    → Ensures (λ _. Sized n) Any (pop_edge edge c)
unfolding item_at
pop_edge-Sized edge n c h = ground arith

pop_node-Sized :
    (id n : ℕ) (c : PrefixCache)
    → Sized n c
    → Ensures (λ _ c'. suc (cache_size c') ≡ n) Any (pop_node id c)
unfolding item_at
pop_node-Sized id n c h = go (lookup ℕ_discrete id c.nodes) refl
  where
    go :
        (o : Option PrefixNode)
        → lookup ℕ_discrete id c.nodes ≡ o
        → Ensures
            (λ _ c'. suc (cache_size c') ≡ n)
            Any
            ((item_of o >>= λ _. modify (λ c. record c { nodes = erase ℕ_discrete id c.nodes })) c)
    go none e = tt
    go (some v) e = omega (arith, length-erase ℕ_discrete id v c.nodes e)

pop_exact-Sized :
    (key : List ℕ) (n : ℕ) (c : PrefixCache)
    → Sized n c
    → Ensures (λ _ c'. suc (cache_size c') ≡ n) Any (pop_exact key c)
unfolding item_at
pop_exact-Sized key n c h = go (lookup tokens_dec key c.exact) refl
  where
    go :
        (o : Option ExactEntry)
        → lookup tokens_dec key c.exact ≡ o
        → Ensures
            (λ _ c'. suc (cache_size c') ≡ n)
            Any
            ((item_of o >>= λ _. modify (λ c. record c { exact = erase tokens_dec key c.exact })) c)
    go none e = tt
    go (some v) e = omega (arith, length-erase tokens_dec key v c.exact e)

-- An item that the cache forgets was one of its items.
pub forget-Sized :
    (x : Item) (n : ℕ) (c : PrefixCache)
    → Sized n c
    → Ensures (λ _ c'. suc (cache_size c') ≡ n) Any (forget x c)
unfolding forget
forget-Sized (entry_item e) n c h = pop_exact-Sized e.token_ids n c h
forget-Sized (node_item m) n c h =
    Ensures-bind (λ _. Sized n) Any (λ _ c'. suc (cache_size c') ≡ n)
      (pop_edge (m.parent_id, m.token_block)) _ c
      (pop_edge-Sized (m.parent_id, m.token_block) n c h)
      (λ _ c' k.
        Ensures-bind (λ _ c'. suc (cache_size c') ≡ n) Any (λ _ c'. suc (cache_size c') ≡ n)
          (pop_node m.node_id) _ c' (pop_node-Sized m.node_id n c' k)
          (λ _ c'' l. omega (arith, length-forget_child m.node_id m.parent_id c''.nodes)))
