-- ===== src/Cache/Prefix/Evicting/Pinned.antt =====
-- Why an eviction of engine/cache/prefix.py finds nothing to evict: everything that it may evict is in use.
use full_inference_engine.Base.{
  ℕ, suc, ◌≡◌, refl, sym, subst, ◌≢◌, Bool, true, false, some, List, [], ◌∷◌, ◌++◌, map,
  if◌then◌else◌, ◌==◌, All, Dict, lookup, values, ℕ_discrete, Outcome, Action, ok, raise, Ensures,
  Ensures-bind, Ensures-weaken, pure, modify, for_each, ◌>>=◌, arith, Bool-cases, ◌⊎◌, inl, inr, ap,
  All-append_left,
}
use full_inference_engine.Cache.Blocks.{BlockAllocator, refcount, release, is_empty}
use full_inference_engine.Cache.Blocks.Valid.{references, refcount-references}
use full_inference_engine.Cache.Prefix.{
  PrefixNode, ExactEntry, Item, node_item, entry_item, Shared, tokens_dec, get_default, on_cache,
  on_blocks,
}
use full_inference_engine.Cache.Prefix.Evicting.{
  item_owner, unreference_one, forget, item_blocks, any_freeable, freeable, leaves, candidates,
  oldest_of, evict, evict_one,
}
use full_inference_engine.Cache.Prefix.Evicting.Sizes.{Any}

-- The references to the block are not just the cache's own.
abbrev pub IsPinned : Shared → ℕ → Type 0
IsPinned s b = references s.0.allocator b ≢ get_default b s.1.references

-- Every block of a node without children and of an exact entry is pinned.
abbrev pub AllPinned : Shared → Type 0
AllPinned s =
    ((id : ℕ) (n : PrefixNode)
      → lookup ℕ_discrete id s.1.nodes ≡ some n
      → n.children ≡ []
      → IsPinned s n.physical_block_id)
    × ((tokens : List ℕ) (e : ExactEntry)
        → lookup tokens_dec tokens s.1.exact ≡ some e
        → All (IsPinned s) e.physical_block_ids)

any_freeable-IsPinned :
    (bs : List ℕ) (s s' : Shared) → any_freeable bs s ≡ ok false s' → All (IsPinned s) bs
unfolding any_freeable
any_freeable-IsPinned [] s s' e = tt
any_freeable-IsPinned (b ∷ bs) s s' e =
    go (refcount b s.0.allocator) (refcount-references b s.0.allocator) e
      (any_freeable-IsPinned bs s s')
  where
    go :
        (o : Outcome BlockAllocator ℕ)
        → ((a' : BlockAllocator) (r : ℕ) → o ≡ ok r a' → references s.0.allocator b ≡ r)
        → (elim o as (λ _. Outcome Shared Bool) [
          | raise x a ↦ raise x s
          | ok r a ↦ elim (r == get_default b s.1.references) as (λ _. Outcome Shared Bool) [
            | true ↦ ok true s
            | false ↦ any_freeable bs s
          ]
        ])
          ≡ ok false s'
        → (any_freeable bs s ≡ ok false s' → All (IsPinned s) bs)
        → All (IsPinned s) (b ∷ bs)
    go (raise x a) count k rest = absurd (ground arith)
    go (ok r a) count k rest = elim (Bool-cases (r == get_default b s.1.references)) [
      | inl same ↦ absurd (ground arith)
      | inr other ↦ (λ p. ground (arith, count a r refl), rest (ground arith))
    ]

ItemPinned : Shared → Item → Type 0
ItemPinned s x = All (IsPinned s) (item_blocks x)

pub any_freeable_same :
    (bs : List ℕ) (s : Shared) → Ensures (λ _ s'. s' ≡ s) (λ s'. s' ≡ s) (any_freeable bs s)
unfolding any_freeable
any_freeable_same [] s = refl
any_freeable_same (b ∷ bs) s = ground (arith, any_freeable_same bs s)

any_freeable-Ensures :
    (bs : List ℕ) (s : Shared)
    → Ensures (λ free s'. (s' ≡ s) × (free ≡ false → All (IsPinned s) bs)) Any (any_freeable bs s)
any_freeable-Ensures bs s =
    go (any_freeable bs s) (any_freeable-IsPinned bs s) (any_freeable_same bs s)
  where
    go :
        (o : Outcome Shared Bool)
        → ((s' : Shared) → o ≡ ok false s' → All (IsPinned s) bs)
        → Ensures (λ _ s'. s' ≡ s) (λ s'. s' ≡ s) o
        → Ensures (λ free s'. (s' ≡ s) × (free ≡ false → All (IsPinned s) bs)) Any o
    go (ok free s') pinned same = (same, λ e. pinned s' (ap (λ (b : Bool). ok b s') e))
    go (raise e s') pinned same = tt

-- If nothing is kept, all are pinned.
abbrev NoneKept : Shared → List Item → List Item → Shared → Type 0
NoneKept s xs kept s' = (s' ≡ s) × (kept ≡ [] → All (ItemPinned s) xs)

freeable-NoneKept : (xs : List Item) (s : Shared) → Ensures (NoneKept s xs) Any (freeable xs s)
unfolding freeable ItemPinned
freeable-NoneKept [] s = (refl, λ _. tt)
freeable-NoneKept (x ∷ xs) s =
    Ensures-bind (λ free s'. (s' ≡ s) × (free ≡ false → All (IsPinned s) (item_blocks x))) Any
      (NoneKept s (x ∷ xs)) (any_freeable (item_blocks x)) _ s
      (any_freeable-Ensures (item_blocks x) s)
      (λ free s₁ a.
        Ensures-bind (NoneKept s xs) Any (NoneKept s (x ∷ xs)) (freeable xs) _ s₁
          (subst (λ u. Ensures (NoneKept s xs) Any (freeable xs u)) (sym a.0)
            (freeable-NoneKept xs s))
          (λ rest s₂ b. (b.0, both free rest a.1 b.1)))
  where
    both :
        (free : Bool) (rest : List Item)
        → (free ≡ false → All (IsPinned s) (item_blocks x))
        → (rest ≡ [] → All (ItemPinned s) xs)
        → (if free then x ∷ rest else rest) ≡ []
        → All (ItemPinned s) (x ∷ xs)
    both true rest h k e = absurd (ground arith)
    both false rest h k e = (h refl, k e)

-- An eviction that returns has evicted.
abbrev Evicted : Bool → Shared → Type 0
Evicted more s = more ≡ true

returns : {A : Type 0} (o : Outcome Shared A) → Ensures (λ _. Any) Any o
returns (ok a s) = tt
returns (raise e s) = tt

after :
    {A : Type 0} (call : Action Shared A) (f : A → Action Shared Bool) (s : Shared)
    → ((a : A) (s' : Shared) → Ensures Evicted Any (f a s'))
    → Ensures Evicted Any ((call >>= f) s)
after call f s h =
    Ensures-bind (λ _. Any) Any Evicted call f s (returns (call s)) (λ a s' _. h a s')

evict-Evicted : (x : Item) (s : Shared) → Ensures Evicted Any (evict x s)
unfolding evict
evict-Evicted x s = after (on_blocks (release (item_owner x))) _ s (λ _ s₁.
    after (on_cache (for_each (item_blocks x) unreference_one)) _ s₁ (λ _ s₂.
      after (on_cache (forget x)) _ s₂ (λ _ s₃.
        after (on_cache (modify (λ c. record c { evictions = suc c.evictions }))) _ s₃
          (λ _ s₄. refl))))

evict_one-Ensures :
    (s : Shared)
    → Ensures (λ more _. more ≡ false → All (ItemPinned s) (candidates s.1)) Any (evict_one true s)
unfolding evict_one
evict_one-Ensures s =
    Ensures-bind (NoneKept s (candidates s.1)) Any
      (λ more _. more ≡ false → All (ItemPinned s) (candidates s.1)) (freeable (candidates s.1)) _ s
      (freeable-NoneKept (candidates s.1) s) (λ items s' k. victim items s' k.1)
  where
    victim :
        (items : List Item) (s' : Shared)
        → (items ≡ [] → All (ItemPinned s) (candidates s.1))
        → Ensures
            (λ more _. more ≡ false → All (ItemPinned s) (candidates s.1))
            Any
            ((elim items as (λ _. Action Shared Bool) [
              | [] ↦ pure false
              | x ∷ xs ↦ evict (oldest_of x xs)
            ])
              s')
    victim [] s' pinned = λ e. pinned refl
    victim (x ∷ xs) s' pinned =
        Ensures-weaken Evicted (λ more _. more ≡ false → All (ItemPinned s) (candidates s.1)) Any
          Any (evict (oldest_of x xs) s') (evict-Evicted (oldest_of x xs) s')
          (λ more s'' e f. absurd (ground arith)) (λ s'' _. tt)

module _ (P : Item → Type 0) where
  leaves-All :
      (d : Dict ℕ PrefixNode) (id : ℕ) (n : PrefixNode)
      → All P (leaves d)
      → lookup ℕ_discrete id d ≡ some n
      → n.children ≡ []
      → P (node_item n)
  unfolding leaves lookup
  leaves-All [] id n h e k = absurd (ground arith)
  leaves-All ((j, x) ∷ d) id n h e k = elim (ℕ_discrete j id) [
    | yes p ↦ subst (λ y. P (node_item y)) {x = x} {y = n} (ground arith) (first (ground arith))
    | no p ↦ leaves-All d id n (rest (Bool-cases (is_empty x.children))) (ground arith) k
  ]
    where
      first : is_empty x.children ≡ true → P (node_item x)
      first f = (subst (λ (b : Bool). All P (if b then node_item x ∷ leaves d else leaves d)) f h).0

      rest : (is_empty x.children ≡ true) ⊎ (is_empty x.children ≡ false) → All P (leaves d)
      rest (inl f) =
          (subst (λ (b : Bool). All P (if b then node_item x ∷ leaves d else leaves d)) f h).1
      rest (inr f) =
          subst (λ (b : Bool). All P (if b then node_item x ∷ leaves d else leaves d)) f h

  entries-All :
      (d : Dict (List ℕ) ExactEntry) (tokens : List ℕ) (e : ExactEntry)
      → All P (map entry_item (values d))
      → lookup tokens_dec tokens d ≡ some e
      → P (entry_item e)
  unfolding lookup
  entries-All [] tokens e h q = absurd (ground arith)
  entries-All ((k, x) ∷ d) tokens e h q = elim (tokens_dec k tokens) [
    | yes p ↦ subst (λ y. P (entry_item y)) {x = x} {y = e} (ground arith) h.0
    | no p ↦ entries-All d tokens e h.1 (ground arith)
  ]

  All-append_right : (xs ys : List Item) → All P (xs ++ ys) → All P ys
  All-append_right [] ys h = h
  All-append_right (x ∷ xs) ys h = All-append_right xs ys h.1

-- Where nothing can be evicted, all that could be is in use.
pub evict_one-AllPinned : (s s' : Shared) → evict_one true s ≡ ok false s' → AllPinned s
unfolding ItemPinned
evict_one-AllPinned s s' e = (
  λ id n found leaf.
      (leaves-All (ItemPinned s) s.1.nodes id n
        (All-append_left (ItemPinned s) (leaves s.1.nodes) entries pinned) found leaf).0,
  λ tokens x found.
      entries-All (ItemPinned s) s.1.exact tokens x
        (All-append_right (ItemPinned s) (leaves s.1.nodes) entries pinned) found,
)
  where
    entries : List Item
    entries = map entry_item (values s.1.exact)

    pinned : All (ItemPinned s) (leaves s.1.nodes ++ entries)
    pinned =
        (subst (Ensures (λ more _. more ≡ false → All (ItemPinned s) (candidates s.1)) Any) e
            (evict_one-Ensures s))
          refl
