-- ===== src/Cache/Prefix/Evicting/Laws.antt =====
-- What an eviction of engine/cache/prefix.py keeps, that it ends, and that the cache is one that the
-- scheduler can rely on.
use full_inference_engine.Base.{
  ℕ, zero, suc, ◌≤◌, ◌≡◌, refl, ◌∙◌, ap, sym, subst, ◌≢◌, ◌⊎◌, inl, inr, Bool, true, false, List,
  [], ◌∷◌, if◌then◌else◌, length, Dict, lookup-erase_ne, Outcome, Action, ok, raise, final, Ensures,
  Ensures-bind, Ensures-weaken, Ensures-final, modify, pure, ◌>>=◌, for_each, arith, String, ltb,
}
use full_inference_engine.Cache.Blocks.{
  owner_dec, request, BlockAllocator, release, free_block_count,
}
use full_inference_engine.Cache.Blocks.Sharing.{release-outcome, released}
use full_inference_engine.Cache.Paging.{KvBlockManager, KvBlockAllocation, on_allocator}
use full_inference_engine.Cache.Paging.Valid.{
  IsConsistent, IsConsistent-allocator, on_allocator-Ensures,
}
use full_inference_engine.Cache.PrefixInterface.{PrefixLaws}
use full_inference_engine.Cache.Prefix.{
  Item, node_item, entry_item, PrefixCache, Shared, on_cache, on_blocks,
}
use full_inference_engine.Cache.Prefix.Evicting.{
  unreference_one, item_owner, item_blocks, any_freeable, freeable, leaves, candidates, oldest_of,
  forget, evict, evict_one, cache_size, evict_while, evict_until_free, prefix_ops,
}
use full_inference_engine.Cache.Prefix.Evicting.Pinned.{
  any_freeable_same, AllPinned, evict_one-AllPinned,
}
use full_inference_engine.Cache.Prefix.Evicting.Sizes.{
  Any, Sized, Sized-run, unreference_size, forget-Sized,
}

module _ (tables : Dict String KvBlockAllocation) where
  -- The manager is consistent and has the tables that it had.
  abbrev pub Kept : Shared → Type 0
  Kept s = IsConsistent s.0 × (s.0.requests ≡ tables)

  on_cache-Kept :
      {A : Type 0} (call : Action PrefixCache A) (s : Shared) (Q : A → PrefixCache → Type 0)
      → Ensures Q Any (call s.1)
      → Kept s
      → Ensures (λ x s'. Kept s' × Q x s'.1) Kept (on_cache call s)
  unfolding on_cache
  on_cache-Kept {A} call (m, c) Q h v = go (call c) h
    where
      go :
          (o : Outcome PrefixCache A)
          → Ensures Q Any o
          → Ensures
              (λ x s'. Kept s' × Q x s'.1)
              Kept
              (elim o as (λ _. Outcome Shared A) [
                | ok x c' ↦ ok x (m, c')
                | raise e c' ↦ raise e (m, c')
              ])
      go (ok x c') k = (v, k)
      go (raise e c') k = v

  on_blocks-Kept :
      {A : Type 0} (call : Action BlockAllocator A) (s : Shared)
      → Ensures
          (λ _ a. Kept (record s.0 { allocator = a }, s.1))
          (λ a. Kept (record s.0 { allocator = a }, s.1))
          (call s.0.allocator)
      → Ensures (λ _ s'. Kept s' × (s'.1 ≡ s.1)) Kept (on_blocks call s)
  unfolding on_blocks
  on_blocks-Kept {A} call (m, c) h =
      go (on_allocator call m)
        (on_allocator-Ensures call m (λ _ m'. Kept (m', c)) (λ m'. Kept (m', c)) h)
    where
      go :
          (o : Outcome KvBlockManager A)
          → Ensures (λ _ m'. Kept (m', c)) (λ m'. Kept (m', c)) o
          → Ensures
              (λ _ s'. Kept s' × (s'.1 ≡ c))
              Kept
              (elim o as (λ _. Outcome Shared A) [
                | ok x m' ↦ ok x (m', c)
                | raise e m' ↦ raise e (m', c)
              ])
      go (ok x m') k = (k, refl)
      go (raise e m') k = k

  request_is_not_item : (x : Item) (id : String) → item_owner x ≢ request id
  request_is_not_item (node_item n) id e = absurd (ground arith)
  request_is_not_item (entry_item n) id e = absurd (ground arith)

  -- A release by the cache moves no request's blocks.
  release-Kept :
      (x : Item) (s : Shared)
      → Kept s
      → Ensures (λ _ s'. Kept s' × (s'.1 ≡ s.1)) Kept (on_blocks (release (item_owner x)) s)
  release-Kept x s v =
      on_blocks-Kept (release (item_owner x)) s
        (elim (release-outcome s.0.allocator (item_owner x) v.0.allocator_valid) [
          | inl (gone, e) ↦ subst (Ensures _ _) (sym e) v
          | inr (bs, held, e, w) ↦ subst (Ensures _ _) (sym e) (
            IsConsistent-allocator s.0 (released s.0.allocator (item_owner x) bs) v.0 w refl (λ id.
                lookup-erase_ne owner_dec (item_owner x) (request id) s.0.allocator.allocations
                  (request_is_not_item x id)),
            v.1,
          )
        ])

  -- Whether an eviction took place, and what is then left.
  abbrev Shrinks : Shared → Bool → Shared → Type 0
  Shrinks s true s' = Kept s' × (suc (cache_size s'.1) ≡ cache_size s.1)
  Shrinks s false s' = Kept s' × (s' ≡ s)

  evict-Shrinks : (x : Item) (s : Shared) → Kept s → Ensures (Shrinks s) Kept (evict x s)
  unfolding evict
  evict-Shrinks x s v =
      Ensures-bind (λ _ s'. Kept s' × (s'.1 ≡ s.1)) Kept (Shrinks s)
        (on_blocks (release (item_owner x))) _ s (release-Kept x s v)
        (λ _ s₁ a.
          Ensures-bind (λ _ s'. Kept s' × Sized (cache_size s.1) s'.1) Kept (Shrinks s)
            (on_cache (for_each (item_blocks x) unreference_one)) _ s₁
            (on_cache-Kept (for_each (item_blocks x) unreference_one) s₁
              (λ _. Sized (cache_size s.1))
              (Sized-run (cache_size s.1) (for_each (item_blocks x) unreference_one s₁.1)
                (unreference_size (item_blocks x) s₁.1 ∙ ap cache_size a.1))
              a.0)
            (λ _ s₂ b.
              Ensures-bind (λ _ s'. Kept s' × (suc (cache_size s'.1) ≡ cache_size s.1)) Kept
                (Shrinks s) (on_cache (forget x)) _ s₂
                (on_cache-Kept (forget x) s₂ (λ _ c'. suc (cache_size c') ≡ cache_size s.1)
                  (forget-Sized x (cache_size s.1) s₂.1 b.1) b.0)
                (λ _ s₃ d.
                  Ensures-bind (λ _ s'. Kept s' × (suc (cache_size s'.1) ≡ cache_size s.1)) Kept
                    (Shrinks s) (on_cache (modify (λ c. record c { evictions = suc c.evictions })))
                    _ s₃
                    (on_cache-Kept (modify (λ c. record c { evictions = suc c.evictions })) s₃
                      (λ _ c'. suc (cache_size c') ≡ cache_size s.1) d.1 d.0)
                    (λ _ s₄ e. e))))

  freeable_same :
      (xs : List Item) (s : Shared) → Ensures (λ _ s'. s' ≡ s) (λ s'. s' ≡ s) (freeable xs s)
  unfolding freeable
  freeable_same [] s = refl
  freeable_same (x ∷ xs) s =
      Ensures-bind (λ _ s'. s' ≡ s) (λ s'. s' ≡ s) (λ _ s'. s' ≡ s) (any_freeable (item_blocks x)) _
        s (any_freeable_same (item_blocks x) s)
        (λ keep s₁ e.
          Ensures-bind (λ _ s'. s' ≡ s) (λ s'. s' ≡ s) (λ _ s'. s' ≡ s) (freeable xs) _ s₁
            (subst (λ u. Ensures (λ _ s'. s' ≡ s) (λ s'. s' ≡ s) (freeable xs u)) (sym e)
              (freeable_same xs s))
            (λ rest s₂ k. k))

  chosen_same :
      (only : Bool) (s : Shared)
      → Ensures
          (λ _ s'. s' ≡ s)
          (λ s'. s' ≡ s)
          ((if only then freeable (candidates s.1) else pure (candidates s.1)) s)
  chosen_same true s = freeable_same (candidates s.1) s
  chosen_same false s = refl

  evict_one-Shrinks :
      (only : Bool) (s : Shared) → Kept s → Ensures (Shrinks s) Kept (evict_one only s)
  unfolding evict_one
  evict_one-Shrinks only s v =
      Ensures-bind (λ _ s'. s' ≡ s) Kept (Shrinks s)
        (if only then freeable (candidates s.1) else pure (candidates s.1)) _ s
        (Ensures-weaken (λ _ s'. s' ≡ s) (λ _ s'. s' ≡ s) (λ s'. s' ≡ s) Kept
          ((if only then freeable (candidates s.1) else pure (candidates s.1)) s)
          (chosen_same only s) (λ a s' k. k) (λ s' k. subst Kept {x = s} {y = s'} (sym k) v))
        (λ items s' e.
          subst
            (λ u. Ensures (Shrinks s) Kept (
              (elim items as (λ _. Action Shared Bool) [
                | [] ↦ pure false
                | x ∷ xs ↦ evict (oldest_of x xs)
              ])
                u))
            (sym e) (victim items))
    where
      victim :
          (items : List Item)
          → Ensures (Shrinks s) Kept (
              (elim items as (λ _. Action Shared Bool) [
                | [] ↦ pure false
                | x ∷ xs ↦ evict (oldest_of x xs)
              ])
                s)
      victim [] = (v, refl)
      victim (x ∷ xs) = evict-Shrinks (oldest_of x xs) s v

  nothing : {A : Type 0} (xs : List A) → length xs ≡ 0 → xs ≡ []
  nothing [] h = refl
  nothing (x ∷ xs) h = absurd (omega arith)

  no_candidates : (c : PrefixCache) → cache_size c ≡ 0 → candidates c ≡ []
  unfolding leaves
  no_candidates c h = rw (nothing c.nodes (omega arith), nothing c.exact (omega arith)) refl

  -- Without items nothing is evicted.
  evict_one_empty : (only : Bool) (s : Shared) → cache_size s.1 ≡ 0 → evict_one only s ≡ ok false s
  unfolding evict_one freeable
  evict_one_empty true s h = rw (no_candidates s.1 h) refl
  evict_one_empty false s h = rw (no_candidates s.1 h) refl

  -- The loop stopped because its condition fails or because there was nothing to evict.
  abbrev pub Stopped : (Shared → Bool) → Bool → Shared → Type 0
  Stopped wanted only s = (wanted s ≡ false) ⊎ (evict_one only s ≡ ok false s)

  -- What follows one eviction within the loop.
  Stopped-next :
      (wanted : Shared → Bool) (only : Bool) (rounds : ℕ) (s : Shared) (o : Outcome Shared Bool)
      → evict_one only s ≡ o
      → Ensures (Shrinks s) Kept o
      → cache_size s.1 ≤ suc rounds
      → ((s' : Shared)
          → Kept s'
          → cache_size s'.1 ≤ rounds
          → Ensures
              (λ _ s'. Kept s' × Stopped wanted only s')
              Kept
              (evict_while wanted only rounds s'))
      → Ensures
          (λ _ s'. Kept s' × Stopped wanted only s')
          Kept
          (elim o as (λ _. Outcome Shared (Unit {0})) [
            | ok more s' ↦
                (elim more as (λ _. Action Shared (Unit {0})) [
                  | true ↦ evict_while wanted only rounds
                  | false ↦ pure tt
                ])
                  s'
            | raise e s' ↦ raise e s'
          ])
  Stopped-next wanted only rounds s (ok true s') e k h rest = rest s' k.0 (omega (arith, k.1))
  Stopped-next wanted only rounds s (ok false s') e k h rest =
      (k.0, inr (subst (λ u. evict_one only u ≡ ok false s') (sym k.1) e))
  Stopped-next wanted only rounds s (raise x s') e k h rest = k

  evict_while-Stopped :
      (wanted : Shared → Bool) (only : Bool) (rounds : ℕ) (s : Shared)
      → Kept s
      → cache_size s.1 ≤ rounds
      → Ensures (λ _ s'. Kept s' × Stopped wanted only s') Kept (evict_while wanted only rounds s)
  unfolding evict_while
  evict_while-Stopped wanted only zero s v h = (v, inr (evict_one_empty only s (omega arith)))
  evict_while-Stopped wanted only (suc rounds) s v h = go (wanted s) refl (
      Stopped-next wanted only rounds s (evict_one only s) refl (evict_one-Shrinks only s v) h
        (evict_while-Stopped wanted only rounds))
    where
      go :
          (b : Bool)
          → wanted s ≡ b
          → Ensures
              (λ _ s'. Kept s' × Stopped wanted only s')
              Kept
              ((evict_one only >>= λ more. elim more as (λ _. Action Shared (Unit {0})) [
                | true ↦ evict_while wanted only rounds
                | false ↦ pure tt
              ])
                s)
          → Ensures
              (λ _ s'. Kept s' × Stopped wanted only s')
              Kept
              (elim b as (λ _. Outcome Shared (Unit {0})) [
                | false ↦ ok tt s
                | true ↦
                    (evict_one only >>= λ more. elim more as (λ _. Action Shared (Unit {0})) [
                      | true ↦ evict_while wanted only rounds
                      | false ↦ pure tt
                    ])
                      s
              ])
      go false e k = (v, inl e)
      go true e k = k

  pub evict_until_free-Stopped :
      (required : ℕ) (s : Shared)
      → Kept s
      → Ensures
          (λ _ s'. Kept s' × ((required ≤ free_block_count s'.0.allocator) ⊎ AllPinned s'))
          Kept
          (evict_until_free required s)
  unfolding evict_until_free
  evict_until_free-Stopped required s v =
      Ensures-bind (λ _ s'. Kept s' × Stopped wanted true s') Kept _
        (evict_while wanted true (cache_size s.1)) _ s
        (evict_while-Stopped wanted true (cache_size s.1) s v (omega arith))
        (λ _ s' k. (
          k.0,
          elim k.1 [
            | inl e ↦ inl (enough (free_block_count s'.0.allocator) e)
            | inr e ↦ inr (evict_one-AllPinned s' s' e)
          ],
        ))
    where
      wanted : Shared → Bool
      wanted u = ltb (free_block_count u.0.allocator) required

      enough : (n : ℕ) → ltb n required ≡ false → required ≤ n
      enough n e = ground arith

-- The scheduler can rely on this cache: an eviction, also one that raises, leaves a consistent manager that
-- has the tables that it had.
pub prefix_ops-PrefixLaws : PrefixLaws prefix_ops
prefix_ops-PrefixLaws = record {
  evict_consistent = λ n m c w. (kept n m c w).0;
  evict_requests = λ n m c w. (kept n m c w).1;
}
  where
    kept :
        (n : ℕ) (m : KvBlockManager) (c : PrefixCache)
        → IsConsistent m
        → Kept m.requests (final (evict_until_free n (m, c)))
    kept n m c w =
        Ensures-final (Kept m.requests) _ (evict_until_free n (m, c))
          (evict_until_free-Stopped m.requests n (m, c) (w, refl)) (λ a s h. h.0)
