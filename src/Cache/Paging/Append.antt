-- ===== src/Cache/Paging/Append.antt =====
-- `append_tokens` and `set_sequence_length` of `KVBlockManager`.
use full_inference_engine.Base.{
  ℕ, ◌+◌, ◌*◌, ◌≤◌, ◌<◌, ◌≡◌, refl, ◌∙◌, ap, sym, subst, ◌≢◌, Bool, true, false, none, some, List,
  [], ◌++◌, String, String_discrete, ltb, length, lookup, insert, ok, raise, ◌⊎◌, inl, inr, Outcome,
  value_error, key_error, lookup-insert_self, lookup-insert_ne, Bool-cases, Option-cases, arith,
  ltb→lt, length-append, ite,
}
use mathlib.Core.List.{append-nil}
use full_inference_engine.Cache.Blocks.{owner_dec, request}
use full_inference_engine.Cache.Blocks.Valid.{claimed}
use full_inference_engine.Cache.Paging.{
  KvBlockAllocation, KvBlockManager, capacity_tokens, blocks_needed, find, store,
  set_sequence_length, ensure_capacity, append_tokens,
}
use full_inference_engine.Cache.Paging.Valid.{
  IsConsistent, IsConsistent-insert, Agrees-some, find-lookup,
}
use full_inference_engine.Cache.Paging.Needed.{
  blocks_needed-covers, IsFewest, missing-IsFewest, missing_short,
}
use full_inference_engine.Cache.Paging.Admission.{with_table}
use full_inference_engine.Cache.Paging.Growth.{longer, Ensures, ensure_capacity-Ensures}

ite_intro : {P A : Type 0} (d : Dec P) {a b : A} → (P → b ≡ a) → b ≡ ite d a b
ite_intro (yes p) h = h p
ite_intro (no _) h = refl

abbrev pub stored : KvBlockManager → String → KvBlockAllocation → KvBlockManager
stored m id t = record m { requests = insert String_discrete id t m.requests }

-- A table of the same blocks with another length that fits keeps the manager consistent.
pub stored-IsConsistent :
    (m : KvBlockManager) (id : String) (t : KvBlockAllocation) (n : ℕ)
    → IsConsistent m
    → lookup String_discrete id m.requests ≡ some t
    → n ≤ length t.physical_block_ids * m.block_size_tokens
    → IsConsistent (stored m id (record t { sequence_length = n }))
stored-IsConsistent m id t n v known fits =
    let (held, tokens, _) = Agrees-some m id t v known in
    IsConsistent-insert m m.allocator id (record t { sequence_length = n }) v v.allocator_valid refl
      (λ o.
        ite_intro (owner_dec (request id) o)
          (λ here. ap (λ p. lookup owner_dec p m.allocator.allocations) (sym here) ∙ held))
      tokens fits

-- On a consistent manager `set_sequence_length` raises `KeyError` for an unknown id and `ValueError` for a
-- length beyond the request's capacity, without a trace; else it changes the length and nothing else, and
-- the manager stays consistent.
pub set_sequence_length-outcome :
    (m : KvBlockManager) (id : String) (n : ℕ)
    → IsConsistent m
    → ((lookup String_discrete id m.requests ≡ none)
        × (set_sequence_length id n m ≡ raise key_error m))
      ⊎ ((t : KvBlockAllocation) × (lookup String_discrete id m.requests ≡ some t)
          × (((capacity_tokens t < n) × (set_sequence_length id n m ≡ raise value_error m))
              ⊎ ((n ≤ capacity_tokens t)
                  × (set_sequence_length id n m
                      ≡ ok tt (stored m id (record t { sequence_length = n })))
                  × IsConsistent (stored m id (record t { sequence_length = n })))))
unfolding set_sequence_length find store
set_sequence_length-outcome m id n v = elim (Option-cases (lookup String_discrete id m.requests)) [
  | inl e ↦ inl (e, ground arith)
  | inr (t, e) ↦ inr (
    t,
    e,
    elim (Bool-cases (ltb (capacity_tokens t) n)) [
      | inl over ↦ inl (ltb→lt _ _ over, ground arith)
      | inr fits ↦ inr (
        ground arith,
        ground arith,
        stored-IsConsistent m id t n v e (
            subst (λ (b : ℕ). n ≤ length t.physical_block_ids * b) (Agrees-some m id t v e).1
              (unfold capacity_tokens in ground arith)),
      )
    ],
  )
]

abbrev pub appended : KvBlockAllocation → List ℕ → ℕ → KvBlockAllocation
appended t bs n = record (longer t bs) { sequence_length = t.sequence_length + n }

-- What `append_tokens` does for a request that it knows.
abbrev pub Appends :
    KvBlockManager → String → KvBlockAllocation → ℕ → Outcome KvBlockManager Bool → Type 0
Appends m id t n result =
    (((length t.physical_block_ids + length m.allocator.free_blocks) * m.block_size_tokens
        < t.sequence_length + n)
      × (result ≡ ok false m))
    ⊎ ((bs : List ℕ) × (m' : KvBlockManager) × IsFewest m (length t.physical_block_ids)
          (t.sequence_length + n) (length bs)
        × (result ≡ ok true m')
        × IsConsistent m'
        × (lookup String_discrete id m'.requests ≡ some (appended t bs n))
        × ((j : String)
            → id ≢ j
            → lookup String_discrete j m'.requests ≡ lookup String_discrete j m.requests))

module _ (m : KvBlockManager) (v : IsConsistent m) (id : String) (t : KvBlockAllocation) (n : ℕ)
    (known : lookup String_discrete id m.requests ≡ some t) where
  append_short :
      0 < n
      → ensure_capacity id (t.sequence_length + n) m ≡ ok false m
      → append_tokens id n m ≡ ok false m
  unfolding append_tokens
  append_short h e = ground (arith, find-lookup m id t known)

  append_fits :
      (m' : KvBlockManager) (t' : KvBlockAllocation)
      → 0 < n
      → ensure_capacity id (t.sequence_length + n) m ≡ ok true m'
      → lookup String_discrete id m'.requests ≡ some t'
      → append_tokens id n m
        ≡ ok true (stored m' id (record t' { sequence_length = t.sequence_length + n }))
  unfolding append_tokens store
  append_fits m' t' h e e' = ground (arith, find-lookup m id t known, find-lookup m' id t' e')

  appended-IsConsistent :
      (m' : KvBlockManager) (t' : KvBlockAllocation)
      → IsConsistent m'
      → lookup String_discrete id m'.requests ≡ some t'
      → m'.block_size_tokens ≡ m.block_size_tokens
      → blocks_needed m (t.sequence_length + n) ≤ length t'.physical_block_ids
      → IsConsistent (stored m' id (record t' { sequence_length = t.sequence_length + n }))
  appended-IsConsistent m' t' v' e same enough =
      stored-IsConsistent m' id t' (t.sequence_length + n) v' e (
        grind (
          arith,
          same,
          enough,
          blocks_needed-covers m (t.sequence_length + n),
          v.same_size,
          v.allocator_valid.some_tokens,
        ))

  others_same :
      (m' : KvBlockManager) (t' : KvBlockAllocation) (j : String)
      → id ≢ j
      → lookup String_discrete j m'.requests ≡ lookup String_discrete j m.requests
      → lookup String_discrete j (insert String_discrete id t' m'.requests)
        ≡ lookup String_discrete j m.requests
  others_same m' t' j other e = lookup-insert_ne String_discrete id j t' m'.requests other ∙ e

  -- For a known request and a positive count, `append_tokens` on a consistent manager either finds that
  -- its blocks and all free ones do not hold the new length, returns `False` and changes nothing, or returns
  -- `True`: the request is longer by the count, the blocks behind those that it had are the fewest with
  -- which they hold the new length, every other request's table is as
  -- it was, and the manager stays consistent.
  pub append_tokens-Appends : 0 < n → Appends m id t n (append_tokens id n m)
  append_tokens-Appends positive =
      cases (ensure_capacity-Ensures m v id t known (t.sequence_length + n) (omega arith))
    where
      held : ℕ
      held = length t.physical_block_ids

      target : ℕ
      target = t.sequence_length + n

      size_positive : 0 < m.block_size_tokens
      size_positive = grind (arith, v.same_size, v.allocator_valid.some_tokens)

      cases :
          Ensures m id t (t.sequence_length + n) (ensure_capacity id (t.sequence_length + n) m)
          → Appends m id t n (append_tokens id n m)
      cases (inr (inl (short, e))) = inl (
        missing_short m held target size_positive (length m.allocator.free_blocks) short,
        append_short positive e,
      )
      cases (inl (enough, e)) =
          let t' : KvBlockAllocation = record t { sequence_length = t.sequence_length + n } in
          let same : record t' { physical_block_ids = t.physical_block_ids ++ [] } ≡ t' =
            ap (λ l. record t' { physical_block_ids = l }) (append-nil t.physical_block_ids) in
          inr (
            [],
            stored m id t',
            missing-IsFewest m held target size_positive 0 (omega arith),
            append_fits m t positive e known,
            appended-IsConsistent m t v known refl (omega arith),
            lookup-insert_self String_discrete id t' m.requests ∙ ap some (sym same),
            λ j other. others_same m t' j other refl,
          )
      cases (inr (inr (bs, rest, missing, split, l, e, w))) =
          let m' : KvBlockManager =
            with_table m (claimed m.allocator (request id) t.physical_block_ids bs rest) id
              (longer t bs) in
          let found = lookup-insert_self String_discrete id (longer t bs) m.requests in
          inr (
            bs,
            stored m' id (appended t bs n),
            missing-IsFewest m held target size_positive (length bs) l,
            append_fits m' (longer t bs) positive e found,
            appended-IsConsistent m' (longer t bs) w found refl
                (omega (arith, length-append t.physical_block_ids bs)),
            lookup-insert_self String_discrete id (appended t bs n) m'.requests,
            λ j other.
                others_same m' (appended t bs n) j other
                  (lookup-insert_ne String_discrete id j (longer t bs) m.requests other),
          )
