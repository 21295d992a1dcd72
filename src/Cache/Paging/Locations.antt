-- ===== src/Cache/Paging/Locations.antt =====
-- Where `append_tokens` of engine/cache/paging.py leaves the tokens of a request, as `physical_location` tells.
use full_inference_engine.Base.{
  ℕ, ◌+◌, ◌*◌, ◌/◌, ◌%◌, ◌≤◌, ◌<◌, ◌≡◌, refl, sym, subst, true, some, List, ◌++◌, String,
  String_discrete, length, lookup, ok, inl, inr, arith, get_elem?, get_elem?-append_left,
  length-append, get_elem?-get_or, get_or,
}
use full_inference_engine.Cache.Paging.{
  KvBlockAllocation, KvBlockManager, capacity_tokens, physical_location, append_tokens,
}
use full_inference_engine.Cache.Paging.Valid.{IsConsistent, Agrees-some}
use full_inference_engine.Cache.Paging.Append.{appended, Appends, append_tokens-Appends}

block_below :
    (t : KvBlockAllocation) (i : ℕ)
    → i < capacity_tokens t
    → i / t.block_size_tokens < length t.physical_block_ids
unfolding capacity_tokens
block_below t i h = grind arith

-- Below the capacity `physical_location` is defined.
physical_location-total :
    (t : KvBlockAllocation) (i : ℕ)
    → i < capacity_tokens t
    → physical_location t i
      ≡ some (get_or t.physical_block_ids (i / t.block_size_tokens) 0, i % t.block_size_tokens)
unfolding physical_location capacity_tokens
physical_location-total t i h =
    ground
      (arith, get_elem?-get_or t.physical_block_ids (i / t.block_size_tokens) 0 (block_below t i h))

more_room :
    (t : KvBlockAllocation) (bs : List ℕ) (i : ℕ)
    → i < capacity_tokens t
    → i < length (t.physical_block_ids ++ bs) * t.block_size_tokens
unfolding capacity_tokens
more_room t bs i h = grind (arith, length-append t.physical_block_ids bs)

location_kept :
    (t : KvBlockAllocation) (bs : List ℕ) (n i : ℕ)
    → i < capacity_tokens t
    → physical_location (appended t bs n) i ≡ physical_location t i
unfolding physical_location capacity_tokens
location_kept t bs n i h = ground (
  arith,
  more_room t bs i h,
  get_elem?-append_left t.physical_block_ids bs (i / t.block_size_tokens) (block_below t i h),
)

-- Where the tokens of a request are, with the table `t'` in place of `t`.
abbrev pub Locates : KvBlockManager → KvBlockAllocation → KvBlockAllocation → ℕ → Type 0
Locates m t t' n =
    (t'.sequence_length ≡ t.sequence_length + n)
    × ((i : ℕ) → i < capacity_tokens t → physical_location t' i ≡ physical_location t i)
    × ((i : ℕ)
        → i < t.sequence_length + n
        → (b : ℕ) × (get_elem? t'.physical_block_ids (i / m.block_size_tokens) ≡ some b)
          × (physical_location t' i ≡ some (b, i % m.block_size_tokens)))

module _ (m : KvBlockManager) (v : IsConsistent m) (id : String) (t : KvBlockAllocation) (n : ℕ)
    (known : lookup String_discrete id m.requests ≡ some t) where
  appended-Locates :
      (bs : List ℕ)
      → t.sequence_length + n ≤ (length t.physical_block_ids + length bs) * m.block_size_tokens
      → Locates m t (appended t bs n) n
  unfolding capacity_tokens
  appended-Locates bs enough = (
    refl,
    location_kept t bs n,
    λ i h. (
      get_or ids (i / m.block_size_tokens) 0,
      get_elem?-get_or ids (i / m.block_size_tokens) 0
          (subst (λ (b : ℕ). i / b < length ids) same (block_below (appended t bs n) i (room i h))),
      subst (λ (b : ℕ). physical_location (appended t bs n) i ≡ some (get_or ids (i / b) 0, i % b))
          same (physical_location-total (appended t bs n) i (room i h)),
    ),
  )
    where
      ids : List ℕ
      ids = t.physical_block_ids ++ bs

      same : t.block_size_tokens ≡ m.block_size_tokens
      same = (Agrees-some m id t v known).1

      room : (i : ℕ) → i < t.sequence_length + n → i < capacity_tokens (appended t bs n)
      room i h =
          subst (λ (b : ℕ). i < length ids * b) (sym same)
            (grind (arith, enough, length-append t.physical_block_ids bs))

  -- Where append_tokens on a consistent manager returns True for a known request and a positive count, the
  -- request's new table places every token that the old blocks could hold where the old one did, and every
  -- token below the new length, the appended ones included, at the index's remainder in one of the
  -- request's blocks, that with the number of the index's quotient.
  pub physical_location-appended :
      0 < n
      → (m' : KvBlockManager) → append_tokens id n m ≡ ok true m'
      → (t' : KvBlockAllocation) × (lookup String_discrete id m'.requests ≡ some t')
        × Locates m t t' n
  physical_location-appended positive m' e = cases (append_tokens-Appends m v id t n known positive)
    where
      cases :
          Appends m id t n (append_tokens id n m)
          → (t' : KvBlockAllocation) × (lookup String_discrete id m'.requests ≡ some t')
            × Locates m t t' n
      cases (inl (short, e')) = absurd (ground (arith, e))
      cases (inr (bs, m₁, fewest, e', w, found, others)) =
          (appended t bs n, ground (arith, e, e', found), appended-Locates bs fewest.0)
