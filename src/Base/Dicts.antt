-- ===== src/Base/Dicts.antt =====
-- A Python dict, in insertion order.
use Prim.Native.Nat.{ℕ, suc, ◌+◌}
use mathlib.Core.Path.{◌≡◌, refl, sym, subst, ◌∙◌}
use mathlib.Core.Logic.{◌≢◌, ite, if_pos, if_neg}
use mathlib.Core.Bool.{Bool, true, false}
use mathlib.Core.List.{List, [], ◌∷◌}
use mathlib.Core.Option.{Option, none, some}
use native.Mathlib.Omega.{arith}
use full_inference_engine.Base.Lists.{count, length}

abbrev pub Dict {ℓ κ} : Type ℓ → Type κ → Type (ℓ ⊔ κ)
Dict K V = List (K × V)

abbrev pub is_some {ℓ} : {A : Type ℓ} → Option A → Bool
is_some none = false
is_some (some a) = true

abbrev pub keys {ℓ κ} : {K : Type ℓ} {V : Type κ} → Dict K V → List K
keys [] = []
keys ((k, v) ∷ d) = k ∷ keys d

abbrev pub values {ℓ κ} : {K : Type ℓ} {V : Type κ} → Dict K V → List V
values [] = []
values ((k, v) ∷ d) = v ∷ values d

module _ {K V : Type 0} (dec : Discrete K) where
  unfoldable pub lookup : K → Dict K V → Option V
  lookup k [] = none
  lookup k ((j, v) ∷ d) = ite (dec j k) (some v) (lookup k d)

  -- `d[k] = v`
  unfoldable pub insert : K → V → Dict K V → Dict K V
  insert k v [] = (k, v) ∷ []
  insert k v ((j, w) ∷ d) = ite (dec j k) ((j, v) ∷ d) ((j, w) ∷ insert k v d)

  -- `del d[k]`
  unfoldable pub erase : K → Dict K V → Dict K V
  erase k [] = []
  erase k ((j, w) ∷ d) = ite (dec j k) d ((j, w) ∷ erase k d)

  abbrev pub Distinct : Dict K V → Type 0
  Distinct [] = Unit {0}
  Distinct ((k, v) ∷ d) = (lookup k d ≡ none) × Distinct d

  pub lookup-insert :
      (k j : K) (v : V) (d : Dict K V)
      → lookup j (insert k v d) ≡ ite (dec k j) (some v) (lookup j d)
  unfolding lookup insert
  lookup-insert k j v [] = refl
  lookup-insert k j v ((i, w) ∷ d) = ground (arith, lookup-insert k j v d)

  pub lookup-insert_self : (k : K) (v : V) (d : Dict K V) → lookup k (insert k v d) ≡ some v
  lookup-insert_self k v d = lookup-insert k k v d ∙ if_pos (dec k k) refl _ _

  pub lookup-insert_ne :
      (k j : K) (v : V) (d : Dict K V) → k ≢ j → lookup j (insert k v d) ≡ lookup j d
  lookup-insert_ne k j v d h = lookup-insert k j v d ∙ if_neg (dec k j) h _ _

  pub lookup-erase_ne : (k j : K) (d : Dict K V) → k ≢ j → lookup j (erase k d) ≡ lookup j d
  unfolding lookup erase
  lookup-erase_ne k j [] h = refl
  lookup-erase_ne k j ((i, w) ∷ d) h = ground (arith, lookup-erase_ne k j d h)

  pub lookup-erase_self : (k : K) (d : Dict K V) → Distinct d → lookup k (erase k d) ≡ none
  unfolding lookup erase
  lookup-erase_self k [] h = refl
  lookup-erase_self k ((i, w) ∷ d) h = ground (arith, lookup-erase_self k d h.1)

  pub lookup-erase :
      (k j : K) (d : Dict K V) → Distinct d → lookup j (erase k d) ≡ ite (dec k j) none (lookup j d)
  lookup-erase k j d h = elim (dec k j) [
    | yes p ↦
        subst (λ i. lookup i (erase k d) ≡ none) p (lookup-erase_self k d h)
        ∙ sym (if_pos (dec k j) p _ _)
    | no p ↦ lookup-erase_ne k j d p ∙ sym (if_neg (dec k j) p _ _)
  ]

  pub insert-Distinct : (k : K) (v : V) (d : Dict K V) → Distinct d → Distinct (insert k v d)
  unfolding insert
  insert-Distinct k v [] h = (unfold lookup in refl, tt)
  insert-Distinct k v ((i, w) ∷ d) h =
      ground (arith, insert-Distinct k v d h.1, lookup-insert_ne k i v d)

  pub erase-Distinct : (k : K) (d : Dict K V) → Distinct d → Distinct (erase k d)
  unfolding erase
  erase-Distinct k [] h = tt
  erase-Distinct k ((i, w) ∷ d) h = ground (arith, erase-Distinct k d h.1, lookup-erase_ne k i d)

-- Lists of numbers under each key: how often a number stands in all of them.
abbrev pub total {ℓ} : {K : Type ℓ} → ℕ → Dict K (List ℕ) → ℕ
total b [] = 0
total b ((k, v) ∷ d) = count b v + total b d

abbrev pub or_nil {ℓ} : {A : Type ℓ} → Option (List A) → List A
or_nil none = []
or_nil (some v) = v

module _ {K : Type 0} (dec : Discrete K) where
  pub total-insert :
      (b : ℕ) (k : K) (v : List ℕ) (d : Dict K (List ℕ))
      → total b (insert dec k v d) + count b (or_nil (lookup dec k d)) ≡ total b d + count b v
  unfolding lookup insert
  total-insert b k v [] = omega arith
  total-insert b k v ((j, w) ∷ d) = ground (arith, total-insert b k v d)

  pub total-erase :
      (b : ℕ) (k : K) (d : Dict K (List ℕ))
      → total b (erase dec k d) + count b (or_nil (lookup dec k d)) ≡ total b d
  unfolding lookup erase
  total-erase b k [] = omega arith
  total-erase b k ((j, w) ∷ d) = ground (arith, total-erase b k d)

module _ {K V : Type 0} (dec : Discrete K) where
  pub erase-insert :
      (k : K) (v : V) (d : Dict K V) → lookup dec k d ≡ none → erase dec k (insert dec k v d) ≡ d
  unfolding lookup insert erase
  erase-insert k v [] h = if_pos (dec k k) refl _ _
  erase-insert k v ((j, w) ∷ d) h = ground (arith, erase-insert k v d)

-- How many entries there are behind a change of one.
module _ {K V : Type 0} (dec : Discrete K) where
  pub length-erase :
      (k : K) (v : V) (d : Dict K V)
      → lookup dec k d ≡ some v
      → suc (length (erase dec k d)) ≡ length d
  unfolding lookup erase
  length-erase k v [] h = absurd (ground arith)
  length-erase k v ((j, w) ∷ d) h = ground (arith, length-erase k v d)

  pub length-insert :
      (k : K) (v w : V) (d : Dict K V)
      → lookup dec k d ≡ some v
      → length (insert dec k w d) ≡ length d
  unfolding lookup insert
  length-insert k v w [] h = absurd (ground arith)
  length-insert k v w ((j, u) ∷ d) h = ground (arith, length-insert k v w d)
