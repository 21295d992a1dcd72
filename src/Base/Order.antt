-- ===== src/Base/Order.antt =====
-- The order of texts by their code points, and that of pairs of a number and a text.
use Prim.Native.Nat.{ℕ, Ordering, compare as compare_ℕ}
use Prim.Native.Char.{Char, code}
use Prim.Native.String.{String, [], ◌∷◌, then, compare}
use Prim.Native.String.compare.{nil-nil, nil-cons, cons-nil, cons-cons}
use mathlib.Core.Path.{◌≡◌, refl, ap, ap₂, ◌∙◌}
use mathlib.Core.Bool.{Bool, true, false, ◌&&◌, ◌||◌}
use native.Mathlib.Omega.{arith}
use text.Mathlib.TextPositions.{compare_refl}
use text.Mathlib.TextEquality.{codes_equal}
use full_inference_engine.Base.Tests.{ltb, ◌==◌}

abbrev is_less : Ordering → Bool
is_less o = elim o [ Ordering.lt ↦ true | _ ↦ false ]

-- `s < t`
unfoldable pub text_lt : String → String → Bool
text_lt s t = is_less (compare s t)

pub text_lt_irrefl : (s : String) → text_lt s s ≡ false
unfolding text_lt
text_lt_irrefl s = ap is_less (compare_refl s)

is_less-then :
    (m n : ℕ) (o : Ordering)
    → is_less (then (compare_ℕ m n) o) ≡ (ltb m n || ((m == n) && is_less o))
is_less-then m n o = ground arith

text_lt-cons :
    (c d : Char) (s t : String)
    → text_lt (c ∷ s) (d ∷ t) ≡ (ltb (code c) (code d) || ((code c == code d) && text_lt s t))
unfolding text_lt
text_lt-cons c d s t = ap is_less (cons-cons c d s t) ∙ is_less-then (code c) (code d) (compare s t)

text_lt-nil-cons : (d : Char) (t : String) → text_lt [] (d ∷ t) ≡ true
unfolding text_lt
text_lt-nil-cons d t = ap is_less (nil-cons d t)

text_lt-nil : (s : String) → text_lt s [] ≡ false
unfolding text_lt
text_lt-nil [] = ap is_less nil-nil
text_lt-nil (c ∷ s) = ap is_less (cons-nil c s)

pub text_lt_trans : (s t u : String) → text_lt s t ≡ true → text_lt t u ≡ true → text_lt s u ≡ true
text_lt_trans s [] u h k = absurd (ground (arith, text_lt-nil s))
text_lt_trans s (d ∷ t) [] h k = absurd (ground (arith, text_lt-nil (d ∷ t)))
text_lt_trans [] (d ∷ t) (e ∷ u) h k = text_lt-nil-cons e u
text_lt_trans (c ∷ s) (d ∷ t) (e ∷ u) h k =
    ground
      (arith, text_lt-cons c d s t, text_lt-cons d e t u, text_lt-cons c e s u, text_lt_trans s t u)

-- Of two different texts one stands before the other.
pub text_lt_total : (s t : String) → text_lt s t ≡ false → text_lt t s ≡ false → s ≡ t
text_lt_total [] [] h k = refl
text_lt_total [] (d ∷ t) h k = absurd (ground (arith, text_lt-nil-cons d t))
text_lt_total (c ∷ s) [] h k = absurd (ground (arith, text_lt-nil-cons c s))
text_lt_total (c ∷ s) (d ∷ t) h k =
    let same : (compare_ℕ (code c) (code d) ≡ Ordering.eq)
        × (text_lt s t ≡ false)
        × (text_lt t s ≡ false) =
      ground (arith, text_lt-cons c d s t, text_lt-cons d c t s) in
    ap₂ ◌∷◌ (codes_equal c d same.0) (text_lt_total s t same.1 same.2)

-- `(m, s) < (n, t)`
abbrev pub pair_lt : ℕ → String → ℕ → String → Bool
pair_lt m s n t = ltb m n || ((m == n) && text_lt s t)

pub pair_lt_irrefl : (m : ℕ) (s : String) → pair_lt m s m s ≡ false
pair_lt_irrefl m s = ground (arith, text_lt_irrefl s)

pub pair_lt_trans :
    (l : ℕ) (s : String) (m : ℕ) (t : String) (n : ℕ) (u : String)
    → pair_lt l s m t ≡ true
    → pair_lt m t n u ≡ true
    → pair_lt l s n u ≡ true
pair_lt_trans l s m t n u h k = ground (arith, text_lt_trans s t u)

pub pair_lt_total :
    (m : ℕ) (s : String) (n : ℕ) (t : String)
    → pair_lt m s n t ≡ false
    → pair_lt n t m s ≡ false
    → s ≡ t
pair_lt_total m s n t h k = text_lt_total s t (ground arith) (ground arith)
