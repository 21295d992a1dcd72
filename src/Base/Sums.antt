-- ===== src/Base/Sums.antt =====
-- Sums over the numbers below a bound, and lists that are equal because they hold the same.
use Prim.Native.Nat.{ℕ, zero, suc, ◌+◌, ◌≤◌, ◌<◌}
use mathlib.Core.Path.{◌≡◌, refl, sym, ap, ap₂, ◌∙◌}
use mathlib.Core.Logic.{inl, inr}
use mathlib.Core.List.{List, [], ◌∷◌, map}
use native.Mathlib.Omega.{arith}
use full_inference_engine.Base.Tests.{◌==◌, ltb, if◌then◌else◌, Bool-cases}
use full_inference_engine.Base.Lists.{length, get_or, count, sum, All, Ascending, All→count}

unfoldable pub sum_below : ℕ → (ℕ → ℕ) → ℕ
sum_below zero f = 0
sum_below (suc n) f = sum_below n f + f n

pub sum_below_congr :
    (n : ℕ) (f g : ℕ → ℕ) → ((b : ℕ) → b < n → f b ≡ g b) → sum_below n f ≡ sum_below n g
unfolding sum_below
sum_below_congr zero f g h = refl
sum_below_congr (suc n) f g h =
    omega (arith, sum_below_congr n f g (λ b k. h b (omega arith)), h n (omega arith))

pub sum_below_add :
    (n : ℕ) (f g : ℕ → ℕ) → sum_below n (λ b. f b + g b) ≡ sum_below n f + sum_below n g
unfolding sum_below
sum_below_add zero f g = omega arith
sum_below_add (suc n) f g = omega (arith, sum_below_add n f g)

sum_below_unit : (n x : ℕ) → sum_below n (λ b. if x == b then 1 else 0) ≡ (if ltb x n then 1 else 0)
unfolding sum_below
sum_below_unit zero x = ground arith
sum_below_unit (suc n) x = ground (arith, sum_below_unit n x)

pub sum_below_zero : (n : ℕ) → sum_below n (λ b. 0) ≡ 0
unfolding sum_below
sum_below_zero zero = refl
sum_below_zero (suc n) = omega (arith, sum_below_zero n)

-- A list of numbers below `n` is as long as the numbers below `n` stand in it.
pub sum_below-count :
    (n : ℕ) (xs : List ℕ) → All (λ x. x < n) xs → sum_below n (λ b. count b xs) ≡ length xs
sum_below-count n [] h = sum_below_zero n
sum_below-count n (x ∷ xs) h = ground (
  arith,
  sum_below_add n (λ b. if x == b then 1 else 0) (λ b. count b xs),
  sum_below_unit n x,
  sum_below-count n xs h.1,
)

sum_below_shift : (n : ℕ) (f : ℕ → ℕ) → sum_below (suc n) f ≡ f 0 + sum_below n (λ b. f (suc b))
unfolding sum_below
sum_below_shift zero f = omega arith
sum_below_shift (suc n) f = omega (arith, sum_below_shift n f)

-- The numbers of a list, each passed through `f`, added up by position.
pub sum_below-get_or :
    (f : ℕ → ℕ) (xs : List ℕ) → sum_below (length xs) (λ b. f (get_or xs b 0)) ≡ sum (map f xs)
unfolding sum_below
sum_below-get_or f [] = refl
sum_below-get_or f (x ∷ xs) =
    sum_below_shift (length xs) (λ b. f (get_or (x ∷ xs) b 0))
    ∙ ap (λ (s : ℕ). f x + s) (sum_below-get_or f xs)

pub eq_of_get_or :
    (xs ys : List ℕ) → length xs ≡ length ys → ((b : ℕ) → get_or xs b 0 ≡ get_or ys b 0) → xs ≡ ys
eq_of_get_or [] [] l h = refl
eq_of_get_or [] (y ∷ ys) l h = absurd (omega arith)
eq_of_get_or (x ∷ xs) [] l h = absurd (omega arith)
eq_of_get_or (x ∷ xs) (y ∷ ys) l h =
    ap₂ ◌∷◌ (h 0) (eq_of_get_or xs ys (omega arith) (λ b. h (suc b)))

head_le :
    (x y : ℕ) (xs ys : List ℕ)
    → All (λ z. x ≤ z) xs
    → ((b : ℕ) → count b (x ∷ xs) ≡ count b (y ∷ ys))
    → x ≤ y
head_le x y xs ys h e = elim (Bool-cases (x == y)) [
  | inl same ↦ ground arith
  | inr other ↦ All→count (λ z. x ≤ z) xs h y (ground (arith, e y))
]

-- Two ascending lists that hold each number as often are one list.
pub eq_of_Ascending :
    (xs ys : List ℕ) → Ascending xs → Ascending ys → ((b : ℕ) → count b xs ≡ count b ys) → xs ≡ ys
eq_of_Ascending [] [] h k e = refl
eq_of_Ascending [] (y ∷ ys) h k e = absurd (ground (arith, e y))
eq_of_Ascending (x ∷ xs) [] h k e = absurd (ground (arith, e x))
eq_of_Ascending (x ∷ xs) (y ∷ ys) h k e =
    let same : x ≡ y =
      omega (arith, head_le x y xs ys h.0 e, head_le y x ys xs k.0 (λ b. sym (e b))) in
    ap₂ ◌∷◌ same (eq_of_Ascending xs ys h.1 k.1 (λ b. ground (arith, e b)))
