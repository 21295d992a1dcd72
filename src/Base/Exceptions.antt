-- ===== src/Base/Exceptions.antt =====
-- Methods of mutable objects that may raise. The state at the moment of a `raise` is kept, since a
-- Python method that raises half way leaves behind what it has changed.
use mathlib.Core.Bool.{Bool, true, false}
use mathlib.Core.Path.{◌≡◌, refl, ap, sym, subst}
use mathlib.Core.Logic.{◌⊎◌, inl, inr}
use mathlib.Core.List.{List, [], ◌∷◌}

pub data Error : Type 0 where
  value_error key_error index_error runtime_error : Error

pub data Outcome {ℓ κ} (S : Type ℓ) (A : Type κ) : Type (ℓ ⊔ κ) where
  ok : A → S → Outcome S A
  raise : Error → S → Outcome S A

abbrev pub Action {ℓ κ} : Type ℓ → Type κ → Type (ℓ ⊔ κ)
Action S A = S → Outcome S A

abbrev pub pure {ℓ κ} : {S : Type ℓ} {A : Type κ} → A → Action S A
pure a s = ok a s

abbrev pub throw {ℓ κ} : {S : Type ℓ} {A : Type κ} → Error → Action S A
throw e s = raise e s

infixl 5 ◌>>=◌ ◌>>◌
abbrev pub ◌>>=◌ {ℓ κ μ} :
    {S : Type ℓ} {A : Type κ} {B : Type μ} → Action S A → (A → Action S B) → Action S B
◌>>=◌ m f s = elim (m s) [ ok a s' ↦ f a s' | raise e s' ↦ raise e s' ]

abbrev pub ◌>>◌ {ℓ μ} : {S : Type ℓ} {B : Type μ} → Action S (Unit {0}) → Action S B → Action S B
m >> k = m >>= λ _. k

abbrev pub get {ℓ} : {S : Type ℓ} → Action S S
get s = ok s s

abbrev pub modify {ℓ} : {S : Type ℓ} → (S → S) → Action S (Unit {0})
modify f s = ok tt (f s)

-- `if test: raise error`
abbrev pub raise_if {ℓ} : {S : Type ℓ} → Bool → Error → Action S (Unit {0})
raise_if true e s = raise e s
raise_if false e s = ok tt s

-- `for x in xs: body(x)`
unfoldable pub for_each {ℓ κ} :
    {S : Type ℓ} {A : Type κ} → List A → (A → Action S (Unit {0})) → Action S (Unit {0})
for_each [] body s = ok tt s
for_each (x ∷ xs) body s = elim (body x s) [
  | ok _ s' ↦ for_each xs body s'
  | raise e s' ↦ raise e s'
]

-- The state that a call leaves, whether it returned or raised.
abbrev pub final {ℓ κ} : {S : Type ℓ} {A : Type κ} → Outcome S A → S
final (ok a s) = s
final (raise e s) = s

pub for_each_cons {ℓ κ} :
    {S : Type ℓ} {A : Type κ} (x : A) (xs : List A) (body : A → Action S (Unit {0})) (s s' : S)
    → body x s ≡ ok tt s'
    → for_each (x ∷ xs) body s ≡ for_each xs body s'
unfolding for_each
for_each_cons x xs body s s' h = rw (h, for_each)

-- A call that returns hands its value and its state to what follows.
pub >>=-ok {ℓ κ μ} :
    {S : Type ℓ} {A : Type κ} {B : Type μ} (m : Action S A) (f : A → Action S B) {s s' : S} {a : A}
    → m s ≡ ok a s'
    → (m >>= f) s ≡ f a s'
>>=-ok m f h = rw (h, ◌>>=◌)

pub >>=-raise {ℓ κ μ} :
    {S : Type ℓ} {A : Type κ} {B : Type μ} (m : Action S A) (f : A → Action S B) {s s' : S}
    {e : Error}
    → m s ≡ raise e s'
    → (m >>= f) s ≡ raise e s'
>>=-raise m f h = rw (h, ◌>>=◌)

pub Outcome-cases {ℓ κ} :
    {S : Type ℓ} {A : Type κ} (o : Outcome S A)
    → ((a : A) × (s : S) × (o ≡ ok a s)) ⊎ ((e : Error) × (s : S) × (o ≡ raise e s))
Outcome-cases (ok a s) = inl (a, s, refl)
Outcome-cases (raise e s) = inr (e, s, refl)

abbrev pub raised {ℓ κ} : {S : Type ℓ} {A : Type κ} → Outcome S A → Bool
raised (ok a s) = false
raised (raise e s) = true

pub raise_of_raised {ℓ κ} :
    {S : Type ℓ} {A : Type κ} (o : Outcome S A) {s : S}
    → raised o ≡ true
    → final o ≡ s
    → (e : Error) × (o ≡ raise e s)
raise_of_raised (ok a t) h k = cc
raise_of_raised (raise e t) h k = (e, ap (raise e) k)

-- What holds after the rest of a block if its first call returns, and after that call if it raises, holds
-- after the block.
pub final_bind {ℓ κ μ ν} :
    {S : Type ℓ} {A : Type κ} {B : Type μ} (P : S → Type ν) (m : Action S A) (f : A → Action S B)
    (s : S)
    → ((a : A) (s' : S) → m s ≡ ok a s' → P (final (f a s')))
    → ((e : Error) (s' : S) → m s ≡ raise e s' → P s')
    → P (final ((m >>= f) s))
final_bind P m f s h k = elim (Outcome-cases (m s)) [
  | inl (a, s', e) ↦ subst (λ o. P (final o)) (sym (>>=-ok m f e)) (h a s' e)
  | inr (x, s', e) ↦ subst (λ o. P (final o)) (sym (>>=-raise m f e)) (k x s' e)
]

pub ok-injective {ℓ κ} :
    {S : Type ℓ} {A : Type κ} {a b : A} {s t : S}
    → ◌≡◌ {A = Outcome S A} (ok a s) (ok b t)
    → (a ≡ b) × (s ≡ t)
ok-injective {S} {A} {a} {b} {s} {t} h = (ap (result_or a) h, ap final h)
  where
    result_or : A → Outcome S A → A
    result_or d (ok x u) = x
    result_or d (raise e u) = d

-- What a call ensures: `Q` of its result and its state if it returns, `R` of its state if it raises.
abbrev pub Ensures {ℓ κ μ} :
    {S : Type ℓ} {A : Type κ} → (A → S → Type μ) → (S → Type μ) → Outcome S A → Type μ
Ensures Q R (ok a s) = Q a s
Ensures Q R (raise e s) = R s

pub Ensures-bind {ℓ κ μ ν} :
    {S : Type ℓ} {A : Type κ} {B : Type μ} (Q : A → S → Type ν) (R : S → Type ν)
    (T : B → S → Type ν) (m : Action S A) (f : A → Action S B) (s : S)
    → Ensures Q R (m s)
    → ((a : A) (s' : S) → Q a s' → Ensures T R (f a s'))
    → Ensures T R ((m >>= f) s)
Ensures-bind {S} {A} {B} Q R T m f s h k = go (m s) h
  where
    go :
        (o : Outcome S A)
        → Ensures Q R o
        → Ensures T R (elim o [ ok a s' ↦ f a s' | raise e s' ↦ raise e s' ])
    go (ok a s') q = k a s' q
    go (raise e s') r = r

pub Ensures-final {ℓ κ μ} :
    {S : Type ℓ} {A : Type κ} (R : S → Type μ) (Q : A → S → Type μ) (o : Outcome S A)
    → Ensures Q R o
    → ((a : A) (s : S) → Q a s → R s)
    → R (final o)
Ensures-final R Q (ok a s) h k = k a s h
Ensures-final R Q (raise e s) h k = h

-- What holds of the state that a call leaves, it ensures on both ways.
pub Ensures-of_final {ℓ κ μ} :
    {S : Type ℓ} {A : Type κ} (P : S → Type μ) (o : Outcome S A)
    → P (final o)
    → Ensures (λ _. P) P o
Ensures-of_final P (ok a s) h = h
Ensures-of_final P (raise e s) h = h

pub Ensures-weaken {ℓ κ μ} :
    {S : Type ℓ} {A : Type κ} (Q T : A → S → Type μ) (R U : S → Type μ) (o : Outcome S A)
    → Ensures Q R o
    → ((a : A) (s : S) → Q a s → T a s)
    → ((s : S) → R s → U s)
    → Ensures T U o
Ensures-weaken Q T R U (ok a s) h f g = f a s h
Ensures-weaken Q T R U (raise e s) h f g = g s h
