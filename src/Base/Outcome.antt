-- ===== src/Base/Outcome.antt =====
-- A value or an error, for the functions that return `(T, error)`.
use mathlib.Core.Logic.{◌⊎◌, inl, inr}
use mathlib.Core.Path.{◌≡◌, refl}

pub data Result {ℓ} (E : Type ℓ) (A : Type ℓ) : Type ℓ where
  ok : A → Result E A
  err : E → Result E A

pub Result-cases {ℓ} :
    {E A : Type ℓ} (r : Result E A) → ((a : A) × (r ≡ ok a)) ⊎ ((e : E) × (r ≡ err e))
Result-cases (ok a) = inl (a, refl)
Result-cases (err e) = inr (e, refl)

pub ok_injective {ℓ} : {E A : Type ℓ} {a b : A} → ◌≡◌ {A = Result E A} (ok a) (ok b) → a ≡ b
ok_injective h = cc

infixl 5 ◌>>=◌
abbrev pub ◌>>=◌ {ℓ} : {E A B : Type ℓ} → Result E A → (A → Result E B) → Result E B
err e >>= f = err e
ok a >>= f = f a

-- Inversion of a successful chain, for proofs where the parts stay shut.
pub >>=-eq-ok {ℓ} :
    {E A B : Type ℓ} (first : Result E A) (then_ : A → Result E B) {last : B}
    → (first >>= then_) ≡ ok last
    → (value : A) × (first ≡ ok value) × (then_ value ≡ ok last)
>>=-eq-ok (err problem) then_ chain = cc
>>=-eq-ok (ok value) then_ chain = (value, refl, chain)
