-- ===== src/Base/Text/Decimal.antt =====
-- The decimal text of a number determines it.
use Prim.Native.Nat.{ℕ, zero, suc, ◌+◌, ◌-◌, ◌*◌, ◌/◌, ◌%◌, ◌<◌}
use Prim.Native.Char.{code}
use Prim.Native.String.{String, [], ◌∷◌}
use mathlib.Core.Path.{◌≡◌, refl, sym, ap, ◌∙◌}
use mathlib.Core.Logic.{inl, inr}
use native.Mathlib.Omega.{arith}
use d9c.Base.Tests.{ltb, Bool-cases}
use d9c.Base.Text.{decimal, decimal_fuel, digit}

-- The number that a text of digits stands for, after what was read before.
read : ℕ → String → ℕ
read v [] = v
read v (c ∷ s) = read (v * 10 + (code c - 48)) s

read-digit : (n v : ℕ) (s : String) → n < 10 → read v (digit n ∷ s) ≡ read (v * 10 + n) s
unfolding read digit
read-digit zero v s h = refl
read-digit (suc zero) v s h = refl
read-digit (suc (suc zero)) v s h = refl
read-digit (suc (suc (suc zero))) v s h = refl
read-digit (suc (suc (suc (suc zero)))) v s h = refl
read-digit (suc (suc (suc (suc (suc zero))))) v s h = refl
read-digit (suc (suc (suc (suc (suc (suc zero)))))) v s h = refl
read-digit (suc (suc (suc (suc (suc (suc (suc zero))))))) v s h = refl
read-digit (suc (suc (suc (suc (suc (suc (suc (suc zero)))))))) v s h = refl
read-digit (suc (suc (suc (suc (suc (suc (suc (suc (suc zero))))))))) v s h = refl
read-digit (suc (suc (suc (suc (suc (suc (suc (suc (suc (suc n)))))))))) v s h =
    absurd (omega arith)

read-decimal_fuel : (f n : ℕ) (s : String) → n < f → read 0 (decimal_fuel f n s) ≡ read n s
unfolding decimal_fuel
read-decimal_fuel zero n s h = absurd (omega arith)
read-decimal_fuel (suc f) n s h = elim (Bool-cases (ltb n 10)) [
  | inl small ↦ rw small (read-digit n 0 s (ground arith) ∙ ap (λ v. read v s) (omega arith))
  | inr large ↦ rw large (
      read-decimal_fuel f (n / 10) (digit (n % 10) ∷ s) (ground arith)
      ∙ read-digit (n % 10) (n / 10) s (omega arith)
      ∙ ap (λ v. read v s) (omega arith))
]

pub decimal_injective : (m n : ℕ) → decimal m ≡ decimal n → m ≡ n
unfolding decimal read
decimal_injective m n h =
    sym (read-decimal_fuel (suc m) m [] (omega arith))
    ∙ ap (read 0) h
    ∙ read-decimal_fuel (suc n) n [] (omega arith)
