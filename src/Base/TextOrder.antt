-- ===== src/Base/TextOrder.antt =====
-- The order of texts, by which names are sorted.
use Prim.Native.Char.{Char, code}
use Prim.Native.Nat.{Ordering, compare as compare_ℕ}
use Prim.Native.String.compare
use Prim.Native.String.{String, [], ◌∷◌, compare, then}
use mathlib.Core.Path.{◌≡◌, refl}
use mathlib.Core.Bool.{Bool, true, false}
use native.Mathlib.Omega.{arith}
use text.Mathlib.Text.{is_le}

abbrev pub text_le : String → String → Bool
text_le s t = is_le (compare s t)

compare-nil : (t : String) → is_le (compare [] t) ≡ true
compare-nil [] = refl
compare-nil (d ∷ t) = rw (compare.nil-cons d t)

compare-cons_nil : (c : Char) (s : String) → compare (c ∷ s) [] ≡ Ordering.gt
compare-cons_nil c s = compare.cons-nil c s

compare-cons :
    (c d : Char) (s t : String)
    → compare (c ∷ s) (d ∷ t) ≡ then (compare_ℕ (code c) (code d)) (compare s t)
compare-cons c d s t = compare.cons-cons c d s t

pub text_le_total : (s t : String) → text_le s t ≡ false → text_le t s ≡ true
text_le_total [] t h = ground (arith, compare-nil t)
text_le_total (c ∷ s) [] h = compare-nil (c ∷ s)
text_le_total (c ∷ s) (d ∷ t) h =
    ground (arith, compare-cons c d s t, compare-cons d c t s, text_le_total s t)

pub text_le_trans : (s t u : String) → text_le s t ≡ true → text_le t u ≡ true → text_le s u ≡ true
text_le_trans [] t u h k = compare-nil u
text_le_trans (c ∷ s) [] u h k = ground (arith, compare-cons_nil c s)
text_le_trans (c ∷ s) (d ∷ t) [] h k = ground (arith, compare-cons_nil d t)
text_le_trans (c ∷ s) (d ∷ t) (e ∷ u) h k =
    ground
      (arith, compare-cons c d s t, compare-cons d e t u, compare-cons c e s u, text_le_trans s t u)
