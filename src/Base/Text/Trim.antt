-- ===== src/Base/Text/Trim.antt =====
-- Trimming a trimmed text changes nothing.
use Prim.Native.Char.{code}
use Prim.Native.String.{String, [], ◌∷◌}
use mathlib.Core.Bool.{false, ◌&&◌}
use mathlib.Core.Path.{◌≡◌, refl, ap, ◌∙◌}
use mathlib.Core.Logic.{inl, inr}
use text.Mathlib.Text.{◌==◌}
use d9c.Base.Tests.{Bool-cases}
use d9c.Base.Text.{trim_left, trim_right, trim_space, is_space}

-- The text is empty or begins with no white space.
abbrev IsFlush : String → Type 0
IsFlush [] = Unit
IsFlush (c ∷ s) = is_space (code c) ≡ false

trim_left-IsFlush : (s : String) → IsFlush (trim_left s)
unfolding trim_left
trim_left-IsFlush [] = tt
trim_left-IsFlush (c ∷ s) = elim (Bool-cases (is_space (code c))) [
  | inl t ↦ rw t (trim_left-IsFlush s)
  | inr f ↦ rw f f
]

trim_left_flush : (s : String) → IsFlush s → trim_left s ≡ s
unfolding trim_left
trim_left_flush [] h = refl
trim_left_flush (c ∷ s) h = rw h

trim_right-IsFlush : (s : String) → IsFlush s → IsFlush (trim_right s)
unfolding trim_right
trim_right-IsFlush [] h = tt
trim_right-IsFlush (c ∷ s) h = rw h h

trim_right_idem : (s : String) → trim_right (trim_right s) ≡ trim_right s
unfolding trim_right
trim_right_idem [] = refl
trim_right_idem (c ∷ s) = elim (Bool-cases (is_space (code c) && trim_right s == "")) [
  | inl t ↦ rw t
  | inr f ↦ rw f (rw (trim_right_idem s) (rw f))
]

pub trim_space_idem : (s : String) → trim_space (trim_space s) ≡ trim_space s
unfolding trim_space
trim_space_idem s =
    ap trim_right (
      trim_left_flush (trim_right (trim_left s))
        (trim_right-IsFlush (trim_left s) (trim_left-IsFlush s)))
    ∙ trim_right_idem (trim_left s)
