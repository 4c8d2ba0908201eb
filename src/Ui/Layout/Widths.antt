-- ===== src/Ui/Layout/Widths.antt =====
-- layout.go: a projected table fits the width of the whole one, and its rows have a cell per column.
use d9c.Base.{
  ◌≡◌, refl, sym, ap, ◌∙◌, ◌⊎◌, inl, inr, ℕ, zero, suc, ◌+◌, ◌*◌, ◌/◌, ◌≤◌, ◌<◌, false, ◌&&◌,
  String, some, List, [], ◌∷◌, map, length, get_elem?, get_elem?-lt, ltb, arith, All, Bool-cases,
  Option-cases,
}
use native.Mathlib.Nat.{div-mul-le_self, lt-div-mul-add, add-mul, le_of_mul-le-mul_right, mul_comm}
use d9c.Ui.Layout.{Column, is_in, kept_columns, total_width, widened, project_columns, project_row}
use d9c.Ui.Layout.Projection.{AreDifferent, ArePicked}

-- The indices less one, without the zeros.
lower : List ℕ → List ℕ
lower [] = []
lower (zero ∷ idx) = lower idx
lower (suc i ∷ idx) = i ∷ lower idx

is_in-lower : (i : ℕ) (idx : List ℕ) → is_in i (lower idx) ≡ is_in (suc i) idx
unfolding lower
is_in-lower i [] = refl
is_in-lower i (zero ∷ idx) = ground (arith, is_in-lower i idx)
is_in-lower i (suc j ∷ idx) = ground (arith, is_in-lower i idx)

lower-AreDifferent : (idx : List ℕ) → AreDifferent idx → AreDifferent (lower idx)
unfolding lower
lower-AreDifferent [] d = tt
lower-AreDifferent (zero ∷ idx) d = lower-AreDifferent idx d.1
lower-AreDifferent (suc i ∷ idx) d = (is_in-lower i idx ∙ d.0, lower-AreDifferent idx d.1)

kept-lower :
    (c : Column) (cols : List Column) (idx : List ℕ)
    → is_in 0 idx ≡ false
    → kept_columns (c ∷ cols) idx ≡ kept_columns cols (lower idx)
unfolding kept_columns lower
kept-lower c cols [] h = refl
kept-lower c cols (zero ∷ idx) h = absurd (ground arith)
kept-lower c cols (suc i ∷ idx) h =
    let rest = kept-lower c cols idx (ground arith) in
    elim (Option-cases (get_elem? cols i)) [
      | inl e ↦ rw (e, kept_columns) rest
      | inr (d, e) ↦ rw (e, kept_columns) (ap (λ r. d ∷ r) rest)
    ]

kept-width :
    (c : Column) (cols : List Column) (idx : List ℕ)
    → AreDifferent idx
    → total_width (kept_columns (c ∷ cols) idx)
      ≤ c.width + total_width (kept_columns cols (lower idx))
unfolding kept_columns total_width lower
kept-width c cols [] d = omega arith
kept-width c cols (zero ∷ idx) d = rw (kept-lower c cols idx d.0) (omega arith)
kept-width c cols (suc i ∷ idx) d =
    let rest = kept-width c cols idx d.1 in
    elim (Option-cases (get_elem? cols i)) [
      | inl e ↦ rw (e, kept_columns) rest
      | inr (d', e) ↦ rw (e, kept_columns) (omega (arith, rest))
    ]

no_columns : (idx : List ℕ) → kept_columns [] idx ≡ []
unfolding kept_columns
no_columns [] = refl
no_columns (i ∷ idx) = no_columns idx

-- Different columns take no more than all of them.
kept-total :
    (cols : List Column) (idx : List ℕ)
    → AreDifferent idx
    → total_width (kept_columns cols idx) ≤ total_width cols
unfolding total_width
kept-total [] idx d = rw (no_columns idx) (omega arith)
kept-total (c ∷ cols) idx d =
    omega (arith, kept-width c cols idx d, kept-total cols (lower idx) (lower-AreDifferent idx d))

widened-total :
    (total kept : ℕ) (cols : List Column)
    → total_width (map (widened total kept) cols) * kept ≤ total_width cols * total
unfolding total_width
widened-total total kept [] = omega arith
widened-total total kept (c ∷ cols) =
    let q = c.width * total / kept in
    let rest = total_width (map (widened total kept) cols) in
    omega (
      arith,
      add-mul q rest kept,
      add-mul c.width (total_width cols) total,
      div-mul-le_self (c.width * total) kept,
      widened-total total kept cols,
    )

widened-least :
    (total kept : ℕ) (cols : List Column)
    → 0 < kept
    → total_width cols * total ≤ (total_width (map (widened total kept) cols) + length cols) * kept
unfolding total_width
widened-least total kept [] some_kept = omega arith
widened-least total kept (c ∷ cols) some_kept =
    let q = c.width * total / kept in
    let rest = total_width (map (widened total kept) cols) + length cols in
    let split : (q + total_width (map (widened total kept) cols) + suc (length cols)) * kept
        ≡ q * kept + kept + rest * kept =
      ap (λ x. x * kept) (omega arith)
      ∙ add-mul (q + 1) rest kept
      ∙ ap (λ x. x + rest * kept) (add-mul q 1 kept ∙ omega arith) in
    omega (
      arith,
      split,
      add-mul c.width (total_width cols) total,
      lt-div-mul-add {a = c.width * total} {b = kept} some_kept,
      widened-least total kept cols some_kept,
    )

kept-length :
    (cols : List Column) (idx : List ℕ)
    → All (λ i. i < length cols) idx
    → length (kept_columns cols idx) ≡ length idx
unfolding kept_columns
kept-length cols [] h = refl
kept-length cols (i ∷ idx) h =
    let (c, e) = get_elem?-lt cols i h.0 in rw (e, kept_columns) (ap suc (kept-length cols idx h.1))

map-length : {A B : Type 0} (f : A → B) (xs : List A) → length (map f xs) ≡ length xs
map-length f [] = refl
map-length f (x ∷ xs) = ap suc (map-length f xs)

-- The columns that a layout shows are widened within the width that the whole table had, to all of
-- that width but at most one for each of them, unless they have no width at all; and every row is
-- projected to exactly one cell for each of them.
pub project_columns_lem :
    (cols : List Column) (row : List String) (idx : List ℕ)
    → ArePicked (length cols) idx
    → (total_width (project_columns cols (some idx)) ≤ total_width cols)
      × ((total_width (project_columns cols (some idx)) ≡ 0)
          ⊎ (total_width cols ≤ total_width (project_columns cols (some idx)) + length idx))
      × (length (project_row row (some idx)) ≡ length (project_columns cols (some idx)))
unfolding project_columns project_row
project_columns_lem cols row idx p =
    let out = kept_columns cols idx in
    let total = total_width cols in
    let kept = total_width out in
    let cells = map-length _ idx ∙ sym (kept-length cols idx p.0) in
    elim (Bool-cases (ltb 0 kept && ltb kept total)) [
      | inr f ↦
          let filled : (kept ≡ 0) ⊎ (total ≤ kept + length idx) = elim (Bool-cases (ltb 0 kept)) [
            | inl t ↦ inr (ground (arith, f, t))
            | inr z ↦ inl (ground (arith, z))
          ] in
          rw f ((kept-total cols idx p.1, filled, cells))
      | inl t ↦
          let some_kept : 0 < kept = ground arith in
          let scaled : total_width (map (widened total kept) out) * kept ≤ total * kept =
            rw (mul_comm total kept) (widened-total total kept out) in
          let least : total * kept
              ≤ (total_width (map (widened total kept) out) + length idx) * kept =
            rw (mul_comm total kept, ← kept-length cols idx p.0)
              (widened-least total kept out some_kept) in
          rw t (
            (
              le_of_mul-le-mul_right scaled some_kept,
              inr (le_of_mul-le-mul_right least some_kept),
              cells ∙ sym (map-length (widened total kept) out),
            ))
    ]
