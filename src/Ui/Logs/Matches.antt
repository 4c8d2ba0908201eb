-- ===== src/Ui/Logs/Matches.antt =====
-- The matches of a query in a list of lines that grows at its end and is cut at its front.
use d9c.Base.{
  ℕ, zero, suc, ◌+◌, ◌-◌, ◌≡◌, refl, sym, ap, inl, inr, String, List, [], ◌∷◌, ◌++◌, length, drop,
  ltb, contains, to_lower, arith, Bool-cases, length-drop, drop-append, drop-length,
}
use native.Mathlib.Nat.{zero-add}
use d9c.Ui.Logs.{matching, shift}

matching-append :
    (q : String) (i : ℕ) (xs ys : List String)
    → matching q i (xs ++ ys) ≡ matching q i xs ++ matching q (i + length xs) ys
unfolding matching
matching-append q i [] ys = let e : i + 0 ≡ i = omega arith in rw e
matching-append q i (x ∷ xs) ys =
    let e : i + suc (length xs) ≡ suc i + length xs = omega arith in
    elim (Bool-cases (contains (to_lower x) q)) [
      | inl t ↦ rw (t, e, matching-append q (suc i) xs ys)
      | inr f ↦ rw (f, e, matching-append q (suc i) xs ys)
    ]

drop-nil : (n : ℕ) → drop {A = String} n [] ≡ []
drop-nil zero = refl
drop-nil (suc n) = refl

-- The matches that are kept are those of the lines that are kept.
shift-matching :
    (n : ℕ) (q : String) (i : ℕ) (xs : List String)
    → shift n (matching q i xs) ≡ matching q (i - n) (drop (n - i) xs)
unfolding shift matching
shift-matching n q i [] = rw (drop-nil (n - i))
shift-matching n q i (x ∷ xs) = elim (Bool-cases (ltb i n)) [
  | inl below ↦
      let e : n - i ≡ suc (n - suc i) = ground arith in
      let z : i - n ≡ suc i - n = ground arith in
      elim (Bool-cases (contains (to_lower x) q)) [
        | inl t ↦ rw (t, below, e, z) (shift-matching n q (suc i) xs)
        | inr f ↦ rw (f, e, z) (shift-matching n q (suc i) xs)
      ]
  | inr above ↦
      let e : n - i ≡ n - suc i = ground arith in
      let z : n - suc i ≡ 0 = ground arith in
      let k : suc i - n ≡ suc (i - n) = ground arith in
      let rest : shift n (matching q (suc i) xs) ≡ matching q (suc (i - n)) xs =
        rw (← k) (rw z at (shift-matching n q (suc i) xs)) in
      elim (Bool-cases (contains (to_lower x) q)) [
        | inl t ↦ rw (t, above, e, z, t) (ap (λ l. (i - n) ∷ l) rest)
        | inr f ↦ rw (f, e, z, f) rest
      ]
]

-- Searching a batch alone, and moving the matches that are kept, finds what a search of the whole
-- buffer finds.
pub matching-cut :
    (n : ℕ) (q : String) (old batch : List String)
    → shift n (matching q 0 old)
        ++ matching q (length old - n) (drop (length old - n) (drop n (old ++ batch)))
      ≡ matching q 0 (drop n (old ++ batch))
matching-cut n q old batch =
    let tail = drop (n - length old) batch in
    let z : 0 - n ≡ 0 = omega arith in
    let z' : n - 0 ≡ n = omega arith in
    let moved : shift n (matching q 0 old) ≡ matching q 0 (drop n old) =
      rw (z, z') at (shift-matching n q 0 old) in
    rw (moved, drop-append n old batch, ← length-drop n old, drop-length (drop n old) tail)
      (sym (rw zero-add at (matching-append q 0 (drop n old) tail)))
