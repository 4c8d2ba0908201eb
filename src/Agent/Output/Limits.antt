-- ===== src/Agent/Output/Limits.antt =====
-- output.go: shaping does not panic, and a limit holds.
use d9c.Base.{
  ◌≡◌, refl, sym, ap, ◌∙◌, inl, inr, true, false, ℕ, zero, suc, ◌≤◌, ◌<◌, String, Option, none,
  some, List, length, Result, ok, err, arith, Bool-cases, Option-cases, Result-cases, ok_injective,
  ◌<+>◌,
}
use mathlib.Core.Option.{some-injective}
use d9c.Base.Int.{ℤ, pos, negsuc, ltb_ℤ, show_int}
use d9c.Agent.Value.{Value}
use d9c.Agent.OpResult.{OpResult}
use d9c.Agent.Error.{Error, errorf, usage}
use d9c.Agent.Output.{
  Shape, is_empty, is_zero, split_items, join_items, check_fields, cut_items, shape_one, shape_list,
  apply,
}
use d9c.Agent.Output.Shaped.{
  Ends, check_fields-Ends, split-join, project_each-length, cut_items-length,
}

is_zero-limited : (n : ℕ) (s : Shape) → s.limit ≡ pos n → 0 < n → is_zero s ≡ false
unfolding is_zero
is_zero-limited zero s l more = absurd (omega arith)
is_zero-limited (suc n) s l more = elim (Bool-cases (is_empty s.fields)) [
  | inl t ↦ rw (t, l, is_zero) refl
  | inr f ↦ rw (f, is_zero) refl
]

module _ (known : List String) (key : String) where
  shape_list-Ends :
      (s : Shape) (g : Value) (items : List Value) (r : OpResult Value)
      → Ends (shape_list known key s g items r)
  unfolding shape_list
  shape_list-Ends s g items r =
      let (kept, r') = cut_items s.limit items r in
      elim (Bool-cases (is_empty s.fields)) [
        | inl t ↦ (ok (record r' { content = join_items g key kept }), rw (t, shape_list) refl)
        | inr f ↦ elim (Option-cases (check_fields s.fields known kept)) [
          | inr (e, c) ↦ (err e, rw (f, c, shape_list) refl)
          | inl c ↦
              let (out, p) = check_fields-Ends s.fields known kept c in
              (ok (record r' { content = join_items g key out }), rw (f, c, p, shape_list) refl)
        ]
      ]

  -- The items of the result, at most n of them.
  abbrev pub HasItems : ℕ → OpResult Value → Type 0
  HasItems n r =
      (items : List Value) × (split_items r.content key ≡ some items) × (length items ≤ n)

  -- A result keeps to a limit: any does where the limit is 0 or less.
  abbrev pub IsBounded : ℤ → OpResult Value → Type 0
  IsBounded (pos (suc n)) r = HasItems (suc n) r
  IsBounded (pos zero) r = Unit
  IsBounded (negsuc n) r = Unit

  -- Apply returned an error, or a result that keeps to the limit.
  abbrev pub IsShaped : ℤ → Option (Result Error (OpResult Value)) → Type 0
  IsShaped l none = ⊥
  IsShaped l (some (err e)) = Unit
  IsShaped l (some (ok r)) = IsBounded l r

  limit-IsBounded :
      (l : ℤ) (r : OpResult Value) → ((n : ℕ) → l ≡ pos n → 0 < n → HasItems n r) → IsBounded l r
  limit-IsBounded (pos (suc n)) r f = f (suc n) refl (ground arith)
  limit-IsBounded (pos zero) r f = tt
  limit-IsBounded (negsuc n) r f = tt

  Ends-IsShaped :
      (l : ℤ) (o : Option (Result Error (OpResult Value)))
      → Ends o
      → ((r : OpResult Value) → o ≡ some (ok r) → IsBounded l r)
      → IsShaped l o
  Ends-IsShaped l none (a, e) f = absurd (ground (arith, e))
  Ends-IsShaped l (some (err x)) e f = tt
  Ends-IsShaped l (some (ok r)) e f = f r refl

  shape_list-limit :
      (n : ℕ) (s : Shape) (g : Value) (items : List Value) (r r' : OpResult Value)
      → s.limit ≡ pos n
      → 0 < n
      → split_items g key ≡ some items
      → shape_list known key s g items r ≡ some (ok r')
      → HasItems n r'
  unfolding shape_list
  shape_list-limit n s g items r r' l more e h =
      let (kept, r0) = cut_items s.limit items r in
      let few : length kept ≤ n = rw l (cut_items-length n items r more) in
      elim (Bool-cases (is_empty s.fields)) [
        | inl t ↦
            let same : record r0 { content = join_items g key kept } ≡ r' =
              ok_injective (some-injective _ _ (rw (t, shape_list) at h)) in
            (
              kept,
              ap (λ x. split_items x.content key) (sym same) ∙ split-join g key items kept e,
              few,
            )
        | inr f ↦ elim (Option-cases (check_fields s.fields known kept)) [
          | inr (x, c) ↦ absurd (ground (arith, h, f, c))
          | inl c ↦
              let (out, p) = check_fields-Ends s.fields known kept c in
              let same : record r0 { content = join_items g key out } ≡ r' =
                ok_injective (some-injective _ _ (rw (f, c, p, shape_list) at h)) in
              (
                out,
                ap (λ x. split_items x.content key) (sym same) ∙ split-join g key items out e,
                omega (arith, few, project_each-length kept out s.fields p),
              )
        ]
      ]

  shape_one-refused :
      (n : ℕ) (s : Shape) (g : Value) (r r' : OpResult Value)
      → s.limit ≡ pos n
      → 0 < n
      → shape_one known key s g r ≡ ok r'
      → ⊥
  unfolding shape_one
  shape_one-refused n s g r r' l more h =
      let t : ltb_ℤ (pos 0) s.limit ≡ true = rw l (ground arith) in ground (arith, h, t)

  apply-Ends :
      (s : Shape) (generic : Result Error Value) (r : OpResult Value)
      → Ends (apply known key s generic r)
  unfolding apply
  apply-Ends s generic r = elim (Bool-cases (is_zero s)) [
    | inl t ↦ (ok r, rw (t, apply) refl)
    | inr f ↦ elim (Bool-cases (ltb_ℤ s.limit (pos 0))) [
      | inl t ↦ (
        err (errorf usage ("--limit must be 0 (no limit) or more, got " <+> show_int s.limit)),
        rw (f, t, apply) refl,
      )
      | inr e ↦ elim (Result-cases generic) [
        | inr (x, i) ↦ (err x, rw (f, e, i, apply) refl)
        | inl (g, i) ↦ elim (Option-cases (split_items g key)) [
          | inl j ↦ (shape_one known key s g r, rw (f, e, i, j, apply) refl)
          | inr (items, j) ↦
              let (a, k) = shape_list-Ends s g items r in (a, rw (f, e, i, j, apply) k)
        ]
      ]
    ]
  ]

  apply-limit :
      (n : ℕ) (s : Shape) (generic : Result Error Value) (r r' : OpResult Value)
      → s.limit ≡ pos n
      → 0 < n
      → apply known key s generic r ≡ some (ok r')
      → HasItems n r'
  unfolding apply
  apply-limit n s generic r r' l more h =
      let f : is_zero s ≡ false = is_zero-limited n s l more in
      let e : ltb_ℤ s.limit (pos 0) ≡ false = rw l (ground arith) in
      elim (Result-cases generic) [
        | inr (x, i) ↦ absurd (ground (arith, h, f, e, i))
        | inl (g, i) ↦ elim (Option-cases (split_items g key)) [
          | inl j ↦ absurd (
              shape_one-refused n s g r r' l more
                (some-injective _ _ (rw (f, e, i, j, apply) at h)))
          | inr (items, j) ↦
              shape_list-limit n s g items r r' l more j (rw (f, e, i, j, apply) at h)
        ]
      ]

  -- Apply does not panic, whatever the options, the data and its items; and a list that it returns
  -- under a positive limit has at most so many items, where the data has its list.
  pub apply_lem :
      (s : Shape) (generic : Result Error Value) (r : OpResult Value)
      → IsShaped s.limit (apply known key s generic r)
  apply_lem s generic r =
      Ends-IsShaped s.limit (apply known key s generic r) (apply-Ends s generic r)
        (λ r' h. limit-IsBounded s.limit r' (λ n l more. apply-limit n s generic r r' l more h))
