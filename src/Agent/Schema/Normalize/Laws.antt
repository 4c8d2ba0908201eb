-- ===== src/Agent/Schema/Normalize/Laws.antt =====
-- What a normalized argument set is: every value is one that its property accepts as it stands, and
-- the required ones are there.
use d9c.Base.{
  ok_injective, Any, All-map, ◌≡◌, refl, ap, ◌∙◌, ◌⊎◌, inl, inr, ◌≢◌, ◌==◌, String, Option, none,
  some, List, [], ◌∷◌, All, ok, ◌>>=◌, >>=-eq-ok, arith, Bool-cases, Option-cases,
}
use mathlib.Core.Path.{subst}
use d9c.Base.Int.{ℤ}
use d9c.Agent.Value.{Value, null, str, integer, list, int}
use d9c.Agent.Schema.{
  Property, Schema, Args, lookup, coerce, to_int, at_least, coerce_string, coerce_bool,
  coerce_array,
}
use d9c.Agent.Schema.Normalize.{
  given, convert, convert_all, add, default_of, check_names, check_required, normalize,
}

-- A value that the conversion returns is not null, and is returned for itself.
abbrev pub Accepts : Property → Value → Type 0
Accepts p v = (coerce p v ≡ ok v) × (v ≢ null)

string_accepts :
    (p : Property) (v w : Value)
    → coerce_string p v ≡ ok w
    → (coerce_string p w ≡ ok w) × (w ≢ null)
unfolding coerce_string
string_accepts p (str s) w h = (ground arith, λ e. ground arith)
string_accepts p _ w h = (ground arith, λ e. ground arith)

at_least_accepts :
    (m : Option ℤ) (n : ℤ) (w : Value)
    → at_least m n ≡ ok w
    → (at_least m n ≡ ok w) × (w ≡ integer int n)
unfolding at_least
at_least_accepts none n w h = (h, ground arith)
at_least_accepts (some m) n w h = (h, ground arith)

bool_accepts : (v w : Value) → coerce_bool v ≡ ok w → (coerce_bool w ≡ ok w) × (w ≢ null)
unfolding coerce_bool
bool_accepts (str s) w h = (ground arith, λ e. ground arith)
bool_accepts _ w h = (ground arith, λ e. ground arith)

array_accepts : (v w : Value) → coerce_array v ≡ ok w → (coerce_array w ≡ ok w) × (w ≢ null)
unfolding coerce_array
array_accepts (list l) w h = (ground arith, λ e. ground arith)
array_accepts _ w h = (ground arith, λ e. ground arith)

integer_accepts :
    (m : Option ℤ) (v w : Value)
    → (to_int v >>= λ n. at_least m n) ≡ ok w
    → ((to_int w >>= λ n. at_least m n) ≡ ok w) × (w ≢ null)
integer_accepts m v w h =
    let (n, _, bounded) = >>=-eq-ok (to_int v) (λ n. at_least m n) h in
    let (same, e) = at_least_accepts m n w bounded in
    (rw e (unfold to_int in same ∙ ap ok e), λ z. ground (arith, e, z))

-- What the conversion returns is accepted for itself.
coerce-Accepts : (p : Property) (v w : Value) → coerce p v ≡ ok w → Accepts p w
unfolding coerce
coerce-Accepts p v w h = elim (Bool-cases (p.type_ == "string")) [
  | inl t ↦ rw t (string_accepts p v w (rw t at h))
  | inr f ↦ elim (Bool-cases (p.type_ == "integer")) [
    | inl t ↦ rw (f, t) (integer_accepts p.minimum v w (rw (f, t) at h))
    | inr g ↦ elim (Bool-cases (p.type_ == "boolean")) [
      | inl t ↦ rw (f, g, t) (bool_accepts v w (rw (f, g, t) at h))
      | inr k ↦ elim (Bool-cases (p.type_ == "array")) [
        | inl t ↦ rw (f, g, k, t) (array_accepts v w (rw (f, g, k, t) at h))
        | inr l ↦ absurd (ground arith)
      ]
    ]
  ]
]

-- A default that converts: what `Schema.check` demands.
abbrev pub HasGoodDefault : Property → Type 0
HasGoodDefault p = (d : Value) → p.default ≡ some d → (w : Value) × (coerce p d ≡ ok w)

default-Accepts :
    (p : Property) (w : Value) → HasGoodDefault p → default_of p ≡ some w → Accepts p w
unfolding default_of
default-Accepts p w good h = elim (Option-cases p.default) [
  | inl e ↦ absurd (ground arith)
  | inr (d, e) ↦
      let (v, c) = good d e in
      let same : v ≡ w = ground arith in coerce-Accepts p d w (c ∙ ap ok same)
]

-- `default_of` stays shut.
convert_cases :
    (args : Args) (name : String) (p : Property) (w : Value)
    → convert args name p ≡ ok (some w)
    → (default_of p ≡ some w) ⊎ ((raw : Value) × (coerce p raw ≡ ok w))
unfolding convert
convert_cases args name p w h = elim (Option-cases (given args name)) [
  | inl e ↦ inl (ground arith)
  | inr (raw, e) ↦ inr (raw, ground arith)
]

convert-Accepts :
    (args : Args) (name : String) (p : Property) (w : Value)
    → HasGoodDefault p
    → convert args name p ≡ ok (some w)
    → Accepts p w
convert-Accepts args name p w good h = elim (convert_cases args name p w h) [
  | inl d ↦ default-Accepts p w good d
  | inr (raw, c) ↦ coerce-Accepts p raw w c
]

-- An argument that one of the properties is named for and accepts.
abbrev pub IsDeclaredArg : List (String × Property) → String × Value → Type 0
IsDeclaredArg props e = Any (λ q. (q.0 ≡ e.0) × Accepts q.1 e.1) props

add-All :
    (name : String) (p : Property) (rest : List (String × Property)) (v : Option Value) (out : Args)
    → ((w : Value) → v ≡ some w → Accepts p w)
    → All (IsDeclaredArg rest) out
    → All (IsDeclaredArg ((name, p) ∷ rest)) (add name v out)
add-All name p rest none out accepted h =
    All-map (IsDeclaredArg rest) (IsDeclaredArg ((name, p) ∷ rest)) out (λ e d. inr d) h
add-All name p rest (some w) out accepted h = (
  inl (refl, accepted w refl),
  All-map (IsDeclaredArg rest) (IsDeclaredArg ((name, p) ∷ rest)) out (λ e d. inr d) h,
)

convert_all-All :
    (args : Args) (props : List (String × Property)) (out : Args)
    → All (λ q. HasGoodDefault q.1) props
    → convert_all args props ≡ ok out
    → All (IsDeclaredArg props) out
unfolding convert_all
convert_all-All args [] out good h = subst (All (IsDeclaredArg [])) (ok_injective h) tt
convert_all-All args ((name, p) ∷ rest) out good h =
    let (v, converted, then_rest) = >>=-eq-ok (convert args name p) _ h in
    let (out', others, last) = >>=-eq-ok (convert_all args rest) _ then_rest in
    subst (All (IsDeclaredArg ((name, p) ∷ rest))) (ok_injective last) (
      add-All name p rest v out' (λ w e. convert-Accepts args name p w good.0 (converted ∙ ap ok e))
        (convert_all-All args rest out' good.1 others))

check_required_lem :
    (s : Schema) (out : Args) (l : List String)
    → check_required s out l ≡ ok tt
    → All (λ r. lookup r out ≢ none) l
unfolding check_required
check_required_lem s out [] h = tt
check_required_lem s out (r ∷ l) h = elim (Option-cases (lookup r out)) [
  | inl e ↦ absurd (ground arith)
  | inr (v, e) ↦ (λ z. ground arith, check_required_lem s out l (ground arith))
]

check_names_lem :
    (s : Schema) (args : Args)
    → check_names s args ≡ ok tt
    → All (λ a. lookup a.0 s.properties ≢ none) args
unfolding check_names
check_names_lem s [] h = tt
check_names_lem s ((name, v) ∷ l) h = elim (Option-cases (lookup name s.properties)) [
  | inl e ↦ absurd (ground arith)
  | inr (p, e) ↦ (λ z. ground arith, check_names_lem s l (ground arith))
]

-- Where every default converts, a normalized argument set holds only declared arguments, each with a
-- value that its property accepts as it stands, and all the required ones; and every argument given
-- was declared.
pub normalize_sound :
    (s : Schema) (args out : Args)
    → All (λ q. HasGoodDefault q.1) s.properties
    → normalize s args ≡ ok out
    → All (IsDeclaredArg s.properties) out
      × All (λ r. lookup r out ≢ none) s.required
      × All (λ a. lookup a.0 s.properties ≢ none) args
unfolding normalize
normalize_sound s args out good h =
    let (_, names, rest) = >>=-eq-ok (check_names s args) _ h in
    let (out', converted, rest') = >>=-eq-ok (convert_all args s.properties) _ rest in
    let (_, required, last) = >>=-eq-ok (check_required s out' s.required) _ rest' in
    let same : out' ≡ out = ok_injective last in
    (
      subst (All (IsDeclaredArg s.properties)) same
          (convert_all-All args s.properties out' good converted),
      subst (λ o. All (λ r. lookup r o ≢ none) s.required) same
          (check_required_lem s out' s.required required),
      check_names_lem s args names,
    )
