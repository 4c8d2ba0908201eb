-- ===== src/Agent/Schema/Converted.antt =====
-- schema.go: what the conversion of an argument returns, told by the property alone.
use d9c.Base.{
  ◌≡◌, refl, ◌↔◌, ◌⊎◌, inl, inr, ◌==◌, ◌&&◌, not, true, false, String, Option, none, some, List, [],
  ◌∷◌, Any, length, leb, ok, ok_injective, >>=-eq-ok, Option-cases, arith, Bool-cases, eq_iff,
  List-cases,
}
use mathlib.Core.Path.{subst}
use d9c.Base.Int.{ℤ, ltb_ℤ}
use d9c.Agent.Value.{Value, null, str, integer, float, number, bool, strs, list, object, int}
use d9c.Agent.Schema.{
  Property, coerce, coerce_string, coerce_bool, coerce_array, to_int, at_least, contains_text,
  string_items, parse_bool,
}

-- A number that is not below a minimum, if there is one.
abbrev pub IsAtLeast : Option ℤ → ℤ → Type 0
IsAtLeast none n = Unit
IsAtLeast (some m) n = ltb_ℤ n m ≡ false

-- A text of the property's enumeration, if it has one.
abbrev pub IsListed : Property → String → Type 0
IsListed p s = (p.enum ≡ []) ⊎ Any (λ t. t ≡ s) p.enum

-- A value of the property's type: a text of its enumeration, if it has one, an int that is not below
-- its minimum, a Boolean or a list of texts.
abbrev pub Fits : Property → Value → Type 0
Fits p (str s) = (p.type_ ≡ "string") × IsListed p s
Fits p (integer k n) = (p.type_ ≡ "integer") × (k ≡ int) × IsAtLeast p.minimum n
Fits p (bool b) = p.type_ ≡ "boolean"
Fits p (strs l) = p.type_ ≡ "array"
Fits p w = ⊥

contains_text-Any : (l : List String) (s : String) → (contains_text l s ≡ true) ↔ Any (λ t. t ≡ s) l
unfolding contains_text
contains_text-Any [] s = (λ h. absurd (ground (arith, h)), λ i. elim i [ ])
contains_text-Any (t ∷ l) s = elim (Bool-cases (t == s)) [
  | inl e ↦ rw e (λ h. inl ((eq_iff t s).0 e), λ i. refl)
  | inr n ↦ rw n (
    λ h. inr ((contains_text-Any l s).0 h),
    λ i. elim i [
      | inl e ↦ absurd (ground (arith, n, (eq_iff t s).1 e))
      | inr j ↦ (contains_text-Any l s).1 j
    ],
  )
]

refused-IsListed :
    (p : Property) (s : String)
    → ((leb 1 (length p.enum) && not (contains_text p.enum s)) ≡ false) ↔ IsListed p s
refused-IsListed p s = elim (List-cases p.enum) [
  | inl e ↦ rw e (λ h. inl refl, λ i. refl)
  | inr (t, l, e) ↦ rw e (
    λ h. inr ((contains_text-Any (t ∷ l) s).0 (ground (arith, h))),
    λ i. elim i [
      | inl z ↦ absurd (ground (arith, z))
      | inr j ↦ ground (arith, (contains_text-Any (t ∷ l) s).1 j)
    ],
  )
]

string-Fits :
    (p : Property) (v w : Value) → p.type_ ≡ "string" → coerce_string p v ≡ ok w → Fits p w
unfolding coerce_string
string-Fits p (str s) w type h =
    elim (Bool-cases (leb 1 (length p.enum) && not (contains_text p.enum s))) [
      | inl refused ↦ absurd (ground (arith, h, refused))
      | inr taken ↦
          let same : str s ≡ w = ok_injective (rw (taken, coerce_string) at h) in
          subst (Fits p) same (type, (refused-IsListed p s).0 taken)
    ]
string-Fits p _ w type h = absurd cc

at_least-Fits :
    (p : Property) (n : ℤ) (w : Value)
    → p.type_ ≡ "integer"
    → at_least p.minimum n ≡ ok w
    → Fits p w
unfolding at_least
at_least-Fits p n w type h = elim (Option-cases p.minimum) [
  | inl e ↦
      let same : integer int n ≡ w = ok_injective (rw (e, at_least) at h) in
      subst (Fits p) same (type, refl, rw e tt)
  | inr (m, e) ↦ elim (Bool-cases (ltb_ℤ n m)) [
    | inl below ↦ absurd (ground (arith, h, e, below))
    | inr above ↦
        let same : integer int n ≡ w = ok_injective (rw (e, above, at_least) at h) in
        subst (Fits p) same (type, refl, rw e above)
  ]
]

bool-Fits : (p : Property) (v w : Value) → p.type_ ≡ "boolean" → coerce_bool v ≡ ok w → Fits p w
unfolding coerce_bool
bool-Fits p (bool b) w type h = let same : bool b ≡ w = ok_injective h in subst (Fits p) same type
bool-Fits p (str s) w type h = elim (Option-cases (parse_bool s)) [
  | inl e ↦ absurd (ground (arith, h, e))
  | inr (b, e) ↦
      let same : bool b ≡ w = ok_injective (rw (e, coerce_bool) at h) in subst (Fits p) same type
]
bool-Fits p _ w type h = absurd cc

array-Fits : (p : Property) (v w : Value) → p.type_ ≡ "array" → coerce_array v ≡ ok w → Fits p w
unfolding coerce_array
array-Fits p (strs l) w type h = let same : strs l ≡ w = ok_injective h in subst (Fits p) same type
array-Fits p (list l) w type h =
    let (out, _, made) = >>=-eq-ok (string_items 0 l) (λ out. ok (strs out)) h in
    let same : strs out ≡ w = ok_injective made in subst (Fits p) same type
array-Fits p _ w type h = absurd cc

coerce-Fits_there : (p : Property) (v w : Value) → coerce p v ≡ ok w → Fits p w
unfolding coerce
coerce-Fits_there p v w h = elim (Bool-cases (p.type_ == "string")) [
  | inl t ↦ string-Fits p v w ((eq_iff p.type_ "string").0 t) (rw t at h)
  | inr f ↦ elim (Bool-cases (p.type_ == "integer")) [
    | inl t ↦
        let (n, _, bounded) = >>=-eq-ok (to_int v) (λ n. at_least p.minimum n) (rw (f, t) at h) in
        at_least-Fits p n w ((eq_iff p.type_ "integer").0 t) bounded
    | inr g ↦ elim (Bool-cases (p.type_ == "boolean")) [
      | inl t ↦ bool-Fits p v w ((eq_iff p.type_ "boolean").0 t) (rw (f, g, t) at h)
      | inr k ↦ elim (Bool-cases (p.type_ == "array")) [
        | inl t ↦ array-Fits p v w ((eq_iff p.type_ "array").0 t) (rw (f, g, k, t) at h)
        | inr l ↦ absurd (ground arith)
      ]
    ]
  ]
]

coerce-Fits_back : (p : Property) (w : Value) → Fits p w → coerce p w ≡ ok w
unfolding coerce coerce_string to_int at_least coerce_bool coerce_array
coerce-Fits_back p (str s) (type, listed) = rw (type, (refused-IsListed p s).1 listed) refl
coerce-Fits_back p (integer k n) (type, kind, above) = elim (Option-cases p.minimum) [
  | inl e ↦ rw (type, kind, e) refl
  | inr (m, e) ↦ let least : ltb_ℤ n m ≡ false = rw e at above in rw (type, kind, e, least) refl
]
coerce-Fits_back p (bool b) type = rw type refl
coerce-Fits_back p (strs l) type = rw type refl
coerce-Fits_back p null h = elim h [ ]
coerce-Fits_back p (float x) h = elim h [ ]
coerce-Fits_back p (number s) h = elim h [ ]
coerce-Fits_back p (list l) h = elim h [ ]
coerce-Fits_back p (object m) h = elim h [ ]

-- The conversion for a property returns a value for itself exactly where the value fits the property,
-- and whatever it returns fits the property: a text of its enumeration, an int that is not below its
-- minimum, a Boolean or a list of texts, as its type says.
pub coerce-Fits :
    (p : Property) (w : Value)
    → (Fits p w ↔ (coerce p w ≡ ok w)) × (Fits p w ↔ ((v : Value) × (coerce p v ≡ ok w)))
coerce-Fits p w = (
  (coerce-Fits_back p w, coerce-Fits_there p w w),
  (λ f. (w, coerce-Fits_back p w f), λ r. coerce-Fits_there p r.0 w r.1),
)
