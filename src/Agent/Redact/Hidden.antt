-- ===== src/Agent/Redact/Hidden.antt =====
-- redact.go: what is left of the secrets of a tree.
use d9c.Base.{
  ◌≡◌, refl, inl, inr, ◌<+>◌, ◌==◌, if◌then◌else◌, ◌&&◌, ◌||◌, not, Bool, true, false, String, code,
  none, some, eqb, cut, arith, Bool-cases, Option-cases, eq_refl,
}
use Prim.Native.String.append
use d9c.Agent.Value.{
  Value, null, str, integer, float, number, bool, strs, list, object, Items, nil, cons, Fields, end,
  field,
}
use d9c.Agent.Redact.{
  redacted_value, is_env_key, is_secret_name, has_field, mask_value, names_secret, mask_item,
  mask_items, redact_env, redact_items, redact_fields, redact_env_value, mask_fields, mask_entry,
}

-- Whether a value is the mask.
abbrev is_mask : Value → Bool
is_mask (str s) = s == redacted_value
is_mask v = false

-- Whether every entry "value" of a map is the mask.
abbrev masks_value : Fields → Bool
masks_value end = true
masks_value (field k v m) = (if k == "value" then is_mask v else true) && masks_value m

-- That the environments of a tree show no secrets, wherever they stand. An item NAME=value whose name
-- looks like a secret's has the mask for its value, and so have a map with such a name, at "value",
-- and a map of variables, at such a name that has a scalar.
unfoldable mutual
  pub hides : Value → Bool
  hides (list l) = hides_each l
  hides (object m) = hides_fields m
  hides null = true
  hides (str s) = true
  hides (integer i n) = true
  hides (float x) = true
  hides (number s) = true
  hides (bool b) = true
  hides (strs l) = true

  pub hides_each : Items → Bool
  hides_each nil = true
  hides_each (cons e l) = hides e && hides_each l

  pub hides_fields : Fields → Bool
  hides_fields end = true
  hides_fields (field k e m) = (if is_env_key k then hides_env e else hides e) && hides_fields m

  pub hides_env : Value → Bool
  hides_env (list l) = hides_items l
  hides_env (object m) = hides_variables m
  hides_env null = true
  hides_env (str s) = true
  hides_env (integer i n) = true
  hides_env (float x) = true
  hides_env (number s) = true
  hides_env (bool b) = true
  hides_env (strs l) = true

  pub hides_items : Items → Bool
  hides_items nil = true
  hides_items (cons e l) = hides_item e && hides_items l

  pub hides_item : Value → Bool
  hides_item (str s) =
      let (name, value) = cut s "=" in
      elim value [ none ↦ true | some v ↦ not (is_secret_name name) || (v == redacted_value) ]
  hides_item (object item) =
      (not (has_field "value" item && names_secret item) || masks_value item) && hides_fields item
  hides_item (list l) = hides_each l
  hides_item null = true
  hides_item (integer i n) = true
  hides_item (float x) = true
  hides_item (number s) = true
  hides_item (bool b) = true
  hides_item (strs l) = true

  pub hides_variables : Fields → Bool
  hides_variables end = true
  hides_variables (field k e m) = hides_variable k e && hides_variables m

  pub hides_variable : String → Value → Bool
  hides_variable k (list l) = hides_each l
  hides_variable k (object m) = hides_fields m
  hides_variable k null = true
  hides_variable k (str s) = not (is_secret_name k) || is_mask (str s)
  hides_variable k (integer i n) = not (is_secret_name k)
  hides_variable k (float x) = not (is_secret_name k)
  hides_variable k (number s) = not (is_secret_name k)
  hides_variable k (bool b) = not (is_secret_name k)
  hides_variable k (strs l) = not (is_secret_name k)

-- Whether there is an environment in a tree.
unfoldable mutual
  pub has_env : Value → Bool
  has_env (list l) = has_env_each l
  has_env (object m) = has_env_fields m
  has_env null = false
  has_env (str s) = false
  has_env (integer i n) = false
  has_env (float x) = false
  has_env (number s) = false
  has_env (bool b) = false
  has_env (strs l) = false

  pub has_env_each : Items → Bool
  has_env_each nil = false
  has_env_each (cons e l) = has_env e || has_env_each l

  pub has_env_fields : Fields → Bool
  has_env_fields end = false
  has_env_fields (field k e m) = is_env_key k || (has_env e || has_env_fields m)

-- Whether an environment that is a list has an item in which there is another environment.
unfoldable mutual
  pub nests_env : Value → Bool
  nests_env (list l) = nests_each l
  nests_env (object m) = nests_fields m
  nests_env null = false
  nests_env (str s) = false
  nests_env (integer i n) = false
  nests_env (float x) = false
  nests_env (number s) = false
  nests_env (bool b) = false
  nests_env (strs l) = false

  pub nests_each : Items → Bool
  nests_each nil = false
  nests_each (cons e l) = nests_env e || nests_each l

  pub nests_fields : Fields → Bool
  nests_fields end = false
  nests_fields (field k e m) =
      (if is_env_key k then nests_inside e else nests_env e) || nests_fields m

  pub nests_inside : Value → Bool
  nests_inside (list l) = has_env_each l
  nests_inside (object m) = nests_variables m
  nests_inside null = false
  nests_inside (str s) = false
  nests_inside (integer i n) = false
  nests_inside (float x) = false
  nests_inside (number s) = false
  nests_inside (bool b) = false
  nests_inside (strs l) = false

  pub nests_variables : Fields → Bool
  nests_variables end = false
  nests_variables (field k e m) = nests_env e || nests_variables m

joined-empty : (v : String) → "" <+> ("=" <+> v) ≡ String.◌∷◌ "=" v
joined-empty v = rw (append.nil ("=" <+> v), append.cons "=" "" v, append.nil v)

-- A text that is joined from what stands before the first separator is cut there again.
pub cut-joined :
    (s v value : String)
    → (cut s "=").1 ≡ some value
    → cut ((cut s "=").0 <+> ("=" <+> v)) "=" ≡ ((cut s "=").0, some v)
unfolding cut
cut-joined String.[] v value h = cc
cut-joined (String.◌∷◌ c s) v value h = elim (Bool-cases (eqb (code c) b'=')) [
  | inl t ↦ rw (t, joined-empty v) refl
  | inr f ↦
      rw (f, append.cons c (cut s "=").0 ("=" <+> v))
        (rw (f, cut-joined s v value (rw f at h)) refl)
]

both : {a b : Bool} → a ≡ true → b ≡ true → (a && b) ≡ true
both h k = ground (arith, h, k)

mask_value-masks : (item : Fields) → masks_value (mask_value item) ≡ true
unfolding mask_value
mask_value-masks end = refl
mask_value-masks (field k v m) = elim (Bool-cases (k == "value")) [
  | inl t ↦ rw t (mask_value-masks m)
  | inr f ↦ rw f (mask_value-masks m)
]

neither : {a b : Bool} → (a || b) ≡ false → (a ≡ false) × (b ≡ false)
neither h = ground (arith, h)

-- A tree without environments shows no secret of one.
mutual
  unfolding hides has_env

  plain_hides : (v : Value) → has_env v ≡ false → hides v ≡ true
  plain_hides (list l) h = plain_each_hides l h
  plain_hides (object m) h = plain_fields_hides m h
  plain_hides null h = refl
  plain_hides (str s) h = refl
  plain_hides (integer i n) h = refl
  plain_hides (float x) h = refl
  plain_hides (number s) h = refl
  plain_hides (bool b) h = refl
  plain_hides (strs l) h = refl

  plain_each_hides : (l : Items) → has_env_each l ≡ false → hides_each l ≡ true
  plain_each_hides nil h = refl
  plain_each_hides (cons e l) h =
      both (plain_hides e (neither h).0) (plain_each_hides l (neither h).1)

  plain_fields_hides : (m : Fields) → has_env_fields m ≡ false → hides_fields m ≡ true
  plain_fields_hides end h = refl
  plain_fields_hides (field k e m) h =
      let other : is_env_key k ≡ false = (neither h).0 in
      let rest : (has_env e || has_env_fields m) ≡ false = (neither h).1 in
      rw other (both (plain_hides e (neither rest).0) (plain_fields_hides m (neither rest).1))

has_env_fields-mask :
    (item : Fields) → has_env_fields item ≡ false → has_env_fields (mask_value item) ≡ false
unfolding mask_value has_env
has_env_fields-mask end h = refl
has_env_fields-mask (field k v m) h =
    let other : is_env_key k ≡ false = (neither h).0 in
    let rest : (has_env v || has_env_fields m) ≡ false = (neither h).1 in
    let plain : has_env v ≡ false = (neither rest).0 in
    elim (Bool-cases (k == "value")) [
      | inl t ↦ rw (t, other) (has_env_fields-mask m (neither rest).1)
      | inr f ↦ rw (f, other, plain) (has_env_fields-mask m (neither rest).1)
    ]

mask_item-hides : (v : Value) → has_env v ≡ false → hides_item (mask_item v).0 ≡ true
unfolding mask_item hides has_env
mask_item-hides (str s) h = elim (Option-cases (cut s "=").1) [
  | inl n ↦ rw (n, mask_item) (rw (n, hides_item) refl)
  | inr (v, e) ↦ elim (Bool-cases (is_secret_name (cut s "=").0)) [
    | inl t ↦
        rw (e, t, mask_item)
          (rw (cut-joined s redacted_value v e, hides_item)
            (ground (arith, eq_refl redacted_value)))
    | inr f ↦ rw (e, f, mask_item) (rw (e, f, hides_item) refl)
  ]
]
mask_item-hides (object item) h = elim (Bool-cases (has_field "value" item && names_secret item)) [
  | inl t ↦
      rw
        (
          t,
          mask_value-masks item,
          plain_fields_hides (mask_value item) (has_env_fields-mask item h),
        )
        (ground arith)
  | inr f ↦ rw (f, f, plain_fields_hides item h) refl
]
mask_item-hides (list l) h = plain_each_hides l h
mask_item-hides null h = refl
mask_item-hides (integer i n) h = refl
mask_item-hides (float x) h = refl
mask_item-hides (number s) h = refl
mask_item-hides (bool b) h = refl
mask_item-hides (strs l) h = refl

mask_items-hides : (l : Items) → has_env_each l ≡ false → hides_items (mask_items l).0 ≡ true
unfolding mask_items hides has_env
mask_items-hides nil h = refl
mask_items-hides (cons e l) h =
    both (mask_item-hides e (neither h).0) (mask_items-hides l (neither h).1)

mutual
  unfolding redact_env hides nests_env

  pub redact_hides : (v : Value) → nests_env v ≡ false → hides (redact_env v).0 ≡ true
  redact_hides (list l) h = redact_items_hides l h
  redact_hides (object m) h = redact_fields_hides m h
  redact_hides null h = refl
  redact_hides (str s) h = refl
  redact_hides (integer i n) h = refl
  redact_hides (float x) h = refl
  redact_hides (number s) h = refl
  redact_hides (bool b) h = refl
  redact_hides (strs l) h = refl

  redact_items_hides : (l : Items) → nests_each l ≡ false → hides_each (redact_items l).0 ≡ true
  redact_items_hides nil h = refl
  redact_items_hides (cons e l) h =
      both (redact_hides e (neither h).0) (redact_items_hides l (neither h).1)

  redact_fields_hides :
      (m : Fields) → nests_fields m ≡ false → hides_fields (redact_fields m).0 ≡ true
  redact_fields_hides end h = refl
  redact_fields_hides (field k e m) h = elim (Bool-cases (is_env_key k)) [
    | inl t ↦
        let (a, b) = neither (rw t at h) in
        rw t (both (redact_value_hides e a) (redact_fields_hides m b))
    | inr f ↦
        let (a, b) = neither (rw f at h) in rw f (both (redact_hides e a) (redact_fields_hides m b))
  ]

  redact_value_hides :
      (v : Value) → nests_inside v ≡ false → hides_env (redact_env_value v).0 ≡ true
  redact_value_hides (list l) h = mask_items-hides l h
  redact_value_hides (object m) h = mask_fields_hides m h
  redact_value_hides null h = refl
  redact_value_hides (str s) h = refl
  redact_value_hides (integer i n) h = refl
  redact_value_hides (float x) h = refl
  redact_value_hides (number s) h = refl
  redact_value_hides (bool b) h = refl
  redact_value_hides (strs l) h = refl

  mask_fields_hides :
      (m : Fields) → nests_variables m ≡ false → hides_variables (mask_fields m).0 ≡ true
  mask_fields_hides end h = refl
  mask_fields_hides (field k e m) h =
      both (mask_entry_hides k e (neither h).0) (mask_fields_hides m (neither h).1)

  mask_entry_hides :
      (k : String) (v : Value) → nests_env v ≡ false → hides_variable k (mask_entry k v).0 ≡ true
  mask_entry_hides k (list l) h = redact_items_hides l h
  mask_entry_hides k (object m) h = redact_fields_hides m h
  mask_entry_hides k null h = refl
  mask_entry_hides k (str s) h = elim (Bool-cases (is_secret_name k)) [
    | inl t ↦ rw (t, t) refl
    | inr f ↦ rw (f, f) refl
  ]
  mask_entry_hides k (integer i n) h = elim (Bool-cases (is_secret_name k)) [
    | inl t ↦ rw (t, t) refl
    | inr f ↦ rw (f, f) refl
  ]
  mask_entry_hides k (float x) h = elim (Bool-cases (is_secret_name k)) [
    | inl t ↦ rw (t, t) refl
    | inr f ↦ rw (f, f) refl
  ]
  mask_entry_hides k (number s) h = elim (Bool-cases (is_secret_name k)) [
    | inl t ↦ rw (t, t) refl
    | inr f ↦ rw (f, f) refl
  ]
  mask_entry_hides k (bool b) h = elim (Bool-cases (is_secret_name k)) [
    | inl t ↦ rw (t, t) refl
    | inr f ↦ rw (f, f) refl
  ]
  mask_entry_hides k (strs l) h = elim (Bool-cases (is_secret_name k)) [
    | inl t ↦ rw (t, t) refl
    | inr f ↦ rw (f, f) refl
  ]
