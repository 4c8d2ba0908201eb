-- ===== src/Agent/Redact/Again.antt =====
-- redact.go: masking a tree again changes nothing.
use d9c.Base.{
  ◌≡◌, refl, ap, ◌∙◌, inl, inr, ◌<+>◌, ◌==◌, if◌then◌else◌, ◌&&◌, ◌||◌, true, false, String, some,
  cut, Bool-cases, Option-cases, eq_iff, or_else,
}
use d9c.Agent.Value.{
  Value, null, str, integer, float, number, bool, strs, list, object, Items, nil, cons, Fields, end,
  field,
}
use d9c.Agent.Redact.{
  redacted_value, is_env_key, is_secret_name, text_of, string_field, env_item_name, has_field,
  mask_value, names_secret, mask_item, mask_items, mask_scalar, redact_env, redact_items,
  redact_fields, redact_env_value, mask_fields, mask_entry,
}
use d9c.Agent.Redact.Hidden.{cut-joined}

has_field-mask : (k : String) (item : Fields) → has_field k (mask_value item) ≡ has_field k item
unfolding has_field mask_value
has_field-mask k end = refl
has_field-mask k (field k' v m) = ap (λ b. (k' == k) || b) (has_field-mask k m)

mask_value-again : (item : Fields) → mask_value (mask_value item) ≡ mask_value item
unfolding mask_value
mask_value-again end = refl
mask_value-again (field k v m) = elim (Bool-cases (k == "value")) [
  | inl t ↦ rw t (ap (λ r. field k (str redacted_value) r) (mask_value-again m))
  | inr f ↦ rw f (ap (λ r. field k v r) (mask_value-again m))
]

string_field-mask :
    (k : String) (item : Fields)
    → ((k' : String) → (k' == "value") ≡ true → (k' == k) ≡ false)
    → string_field k (mask_value item) ≡ string_field k item
unfolding string_field mask_value
string_field-mask k end other = refl
string_field-mask k (field k' v m) other = elim (Bool-cases (k' == "value")) [
  | inl t ↦ rw (t, other k' t) (string_field-mask k m other)
  | inr f ↦ rw f (ap (λ r. if k' == k then text_of v else r) (string_field-mask k m other))
]

env_item_name-mask : (item : Fields) → env_item_name (mask_value item) ≡ env_item_name item
unfolding env_item_name
env_item_name-mask item =
    ap (λ x. or_else x (string_field "name" (mask_value item)))
      (string_field-mask "key" item (λ k t. not_value k "key" t refl))
    ∙ ap (λ x. or_else (string_field "key" item) x)
        (string_field-mask "name" item (λ k t. not_value k "name" t refl))
  where
    not_value :
        (k other : String)
        → (k == "value") ≡ true
        → ("value" == other) ≡ false
        → (k == other) ≡ false
    not_value k other t f = let same : k ≡ "value" = (eq_iff k "value").0 t in rw same f

mask_item-cut :
    (s name value : String)
    → cut s "=" ≡ (name, some value)
    → is_secret_name name ≡ true
    → mask_item (str s) ≡ (str (name <+> "=" <+> redacted_value), 1)
unfolding mask_item
mask_item-cut s name value e t =
    let e0 : (cut s "=").0 ≡ name = ap (λ x. x.0) e in
    let e1 : (cut s "=").1 ≡ some value = ap (λ x. x.1) e in rw (e1, e0, t, mask_item) refl

names_secret-mask : (item : Fields) → names_secret (mask_value item) ≡ names_secret item
names_secret-mask item = rw (env_item_name-mask item, names_secret) refl

mask_item-object :
    (item : Fields)
    → (has_field "value" item && names_secret item) ≡ true
    → mask_item (object item) ≡ (object (mask_value item), 1)
unfolding mask_item
mask_item-object item t = rw (t, mask_item) refl

mask_scalar-secret :
    (k : String) (v : Value) → is_secret_name k ≡ true → mask_scalar k v ≡ (str redacted_value, 1)
mask_scalar-secret k v t = rw t refl

mask_scalar-plain : (k : String) (v : Value) → is_secret_name k ≡ false → mask_scalar k v ≡ (v, 0)
mask_scalar-plain k v f = rw f refl

mask_item_again : (v : Value) → mask_item (mask_item v).0 ≡ mask_item v
unfolding mask_item
mask_item_again (str s) = elim (Option-cases (cut s "=").1) [
  | inl n ↦
      let same : mask_item (str s) ≡ (str s, 0) = rw (n, mask_item) refl in rw (same, same) refl
  | inr (v, e) ↦ elim (Bool-cases (is_secret_name (cut s "=").0)) [
    | inl t ↦
        let name = (cut s "=").0 in
        let first = mask_item-cut s name v (ap (λ x. (name, x)) e) t in
        rw first (
          mask_item-cut (name <+> "=" <+> redacted_value) name redacted_value
            (cut-joined s redacted_value v e) t)
    | inr f ↦
        let same : mask_item (str s) ≡ (str s, 0) = rw (e, f, mask_item) refl in
        rw (same, same) refl
  ]
]
mask_item_again (object item) = elim (Bool-cases (has_field "value" item && names_secret item)) [
  | inl t ↦
      let still : (has_field "value" (mask_value item) && names_secret (mask_value item)) ≡ true =
        rw (has_field-mask "value" item, names_secret-mask item) t in
      rw (mask_item-object item t)
        (mask_item-object (mask_value item) still ∙ ap (λ x. (object x, 1)) (mask_value-again item))
  | inr f ↦ rw f (rw f refl)
]
mask_item_again null = refl
mask_item_again (integer i n) = refl
mask_item_again (float x) = refl
mask_item_again (number s) = refl
mask_item_again (bool b) = refl
mask_item_again (strs l) = refl
mask_item_again (list l) = refl

mask_items_again : (l : Items) → mask_items (mask_items l).0 ≡ mask_items l
unfolding mask_items
mask_items_again nil = refl
mask_items_again (cons e l) = rw (mask_item_again e, mask_items_again l) refl

mutual
  unfolding redact_env

  redact_again : (v : Value) → redact_env (redact_env v).0 ≡ redact_env v
  redact_again (list l) = rw (redact_items_again l) refl
  redact_again (object m) = rw (redact_fields_again m) refl
  redact_again null = refl
  redact_again (str s) = refl
  redact_again (integer i n) = refl
  redact_again (float x) = refl
  redact_again (number s) = refl
  redact_again (bool b) = refl
  redact_again (strs l) = refl

  redact_items_again : (l : Items) → redact_items (redact_items l).0 ≡ redact_items l
  redact_items_again nil = refl
  redact_items_again (cons e l) = rw (redact_again e, redact_items_again l) refl

  redact_fields_again : (m : Fields) → redact_fields (redact_fields m).0 ≡ redact_fields m
  redact_fields_again end = refl
  redact_fields_again (field k e m) = elim (Bool-cases (is_env_key k)) [
    | inl t ↦ rw (t, redact_value_again e, redact_fields_again m) refl
    | inr f ↦ rw (f, redact_again e, redact_fields_again m) refl
  ]

  redact_value_again : (v : Value) → redact_env_value (redact_env_value v).0 ≡ redact_env_value v
  redact_value_again (list l) = rw (mask_items_again l) refl
  redact_value_again (object m) = rw (mask_fields_again m) refl
  redact_value_again null = refl
  redact_value_again (str s) = refl
  redact_value_again (integer i n) = refl
  redact_value_again (float x) = refl
  redact_value_again (number s) = refl
  redact_value_again (bool b) = refl
  redact_value_again (strs l) = refl

  mask_fields_again : (m : Fields) → mask_fields (mask_fields m).0 ≡ mask_fields m
  mask_fields_again end = refl
  mask_fields_again (field k e m) = rw (mask_entry_again k e, mask_fields_again m) refl

  mask_entry_again : (k : String) (v : Value) → mask_entry k (mask_entry k v).0 ≡ mask_entry k v
  mask_entry_again k (list l) = rw (redact_items_again l) refl
  mask_entry_again k (object m) = rw (redact_fields_again m) refl
  mask_entry_again k null = refl
  mask_entry_again k (str s) = elim (Bool-cases (is_secret_name k)) [
    | inl t ↦ rw t (mask_scalar-secret k (str redacted_value) t)
    | inr f ↦ rw f (mask_scalar-plain k (str s) f)
  ]
  mask_entry_again k (integer i n) = elim (Bool-cases (is_secret_name k)) [
    | inl t ↦ rw t (mask_scalar-secret k (str redacted_value) t)
    | inr f ↦ rw f (mask_scalar-plain k (integer i n) f)
  ]
  mask_entry_again k (float x) = elim (Bool-cases (is_secret_name k)) [
    | inl t ↦ rw t (mask_scalar-secret k (str redacted_value) t)
    | inr f ↦ rw f (mask_scalar-plain k (float x) f)
  ]
  mask_entry_again k (number s) = elim (Bool-cases (is_secret_name k)) [
    | inl t ↦ rw t (mask_scalar-secret k (str redacted_value) t)
    | inr f ↦ rw f (mask_scalar-plain k (number s) f)
  ]
  mask_entry_again k (bool b) = elim (Bool-cases (is_secret_name k)) [
    | inl t ↦ rw t (mask_scalar-secret k (str redacted_value) t)
    | inr f ↦ rw f (mask_scalar-plain k (bool b) f)
  ]
  mask_entry_again k (strs l) = elim (Bool-cases (is_secret_name k)) [
    | inl t ↦ rw t (mask_scalar-secret k (str redacted_value) t)
    | inr f ↦ rw f (mask_scalar-plain k (strs l) f)
  ]
