-- ===== src/Agent/Redact.antt =====
-- internal/agent/redact.go: the masking of secrets in the environments of a decoded tree. What Go changes
-- in place is returned, with how many values were masked. A map is its entries in the order of
-- one iteration.
pub mod Hidden
pub mod Again
mod Tests
use d9c.Base.{
  ◌<+>◌, ◌==◌, if◌then◌else◌, ◌&&◌, ◌||◌, not, Bool, true, false, ℕ, ◌+◌, String, Option, none,
  some, List, [], ◌∷◌, any, contains, to_upper, to_lower, cut, decimal, or_else,
}
use d9c.Agent.Value.{
  Value, null, str, integer, float, number, bool, strs, list, object, Items, nil, cons, Fields, end,
  field,
}

abbrev pub redacted_value : String
redacted_value = "<redacted>"

abbrev pub secret_markers : List String
secret_markers = "PASS" ∷ "TOKEN" ∷ "SECRET" ∷ "KEY" ∷ []

-- envKeys
unfoldable pub is_env_key : String → Bool
is_env_key k = any (λ e. to_lower k == e) ("env" ∷ "envs" ∷ "environment" ∷ [])

-- isSecretName
unfoldable pub is_secret_name : String → Bool
is_secret_name name = any (λ m. contains (to_upper name) m) secret_markers

-- A value that is a text.
abbrev pub text_of : Value → Option String
text_of (str s) = some s
text_of v = none

-- The entry of a map that is a text.
unfoldable pub string_field : String → Fields → Option String
string_field k end = none
string_field k (field k' v m) = let rest = string_field k m in if k' == k then text_of v else rest

-- envItemName
unfoldable pub env_item_name : Fields → Option String
unfolding string_field
env_item_name item = or_else (string_field "key" item) (string_field "name" item)

-- Whether a map has an entry.
unfoldable pub has_field : String → Fields → Bool
has_field k end = false
has_field k (field k' v m) = (k' == k) || has_field k m

-- item["value"] = redactedValue, where the map has such an entry.
unfoldable pub mask_value : Fields → Fields
mask_value end = end
mask_value (field k v m) = field k (if k == "value" then str redacted_value else v) (mask_value m)

abbrev pub names_secret : Fields → Bool
names_secret item = elim (env_item_name item) [ none ↦ false | some name ↦ is_secret_name name ]

-- The switch on an item of a list in redactEnvValue.
unfoldable pub mask_item : Value → Value × ℕ
unfolding env_item_name has_field mask_value is_secret_name
mask_item (str s) =
    let (name, value) = cut s "=" in
    elim value [
      | none ↦ (str s, 0)
      | some v ↦
          if is_secret_name name then (str (name <+> "=" <+> redacted_value), 1) else (str s, 0)
    ]
mask_item (object item) =
    if has_field "value" item && names_secret item
    then (object (mask_value item), 1)
    else (object item, 0)
mask_item null = (null, 0)
mask_item (integer i n) = (integer i n, 0)
mask_item (float x) = (float x, 0)
mask_item (number s) = (number s, 0)
mask_item (bool b) = (bool b, 0)
mask_item (strs l) = (strs l, 0)
mask_item (list l) = (list l, 0)

unfoldable pub mask_items : Items → Items × ℕ
unfolding mask_item
mask_items nil = (nil, 0)
mask_items (cons e l) =
    let (l', n) = mask_items l in let (e', n') = mask_item e in (cons e' l', n' + n)

-- The value of a variable of a map, one that is no list and no map.
abbrev pub mask_scalar : String → Value → Value × ℕ
mask_scalar k v = if is_secret_name k then (str redacted_value, 1) else (v, 0)

unfoldable mutual
  -- redactEnv
  pub redact_env : Value → Value × ℕ
  redact_env (list l) = let (l', n) = redact_items l in (list l', n)
  redact_env (object m) = let (m', n) = redact_fields m in (object m', n)
  redact_env null = (null, 0)
  redact_env (str s) = (str s, 0)
  redact_env (integer i n) = (integer i n, 0)
  redact_env (float x) = (float x, 0)
  redact_env (number s) = (number s, 0)
  redact_env (bool b) = (bool b, 0)
  redact_env (strs l) = (strs l, 0)

  pub redact_items : Items → Items × ℕ
  redact_items nil = (nil, 0)
  redact_items (cons e l) =
      let (l', n) = redact_items l in let (e', n') = redact_env e in (cons e' l', n' + n)

  pub redact_fields : Fields → Fields × ℕ
  redact_fields end = (end, 0)
  redact_fields (field k e m) =
      let (m', n) = redact_fields m in
      let (e', n') = if is_env_key k then redact_env_value e else redact_env e in
      (field k e' m', n' + n)

  -- redactEnvValue
  pub redact_env_value : Value → Value × ℕ
  redact_env_value (list l) = let (l', n) = mask_items l in (list l', n)
  redact_env_value (object m) = let (m', n) = mask_fields m in (object m', n)
  redact_env_value null = (null, 0)
  redact_env_value (str s) = (str s, 0)
  redact_env_value (integer i n) = (integer i n, 0)
  redact_env_value (float x) = (float x, 0)
  redact_env_value (number s) = (number s, 0)
  redact_env_value (bool b) = (bool b, 0)
  redact_env_value (strs l) = (strs l, 0)

  pub mask_fields : Fields → Fields × ℕ
  mask_fields end = (end, 0)
  mask_fields (field k e m) =
      let (m', n) = mask_fields m in let (e', n') = mask_entry k e in (field k e' m', n' + n)

  pub mask_entry : String → Value → Value × ℕ
  mask_entry k (list l) = let (l', n) = redact_items l in (list l', n)
  mask_entry k (object m) = let (m', n) = redact_fields m in (object m', n)
  mask_entry k null = (null, 0)
  mask_entry k (str s) = mask_scalar k (str s)
  mask_entry k (integer i n) = mask_scalar k (integer i n)
  mask_entry k (float x) = mask_scalar k (float x)
  mask_entry k (number s) = mask_scalar k (number s)
  mask_entry k (bool b) = mask_scalar k (bool b)
  mask_entry k (strs l) = mask_scalar k (strs l)

-- redactHint
unfoldable pub redact_hint : ℕ → String
redact_hint n = decimal n <+> " secret-looking env value(s) masked; pass --no-redact to show them"
