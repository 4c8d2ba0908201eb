-- ===== src/Agent/Schema.antt =====
-- schema.go: what an operation accepts, and the conversion of its arguments.
pub mod Normalize
pub mod Check
pub mod Converted
use Prim.Native.String.{len, char_at}
use d9c.Base.{
  ◌<+>◌, ◌==◌, if◌then◌else◌, ◌&&◌, ◌||◌, not, Bool, true, false, ℕ, suc, ◌≡◌, String, code, Option,
  none, some, List, [], ◌∷◌, map, any, leb, eqb, length, join, quote, equal_fold, decimal, Result,
  ok, err, ◌>>=◌,
}
use d9c.Base.Int.{ℤ, ltb_ℤ, show_int}
use d9c.Base.Sort.{sort}
use d9c.Base.TextOrder.{text_le}
use d9c.Agent.Value.{
  Value, null, str, integer, float, number, bool, strs, list, object, Items, nil, cons, Float64,
  whole, int, type_name, value_text, parse_int, parse_bool,
}
use d9c.Agent.Error.{Error, errorf, with_hint, usage}

-- A property: a Schema of a scalar or of a list of strings. Of `Items` only the type is read.
pub record Property : Type 0 where
  pub type_ : String
  pub description : String
  pub items : Option String
  pub enum : List String
  pub default : Option Value
  pub minimum : Option ℤ
  pub short : String
  pub positional : Bool

-- A Schema of an argument object; its map of properties in the order of one iteration.
pub record Schema : Type 0 where
  pub type_ : String
  pub properties : List (String × Property)
  pub required : List String

-- A map from names, in the order of one iteration.
abbrev pub Args : Type 0
Args = List (String × Value)

module _ {ℓ} {V : Type ℓ} where
  unfoldable pub lookup : String → List (String × V) → Option V
  lookup k [] = none
  lookup k ((j, v) ∷ m) = if j == k then some v else lookup k m

-- slices.Contains
unfoldable pub contains_text : List String → String → Bool
contains_text l s = any (λ t. t == s) l

show_list : List String → String
show_list l = "[" <+> join l " " <+> "]"

coerce_string : Property → Value → Result String Value
coerce_string p (str s) =
    if (leb 1 (length p.enum)) && not (contains_text p.enum s)
    then err (quote s <+> " is not one of " <+> show_list p.enum)
    else ok (str s)
coerce_string p v = err ("want a string, got " <+> type_name v)

want_integer : String → Result String ℤ
want_integer s = err ("want an integer, got " <+> s)

-- toInt, without the truncation of an integer to the machine's word.
unfoldable pub to_int : Value → Result String ℤ
unfolding want_integer
to_int (integer k n) = ok n
to_int (float (whole n)) = ok n
to_int (float x) = want_integer (value_text (float x))
to_int (number s) = elim (parse_int s) [ some n ↦ ok n | none ↦ want_integer s ]
to_int (str s) = elim (parse_int s) [ some n ↦ ok n | none ↦ want_integer (quote s) ]
to_int v = want_integer (type_name v)

at_least : Option ℤ → ℤ → Result String Value
at_least none n = ok (integer int n)
at_least (some m) n =
    if ltb_ℤ n m
    then err (show_int n <+> " is below the minimum " <+> show_int m)
    else ok (integer int n)

coerce_bool : Value → Result String Value
coerce_bool (bool b) = ok (bool b)
coerce_bool (str s) = elim (parse_bool s) [
  | some b ↦ ok (bool b)
  | none ↦ err ("want a boolean, got " <+> s)
]
coerce_bool v = err ("want a boolean, got " <+> value_text v)

-- The loop over the items, from an index on.
string_items : ℕ → Items → Result String (List String)
string_items i nil = ok []
string_items i (cons (str s) l) = string_items (suc i) l >>= λ rest. ok (s ∷ rest)
string_items i (cons v l) = err ("item " <+> decimal i <+> ": want a string, got " <+> type_name v)

coerce_array : Value → Result String Value
unfolding string_items
coerce_array (strs l) = ok (strs l)
coerce_array (list l) = string_items 0 l >>= λ out. ok (strs out)
coerce_array v = err ("want a list of strings, got " <+> type_name v)

-- Schema.coerce
unfoldable pub coerce : Property → Value → Result String Value
unfolding coerce_string show_list to_int at_least coerce_bool coerce_array
coerce p v =
    if p.type_ == "string"
    then coerce_string p v
    else if p.type_ == "integer"
    then (do n ← to_int v; at_least p.minimum n)
    else if p.type_ == "boolean"
    then coerce_bool v
    else if p.type_ == "array"
    then coerce_array v
    else err ("unsupported type " <+> quote p.type_)

-- Schema.usage
unfoldable pub property_usage : Property → String → String
property_usage p name =
    name
    <+> " ("
    <+> (if p.type_ == "array" then "list of strings" else p.type_)
    <+> "): "
    <+> p.description

-- Schema.propertyList
unfoldable pub property_list : Schema → String
unfolding sort
property_list s =
    if eqb (length s.properties) 0
    then "none"
    else join (sort text_le (map (λ p. p.0) s.properties)) ", "
