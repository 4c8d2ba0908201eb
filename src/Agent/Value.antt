-- ===== src/Agent/Value.antt =====
-- The values of `any` that the frontends pass as arguments and that engines return: what
-- encoding/json and the flag parser produce, and package fmt's %T and %v of them.
use d9c.Base.{
  ◌<+>◌, ◌==◌, if◌then◌else◌, ◌&&◌, ◌||◌, Bool, true, false, ℕ, zero, suc, ◌+◌, ◌-◌, ◌*◌, ◌^◌,
  String, code, Option, none, some, List, ltb, leb, eqb, join,
}
use d9c.Base.Int.{ℤ, pos, negsuc, show_int}

-- A float64: whole, with a fraction (its text is kept), infinite or not a number.
pub data Float64 : Type 0 where
  whole : ℤ → Float64
  fractional : String → Float64
  infinite : Bool → Float64
  nan : Float64

pub data IntKind : Type 0 where
  int int32 int64 : IntKind

mutual
  pub data Value : Type 0 where
    null : Value
    str : String → Value
    integer : IntKind → ℤ → Value
    float : Float64 → Value
    number : String → Value
    bool : Bool → Value
    strs : List String → Value
    list : Items → Value
    object : Fields → Value

  pub data Items : Type 0 where
    nil : Items
    cons : Value → Items → Items

  pub data Fields : Type 0 where
    end : Fields
    field : String → Value → Fields → Fields

-- %T
unfoldable pub type_name : Value → String
type_name null = "<nil>"
type_name (str s) = "string"
type_name (integer int n) = "int"
type_name (integer int32 n) = "int32"
type_name (integer int64 n) = "int64"
type_name (float x) = "float64"
type_name (number s) = "json.Number"
type_name (bool b) = "bool"
type_name (strs l) = "[]string"
type_name (list l) = "[]interface {}"
type_name (object m) = "map[string]interface {}"

show_float : Float64 → String
show_float (whole n) = show_int n
show_float (fractional s) = s
show_float (infinite negative) = if negative then "-Inf" else "+Inf"
show_float nan = "NaN"

-- %v
mutual
  show_value : Value → String
  show_value null = "<nil>"
  show_value (str s) = s
  show_value (integer k n) = show_int n
  show_value (float x) = show_float x
  show_value (number s) = s
  show_value (bool b) = if b then "true" else "false"
  show_value (strs l) = "[" <+> join l " " <+> "]"
  show_value (list l) = "[" <+> show_items l <+> "]"
  show_value (object m) = "map[" <+> show_fields m <+> "]"

  show_items : Items → String
  show_items nil = ""
  show_items (cons v nil) = show_value v
  show_items (cons v l) = show_value v <+> " " <+> show_items l

  show_fields : Fields → String
  show_fields end = ""
  show_fields (field k v end) = k <+> ":" <+> show_value v
  show_fields (field k v m) = k <+> ":" <+> show_value v <+> " " <+> show_fields m

unfoldable pub value_text : Value → String
unfolding show_value show_float
value_text v = show_value v

-- The number that a run of decimal digits stands for.
digits : ℕ → String → Option ℕ
digits n String.[] = some n
digits n (String.◌∷◌ c s) =
    if leb b'0' (code c) && leb (code c) b'9' then digits (n * 10 + (code c - b'0')) s else none

unsigned : String → Option ℕ
unfolding digits
unsigned s = if s == "" then none else digits 0 s

negate : ℕ → ℤ
negate zero = pos 0
negate (suc n) = negsuc n

positive_int : Option ℕ → Option ℤ
positive_int none = none
positive_int (some n) = if ltb n (2 ^ 63) then some (pos n) else none

negative_int : Option ℕ → Option ℤ
unfolding negate
negative_int none = none
negative_int (some n) = if leb n (2 ^ 63) then some (negate n) else none

-- strconv.Atoi, and json.Number.Int64, on a machine with words of 64 bits.
unfoldable pub parse_int : String → Option ℤ
unfolding unsigned positive_int negative_int
parse_int String.[] = none
parse_int (String.◌∷◌ c s) =
    if eqb (code c) b'-'
    then negative_int (unsigned s)
    else if eqb (code c) b'+'
    then positive_int (unsigned s)
    else positive_int (unsigned (String.◌∷◌ c s))

-- strconv.ParseBool
unfoldable pub parse_bool : String → Option Bool
parse_bool s =
    if s == "1" || s == "t" || s == "T" || s == "TRUE" || s == "true" || s == "True"
    then some true
    else if s == "0" || s == "f" || s == "F" || s == "FALSE" || s == "false" || s == "False"
    then some false
    else none
