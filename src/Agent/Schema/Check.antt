-- ===== src/Agent/Schema/Check.antt =====
-- Schema.check: what a declaration of arguments has to satisfy.
use Prim.Native.String.{len, char_at}
use d9c.Base.{
  ◌<+>◌, ◌==◌, if◌then◌else◌, ◌&&◌, ◌||◌, not, Bool, true, false, ℕ, String, code, none, some, List,
  [], ◌∷◌, leb, eqb, length, quote, equal_fold, Result, ok, err, ◌>>=◌,
}
use d9c.Agent.Schema.{Property, Schema, lookup, contains_text, coerce}

abbrev pub reserved_args : List String
reserved_args = "output" ∷ "fields" ∷ "limit" ∷ "dry_run" ∷ "dry-run" ∷ "yes" ∷ []

-- The variables of the loop over the properties: `shorts` from the latest, and `positional`.
pub record Seen : Type 0 where
  pub shorts : List (String × String)
  pub positional : String

is_letter : ℕ → Bool
is_letter c = (leb b'A' c && leb c b'Z') || (leb b'a' c && leb c b'z')

bad_short : String → Bool
unfolding is_letter
bad_short s =
    not (eqb (len s) 1)
    || not (is_letter (code (char_at s 0)))
    || equal_fold s "h"
    || s == "o"
    || s == "y"

about : String → String → String
about name what = "property " <+> quote name <+> ": " <+> what

-- The short alias of a property.
check_short : Seen → String → Property → Result String Seen
unfolding bad_short about lookup
check_short seen name p =
    if p.short == ""
    then ok seen
    else if bad_short p.short
    then err
        (about name ("short alias must be one letter other than h/H/o/y, got " <+> quote p.short))
    else elim (lookup p.short seen.shorts) [
      | some other ↦
          err (about name ("short alias -" <+> p.short <+> " already used by " <+> quote other))
      | none ↦ ok (record seen { shorts = (p.short, name) ∷ seen.shorts })
    ]

check_type : String → Property → Result String (Unit {0})
unfolding about
check_type name p =
    if p.type_ == "string" || p.type_ == "integer" || p.type_ == "boolean"
    then ok tt
    else if p.type_ == "array"
    then (if (elim p.items [ none ↦ false | some t ↦ t == "string" ])
        then ok tt
        else err (about name "only string arrays are supported"))
    else err (about name ("unsupported type " <+> quote p.type_))

check_limits : String → Property → Result String (Unit {0})
unfolding about
check_limits name p =
    if p.description == ""
    then err (about name "missing description")
    else if leb 1 (length p.enum) && not (p.type_ == "string")
    then err (about name "enum is only supported on strings")
    else if (elim p.minimum [ none ↦ false | some _ ↦ true ]) && not (p.type_ == "integer")
    then err (about name "minimum is only supported on integers")
    else ok tt

check_positional : List String → Seen → String → Property → Result String Seen
unfolding about
check_positional required seen name p =
    if not p.positional
    then ok seen
    else if not (p.type_ == "array") || contains_text required name
    then err (about name "only an optional string array can be positional")
    else if not (seen.positional == "")
    then err (about name (quote seen.positional <+> " is already positional"))
    else ok (record seen { positional = name })

check_default : String → Property → Result String (Unit {0})
unfolding about
check_default name p = elim p.default [
  | none ↦ ok tt
  | some d ↦ elim (coerce p d) [ ok _ ↦ ok tt | err e ↦ err (about name ("bad default: " <+> e)) ]
]

-- The body of the loop over the properties.
unfoldable pub check_property : List String → Seen → String → Property → Result String Seen
unfolding check_short check_type check_limits check_positional check_default
check_property required seen name p =
    if contains_text reserved_args name
    then err
        (about name "name is reserved for the frontend options (output, dry run, confirmation)")
    else do
      seen' ← check_short seen name p
      _ ← check_type name p
      _ ← check_limits name p
      seen'' ← check_positional required seen' name p
      _ ← check_default name p
      ok seen''

unfoldable pub check_properties :
    List String → Seen → List (String × Property) → Result String (Unit {0})
check_properties required seen [] = ok tt
check_properties required seen ((name, p) ∷ rest) =
    check_property required seen name p >>= λ seen'. check_properties required seen' rest

unfoldable pub check_declared : Schema → List String → Result String (Unit {0})
unfolding lookup
check_declared s [] = ok tt
check_declared s (r ∷ rest) = elim (lookup r s.properties) [
  | none ↦ err ("required property " <+> quote r <+> " is not declared")
  | some _ ↦ check_declared s rest
]

-- Schema.check of a schema whose pointers are not nil.
unfoldable pub check : Schema → Result String (Unit {0})
check s =
    if not (s.type_ == "object")
    then err "argument schema must be an object"
    else check_properties s.required (record { shorts = []; positional = "" }) s.properties >>= λ _.
        check_declared s s.required
