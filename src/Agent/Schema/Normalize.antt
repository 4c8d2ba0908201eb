-- ===== src/Agent/Schema/Normalize.antt =====
-- Schema.Normalize: the arguments of a call, checked and converted.
pub mod Laws
use d9c.Base.{
  ◌<+>◌, if◌then◌else◌, Bool, true, false, String, Option, none, some, List, [], ◌∷◌, quote, Result,
  ok, err, ◌>>=◌,
}
use d9c.Agent.Error.{Error, errorf, with_hint, usage}
use d9c.Agent.Value.{Value, null}
use d9c.Agent.Schema.{Property, Schema, Args, lookup, coerce, property_usage, property_list}

unknown_argument : Schema → String → Error
unknown_argument s name =
    with_hint (errorf usage ("unknown argument " <+> quote name))
      ("valid arguments: " <+> property_list s)

-- The loop over the names given.
unfoldable pub check_names : Schema → Args → Result Error (Unit {0})
unfolding unknown_argument
check_names s [] = ok tt
check_names s ((name, v) ∷ rest) = elim (lookup name s.properties) [
  | none ↦ err (unknown_argument s name)
  | some p ↦ check_names s rest
]

-- A JSON null counts as missing.
unfoldable pub given : Args → String → Option Value
unfolding lookup
given args name = elim (lookup name args) [ none ↦ none | some null ↦ none | some v ↦ some v ]

-- The default, where it converts.
unfoldable pub default_of : Property → Option Value
default_of p = elim p.default [
  | none ↦ none
  | some d ↦ elim (coerce p d) [ ok v ↦ some v | err _ ↦ some null ]
]

bad_argument : Property → String → String → Error
bad_argument p name e =
    with_hint (errorf usage ("argument " <+> quote name <+> ": " <+> e)) (property_usage p name)

-- What one property contributes to the result.
unfoldable pub convert : Args → String → Property → Result Error (Option Value)
unfolding bad_argument
convert args name p = elim (given args name) [
  | none ↦ ok (default_of p)
  | some raw ↦ elim (coerce p raw) [ ok v ↦ ok (some v) | err e ↦ err (bad_argument p name e) ]
]

abbrev pub add : String → Option Value → Args → Args
add name none out = out
add name (some v) out = (name, v) ∷ out

-- The loop over the properties.
unfoldable pub convert_all : Args → List (String × Property) → Result Error Args
convert_all args [] = ok []
convert_all args ((name, p) ∷ rest) =
    convert args name p >>= λ v. convert_all args rest >>= λ out. ok (add name v out)

missing_argument : Schema → String → Error
missing_argument s r =
    with_hint (errorf usage ("missing required argument " <+> quote r))
      (elim (lookup r s.properties) [ none ↦ "" | some p ↦ property_usage p r ])

-- The loop over the required names.
unfoldable pub check_required : Schema → Args → List String → Result Error (Unit {0})
unfolding missing_argument
check_required s out [] = ok tt
check_required s out (r ∷ rest) = elim (lookup r out) [
  | none ↦ err (missing_argument s r)
  | some v ↦ check_required s out rest
]

-- Schema.Normalize
unfoldable pub normalize : Schema → Args → Result Error Args
normalize s args = check_names s args >>= λ _.
    convert_all args s.properties >>= λ out. check_required s out s.required >>= λ _. ok out
