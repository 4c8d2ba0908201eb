-- ===== src/Agent/Output.antt =====
-- internal/agent/output.go: the shaping of a result by --fields and --limit. The JSON round trip and what
-- reflection tells of the data are parameters; where Go panics, Apply returns `none`.
pub mod Shaped
pub mod Limits
mod Tests
use d9c.Base.{
  ◌<+>◌, ◌==◌, if◌then◌else◌, ◌&&◌, ◌||◌, not, Bool, true, false, ℕ, zero, suc, String, Option,
  none, some, List, [], ◌∷◌, ◌++◌, any, find_first, length, take, ltb, leb, join, quote, Result, ok,
  err,
}
use d9c.Base.Text.{decimal}
use d9c.Base.Int.{ℤ, pos, negsuc, ltb_ℤ, show_int}
use d9c.Base.Sort.{sort}
use d9c.Base.TextOrder.{text_le}
use d9c.Agent.Value.{Value, list, object, Items, nil, cons, Fields, end, field}
use d9c.Agent.OpResult.{OpResult}
use d9c.Agent.Error.{Error, errorf, with_hint, usage}

pub record Shape : Type 0 where
  pub fields : List String
  pub limit : ℤ

abbrev pub is_empty : {A : Type 0} → List A → Bool
is_empty [] = true
is_empty (x ∷ xs) = false

abbrev is_zero_ℤ : ℤ → Bool
is_zero_ℤ (pos zero) = true
is_zero_ℤ (pos (suc n)) = false
is_zero_ℤ (negsuc n) = false

-- Shape.IsZero
unfoldable pub is_zero : Shape → Bool
is_zero s = is_empty s.fields && is_zero_ℤ s.limit

unfoldable pub to_list : Items → List Value
to_list nil = []
to_list (cons v l) = v ∷ to_list l

unfoldable pub from_list : List Value → Items
from_list [] = nil
from_list (v ∷ l) = cons v (from_list l)

-- obj[key], and its assignment.
unfoldable pub get_field : String → Fields → Option Value
get_field key end = none
get_field key (field k v m) = let rest = get_field key m in if k == key then some v else rest

unfoldable pub put_field : String → Value → Fields → Fields
put_field key v end = field key v end
put_field key v (field k w m) =
    let rest = put_field key v m in if k == key then field k v m else field k w rest

abbrev pub items_of : Option Value → Option (List Value)
items_of (some (list l)) = some (to_list l)
items_of _ = none

abbrev pub object_of : Value → Option Fields
object_of (object m) = some m
object_of _ = none

-- SplitItems
unfoldable pub split_items : Value → String → Option (List Value)
unfolding to_list
split_items (list l) key = some (to_list l)
split_items (object m) key = if key == "" then none else items_of (get_field key m)
split_items _ key = none

-- joinItems
unfoldable pub join_items : Value → String → List Value → Value
join_items (object m) key items =
    if key == "" then list (from_list items) else object (put_field key (list (from_list items)) m)
join_items _ key items = list (from_list items)

-- joinHints
unfoldable pub join_hints : String → String → String
join_hints hint extra = if hint == "" then extra else hint <+> "; " <+> extra

-- project
unfoldable pub project : Fields → List String → Fields
project obj [] = end
project obj (f ∷ rest) = elim (get_field f obj) [
  | none ↦ project obj rest
  | some v ↦ put_field f v (project obj rest)
]

-- The loop of Apply that projects the items.
unfoldable pub project_each : List Value → List String → Option (List Value)
project_each [] fields = some []
project_each (object m ∷ rest) fields = elim (project_each rest fields) [
  | none ↦ none
  | some out ↦ some (object (project m fields) ∷ out)
]
project_each (v ∷ rest) fields = none

abbrev pub has_name : String → List String → Bool
has_name k names = any (λ n. n == k) names

-- The inner loop of checkFields: the keys of an item that are new.
unfoldable pub add_keys : Fields → List String → List String
add_keys end avail = avail
add_keys (field k v m) avail = add_keys m (if has_name k avail then avail else avail ++ (k ∷ []))

-- The loop of checkFields over the items; none where one is no object.
unfoldable pub available : List Value → List String → Option (List String)
available [] avail = some avail
available (object m ∷ rest) avail = available rest (add_keys m avail)
available (v ∷ rest) avail = none

-- checkFields; none for nil.
unfoldable pub check_fields : List String → List String → List Value → Option Error
check_fields fields known items = elim (available items known) [
  | none ↦ some (
      with_hint (errorf usage "--fields needs object items; this command lists plain values")
        "drop --fields")
  | some avail ↦ elim (find_first (λ f. not (has_name f avail)) fields) [
    | none ↦ none
    | some f ↦ some (
        with_hint (errorf usage ("unknown field " <+> quote f))
          ("available fields: " <+> join (sort text_le avail) ", "))
  ]
]

-- What Apply keeps of the items, and the result that tells of it.
unfoldable pub cut_items : ℤ → List Value → OpResult Value → List Value × OpResult Value
cut_items (negsuc n) items r = (items, r)
cut_items (pos n) items r =
    if ltb 0 n && ltb n (length items)
    then (
      take n items,
      record r {
        truncated = true;
        hint = join_hints r.hint (
            "showing the first "
            <+> decimal n
            <+> " of "
            <+> decimal (length items)
            <+> " items; raise --limit (0 = no limit)");
      },
    )
    else (items, r)

module _ (known : List String) (key : String) where
  -- The rest of Apply where the output is one object, or another single value.
  unfoldable pub shape_one : Shape → Value → OpResult Value → Result Error (OpResult Value)
  shape_one s g r =
      if ltb_ℤ (pos 0) s.limit
      then err (
          with_hint (errorf usage "--limit applies to list output; this command returns one object")
            "drop --limit")
      else if is_empty s.fields
      then ok (record r { content = g })
      else elim (object_of g) [
        | none ↦ err (errorf usage "--fields applies to object output")
        | some obj ↦ elim (check_fields s.fields known (g ∷ [])) [
          | some e ↦ err e
          | none ↦ ok (record r { content = object (project obj s.fields) })
        ]
      ]

  -- The rest of Apply where the output is a list.
  unfoldable pub shape_list :
      Shape → Value → List Value → OpResult Value → Option (Result Error (OpResult Value))
  shape_list s g items r =
      let (kept, r') = cut_items s.limit items r in
      if is_empty s.fields
      then some (ok (record r' { content = join_items g key kept }))
      else elim (check_fields s.fields known kept) [
        | some e ↦ some (err e)
        | none ↦ elim (project_each kept s.fields) [
          | none ↦ none
          | some out ↦ some (ok (record r' { content = join_items g key out }))
        ]
      ]

  -- Shape.Apply, with the data in its generic form or the error of making that.
  unfoldable pub apply :
      Shape → Result Error Value → OpResult Value → Option (Result Error (OpResult Value))
  apply s generic r =
      if is_zero s
      then some (ok r)
      else if ltb_ℤ s.limit (pos 0)
      then some
          (err (errorf usage ("--limit must be 0 (no limit) or more, got " <+> show_int s.limit)))
      else elim generic [
        | err e ↦ some (err e)
        | ok g ↦ elim (split_items g key) [
          | none ↦ some (shape_one s g r)
          | some items ↦ shape_list s g items r
        ]
      ]
