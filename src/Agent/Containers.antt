-- ===== src/Agent/Containers.antt =====
-- ops_lifecycle.go: the containers that references and filters select.
pub mod Resolve
use Prim.Native.String
use d9c.Base.{
  ◌<+>◌, ◌==◌, if◌then◌else◌, ◌&&◌, ◌||◌, not, Bool, true, false, ℕ, zero, suc, String, Option,
  none, some, List, [], ◌∷◌, ◌++◌, map, any, all, keep, find_first, ltb, length, join, quote,
  equal_fold, to_lower, trim_space, trim_prefix, has_prefix, cut, Result, ok, err, ◌>>=◌,
}
use d9c.Agent.Value.{Value, str, strs, integer, int, bool}
use d9c.Agent.Schema.{Args, lookup, contains_text}
use d9c.Agent.Error.{Error, errorf, with_hint, usage, not_found}

-- docker.Container, the fields that the commands read; its map of labels in the order of one iteration.
pub record Container : Type 0 where
  pub id : String
  pub name : String
  pub image : String
  pub state : String
  pub health : String
  pub labels : List (String × String)
  pub networks : List String

-- Args.String
unfoldable pub string_arg : Args → String → String
string_arg args name = elim (lookup name args) [ some (str s) ↦ s | _ ↦ "" ]

-- Args.Bool
unfoldable pub bool_arg : Args → String → Bool
bool_arg args name = elim (lookup name args) [ some (bool b) ↦ b | _ ↦ false ]

-- Args.Strings
unfoldable pub strings_arg : Args → String → List String
strings_arg args name = elim (lookup name args) [ some (strs l) ↦ l | _ ↦ [] ]

abbrev pub is_named : String → Container → Bool
is_named ref c = (c.name == trim_prefix ref "/") || (c.id == ref)

abbrev pub is_hit : String → Container → Bool
is_hit ref c =
    has_prefix c.id ref || (ltb (String.count c.id) (String.count ref) && has_prefix ref c.id)

-- The switch on the containers that a prefix hits.
unfoldable pub only_hit : String → List Container → Result Error Container
only_hit ref [] = err (
    with_hint (errorf not_found ("no such container: " <+> ref))
      "list the containers with `d9c ps -a`")
only_hit ref (c ∷ []) = ok c
only_hit ref (c ∷ d ∷ rest) = err (
    with_hint
      (errorf usage (
        "container prefix "
        <+> quote ref
        <+> " is ambiguous ("
        <+> join (map (λ x. x.name) (c ∷ d ∷ rest)) ", "
        <+> ")"))
      "use a longer ID prefix or the container name")

-- resolveContainer
unfoldable pub resolve_container : List Container → String → Result Error Container
resolve_container list ref =
    if ref == ""
    then err (errorf usage "empty container reference")
    else elim (find_first (is_named ref) list) [
      | some c ↦ ok c
      | none ↦ only_hit ref (keep (is_hit ref) list)
    ]

abbrev pub filter_help : String
filter_help =
    "Select containers by key=value (repeatable, all must match): name=<glob>, image=<glob>, status=<state>, label=<key>[=<value>], network=<name>, health=<healthy|unhealthy|starting|none>."

bad_filter : String → String → Error
bad_filter f why = with_hint (errorf usage ("bad filter " <+> quote f <+> ": " <+> why)) filter_help

-- The test of one label: a key, and the value that is wanted of it, if any.
unfoldable pub has_label : String → Option String → Container → Bool
has_label k want c = elim (lookup k c.labels) [
  | none ↦ false
  | some got ↦ elim want [ none ↦ true | some v ↦ got == v ]
]

-- path.Match, of a pattern and a name; `none` on a malformed pattern.
module _ (path_match : String → String → Option Bool) where
  abbrev glob : String → String → Bool
  glob val s = elim (path_match val s) [ some b ↦ b | none ↦ false ]

  -- filterPredicate
  unfoldable pub filter_predicate : String → String → Result String (Container → Bool)
  filter_predicate key val =
      if (key == "name") || (key == "image")
      then elim (path_match val "") [
        | none ↦ err ("invalid glob " <+> quote val)
        | some _ ↦ ok (λ c. glob val (if key == "image" then c.image else c.name))
      ]
      else if key == "status"
      then ok (λ c. equal_fold c.state val)
      else if key == "health"
      then ok (λ c. equal_fold c.health (if to_lower val == "none" then "" else to_lower val))
      else if key == "label"
      then ok (has_label (cut val "=").0 (cut val "=").1)
      else if key == "network"
      then ok (λ c. contains_text c.networks val)
      else err ("unknown key " <+> quote key)

  -- One round of the loop of parseContainerFilter.
  unfoldable pub parse_filter : String → Result Error (Container → Bool)
  unfolding bad_filter
  parse_filter f =
      let (key, value) = cut f "=" in
      elim value [
        | none ↦ err (bad_filter f "want key=value")
        | some val ↦
            if val == ""
            then err (bad_filter f "want key=value")
            else elim (filter_predicate (to_lower (trim_space key)) val) [
              | err why ↦ err (bad_filter f why)
              | ok p ↦ ok p
            ]
      ]

  unfoldable pub parse_filters : List String → Result Error (List (Container → Bool))
  parse_filters [] = ok []
  parse_filters (f ∷ rest) = parse_filter f >>= (λ p. parse_filters rest >>= (λ ps. ok (p ∷ ps)))

  -- parseContainerFilter; `none` for a nil matcher.
  unfoldable pub parse_container_filter : List String → Result Error (Option (Container → Bool))
  parse_container_filter [] = ok none
  parse_container_filter (f ∷ rest) =
      parse_filters (f ∷ rest) >>= (λ ps. ok (some (λ c. all (λ p. p c) ps)))
