-- ===== src/Keymap.antt =====
-- internal/keymap/keymap.go: the keys of the actions. Go goes over a map in an order of its own: the
-- orders of the two loops over maps are arguments. The file and its parser are parameters.
pub mod Actions
pub mod Index
pub mod Resolved
mod Tests
use d9c.Base.{
  ◌≡◌, refl, Bool, true, false, ◌||◌, String, Option, none, some, List, [], ◌∷◌, map, any,
  find_first, Result, ok, err, ◌>>=◌, ◌<+>◌, ◌==◌, if◌then◌else◌, trim_space, to_lower, equal_fold,
  join, quote, default,
}

pub data Action : Type 0 where
  inspect : Action
  logs : Action
  edit : Action
  exec : Action
  filter : Action
  command : Action
  toggle_all : Action
  stats : Action
  select : Action
  copy : Action
  refresh : Action
  pause : Action
  help : Action
  port_forward : Action

-- The text of an Action, which Go compares.
abbrev pub text : Action → String
text inspect = "inspect"
text logs = "logs"
text edit = "edit"
text exec = "exec"
text filter = "filter"
text command = "command"
text toggle_all = "toggle-all"
text stats = "stats"
text select = "select"
text copy = "copy"
text refresh = "refresh"
text pause = "pause"
text help = "help"
text port_forward = "port-forward"

abbrev pub action_order : List Action
action_order =
    inspect ∷ logs ∷ edit ∷ exec ∷ filter ∷ command ∷ toggle_all ∷ stats ∷ select ∷ copy ∷ refresh
    ∷ pause ∷ help ∷ port_forward ∷ []

abbrev pub defaults : Action → String
defaults inspect = "i"
defaults logs = "l"
defaults edit = "e"
defaults exec = "x"
defaults filter = "/"
defaults command = ":"
defaults toggle_all = "a"
defaults stats = "s"
defaults select = " "
defaults copy = "y"
defaults refresh = "r"
defaults pause = "p"
defaults help = "?"
defaults port_forward = "F"

abbrev pub reserved : List String
reserved = "enter" ∷ "esc" ∷ "escape" ∷ "q" ∷ "ctrl+c" ∷ []

unfoldable pub is_reserved : String → Bool
is_reserved key = any (λ k. k == key) reserved

-- Map
pub record KeyMap : Type 0 where
  pub by_action : Action → String
  pub by_key : List (String × Action)

-- A Go map's entry; the entry that was put last stands first.
unfoldable pub lookup : {A : Type 0} → String → List (String × A) → Option A
lookup key entries = elim (find_first (λ e. e.0 == key) entries) [ none ↦ none | some e ↦ some e.1 ]

-- The loop of build, in the order of its range.
unfoldable pub index_keys :
    (Action → String) → List Action → List (String × Action) → List (String × Action)
index_keys by_action [] entries = entries
index_keys by_action (a ∷ rest) entries = index_keys by_action rest ((by_action a, a) ∷ entries)

unfoldable pub build : List Action → (Action → String) → KeyMap
unfolding index_keys
build order by_action = record { by_action = by_action; by_key = index_keys by_action order [] }

-- Default
unfoldable pub default_map : List Action → KeyMap
unfolding build
default_map order = build order defaults

-- Map.KeyFor
unfoldable pub key_for : KeyMap → Action → String
key_for m a = m.by_action a

-- Map.ActionFor
unfoldable pub action_for : KeyMap → String → Option Action
unfolding lookup
action_for m key = lookup key m.by_key

-- Names
unfoldable pub names : List String
names = map text action_order

-- The key of `defaults` that a text is.
unfoldable pub find_action : String → Option Action
find_action name = find_first (λ a. text a == name) action_order

-- normalizeKey
unfoldable pub normalize_key : String → String
normalize_key s = let key = trim_space s in if equal_fold key "space" then " " else key

unfoldable pub display : String → String
display key = if key == " " then "space" else key

-- Map.Display
unfoldable pub display_for : KeyMap → Action → String
unfolding display
display_for m a = display (m.by_action a)

-- byAction[name] = key
abbrev pub bind : (Action → String) → Action → String → Action → String
bind by_action name key a = if text a == text name then key else by_action a

-- The loop of Resolve over the overrides.
unfoldable pub override :
    List (String × String) → (Action → String) → Result String (Action → String)
unfolding find_action names normalize_key is_reserved
override [] by_action = ok by_action
override ((raw_name, raw_key) ∷ rest) by_action =
    elim (find_action (to_lower (trim_space raw_name))) [
      | none ↦
          err ("unknown action " <+> quote raw_name <+> " (valid: " <+> join names ", " <+> ")")
      | some name ↦
          let key = normalize_key raw_key in
          let bound = override rest (bind by_action name key) in
          if key == ""
          then err ("action " <+> quote raw_name <+> ": empty key")
          else if is_reserved key
          then err (
              "action "
              <+> quote raw_name
              <+> ": key "
              <+> quote key
              <+> " is reserved (fixed: enter, esc, q, ctrl+c)")
          else bound
    ]

-- The loop of checkConflicts, with what it has seen; none for nil.
unfoldable pub conflict : (Action → String) → List Action → List (String × Action) → Option String
unfolding lookup display
conflict by_action [] seen = none
conflict by_action (a ∷ rest) seen =
    let key = by_action a in
    let later = conflict by_action rest ((key, a) ∷ seen) in
    elim (lookup key seen) [
      | some other ↦ some (
          "key "
          <+> quote (display key)
          <+> " is bound to both "
          <+> quote (text other)
          <+> " and "
          <+> quote (text a))
      | none ↦ later
    ]

-- checkConflicts
unfoldable pub check_conflicts : (Action → String) → Option String
unfolding conflict
check_conflicts by_action = conflict by_action action_order []

abbrev pub built : List Action → (Action → String) → Result String KeyMap
built order by_action = elim (check_conflicts by_action) [
  | some problem ↦ err problem
  | none ↦ ok (build order by_action)
]

-- Resolve
unfoldable pub resolve : List Action → List (String × String) → Result String KeyMap
unfolding override check_conflicts build
resolve order overrides = override overrides defaults >>= built order

-- An error of os.ReadFile, and whether the file is missing.
pub record ReadError : Type 0 where
  pub text : String
  pub is_missing : Bool

-- Load, with what ReadFile gives and what yaml.Unmarshal makes of it.
unfoldable pub load :
    (String → Result ReadError String)
    → (String → Result String (List (String × String)))
    → List Action
    → String
    → Result String KeyMap
unfolding default_map resolve
load read_file parse order path = elim (read_file path) [
  | err e ↦ if e.is_missing then ok (default_map order) else err ("read config file: " <+> e.text)
  | ok bytes ↦ elim (parse bytes) [
    | err e ↦ err ("parse config file " <+> path <+> ": " <+> e)
    | ok overrides ↦ resolve order overrides
  ]
]
