-- ===== src/Ui/Cmdline.antt =====
-- internal/ui/cmdline/cmdline.go: the commands of the interface's command line and their completion. The
-- hints and placeholders are the English ones; the text input is its value.
pub mod Commands
pub mod Completion
use d9c.Base.{
  ◌≡◌, Bool, true, false, not, ◌&&◌, ◌||◌, String, Option, none, some, List, [], ◌∷◌, ◌++◌, map,
  any, keep, find_first, if◌then◌else◌, ◌<+>◌, ◌==◌, to_lower, fields, join, has_prefix, drop_text,
}
use Prim.Native.String
unfoldable pub use Commands.*

-- Model, with the value of its text input.
pub record Model : Type 0 where
  pub value : String
  pub placeholder : String
  pub last_err : String
  pub resource : String
  pub plugin_cmds : List CmdDef
  pub host_compose : Bool
  pub read_only : Bool

-- Model.updatePlaceholder
unfoldable pub update_placeholder : Model → Model
update_placeholder m =
    let available =
      map (λ c. c.name) (read_only_filter m.resource (resource_cmds m.resource m.host_compose))
      ++ ("events" ∷ []) in
    record m {
      placeholder =
          if m.read_only
          then join available "  " <+> "…"
          else if m.resource == "images"
          then "run  exec  build <dir> [tag]  tag <new-ref>  push  history  pull  rm [-f]  prune…"
          else if m.resource == "networks"
          then "create  rm  networks  containers…"
          else if m.resource == "volumes"
          then "create  rm  prune  volumes  containers…"
          else if m.resource == "hosts"
          then "connect  add <name> <url>  edit <name> <url>  rm…"
          else if m.resource == "compose"
          then (if m.host_compose
              then "create <dir>  up  down  pull  config  edit  backup  start  stop  restart  pause  unpause  remove…"
              else "backups  start  stop  restart  pause  unpause  remove…")
          else "run  start  stop  restart  logs  rm  kill  exec  events…";
    }

-- Model.SetResource
unfoldable pub set_resource : String → Model → Model
unfolding update_placeholder
set_resource r m = update_placeholder (record m { resource = r })

-- Model.SetHostCompose
unfoldable pub set_host_compose : Bool → Model → Model
unfolding update_placeholder
set_host_compose v m = update_placeholder (record m { host_compose = v })

-- Model.SetReadOnly
unfoldable pub set_read_only : Bool → Model → Model
unfolding update_placeholder
set_read_only v m = update_placeholder (record m { read_only = v })

-- Model.SetPluginCommands
unfoldable pub set_plugin_commands : List String → Model → Model
set_plugin_commands names m = record m { plugin_cmds = map (λ n. cmd n "(plugin)") names }

-- Model.builtinCommands
unfoldable pub builtin_commands : Model → List CmdDef
builtin_commands m = resource_cmds m.resource m.host_compose ++ view_cmds

-- Model.IsBuiltin
unfoldable pub is_builtin : String → Model → Bool
unfolding builtin_commands
is_builtin name m = any (λ c. c.name == name) (builtin_commands m)

-- CommandsFor
unfoldable pub commands_for : String → Bool → Bool → List CmdDef
commands_for resource host_compose read_only =
    let specific = resource_cmds resource host_compose in
    if read_only then read_only_filter resource specific else specific

-- Model.commands
unfoldable pub commands : Model → List CmdDef
commands m =
    (if m.read_only then read_only_filter m.resource (builtin_commands m) else builtin_commands m)
    ++ m.plugin_cmds

-- Model.Parse: the name and the arguments.
unfoldable pub parse : Model → Option (String × List String)
parse m = elim (fields m.value) [ [] ↦ none | name ∷ args ↦ some (to_lower name, args) ]

-- ghostResult
pub record Ghost : Type 0 where
  pub completion : String
  pub hint : String

abbrev pub no_ghost : Ghost
no_ghost = record { completion = ""; hint = "" }

-- strings.HasSuffix(s, " ")
unfoldable pub ends_in_space : String → Bool
ends_in_space String.[] = false
ends_in_space (String.◌∷◌ c String.[]) = String.◌∷◌ c "" == " "
ends_in_space (String.◌∷◌ c (String.◌∷◌ d s)) = ends_in_space (String.◌∷◌ d s)

-- What is suggested for one word that no space follows: an exact match wins over a prefix.
unfoldable pub complete : List CmdDef → String → Ghost
complete cmds name = elim (find_first (λ c. c.name == name) cmds) [
  | some c ↦ record { completion = ""; hint = c.hint }
  | none ↦ elim (find_first (λ c. has_prefix c.name name && not (c.name == name)) cmds) [
    | some c ↦ record { completion = drop_text c.name name; hint = c.hint }
    | none ↦ no_ghost
  ]
]

unfoldable pub hint_of : List CmdDef → String → Ghost
hint_of cmds name = elim (find_first (λ c. c.name == name) cmds) [
  | some c ↦ record { completion = ""; hint = c.hint }
  | none ↦ no_ghost
]

-- Model.ghost
unfoldable pub ghost : Model → Ghost
ghost m = elim (fields m.value) [
  | [] ↦ no_ghost
  | word ∷ rest ↦ elim rest [
    | a ∷ args ↦ no_ghost
    | [] ↦
        if ends_in_space m.value
        then hint_of (commands m) (to_lower word)
        else complete (commands m) (to_lower word)
  ]
]

-- Model.ghostString
unfoldable pub ghost_string : Model → String
ghost_string m =
    let g = ghost m in
    if not (g.completion == "") && not (g.hint == "")
    then g.completion <+> " " <+> g.hint
    else if not (g.completion == "")
    then g.completion
    else if not (g.hint == "")
    then (if ends_in_space m.value then g.hint else " " <+> g.hint)
    else ""

-- Model.Update on Tab
unfoldable pub tab : Model → Model
tab m =
    let g = ghost m in
    if g.completion == "" then m else record m { value = m.value <+> g.completion }
