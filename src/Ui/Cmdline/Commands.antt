-- ===== src/Ui/Cmdline/Commands.antt =====
-- cmdline.go: the commands of each view, and those that change the host.
use d9c.Base.{Bool, false, not, String, List, [], ◌∷◌, any, keep, if◌then◌else◌, ◌==◌}

-- cmdDef
pub record CmdDef : Type 0 where
  pub name : String
  pub hint : String

abbrev pub cmd : String → String → CmdDef
cmd name hint = record { name = name; hint = hint }

abbrev pub container_cmds : List CmdDef
container_cmds =
    cmd "cp" "[<local-path> <container-dir>] (upload; no args = picker)"
    ∷ cmd "exec" "[command] (default: shell)"
    ∷ cmd "files" "[path] (filesystem browser)"
    ∷ cmd "kill" "[signal]"
    ∷ cmd "logs" "[--tail 100] [--since 1h] [--until …]"
    ∷ cmd "restart" ""
    ∷ cmd "rm" "[-f]"
    ∷ cmd "run" "(modal form: image/ports/env/volumes)"
    ∷ cmd "start" ""
    ∷ cmd "stop" ""
    ∷ []

abbrev pub image_cmds : List CmdDef
image_cmds =
    cmd "build" "[dir] [tag] (modal if no dir)"
    ∷ cmd "exec" "(one-off --rm -it container form)"
    ∷ cmd "tag" "<new-ref>"
    ∷ cmd "push" ""
    ∷ cmd "history" "(layers)"
    ∷ cmd "pull" ""
    ∷ cmd "prune" ""
    ∷ cmd "rm" "[-f]"
    ∷ cmd "run" "(form, selected image pre-filled)"
    ∷ []

abbrev pub network_cmds : List CmdDef
network_cmds = cmd "create" "(modal form)" ∷ cmd "rm" "" ∷ []

abbrev pub volume_cmds : List CmdDef
volume_cmds = cmd "create" "(modal form)" ∷ cmd "prune" "" ∷ cmd "rm" "" ∷ []

abbrev pub host_cmds : List CmdDef
host_cmds =
    cmd "connect" ""
    ∷ cmd "add" "<name> <url>"
    ∷ cmd "edit" "<name> <url>"
    ∷ cmd "rm" ""
    ∷ cmd "import" "contexts [name...] (no names = picker)"
    ∷ []

abbrev pub compose_cmds : List CmdDef
compose_cmds =
    cmd "create" "<dir>"
    ∷ cmd "up" ""
    ∷ cmd "down" ""
    ∷ cmd "pull" ""
    ∷ cmd "config" ""
    ∷ cmd "edit" ""
    ∷ cmd "backup" ""
    ∷ cmd "backups" "(catalog)"
    ∷ cmd "restore" "[file.tar.gz]"
    ∷ cmd "start" ""
    ∷ cmd "stop" ""
    ∷ cmd "restart" ""
    ∷ cmd "pause" ""
    ∷ cmd "unpause" ""
    ∷ cmd "remove" ""
    ∷ []

-- composeHostOnly
abbrev pub compose_host_only : List String
compose_host_only =
    "create" ∷ "up" ∷ "down" ∷ "pull" ∷ "config" ∷ "edit" ∷ "backup" ∷ "restore" ∷ []

-- An entry of a set of names.
abbrev pub is_member : String → List String → Bool
is_member name names = any (λ n. n == name) names

-- IsComposeHostOp
unfoldable pub is_compose_host_op : String → Bool
is_compose_host_op name = is_member name compose_host_only

-- mutatingCmds
unfoldable pub mutating_cmds : String → List String
mutating_cmds resource =
    if resource == "containers"
    then "cp" ∷ "exec" ∷ "kill" ∷ "restart" ∷ "rm" ∷ "run" ∷ "start" ∷ "stop" ∷ []
    else if resource == "images"
    then "build" ∷ "exec" ∷ "tag" ∷ "push" ∷ "pull" ∷ "prune" ∷ "rm" ∷ "run" ∷ []
    else if resource == "networks"
    then "create" ∷ "rm" ∷ []
    else if resource == "volumes"
    then "create" ∷ "prune" ∷ "rm" ∷ []
    else if resource == "compose"
    then "create" ∷ "up" ∷ "down" ∷ "pull" ∷ "edit" ∷ "restore" ∷ "start" ∷ "stop" ∷ "restart"
      ∷ "pause" ∷ "unpause" ∷ "remove" ∷ "rm" ∷ []
    else []

abbrev pub mutates : String → String → Bool
mutates resource name = is_member name (mutating_cmds resource)

-- IsMutating
unfoldable pub is_mutating : String → String → List String → Bool
is_mutating resource name args =
    if name == "system"
    then (elim args [ [] ↦ false | a ∷ rest ↦ a == "prune" ])
    else mutates resource name

-- readOnlyFilter
unfoldable pub read_only_filter : String → List CmdDef → List CmdDef
read_only_filter resource cmds = keep (λ c. not (mutates resource c.name)) cmds

-- viewCmds
abbrev pub view_cmds : List CmdDef
view_cmds =
    cmd "containers" ""
    ∷ cmd "images" ""
    ∷ cmd "networks" ""
    ∷ cmd "volumes" ""
    ∷ cmd "hosts" "(= dashboard: STATUS + docker info summary)"
    ∷ cmd "compose" ""
    ∷ cmd "events" "(live daemon events)"
    ∷ cmd "portforward" "(tunnel list; alias pf)"
    ∷ cmd "system" "df | prune (full cleanup with confirmation)"
    ∷ cmd "theme" "[name] (switch theme; no name — pick from a list with preview)"
    ∷ cmd "lang" "[ru|en] (UI language; no arg — pick from a list)"
    ∷ cmd "interval" "<dur> | pause | resume (auto-refresh interval)"
    ∷ cmd "alert" "cpu <%> | mem <%> | off (CPU/MEM thresholds)"
    ∷ cmd "namespace" "[name] (containerd namespace; no name — pick from a list)"
    ∷ []

-- resourceCmds
unfoldable pub resource_cmds : String → Bool → List CmdDef
resource_cmds resource host_compose =
    if resource == "images"
    then image_cmds
    else if resource == "networks"
    then network_cmds
    else if resource == "volumes"
    then volume_cmds
    else if resource == "hosts"
    then host_cmds
    else if resource == "compose"
    then (if host_compose
        then compose_cmds
        else keep (λ c. not (is_member c.name compose_host_only)) compose_cmds)
    else container_cmds
