-- ===== src/Agent/Lifecycle/Commands.antt =====
-- ops_lifecycle.go: the commands start, stop, restart, kill and rm.
use d9c.Base.{
  ◌<+>◌, ◌==◌, if◌then◌else◌, ◌&&◌, not, Bool, true, false, String, Option, none, some, List, [],
  ◌∷◌, ◌++◌,
}
use d9c.Agent.Tier.{Tier, tier_safe, tier_destructive}
use d9c.Agent.Value.{str}
use d9c.Agent.Schema.{Property, Args}
use d9c.Agent.Error.{Failure}
use d9c.Agent.Registry.{Op}
use d9c.Agent.Containers.{Container, string_arg, bool_arg, filter_help}
use d9c.Agent.Lifecycle.{Act, Env, lifecycle_handler, lifecycle_planner}

-- containerLabel
unfoldable pub container_label : Container → String
container_label c = c.name <+> " (" <+> c.id <+> ")"

-- stateStep
unfoldable pub state_step : String → Container → (String → Bool) → String → String
state_step verb c noop note =
    let s = verb <+> " container " <+> container_label c in
    if noop c.state then s <+> " — " <+> note else s

-- isRunning
abbrev pub is_running : String → Bool
is_running state = state == "running"

abbrev property : String → String → Property
property type_ description = record {
  type_ = type_;
  description = description;
  items = none;
  enum = [];
  default = none;
  minimum = none;
  short = "";
  positional = false;
}

abbrev strings_property : String → Property
strings_property description = record (property "array" description) { items = some "string" }

abbrev common_properties : List (String × Property)
common_properties =
    (
      "targets",
      record (strings_property "Container IDs, unique ID prefixes or names.") { positional = true },
    )
    ∷ ("filter", strings_property filter_help)
    ∷ []

-- The methods of the engine that the commands call.
pub record Actions (W : Type 0) : Type 0 where
  pub start_container : String → W → Option Failure × W
  pub stop_container : String → W → Option Failure × W
  pub restart_container : String → W → Option Failure × W
  pub kill_container : String → String → W → Option Failure × W
  pub remove_container : String → Bool → W → Option Failure × W

module _ (names_missing_object : String → Bool) (path_match : String → String → Option Bool)
    {W : Type 0} (env : Env W) where
  -- lifecycleOp
  unfoldable pub lifecycle_op :
      String → String → Tier → List (String × Property) → Act W → (Container → Args → String) → Op W
  lifecycle_op name summary tier extra act step = record {
    name = name;
    summary = summary;
    args = record { type_ = "object"; properties = common_properties ++ extra; required = [] };
    tier = tier;
    untrusted = false;
    is_local = false;
    handler = some (lifecycle_handler names_missing_object path_match env name act);
    plan = some (lifecycle_planner names_missing_object path_match env name step);
  }

  module _ (b : Actions W) where
    -- startOp
    unfoldable pub start_op : Op W
    start_op =
        lifecycle_op "start" "Start stopped containers." tier_safe []
          (λ id args w. b.start_container id w)
          (λ c args. state_step "start" c is_running "already running")

    -- stopOp
    unfoldable pub stop_op : Op W
    stop_op =
        lifecycle_op "stop" "Stop running containers gracefully." tier_safe []
          (λ id args w. b.stop_container id w)
          (λ c args.
            state_step "stop" c (λ s. not (is_running s) && not (s == "paused")) "not running")

    -- restartOp
    unfoldable pub restart_op : Op W
    restart_op =
        lifecycle_op "restart" "Restart containers." tier_safe []
          (λ id args w. b.restart_container id w)
          (λ c args. "restart container " <+> container_label c)

    -- killOp
    unfoldable pub kill_op : Op W
    kill_op =
        lifecycle_op "kill" "Send a signal to running containers (KILL by default)."
          tier_destructive
          ((
            "signal",
            record (property "string" "Signal to send, e.g. KILL, TERM, HUP.") {
              default = some (str "KILL");
              short = "s";
            },
          )
            ∷ [])
          (λ id args w. b.kill_container id (string_arg args "signal") w)
          (λ c args.
            state_step ("send " <+> string_arg args "signal" <+> " to") c (λ s. not (is_running s))
              "not running, will fail")

    -- rmOp
    unfoldable pub rm_op : Op W
    rm_op =
        lifecycle_op "rm" "Remove containers (running ones only with --force)." tier_destructive
          ((
            "force",
            record (property "boolean" "Kill and remove running containers.") { short = "f" },
          )
            ∷ [])
          (λ id args w. b.remove_container id (bool_arg args "force") w)
          (λ c args. state_step "remove" c is_running (
            if bool_arg args "force"
            then "running, killed first"
            else "running, will fail without --force"))
