-- ===== src/Agent/Tests/Targets.antt =====
-- Containers, references to them, and a run of `stop` on them.
use d9c.Base.{
  ◌≡◌, ◌⊎◌, refl, ◌==◌, Bool, true, false, String, Option, none, some, List, [], ◌∷◌, All, ok,
  trim_prefix,
}
use d9c.Agent.Value.{strs, null}
use d9c.Agent.Schema.{Args, lookup, contains_text}
use d9c.Agent.OpResult.{ActionData, done, action, Data, OpResult, returned, plain_result}
use d9c.Agent.Containers.{
  Container, parse_container_filter, strings_arg, is_named, is_hit, only_hit, resolve_container,
}
use d9c.Agent.Containers.Resolve.{IsListed, resolve_container-ok}
use d9c.Agent.Lifecycle.{
  Act, Env, add_target, add_refs, resolve_targets, select, lifecycle_targets, attempt, attempt_all,
  act_on, action_result, lifecycle_handler,
}
use d9c.Agent.Lifecycle.Once.{IsResolved, AreOnce, resolve_targets-AreOnce}
use d9c.Agent.Lifecycle.Report.{IsCounted, IsSettled, lifecycle_handler_reports}
use d9c.Agent.Fanout.{HostResult, fanout_result}
use d9c.Agent.Fanout.Outcome.{Tells, fanout_result_lem}
use d9c.Agent.Tests.{Log, no_pattern}

abbrev web : Container
web = record {
  id = "9ae942";
  name = "web";
  image = "nginx";
  state = "running";
  health = "";
  labels = [];
  networks = [];
}

abbrev worker : Container
worker = record web { id = "9af000"; name = "worker" }

web_resolves : resolve_container (web ∷ worker ∷ []) "9ae" ≡ ok web
unfolding resolve_container trim_prefix only_hit
web_resolves = refl

resolve_container-ok_example :
    (("9ae" == "") ≡ false)
    × IsListed (web ∷ worker ∷ []) web
    × ((is_named "9ae" web ≡ true) ⊎ All (λ d. is_hit "9ae" d ≡ true → d ≡ web) (web ∷ worker ∷ []))
resolve_container-ok_example = resolve_container-ok (web ∷ worker ∷ []) "9ae" web web_resolves

resolve_targets-AreOnce_example :
    All
      (IsResolved (web ∷ worker ∷ []))
      (resolve_targets (web ∷ worker ∷ []) ("web" ∷ "9ae" ∷ "9a" ∷ []) none)
    × AreOnce (resolve_targets (web ∷ worker ∷ []) ("web" ∷ "9ae" ∷ "9a" ∷ []) none)
resolve_targets-AreOnce_example =
    resolve_targets-AreOnce (web ∷ worker ∷ []) ("web" ∷ "9ae" ∷ "9a" ∷ []) none

abbrev env : Env Log
env = record { list_containers = some (λ w. (ok (web ∷ worker ∷ []), w)); cancelled = λ w. none }

abbrev stop : Act Log
stop id args w = (none, id ∷ w)

-- A stand-in for path.Match under which every pattern is malformed.
abbrev no_glob : String → String → Option Bool
no_glob pattern name = none

abbrev stop_args : Args
stop_args = ("targets", strs ("web" ∷ "9ae" ∷ [])) ∷ []

abbrev stopped : OpResult Data
stopped = plain_result (
    action (record {
      action = "stop";
      targets =
          record { ref = "web"; id = "9ae942"; name = "web"; result = done; failure = none } ∷ [];
      done = 1;
      failed = 0;
    }))

stop_runs :
    lifecycle_handler no_pattern no_glob env "stop" stop stop_args []
    ≡ (returned stopped, "9ae942" ∷ [])
unfolding lifecycle_handler act_on lifecycle_targets strings_arg lookup parse_container_filter
    select action_result attempt_all resolve_targets add_refs resolve_container trim_prefix only_hit
    add_target contains_text attempt
stop_runs = refl

lifecycle_handler_reports_example :
    (d : ActionData) × (stopped.content ≡ action d)
    × IsCounted d stopped
    × All IsSettled d.targets
    × AreOnce d.targets
lifecycle_handler_reports_example =
    lifecycle_handler_reports no_pattern env stop stop_args no_glob "stop" [] ("9ae942" ∷ [])
      stopped stop_runs

abbrev hosts : List HostResult
hosts =
    record {
      host = "prod";
      runtime = "docker";
      content = some null;
      truncated = true;
      hint = "";
      failure = none;
    }
    ∷ []

fanout_result_lem_example : Tells hosts (fanout_result "ps" hosts)
fanout_result_lem_example = fanout_result_lem "ps" hosts
