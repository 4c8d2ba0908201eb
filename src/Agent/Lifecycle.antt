-- ===== src/Agent/Lifecycle.antt =====
-- ops_lifecycle.go: the commands that act on several containers and report each one's outcome.
pub mod Once
pub mod Report
pub mod Commands
use d9c.Base.{
  ◌<+>◌, ◌==◌, if◌then◌else◌, ◌&&◌, ◌||◌, not, Bool, true, false, ℕ, zero, suc, ◌-◌, String, Option,
  none, some, default, List, [], ◌∷◌, ◌++◌, map, keep, take, leb, ltb, length, join, decimal,
  Result, ok, err, ◌>>=◌,
}
use d9c.Agent.Schema.{Args, lookup, contains_text}
use d9c.Agent.Error.{Error, Failure, agent, raw, errorf, with_hint, usage, internal, classify}
use d9c.Agent.OpResult.{
  TargetResult, unset, done, failed, ActionTarget, ActionData, Data, action, OpResult, plain_result,
  Ending, returned, errored,
}
use d9c.Agent.Registry.{Handler, Planner}
use d9c.Agent.Containers.{
  Container, strings_arg, filter_help, resolve_container, parse_container_filter,
}

abbrev pub is_failed : ActionTarget → Bool
is_failed t = elim t.result [ failed ↦ true | _ ↦ false ]

abbrev pub is_done : ActionTarget → Bool
is_done t = elim t.result [ done ↦ true | _ ↦ false ]

-- ActionTarget.fail
abbrev pub fail : ActionTarget → Error → ActionTarget
fail t e = record t { result = failed; failure = some e }

-- The variables of resolveTargets: `out`, and the IDs in `seen`.
pub record Gathered : Type 0 where
  pub out : List ActionTarget
  pub seen : List String

abbrev pub push : Gathered → ActionTarget → Gathered
push g t = record g { out = g.out ++ t ∷ [] }

-- `add` of resolveTargets
unfoldable pub add_target : Gathered → ActionTarget → Gathered
add_target g t =
    if t.id == ""
    then push g t
    else if contains_text g.seen t.id
    then g
    else push (record g { seen = t.id ∷ g.seen }) t

abbrev pub target_of : String → Container → ActionTarget
target_of ref c = record { ref = ref; id = c.id; name = c.name; result = unset; failure = none }

abbrev pub bare_target : String → ActionTarget
bare_target ref = record { ref = ref; id = ""; name = ""; result = unset; failure = none }

-- The loop over the references.
unfoldable pub add_refs : List Container → List String → Gathered → Gathered
add_refs list [] g = g
add_refs list (ref ∷ rest) g = add_refs list rest (elim (resolve_container list ref) [
  | err e ↦ push g (fail (bare_target ref) e)
  | ok c ↦ add_target g (target_of ref c)
])

-- The loop over the containers that the filter selects.
unfoldable pub add_matches : List Container → (Container → Bool) → Gathered → Gathered
add_matches [] p g = g
add_matches (c ∷ rest) p g = add_matches rest p (if p c then add_target g (target_of "" c) else g)

-- resolveTargets
unfoldable pub resolve_targets :
    List Container → List String → Option (Container → Bool) → List ActionTarget
resolve_targets list refs match =
    let g = add_refs list refs (record { out = []; seen = [] }) in
    elim match [ none ↦ g.out | some p ↦ (add_matches list p g).out ]

-- What the commands use of Env: the engine's list of its containers, where there is an engine, and
-- the error of the context once it is cancelled.
pub record Env (W : Type 0) : Type 0 where
  pub list_containers : Option (W → Result Failure (List Container) × W)
  pub cancelled : W → Option String

no_backend : String → Error
no_backend op = errorf internal (op <+> ": no engine connection")

no_targets : String → Error
no_targets op =
    with_hint (errorf usage (op <+> ": no containers given"))
      ("pass container IDs or names, or --filter key=value; " <+> filter_help)

-- A container by its ID: of several the last one.
unfoldable pub by_id : List Container → String → Option Container
by_id [] id = none
by_id (c ∷ rest) id = elim (by_id rest id) [
  | some d ↦ some d
  | none ↦ if c.id == id then some c else none
]

abbrev no_container : Container
no_container = record {
  id = "";
  name = "";
  image = "";
  state = "";
  health = "";
  labels = [];
  networks = [];
}

module _ (path_match : String → String → Option Bool) {W : Type 0} where
  -- What lifecycleTargets does with the engine's answer.
  unfoldable pub select :
      List String
      → Option (Container → Bool)
      → Result Failure (List Container) × W
      → Result Failure (List ActionTarget × List Container) × W
  select refs match (err e, w) = (err e, w)
  select refs match (ok list, w) = (ok (resolve_targets list refs match, list), w)

  -- lifecycleTargets
  unfoldable pub lifecycle_targets :
      Env W → String → Args → W → Result Failure (List ActionTarget × List Container) × W
  unfolding no_backend no_targets
  lifecycle_targets env name args w = elim env.list_containers [
    | none ↦ (err (agent (no_backend name)), w)
    | some list ↦
        if leb (length (strings_arg args "targets")) 0 && leb (length (strings_arg args "filter")) 0
        then (err (agent (no_targets name)), w)
        else elim (parse_container_filter path_match (strings_arg args "filter")) [
          | err e ↦ (err (agent e), w)
          | ok match ↦ select (strings_arg args "targets") match (list w)
        ]
  ]

-- targetLabel
unfoldable pub target_label : ActionTarget → String
target_label t = if t.name == "" then t.ref else t.name

-- A target's failure; every failed target has one.
abbrev pub failure_of : ActionTarget → Error
failure_of t = default t.failure (errorf internal "")

abbrev pub max_failure_details : ℕ
max_failure_details = 5

-- The failures that an error message spells out, and how many more there are.
unfoldable pub failure_details : List ActionTarget → List String
failure_details failures =
    map (λ t. target_label t <+> ": " <+> (failure_of t).message)
      (take max_failure_details failures)
    ++ (if ltb max_failure_details (length failures)
        then ("and " <+> decimal (length failures - max_failure_details) <+> " more") ∷ []
        else [])

all_failed : String → ActionTarget → List ActionTarget → Failure
all_failed name first [] = agent (failure_of first)
all_failed name first (t ∷ rest) = agent (
    with_hint
      (errorf (failure_of first).code (
        name
        <+> " failed on all "
        <+> decimal (length (first ∷ t ∷ rest))
        <+> " containers: "
        <+> join (failure_details (first ∷ t ∷ rest)) "; "))
      (failure_of first).hint)

-- The data with its targets counted.
abbrev pub counted : ActionData → ActionData
counted d = record d {
  done = length (keep is_done d.targets);
  failed = length (keep (λ t. not (is_done t)) d.targets);
}

no_match : Bool → String
no_match filtered =
    if filtered then "no containers matched the filter; check it with `d9c ps -a`" else ""

some_failed : ActionData → String
some_failed d =
    decimal d.failed
    <+> " of "
    <+> decimal (length d.targets)
    <+> " containers failed; see the failed entries in data.targets"

-- actionResult
unfoldable pub action_result : ActionData → Bool → Ending (OpResult Data)
unfolding all_failed no_match some_failed
action_result d0 filtered =
    let d = counted d0 in
    let plain = plain_result (action d) in
    elim d.targets [
      | [] ↦ returned (record plain { hint = no_match filtered })
      | _ ↦ elim (keep (λ t. not (is_done t)) d.targets) [
        | [] ↦ returned plain
        | first ∷ rest ↦
            if leb d.done 0
            then errored (all_failed d.action first rest)
            else returned (record plain { partial = true; hint = some_failed d })
      ]
    ]

-- One step of the plan of lifecycleOp.
abbrev pub plan_step : (Container → Args → String) → Args → List Container → ActionTarget → String
plan_step step args list t =
    if is_failed t
    then (failure_of t).message <+> " — will be reported as failed"
    else step (default (by_id list t.id) no_container) args

-- The action of a command on the container of an ID: its error, if any.
abbrev pub Act : Type 0 → Type 0
Act W = String → Args → W → Option Failure × W

module _ (names_missing_object : String → Bool) where
  -- A target after its action.
  abbrev pub outcome : ActionTarget → Option Failure → ActionTarget
  outcome t none = record t { result = done }
  outcome t (some e) = fail t (classify names_missing_object e)

module _ (names_missing_object : String → Bool) {W : Type 0} where
  -- One round of the loop of the handler.
  unfoldable pub attempt : Env W → Act W → Args → ActionTarget → W → ActionTarget × W
  attempt env act args t w = if is_failed t then (t, w) else elim (env.cancelled w) [
    | some why ↦ (fail t (errorf internal ("not attempted: " <+> why)), w)
    | none ↦ (let (e, w') = act t.id args w in (outcome names_missing_object t e, w'))
  ]

  unfoldable pub attempt_all : Env W → Act W → Args → List ActionTarget → W → List ActionTarget × W
  attempt_all env act args [] w = ([], w)
  attempt_all env act args (t ∷ rest) w =
      let (t', w') = attempt env act args t w in
      let (rest', w'') = attempt_all env act args rest w' in (t' ∷ rest', w'')

  -- The handler of lifecycleOp on the resolved targets.
  unfoldable pub act_on :
      Env W
      → String
      → Act W
      → Args
      → Result Failure (List ActionTarget × List Container) × W
      → Ending (OpResult Data) × W
  act_on env name act args (err e, w) = (errored e, w)
  act_on env name act args (ok (targets, _), w) =
      let (targets', w') = attempt_all env act args targets w in
      (
        action_result (record { action = name; targets = targets'; done = 0; failed = 0 })
            (ltb 0 (length (strings_arg args "filter"))),
        w',
      )

  module _ (path_match : String → String → Option Bool) where
    -- The handler of lifecycleOp
    unfoldable pub lifecycle_handler : Env W → String → Act W → Handler W
    lifecycle_handler env name act args w =
        act_on env name act args (lifecycle_targets path_match env name args w)

    -- The planner of lifecycleOp
    unfoldable pub lifecycle_planner : Env W → String → (Container → Args → String) → Planner W
    lifecycle_planner env name step args w =
        let (resolved, w') = lifecycle_targets path_match env name args w in
        elim resolved [
          | err e ↦ (errored e, w')
          | ok (targets, list) ↦ (returned (map (plan_step step args list) targets), w')
        ]
