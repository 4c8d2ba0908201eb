-- ===== src/Agent/Invoke.antt =====
-- registry.go, Registry.Invoke: the gate through which every call of an operation goes.
pub mod Gate
pub mod Confirm
use d9c.Base.{
  ◌<+>◌, ◌==◌, if◌then◌else◌, ◌&&◌, ◌||◌, not, Bool, true, false, ℕ, String, code, Option, none,
  some, List, [], ◌∷◌, leb, eqb, keep, quote, Result, ok, err,
}
use Prim.Native.String
use d9c.Base.Int.{leb_ℤ, show_int}
use d9c.Agent.Tier.{Tier, tier_read, tier_destructive, valid, allows, tier_string}
use d9c.Agent.Error.{
  Error, PlanData, Failure, agent, errorf, with_hint, usage, forbidden, internal,
  confirmation_required, classify,
}
use d9c.Agent.Schema.{Schema, Args, lookup}
use d9c.Agent.Schema.Normalize.{normalize}
use d9c.Agent.Schema.Check.{check}
use d9c.Agent.OpResult.{Data, plan, OpResult, plain_result, Ending, returned, errored, panicked}
use d9c.Agent.Registry.{Handler, Planner, Op, Registry, declared}

pub record Call : Type 0 where
  pub ceiling : Tier
  pub dry_run : Bool
  pub confirmed : Bool

abbrev pub bug_hint : String
bug_hint = "this is a d9c bug; please report it with the command that triggered it"

abbrev nil_call : String
nil_call = "runtime error: invalid memory address or nil pointer dereference"

run_planner : {W : Type 0} → Option (Planner W) → Args → W → Ending (List String) × W
run_planner none args w = (panicked nil_call, w)
run_planner (some f) args w = f args w

plan_ending : {W : Type 0} → Op W → Ending (List String) → Result Failure PlanData
plan_ending op (returned steps) = ok (record {
  operation = op.name;
  tier = op.tier;
  steps = steps;
  confirm = leb_ℤ tier_destructive op.tier && leb_ℤ op.tier tier_destructive;
})
plan_ending op (errored e) = err e
plan_ending op (panicked what) = err (
    agent (
      with_hint (errorf internal ("planning " <+> quote op.name <+> " panicked: " <+> what))
        bug_hint))

-- planOf
unfoldable pub plan_of : {W : Type 0} → Op W → Args → W → Result Failure PlanData × W
unfolding run_planner plan_ending
plan_of op args w = let (e, w') = run_planner op.plan args w in (plan_ending op e, w')

run_handler : {W : Type 0} → Option (Handler W) → Args → W → Ending (OpResult Data) × W
run_handler none args w = (panicked nil_call, w)
run_handler (some f) args w = f args w

handler_ending : {W : Type 0} → Op W → Ending (OpResult Data) → Result Failure (OpResult Data)
handler_ending op (returned r) = ok r
handler_ending op (errored e) = err e
handler_ending op (panicked what) = err (
    agent (
      with_hint (errorf internal ("operation " <+> quote op.name <+> " panicked: " <+> what))
        bug_hint))

-- callHandler
unfoldable pub call_handler : {W : Type 0} → Op W → Args → W → Result Failure (OpResult Data) × W
unfolding run_handler handler_ending
call_handler op args w = let (e, w') = run_handler op.handler args w in (handler_ending op e, w')

abbrev pub Reply : Type 0
Reply = Result Error (OpResult Data)

unknown_operation : String → Error
unknown_operation name =
    with_hint (errorf usage ("unknown operation " <+> quote name))
      "run `d9c help` to list the available operations"

only_reads : String → Error
only_reads name =
    with_hint
      (errorf usage
        ("--dry-run applies to commands that change state; " <+> quote name <+> " only reads"))
      "run it without --dry-run"

unfoldable pub above_ceiling : String → Tier → Tier → Error
above_ceiling name tier ceiling =
    with_hint
      (errorf forbidden (
        "operation "
        <+> quote name
        <+> " is "
        <+> tier_string tier
        <+> ", above the allowed tier "
        <+> tier_string ceiling))
      "ask the user to raise the agent tier ceiling for this host"

unfoldable pub needs_confirmation : String → PlanData → Error
needs_confirmation name p = record {
  code = confirmation_required;
  message = "operation " <+> quote name <+> " is destructive and needs the user's confirmation";
  hint = "show error.plan to the user and rerun with --yes only after they approve it";
  plan = some p;
}

unfoldable pub dry_result : PlanData → OpResult Data
dry_result p =
    let r : OpResult Data = plain_result (plan p) in
    elim p.steps [ [] ↦ record r { hint = "nothing to do" } | _ ↦ r ]

unfoldable pub is_destructive : Tier → Bool
is_destructive t = leb_ℤ tier_destructive t && leb_ℤ t tier_destructive

-- notFoundObjectRe, by which Classify knows some errors of the engines.
module _ (names_missing_object : String → Bool) where
  -- The end of Invoke that asks for the plan.
  unfoldable pub answer_plan : String → Call → Result Failure PlanData → Reply
  answer_plan name call (err e) = err (classify names_missing_object e)
  answer_plan name call (ok p) =
      if call.dry_run then ok (dry_result p) else err (needs_confirmation name p)

  unfoldable pub answer : Result Failure (OpResult Data) → Reply
  answer (ok r) = ok r
  answer (err e) = err (classify names_missing_object e)

module _ (names_missing_object : String → Bool) {W : Type 0} where
  -- What Invoke does once the arguments are normalized.
  unfoldable pub perform : Op W → String → Args → Call → W → Reply × W
  perform op name norm call w =
      if call.dry_run || (is_destructive op.tier && not call.confirmed)
      then (let (p, w') = plan_of op norm w in (answer_plan names_missing_object name call p, w'))
      else (let (res, w') = call_handler op norm w in (answer names_missing_object res, w'))

  -- The guards of Invoke before the arguments are read.
  unfoldable pub admit : Op W → String → Call → Option Error
  unfolding only_reads
  admit op name call =
      if call.dry_run
      then (if declared op.plan then none else some (only_reads name))
      else if not (allows call.ceiling op.tier)
      then some (above_ceiling name op.tier call.ceiling)
      else none

  unfoldable pub invoke_op : Op W → String → Args → Call → W → Reply × W
  invoke_op op name args call w = elim (admit op name call) [
    | some e ↦ (err e, w)
    | none ↦ elim (normalize op.args args) [
      | err e ↦ (err e, w)
      | ok norm ↦ perform op name norm call w
    ]
  ]

  -- Registry.Invoke
  unfoldable pub invoke : Registry W → String → Args → Call → W → Reply × W
  unfolding unknown_operation
  invoke r name args call w = elim (lookup name r) [
    | none ↦ (err (unknown_operation name), w)
    | some op ↦ invoke_op op name args call w
  ]
