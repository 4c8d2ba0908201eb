-- ===== src/Agent/Tests/Gate.antt =====
-- The gate on the fleet.
use d9c.Base.{◌≡◌, ◌≢◌, ◌⊎◌, inl, inr, refl, true, some, [], ◌∷◌, All, keep, ok}
use mathlib.Core.List.{Perm}
use d9c.Base.Sort.{IsSorted}
use d9c.Agent.Tier.{tier_read, tier_destructive, allows, valid}
use d9c.Agent.Value.{null}
use d9c.Agent.Schema.{lookup, coerce}
use d9c.Agent.Schema.Normalize.{normalize, check_names, convert_all, convert, given, check_required}
use d9c.Agent.Schema.Check.{check, check_properties, check_declared}
use d9c.Agent.OpResult.{plain_result, payload, returned}
use d9c.Agent.Registry.{Registry, register, is_op_name, allowed, name_le}
use d9c.Agent.Registry.Declared.{IsBuilt, register-IsBuilt}
use d9c.Agent.Registry.Advertised.{allowed_lem}
use d9c.Agent.Invoke.{is_destructive, call_handler, answer, invoke, invoke_op, admit, perform}
use d9c.Agent.Invoke.Gate.{Permitted, invoke_Permitted}
use d9c.Agent.Invoke.Confirm.{
  destructive_unconfirmed, Asks, confirmation_plan, Replies, invoke_runs,
}
use d9c.Agent.Audit.{succeeded, new_audit_entry}
use d9c.Agent.Audit.Trail.{new_audit_entry-Permitted}
use d9c.Agent.Tests.{
  Log, no_pattern, rm_handler, rm_planner, rm, ps, fleet, fleet-PlansRead, forced, unconfirmed_call,
  confirmed_call,
}

invoke_Permitted_example :
    Permitted fleet "rm" forced confirmed_call
    ⊎ ((invoke no_pattern fleet "rm" forced confirmed_call []).1 ≡ [])
invoke_Permitted_example =
    invoke_Permitted no_pattern fleet "rm" forced confirmed_call [] fleet-PlansRead

rm_found : lookup "rm" fleet ≡ some rm
unfolding lookup
rm_found = refl

rm-is_destructive : is_destructive rm.tier ≡ true
unfolding is_destructive
rm-is_destructive = refl

rm-allows : allows tier_destructive rm.tier ≡ true
unfolding allows
rm-allows = refl

rm-normalize : normalize rm.args forced ≡ ok forced
unfolding normalize coerce check_names lookup convert_all convert given check_required
rm-normalize = refl

destructive_unconfirmed_example :
    (invoke no_pattern fleet "rm" forced unconfirmed_call []).0 ≢ ok (plain_result (payload null))
destructive_unconfirmed_example =
    destructive_unconfirmed no_pattern fleet "rm" forced unconfirmed_call [] rm rm_found
      rm-is_destructive refl refl (plain_result (payload null))

confirmation_plan_example :
    Asks no_pattern rm
      (returned ("remove container web" ∷ []))
      (invoke no_pattern fleet "rm" forced unconfirmed_call []).0
      (invoke no_pattern fleet "rm" forced (record unconfirmed_call { dry_run = true }) []).0
    × ((invoke no_pattern fleet "rm" forced unconfirmed_call []).1 ≡ [])
    × ((invoke no_pattern fleet "rm" forced (record unconfirmed_call { dry_run = true }) []).1 ≡ [])
confirmation_plan_example =
    confirmation_plan no_pattern fleet "rm" forced unconfirmed_call [] rm rm_found rm-is_destructive
      refl refl forced rm_planner (returned ("remove container web" ∷ [])) [] rm-allows rm-normalize
      refl refl

abbrev rm_permitted : Permitted fleet "rm" forced confirmed_call
rm_permitted = record {
  op = rm;
  found = rm_found;
  runs = refl;
  fits = rm-allows;
  consented = inr refl;
  norm = forced;
  normalized = rm-normalize;
}

invoke_runs_example :
    Replies no_pattern
      (returned (plain_result (payload null)))
      (invoke no_pattern fleet "rm" forced confirmed_call []).0
    × ((invoke no_pattern fleet "rm" forced confirmed_call []).1 ≡ "removed" ∷ [])
invoke_runs_example =
    invoke_runs no_pattern fleet "rm" forced confirmed_call [] ("removed" ∷ []) rm_permitted
      rm_handler (returned (plain_result (payload null))) refl refl

rm_logged :
    (new_audit_entry "prod" rm forced confirmed_call
      (invoke no_pattern fleet "rm" forced confirmed_call []).0).result
    ≡ succeeded
unfolding new_audit_entry invoke lookup normalize coerce allows is_destructive call_handler
    invoke_op admit check_names convert_all convert given check_required perform answer
rm_logged = refl

new_audit_entry-Permitted_example : Permitted fleet "rm" forced confirmed_call
new_audit_entry-Permitted_example =
    new_audit_entry-Permitted no_pattern fleet rm "prod" "rm" forced confirmed_call []
      (inl rm_logged)

ps_registered : register [] ps ≡ ok (("ps", ps) ∷ [])
unfolding register is_op_name valid check lookup check_properties check_declared
ps_registered = refl

abbrev one_op : Registry Log
one_op = ("ps", ps) ∷ []

register-IsBuilt_example : IsBuilt one_op × (one_op ≡ one_op)
register-IsBuilt_example = register-IsBuilt [] one_op ps tt ps_registered

allowed_lem_example :
    Perm (allowed fleet tier_read) (keep (λ e. allows tier_read e.1.tier) fleet)
    × IsSorted name_le (allowed fleet tier_read)
    × All (λ e. allows tier_read e.1.tier ≡ true) (allowed fleet tier_read)
allowed_lem_example = allowed_lem fleet tier_read
