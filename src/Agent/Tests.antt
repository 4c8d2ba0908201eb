-- ===== src/Agent/Tests.antt =====
-- A small fleet, and the operations, calls and policies that the tests share.
mod Gate
mod Consent
mod Targets
mod Arguments
use d9c.Base.{◌≡◌, refl, inr, ap, Bool, true, false, String, Option, none, some, List, [], ◌∷◌, ok}
use mathlib.Core.Path.{subst}
use mathlib.Core.Option.{some-injective}
use d9c.Base.Int.{pos}
use d9c.Hosts.{AgentPolicy, Host}
use d9c.Agent.Tier.{Tier, tier_read, tier_safe, tier_destructive}
use d9c.Agent.Value.{Value, bool, null, strs}
use d9c.Agent.Schema.{Property, Schema, Args, lookup}
use d9c.Agent.OpResult.{plain_result, payload, returned}
use d9c.Agent.Registry.{Handler, Planner, Op, Registry}
use d9c.Agent.Invoke.{Call}
use d9c.Agent.Invoke.Gate.{PlansRead}

-- The engine of the tests is the log of what was done to it.
abbrev pub Log : Type 0
Log = List String

-- A stand-in for the pattern of package regexp, which names nothing.
abbrev pub no_pattern : String → Bool
no_pattern s = false

abbrev pub force_property : Property
force_property = record {
  type_ = "boolean";
  description = "Kill and remove running containers.";
  items = none;
  enum = [];
  default = some (bool false);
  minimum = none;
  short = "f";
  positional = false;
}

abbrev pub rm_args : Schema
rm_args = record {
  type_ = "object";
  properties = ("force", force_property) ∷ [];
  required = "force" ∷ [];
}

abbrev pub no_args : Schema
no_args = record { type_ = "object"; properties = []; required = [] }

abbrev pub rm_handler : Handler Log
rm_handler args w = (returned (plain_result (payload null)), "removed" ∷ w)

abbrev pub rm_planner : Planner Log
rm_planner args w = (returned ("remove container web" ∷ []), w)

abbrev pub rm : Op Log
rm = record {
  name = "rm";
  summary = "Remove containers.";
  args = rm_args;
  tier = tier_destructive;
  untrusted = false;
  is_local = false;
  handler = some rm_handler;
  plan = some rm_planner;
}

abbrev pub ps : Op Log
ps = record {
  name = "ps";
  summary = "List containers.";
  args = no_args;
  tier = tier_read;
  untrusted = true;
  is_local = false;
  handler = some (λ args w. (returned (plain_result (payload null)), w));
  plan = none;
}

abbrev pub fleet : Registry Log
fleet = ("rm", rm) ∷ ("ps", ps) ∷ []

pub fleet-PlansRead : PlansRead fleet
fleet-PlansRead =
    (λ f e a w. subst (λ g. (g a w).1 ≡ w) (some-injective _ _ e) refl, (λ f e a w. absurd cc, tt))

abbrev pub forced : Args
forced = ("force", bool true) ∷ []

abbrev pub unconfirmed_call : Call
unconfirmed_call = record { ceiling = tier_destructive; dry_run = false; confirmed = false }

abbrev pub confirmed_call : Call
confirmed_call = record { ceiling = tier_destructive; dry_run = false; confirmed = true }
