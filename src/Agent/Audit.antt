-- ===== src/Agent/Audit.antt =====
-- audit.go: the entries of the audit log.
pub mod Trail
use d9c.Base.{
  ◌<+>◌, ◌==◌, if◌then◌else◌, Bool, true, false, String, Option, none, some, default, List, [], ◌∷◌,
  ◌++◌, map, Result, ok, err,
}
use d9c.Agent.Tier.{Tier}
use d9c.Agent.Value.{str, strs}
use d9c.Agent.Schema.{Args, lookup}
use d9c.Agent.Error.{Error, Code}
use d9c.Agent.OpResult.{
  done, failed, unset, ActionTarget, ActionData, Data, plan, action, payload, OpResult,
}
use d9c.Agent.Registry.{Op}
use d9c.Agent.Invoke.{Call, Reply}
use d9c.Agent.Lifecycle.{target_label}
use d9c.Agent.Containers.{strings_arg}

pub data AuditResult : Type 0 where
  succeeded partial planned error : AuditResult

-- The entry without its time.
pub record AuditEntry : Type 0 where
  pub host : String
  pub op : String
  pub tier : Tier
  pub targets : List String
  pub args : Args
  pub dry_run : Bool
  pub yes : Bool
  pub result : AuditResult
  pub code : Option Code
  pub message : String

abbrev audit_target_args : List String
audit_target_args = "targets" ∷ "container" ∷ "project" ∷ "image" ∷ "name" ∷ "file" ∷ []

target_entry : ActionTarget → String
target_entry t =
    target_label t
    <+> (if t.id == "" then "" else " (" <+> t.id <+> ")")
    <+> elim t.result [ done ↦ "" | failed ↦ ": failed" | unset ↦ ": " ]

-- The naming arguments, in the order of the names.
named_targets : Args → List String → List String
named_targets args [] = []
named_targets args (name ∷ rest) =
    elim (lookup name args) [
      | some (str s) ↦ (if s == "" then [] else s ∷ [])
      | some (strs l) ↦ l
      | _ ↦ []
    ]
    ++ named_targets args rest

from_args : Args → List String
unfolding named_targets
from_args args =
    named_targets args audit_target_args ++ map (λ s. "filter " <+> s) (strings_arg args "filter")

-- auditTargets; a reply that is an error has no data.
unfoldable pub audit_targets : Args → Reply → List String
unfolding target_entry from_args
audit_targets args (err e) = from_args args
audit_targets args (ok r) = elim r.content [
  | action d ↦ map target_entry d.targets
  | _ ↦ from_args args
]

-- NewAuditEntry, on the reply of Invoke.
unfoldable pub new_audit_entry : {W : Type 0} → String → Op W → Args → Call → Reply → AuditEntry
new_audit_entry host op args call reply =
    let e : AuditEntry = record {
      host = host;
      op = op.name;
      tier = op.tier;
      targets = audit_targets args reply;
      args = args;
      dry_run = call.dry_run;
      yes = call.confirmed;
      result = succeeded;
      code = none;
      message = "";
    } in
    elim reply [
      | err f ↦ record e { result = error; code = some f.code; message = f.message }
      | ok r ↦
          if call.dry_run
          then record e { result = planned }
          else if r.partial
          then record e { result = partial }
          else e
    ]
