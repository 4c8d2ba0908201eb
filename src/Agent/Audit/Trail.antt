-- ===== src/Agent/Audit/Trail.antt =====
-- What the audit log says of the calls that went through.
use d9c.Base.{
  ◌≡◌, sym, ap, ◌∙◌, ◌⊎◌, inl, inr, ◌≢◌, ◌&&◌, ◌||◌, not, Bool, false, String, none, ok, arith,
  Bool-cases, Option-cases, Result-cases,
}
use d9c.Agent.Schema.{Args, lookup}
use d9c.Agent.Schema.Normalize.{normalize}
use d9c.Agent.OpResult.{Data, OpResult}
use d9c.Agent.Registry.{Op, Registry}
use d9c.Agent.Invoke.{Call, is_destructive, plan_of, admit, invoke}
use d9c.Agent.Invoke.Gate.{Permitted, admit-none, invoke-perform, invoke_refused, invoke_bad}
use d9c.Agent.Invoke.Confirm.{answer_plan_fails, perform_plan, err_ne_ok}
use d9c.Agent.Audit.{succeeded, partial, new_audit_entry}

module _ (names_missing_object : String → Bool) {W : Type 0} where
  invoke_missing :
      (r : Registry W) (name : String) (args : Args) (call : Call) (w : W)
      → lookup name r ≡ none
      → (x : OpResult Data) → (invoke names_missing_object r name args call w).0 ≢ ok x
  unfolding invoke
  invoke_missing r name args call w e x h = ground arith

  answered-Permitted :
      (r : Registry W) (name : String) (args : Args) (call : Call) (w : W) (x : OpResult Data)
      → call.dry_run ≡ false
      → (invoke names_missing_object r name args call w).0 ≡ ok x
      → Permitted r name args call
  answered-Permitted r name args call w x runs h = elim (Option-cases (lookup name r)) [
    | inl e ↦ absurd (invoke_missing r name args call w e x h)
    | inr (op, found) ↦ elim (Option-cases (admit names_missing_object op name call)) [
      | inr (e, refused) ↦ absurd (
          err_ne_ok names_missing_object _ e x
            (invoke_refused names_missing_object r name args call w op found e refused) h)
      | inl admitted ↦ elim (Result-cases (normalize op.args args)) [
        | inr (e, bad) ↦ absurd (
            err_ne_ok names_missing_object _ e x
              (invoke_bad names_missing_object r name args call w op found e admitted bad) h)
        | inl (norm, good) ↦
            elim (Bool-cases (call.dry_run || (is_destructive op.tier && not call.confirmed))) [
              | inl asks ↦ absurd (
                  answer_plan_fails names_missing_object name call (plan_of op norm w).0 runs x (
                    sym (
                      ap (λ y. y.0)
                        (invoke-perform names_missing_object r name args call w op found norm
                            admitted good
                          ∙ perform_plan names_missing_object op name norm call w asks))
                    ∙ h))
              | inr free ↦ record {
                op = op;
                found = found;
                runs = runs;
                fits = admit-none names_missing_object op name call admitted runs;
                consented = ground arith;
                norm = norm;
                normalized = good;
              }
            ]
      ]
    ]
  ]

-- An entry that says `ok` or `partial` of a call's reply is of a permitted call: a refused call, a dry
-- run or an unconfirmed destructive one is never logged as carried out.
pub new_audit_entry-Permitted :
    (names_missing_object : String → Bool) {W : Type 0} (r : Registry W) (op : Op W)
    (host name : String) (args : Args) (call : Call) (w : W)
    → (let e =
          new_audit_entry host op args call (invoke names_missing_object r name args call w).0 in
        (e.result ≡ succeeded) ⊎ (e.result ≡ partial))
    → Permitted r name args call
unfolding new_audit_entry
new_audit_entry-Permitted names_missing_object r op host name args call w h =
    elim (Result-cases (invoke names_missing_object r name args call w).0) [
      | inr (e, failed) ↦ absurd (ground arith)
      | inl (x, fine) ↦
          answered-Permitted names_missing_object r name args call w x (ground arith) fine
    ]
