-- ===== src/Agent/Fanout.antt =====
-- fanout.go: one read operation on several hosts.
pub mod Outcome
use d9c.Base.{
  ◌<+>◌, ◌==◌, if◌then◌else◌, ◌&&◌, ◌||◌, not, Bool, true, false, ℕ, zero, suc, ◌-◌, String, Option,
  none, some, List, [], ◌∷◌, ◌++◌, map, any, take, leb, ltb, length, join, decimal,
}
use d9c.Agent.Value.{Value}
use d9c.Agent.Error.{Error, errorf, with_hint}
use d9c.Agent.OpResult.{OpResult, plain_result, Ending, returned, errored}
use d9c.Agent.Error.{agent}
use d9c.Agent.Lifecycle.{max_failure_details}

pub record HostResult : Type 0 where
  pub host : String
  pub runtime : String
  pub content : Option Value
  pub truncated : Bool
  pub hint : String
  pub failure : Option Error

-- The hosts that failed, with their errors.
unfoldable pub failed_hosts : List HostResult → List (String × Error)
failed_hosts [] = []
failed_hosts (r ∷ rest) = elim r.failure [
  | some e ↦ (r.host, e) ∷ failed_hosts rest
  | none ↦ failed_hosts rest
]

host_details : List (String × Error) → List String
host_details failed =
    map (λ f. f.0 <+> ": " <+> f.1.message) (take max_failure_details failed)
    ++ (if ltb max_failure_details (length failed)
        then ("and " <+> decimal (length failed - max_failure_details) <+> " more") ∷ []
        else [])

unfoldable pub hosts_error : String → String → Error → List (String × Error) → Error
unfolding host_details
hosts_error op host e [] = record e { message = host <+> ": " <+> e.message }
hosts_error op host e (f ∷ rest) =
    with_hint
      (errorf e.code (
        op
        <+> " failed on all "
        <+> decimal (length ((host, e) ∷ f ∷ rest))
        <+> " hosts: "
        <+> join (host_details ((host, e) ∷ f ∷ rest)) "; "))
      e.hint

some_hosts_failed : List HostResult → String
some_hosts_failed results =
    decimal (length (failed_hosts results))
    <+> " of "
    <+> decimal (length results)
    <+> " hosts failed; see data[].error"

-- FanoutResult
unfoldable pub fanout_result : String → List HostResult → Ending (OpResult (List HostResult))
unfolding some_hosts_failed
fanout_result op results =
    let truncated = any (λ r. r.truncated) results in
    let res = record (plain_result results) { truncated = truncated } in
    elim (failed_hosts results) [
      | [] ↦ returned (
          if truncated
          then record res { hint = "some hosts' data was cut; see data[].hint" }
          else res)
      | (host, e) ∷ rest ↦
          if ltb (length (failed_hosts results)) (length results)
          then returned (record res { partial = true; hint = some_hosts_failed results })
          else errored (agent (hosts_error op host e rest))
    ]
