-- ===== src/Agent/OpResult.antt =====
-- The outcomes of operations: registry.go, and the payload of the lifecycle commands.
use d9c.Base.{Bool, false, String, Option, List, ℕ}
use d9c.Agent.Value.{Value}
use d9c.Agent.Error.{Error, PlanData, Failure}

-- Per-target outcomes; one that was not attempted yet has no result.
pub data TargetResult : Type 0 where
  unset done failed : TargetResult

-- ops_lifecycle.go. The texts `Code` and `Error` are those of the failure, kept whole in `failure`.
pub record ActionTarget : Type 0 where
  pub ref : String
  pub id : String
  pub name : String
  pub result : TargetResult
  pub failure : Option Error

pub record ActionData : Type 0 where
  pub action : String
  pub targets : List ActionTarget
  pub done : ℕ
  pub failed : ℕ

-- The payloads that the registry itself makes or looks into, and any other.
pub data Data : Type 0 where
  plan : PlanData → Data
  action : ActionData → Data
  payload : Value → Data

-- `Result`
pub record OpResult (D : Type 0) : Type 0 where
  pub content : D
  pub truncated : Bool
  pub hint : String
  pub partial : Bool

abbrev pub plain_result : {D : Type 0} → D → OpResult D
plain_result d = record { content = d; truncated = false; hint = ""; partial = false }

-- How a handler or a planner ends: it returns, returns an error or panics.
pub data Ending (A : Type 0) : Type 0 where
  returned : A → Ending A
  errored : Failure → Ending A
  panicked : String → Ending A
