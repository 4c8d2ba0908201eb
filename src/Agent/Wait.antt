-- ===== src/Agent/Wait.antt =====
-- internal/agent/ops_wait.go: the handler of `wait`. The clock and the engine are what the polls see:
-- by the number of the poll.
pub mod Reached
mod Tests
use d9c.Base.{
  ◌<+>◌, ◌==◌, if◌then◌else◌, ◌&&◌, ◌||◌, Bool, true, false, ℕ, zero, suc, ◌+◌, ◌-◌, ◌*◌, String,
  Option, none, some, List, [], ◌∷◌, find_first, leb, Result, ok, err,
}
use d9c.Base.Text.{decimal}
use d9c.Agent.Error.{Error, errorf, with_hint, usage, not_found, timeout, Failure, agent}
use d9c.Agent.Containers.{Container, resolve_container}
use d9c.Agent.Lifecycle.Commands.{is_running}

-- The values of --until.
pub data Until : Type 0 where
  running : Until
  healthy : Until
  exited : Until

abbrev pub until_text : Until → String
until_text running = "running"
until_text healthy = "healthy"
until_text exited = "exited"

-- waitPoll, in milliseconds
abbrev pub wait_poll : ℕ
wait_poll = 500

pub record WaitData : Type 0 where
  pub container : String
  pub id : String
  pub until : Until
  pub state : String
  pub health : String
  pub waited_ms : ℕ

-- What the polls see, each by its number: the containers that the engine lists, the milliseconds left
-- until the deadline (0 once it has passed), those since the start, and the context's error if
-- it is cancelled before the next poll.
pub record Polls : Type 0 where
  pub listed : ℕ → Result Failure (List Container)
  pub left : ℕ → ℕ
  pub since : ℕ → ℕ
  pub cancelled : ℕ → Option Failure

-- waitFind
unfoldable pub wait_find : List Container → String → String → Result Error Container
wait_find list ref id =
    if id == "" then resolve_container list ref else elim (find_first (λ c. c.id == id) list) [
      | some c ↦ ok c
      | none ↦ err (
          with_hint
            (errorf not_found
              ("container " <+> ref <+> " (" <+> id <+> ") was removed while waiting"))
            "it may have been started with --rm or removed by another client")
    ]

-- waitReached
unfoldable pub wait_reached : Container → Until → Result Error Bool
wait_reached c running = ok (is_running c.state)
wait_reached c exited = ok (c.state == "exited" || (c.state == "dead" || c.state == "stopped"))
wait_reached c healthy =
    if is_running c.state && c.health == ""
    then err (
        with_hint (errorf usage ("container " <+> c.name <+> " has no healthcheck"))
          "wait with --until running instead, or add a HEALTHCHECK to the image or compose service")
    else ok (is_running c.state && c.health == "healthy")

-- waitState
unfoldable pub wait_state : Container → String
wait_state c = if c.health == "" then c.state else c.state <+> ", health " <+> c.health

-- waitTimeout
unfoldable pub wait_timeout : Container → Until → ℕ → Error
unfolding wait_state
wait_timeout c until seconds =
    with_hint
      (errorf timeout (
        "container "
        <+> c.name
        <+> " did not become "
        <+> until_text until
        <+> " within "
        <+> decimal seconds
        <+> "s (now "
        <+> wait_state c
        <+> ")"))
      ("raise --timeout, or look for the cause with `d9c logs " <+> c.name <+> "` and `d9c inspect "
        <+> c.name <+> "`")

abbrev pub waited : Polls → Until → ℕ → Container → WaitData
waited p until k c = record {
  container = c.name;
  id = c.id;
  until = until;
  state = c.state;
  health = c.health;
  waited_ms = if leb k 0 then 0 else p.since k;
}

module _ (p : Polls) (ref : String) (until : Until) (seconds : ℕ) where
  -- What the loop has seen at a poll, before it looks at the clock: the container, and whether
  -- it is in the state that is waited for.
  unfoldable pub seen : ℕ → String → Result Failure (Container × Bool)
  unfolding wait_find wait_reached
  seen k id = elim (p.listed k) [
    | err e ↦ err e
    | ok list ↦ elim (wait_find list ref id) [
      | err e ↦ err (agent e)
      | ok c ↦ elim (wait_reached c until) [ err e ↦ err (agent e) | ok done ↦ ok (c, done) ]
    ]
  ]

  -- The loop of the handler from poll k on, on fuel; none where that runs out.
  unfoldable pub wait_from : ℕ → ℕ → String → Option (Result Failure WaitData)
  unfolding seen wait_timeout
  wait_from zero k id = none
  wait_from (suc fuel) k id = elim (seen k id) [
    | err e ↦ some (err e)
    | ok (c, done) ↦
        let next = wait_from fuel (suc k) c.id in
        if done
        then some (ok (waited p until k c))
        else if leb (p.left k) 0
        then some (err (agent (wait_timeout c until seconds)))
        else elim (p.cancelled k) [ some e ↦ some (err e) | none ↦ next ]
  ]

  -- The handler, which polls once more than there are milliseconds until the deadline at most.
  unfoldable pub wait : Option (Result Failure WaitData)
  unfolding wait_from
  wait = wait_from (suc (p.left 0)) 0 ""
