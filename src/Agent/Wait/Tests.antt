-- ===== src/Agent/Wait/Tests.antt =====
-- Runs of `wait` on a container that comes up between two polls.
use d9c.Base.{
  ◌≡◌, refl, ◌==◌, Bool, true, false, ℕ, zero, suc, ◌-◌, String, Option, none, some, List, [], ◌∷◌,
  if◌then◌else◌, leb, ok, err,
}
use d9c.Agent.Error.{agent}
use d9c.Agent.Containers.{Container, resolve_container}
use d9c.Agent.Wait.{running, Polls, WaitData, wait, wait_timeout}
use d9c.Agent.Wait.Reached.{WasReached, wait_lem}

abbrev web : String → Container
web state = record {
  id = "c1";
  name = "web";
  image = "nginx";
  state = state;
  health = "";
  labels = [];
  networks = [];
}

abbrev coming_up : Polls
coming_up = record {
  listed = λ k. ok (web (if leb k 0 then "created" else "running") ∷ []);
  left = λ k. 1000 - k;
  since = λ k. k;
  cancelled = λ k. none;
}

abbrev stuck : Polls
stuck = record {
  listed = λ k. ok (web "created" ∷ []);
  left = λ k. if leb k 0 then 600 else (if leb k 1 then 100 else 0);
  since = λ k. k;
  cancelled = λ k. none;
}

abbrev up : WaitData
up = record {
  container = "web";
  id = "c1";
  until = running;
  state = "running";
  health = "";
  waited_ms = 1;
}

wait_lem_example :
    WasReached coming_up "web" running 1 up
    × ((list : List Container) (c : Container)
        → coming_up.listed 0 ≡ ok list
        → resolve_container list "web" ≡ ok c
        → (c.id == "") ≡ false
        → "c1" ≡ c.id)
unfolding wait resolve_container d9c.Base.trim_prefix
wait_lem_example = wait_lem coming_up "web" running 1 up refl

timed_out : wait stuck "web" running 1 ≡ some (err (agent (wait_timeout (web "created") running 1)))
unfolding wait resolve_container d9c.Base.trim_prefix
timed_out = refl
