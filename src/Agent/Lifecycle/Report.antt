-- ===== src/Agent/Lifecycle/Report.antt =====
-- What a lifecycle command reports of its targets.
use d9c.Base.{
  ℕ, suc, ◌+◌, ◌≤◌, ◌≡◌, refl, sym, ap, ◌⊎◌, inl, inr, ◌≢◌, ◌↔◌, not, ◌&&◌, Bool, true, String,
  Option, none, some, List, [], ◌∷◌, All, keep, length, ok, err, Result, Result-cases, arith,
  Bool-cases, Option-cases, List-cases, leb, ltb,
}
use mathlib.Core.Path.{subst}
use d9c.Agent.Schema.{Args}
use d9c.Agent.Error.{Failure}
use d9c.Agent.OpResult.{done, failed, ActionTarget, ActionData, Data, action, OpResult, returned}
use d9c.Agent.Containers.{Container, strings_arg, parse_container_filter}
use d9c.Agent.Lifecycle.{
  Act, Env, is_done, is_failed, counted, action_result, outcome, attempt, attempt_all, act_on,
  lifecycle_targets, lifecycle_handler, select, resolve_targets,
}
use d9c.Agent.Lifecycle.Once.{AreOnce, resolve_targets-AreOnce}

keep_both :
    {A : Type 0} (p : A → Bool) (xs : List A)
    → length (keep p xs) + length (keep (λ x. not (p x)) xs) ≡ length xs
keep_both p [] = refl
keep_both p (x ∷ xs) = elim (Bool-cases (p x)) [
  | inl t ↦ rw t (omega (arith, keep_both p xs))
  | inr f ↦ rw f (omega (arith, keep_both p xs))
]

-- A target that was settled: done or failed.
abbrev pub IsSettled : ActionTarget → Type 0
IsSettled t = (t.result ≡ done) ⊎ (t.result ≡ failed)

-- How many of the targets are done, and how many failed.
abbrev pub done_in : List ActionTarget → ℕ
done_in [] = 0
done_in (t ∷ ts) = elim t.result [ done ↦ suc (done_in ts) | _ ↦ done_in ts ]

abbrev pub failed_in : List ActionTarget → ℕ
failed_in [] = 0
failed_in (t ∷ ts) = elim t.result [ failed ↦ suc (failed_in ts) | _ ↦ failed_in ts ]

-- The counts are those of the targets and add up, the result is marked partial where some targets
-- failed, and where there are targets, some are done.
abbrev pub IsCounted : ActionData → OpResult Data → Type 0
IsCounted d r =
    (d.done ≡ done_in d.targets)
    × (d.failed ≡ failed_in d.targets)
    × (d.done + d.failed ≡ length d.targets)
    × ((r.partial ≡ true) ↔ (1 ≤ d.failed))
    × ((d.targets ≡ []) ⊎ (1 ≤ d.done))

done_in-keep : (ts : List ActionTarget) → length (keep is_done ts) ≡ done_in ts
done_in-keep [] = refl
done_in-keep (t ∷ ts) = ground (arith, done_in-keep ts)

failed_in-keep :
    (ts : List ActionTarget)
    → All IsSettled ts
    → length (keep (λ t. not (is_done t)) ts) ≡ failed_in ts
failed_in-keep [] h = refl
failed_in-keep (t ∷ ts) (inl d, h) = rw d (failed_in-keep ts h)
failed_in-keep (t ∷ ts) (inr f, h) = rw f (ap suc (failed_in-keep ts h))

action_result-kept :
    (d : ActionData) (filtered : Bool) (r : OpResult Data)
    → action_result d filtered ≡ returned r
    → (r.content ≡ action (counted d))
      × ((r.partial ≡ true) ↔ (1 ≤ (counted d).failed))
      × (1 ≤ length d.targets → 1 ≤ (counted d).done)
unfolding action_result
action_result-kept d filtered r h =
    let total = keep_both is_done d.targets in
    elim (List-cases d.targets) [
      | inl e ↦ ground arith
      | inr (t, rest, e) ↦ elim (List-cases (keep (λ u. not (is_done u)) d.targets)) [
        | inl none_failed ↦ ground arith
        | inr (f, fs, some_failed) ↦ ground arith
      ]
    ]

action_result-counted :
    (d : ActionData) (filtered : Bool) (r : OpResult Data)
    → All IsSettled d.targets
    → action_result d filtered ≡ returned r
    → (r.content ≡ action (counted d)) × IsCounted (counted d) r
action_result-counted d filtered r settled h =
    let (same, partial, some_done) = action_result-kept d filtered r h in
    (
      same,
      (
        done_in-keep d.targets,
        failed_in-keep d.targets settled,
        keep_both is_done d.targets,
        partial,
        elim (List-cases d.targets) [
          | inl e ↦ inl e
          | inr (t, rest, e) ↦ inr (some_done (ground (arith, ap length e)))
        ],
      ),
    )

module _ (path_match : String → String → Option Bool) {W : Type 0} where
  select_once :
      (refs : List String) (match : Option (Container → Bool))
      (a : Result Failure (List Container) × W) {ts : List ActionTarget} {list : List Container}
      {w : W}
      → select path_match refs match a ≡ (ok (ts, list), w)
      → AreOnce ts
  unfolding select
  select_once refs match (err e, w) h = cc
  select_once refs match (ok list, w) {ts = ts} h =
      let same : resolve_targets list refs match ≡ ts = cc in
      subst AreOnce same (resolve_targets-AreOnce list refs match).1

  lifecycle_targets_once :
      (env : Env W) (name : String) (args : Args) (w : W) {ts : List ActionTarget}
      {list : List Container} {w' : W}
      → lifecycle_targets path_match env name args w ≡ (ok (ts, list), w')
      → AreOnce ts
  unfolding lifecycle_targets
  lifecycle_targets_once env name args w {ts = ts} {list = l} {w' = w'} h =
      elim (Option-cases env.list_containers) [
        | inl e ↦ absurd (ground arith)
        | inr (list, e) ↦
            elim (Bool-cases (
              leb (length (strings_arg args "targets")) 0
              && leb (length (strings_arg args "filter")) 0)) [
                | inl t ↦ absurd (ground arith)
                | inr f ↦
                    elim (Result-cases
                      (parse_container_filter path_match (strings_arg args "filter"))) [
                        | inr (x, bad) ↦ absurd (ground arith)
                        | inl (match, good) ↦
                            select_once (strings_arg args "targets") match (list w) {ts = ts}
                              {list = l} {w = w'} (rw (e, f, good) at h)
                      ]
              ]
      ]

module _ (names_missing_object : String → Bool) {W : Type 0} (env : Env W) (act : Act W)
    (args : Args) where
  outcome-IsSettled :
      (t : ActionTarget) (e : Option Failure)
      → IsSettled (outcome names_missing_object t e)
        × ((outcome names_missing_object t e).id ≡ t.id)
  outcome-IsSettled t none = (inl refl, refl)
  outcome-IsSettled t (some e) = (inr refl, refl)

  attempt-IsSettled :
      (t : ActionTarget) (w : W)
      → IsSettled (attempt names_missing_object env act args t w).0
        × ((attempt names_missing_object env act args t w).0.id ≡ t.id)
  unfolding attempt
  attempt-IsSettled t w = elim (Bool-cases (is_failed t)) [
    | inl f ↦ rw f (inr (failed_lem t f), refl)
    | inr f ↦ elim (Option-cases (env.cancelled w)) [
      | inr (why, e) ↦ rw (f, e) (inr refl, refl)
      | inl e ↦ rw (f, e) (outcome-IsSettled t (act t.id args w).0)
    ]
  ]
    where
      failed_lem : (t : ActionTarget) → is_failed t ≡ true → t.result ≡ failed
      failed_lem t f = ground arith

  attempt_all-All :
      (P : String → Type 0) (ts : List ActionTarget) (w : W)
      → All (λ t. P t.id) ts
      → All (λ t. P t.id) (attempt_all names_missing_object env act args ts w).0
  unfolding attempt_all
  attempt_all-All P [] w h = tt
  attempt_all-All P (t ∷ rest) w h = (
    subst P (sym (attempt-IsSettled t w).1) h.0,
    attempt_all-All P rest (attempt names_missing_object env act args t w).1 h.1,
  )

  attempt_all-IsSettled :
      (ts : List ActionTarget) (w : W)
      → All IsSettled (attempt_all names_missing_object env act args ts w).0
  unfolding attempt_all
  attempt_all-IsSettled [] w = tt
  attempt_all-IsSettled (t ∷ rest) w = (
    (attempt-IsSettled t w).0,
    attempt_all-IsSettled rest (attempt names_missing_object env act args t w).1,
  )

  attempt_all-AreOnce :
      (ts : List ActionTarget) (w : W)
      → AreOnce ts
      → AreOnce (attempt_all names_missing_object env act args ts w).0
  unfolding attempt_all
  attempt_all-AreOnce [] w h = tt
  attempt_all-AreOnce (t ∷ rest) w h = (
    subst
        (λ i.
          All (λ u. (i ≡ "") ⊎ (u.id ≢ i))
            (attempt_all names_missing_object env act args rest
              (attempt names_missing_object env act args t w).1).0)
        (sym (attempt-IsSettled t w).1)
        (attempt_all-All (λ j. (t.id ≡ "") ⊎ (j ≢ t.id)) rest
          (attempt names_missing_object env act args t w).1 h.0),
    attempt_all-AreOnce rest (attempt names_missing_object env act args t w).1 h.1,
  )

  act_on_failed :
      (name : String) (a : Result Failure (List ActionTarget × List Container) × W) (e : Failure)
      → a.0 ≡ err e
      → {r : OpResult Data} {w : W}
      → act_on names_missing_object env name act args a ≢ (returned r, w)
  unfolding act_on
  act_on_failed name a e bad h = ground arith

  act_on_reports :
      (name : String) (a : Result Failure (List ActionTarget × List Container) × W)
      (ts : List ActionTarget) (list : List Container) (r : OpResult Data)
      → a.0 ≡ ok (ts, list)
      → AreOnce ts
      → (act_on names_missing_object env name act args a).0 ≡ returned r
      → (d : ActionData) × (r.content ≡ action d)
        × IsCounted d r
        × All IsSettled d.targets
        × AreOnce d.targets
  unfolding act_on
  act_on_reports name a ts list r good once h =
      let ts' = (attempt_all names_missing_object env act args ts a.1).0 in
      let d : ActionData = record { action = name; targets = ts'; done = 0; failed = 0 } in
      let settled = attempt_all-IsSettled ts a.1 in
      let counts =
        action_result-counted d (ltb 0 (length (strings_arg args "filter"))) r settled
          (rw good at h) in
      (counted d, counts.0, counts.1, settled, attempt_all-AreOnce ts a.1 once)

  module _ (path_match : String → String → Option Bool) where
    -- When a lifecycle command succeeds, every target is done or failed, its data counts the ones and
    -- the others, at least one is done where there are any, no container is reported twice, and the
    -- result is marked partial exactly where some failed.
    pub lifecycle_handler_reports :
        (name : String) (w w' : W) (r : OpResult Data)
        → lifecycle_handler names_missing_object path_match env name act args w ≡ (returned r, w')
        → (d : ActionData) × (r.content ≡ action d)
          × IsCounted d r
          × All IsSettled d.targets
          × AreOnce d.targets
    unfolding lifecycle_handler
    lifecycle_handler_reports name w w' r h =
        let a = lifecycle_targets path_match env name args w in
        elim (Result-cases a.0) [
          | inr (e, bad) ↦ absurd (act_on_failed name a e bad h)
          | inl ((ts, list), good) ↦
              act_on_reports name a ts list r good
                (lifecycle_targets_once path_match env name args w (ap (λ x. (x, a.1)) good))
                (ap (λ x. x.0) h)
        ]
