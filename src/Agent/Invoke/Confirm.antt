-- ===== src/Agent/Invoke/Confirm.antt =====
-- What a permitted call answers, and what a destructive operation answers before it is confirmed.
use d9c.Base.{
  ◌≡◌, refl, sym, ap, ◌∙◌, ◌⊎◌, ◌↔◌, inl, inr, ◌≢◌, List, [], ◌∷◌, ne_of_test, ◌&&◌, ◌||◌, not,
  Bool, true, false, String, none, some, Result, ok, err, arith, Bool-cases, Option-cases,
  Result-cases,
}
use d9c.Agent.Tier.{Tier, allows}
use d9c.Agent.Error.{Error, PlanData, Failure, internal, confirmation_required, classify}
use d9c.Agent.Schema.{Args, lookup}
use d9c.Agent.Schema.Normalize.{normalize}
use d9c.Agent.OpResult.{Data, plan, OpResult, Ending, returned, errored, panicked}
use d9c.Agent.Registry.{Handler, Planner, Op, Registry, declared}
use d9c.Agent.Invoke.{
  bug_hint, Call, Reply, is_destructive, needs_confirmation, dry_result, plan_of, call_handler,
  answer_plan, answer, perform, admit, invoke,
}
use d9c.Agent.Invoke.Gate.{Permitted, invoke-perform, invoke_refused, invoke_bad}

pub answer_plan_fails :
    (names_missing_object : String → Bool) (name : String) (call : Call)
    (p : Result Failure PlanData)
    → call.dry_run ≡ false
    → (x : OpResult Data) → answer_plan names_missing_object name call p ≢ ok x
unfolding answer_plan
answer_plan_fails names_missing_object name call p runs x h = ground arith

-- The hint of a dry run.
plan_hint :
    (name : String) (tier : Tier) (steps : List String)
    → (let p : PlanData = record { operation = name; tier = tier; steps = steps; confirm = true } in
        let reply : Reply = ok (dry_result p) in
        (x : OpResult Data) × (reply ≡ ok x)
        × (x.content ≡ plan p)
        × ((x.hint ≡ "nothing to do") ↔ (steps ≡ [])))
unfolding dry_result
plan_hint name tier [] = (_, refl, refl, (λ h. refl, λ h. refl))
plan_hint name tier (step ∷ rest) =
    (_, refl, refl, (λ h. absurd (ne_of_test "" "nothing to do" refl h), λ h. absurd (cc h)))

module _ (names_missing_object : String → Bool) where
  -- The reply that tells how a handler ended.
  abbrev pub Replies : Ending (OpResult Data) → Reply → Type 0
  Replies (returned x) a = a ≡ ok x
  Replies (errored f) a = a ≡ err (classify names_missing_object f)
  Replies (panicked what) a = (e : Error) × (a ≡ err e) × (e.code ≡ internal) × (e.hint ≡ bug_hint)

module _ (names_missing_object : String → Bool) {W : Type 0} where
  admit_run :
      (op : Op W) (name : String) (call : Call)
      → call.dry_run ≡ false
      → allows call.ceiling op.tier ≡ true
      → admit names_missing_object op name call ≡ none
  unfolding admit
  admit_run op name call runs fits = ground arith

  admit_dry :
      (op : Op W) (name : String) (call : Call)
      → declared op.plan ≡ true
      → admit names_missing_object op name (record call { dry_run = true }) ≡ none
  unfolding admit
  admit_dry op name call planned = ground arith

  perform_run :
      (op : Op W) (name : String) (norm : Args) (call : Call) (w : W)
      → call.dry_run ≡ false
      → (is_destructive op.tier ≡ false) ⊎ (call.confirmed ≡ true)
      → perform names_missing_object op name norm call w
        ≡ (let (res, w') = call_handler op norm w in (answer names_missing_object res, w'))
  unfolding perform
  perform_run op name norm call w runs (inl mild) = rw (runs, mild)
  perform_run op name norm call w runs (inr confirmed) =
      elim (Bool-cases (is_destructive op.tier)) [
        | inl d ↦ rw (runs, d, confirmed)
        | inr d ↦ rw (runs, d)
      ]

  permitted_runs :
      (r : Registry W) (name : String) (args : Args) (call : Call) (w : W)
      (p : Permitted r name args call)
      → invoke names_missing_object r name args call w ≡ (
        answer names_missing_object (call_handler p.op p.norm w).0,
        (call_handler p.op p.norm w).1,
      )
  permitted_runs r name args call w p =
      invoke-perform names_missing_object r name args call w p.op p.found p.norm
        (admit_run p.op name call p.runs p.fits) p.normalized
      ∙ perform_run p.op name p.norm call w p.runs p.consented

  handled :
      (op : Op W) (norm : Args) (w w' : W) (f : Handler W) (ending : Ending (OpResult Data))
      → op.handler ≡ some f
      → f norm w ≡ (ending, w')
      → Replies names_missing_object ending (answer names_missing_object (call_handler op norm w).0)
        × ((call_handler op norm w).1 ≡ w')
  unfolding call_handler answer classify
  handled op norm w w' f (returned x) h e = rw (h, e) (refl, refl)
  handled op norm w w' f (errored x) h e = rw (h, e) (refl, refl)
  handled op norm w w' f (panicked what) h e = rw (h, e) ((_, refl, refl, refl), refl)

  -- A permitted call runs its operation's handler and leaves the engine as the handler left
  -- it. The reply is the handler's result, or its error, classified, or an internal error that asks
  -- to report a bug where the handler panicked.
  pub invoke_runs :
      (r : Registry W) (name : String) (args : Args) (call : Call) (w w' : W)
      (p : Permitted r name args call) (f : Handler W) (ending : Ending (OpResult Data))
      → p.op.handler ≡ some f
      → f p.norm w ≡ (ending, w')
      → Replies names_missing_object ending (invoke names_missing_object r name args call w).0
        × ((invoke names_missing_object r name args call w).1 ≡ w')
  invoke_runs r name args call w w' p f ending h e =
      rw (permitted_runs r name args call w p) (handled p.op p.norm w w' f ending h e)

  pub perform_plan :
      (op : Op W) (name : String) (norm : Args) (call : Call) (w : W)
      → (call.dry_run || (is_destructive op.tier && not call.confirmed)) ≡ true
      → perform names_missing_object op name norm call w
        ≡ (answer_plan names_missing_object name call (plan_of op norm w).0, (plan_of op norm w).1)
  unfolding perform
  perform_plan op name norm call w asks = rw asks

  -- The plan of an operation with these steps, which needs confirmation.
  abbrev pub shown : Op W → List String → PlanData
  shown op steps = record { operation = op.name; tier = op.tier; steps = steps; confirm = true }

  -- How an unconfirmed call and a dry run tell how the planner ended.
  abbrev pub Asks : Op W → Ending (List String) → Reply → Reply → Type 0
  Asks op (returned steps) run dry =
      ((e : Error) × (run ≡ err e)
        × (e.code ≡ confirmation_required)
        × (e.plan ≡ some (shown op steps)))
      × ((x : OpResult Data) × (dry ≡ ok x)
          × (x.content ≡ plan (shown op steps))
          × ((x.hint ≡ "nothing to do") ↔ (steps ≡ [])))
  Asks op (errored f) run dry =
      (run ≡ err (classify names_missing_object f)) × (dry ≡ err (classify names_missing_object f))
  Asks op (panicked what) run dry =
      (e : Error) × (run ≡ err e) × (dry ≡ err e) × (e.code ≡ internal)

  asked :
      (op : Op W) (name : String) (call : Call) (norm : Args) (w w' : W) (f : Planner W)
      (ending : Ending (List String))
      → call.dry_run ≡ false
      → is_destructive op.tier ≡ true
      → op.plan ≡ some f
      → f norm w ≡ (ending, w')
      → Asks op ending (answer_plan names_missing_object name call (plan_of op norm w).0) (
          answer_plan names_missing_object name
            (record call { dry_run = true })
            (plan_of op norm w).0)
        × ((plan_of op norm w).1 ≡ w')
  unfolding plan_of answer_plan is_destructive needs_confirmation classify
  asked op name call norm w w' f (returned steps) runs d h e =
      rw (h, e, runs, d) (((_, refl, refl, refl), plan_hint op.name op.tier steps), refl)
  asked op name call norm w w' f (errored x) runs d h e = rw (h, e) ((refl, refl), refl)
  asked op name call norm w w' f (panicked what) runs d h e =
      rw (h, e) ((_, refl, refl, refl), refl)

  pub err_ne_ok :
      {w : W} (a : Reply × W) (e : Error) (x : OpResult Data) → a ≡ (err e, w) → a.0 ≡ ok x → ⊥
  err_ne_ok a e x p h = cc p

  module _ (r : Registry W) (name : String) (args : Args) (call : Call) (w : W) (op : Op W)
      (found : lookup name r ≡ some op) (destructive : is_destructive op.tier ≡ true)
      (unconfirmed : call.confirmed ≡ false) (runs : call.dry_run ≡ false) where
    -- A registered destructive operation that is not confirmed does not succeed in a call that is no
    -- dry run, whatever its arguments, the ceiling and the engine.
    pub destructive_unconfirmed :
        (x : OpResult Data) → (invoke names_missing_object r name args call w).0 ≢ ok x
    destructive_unconfirmed x h = elim (Option-cases (admit names_missing_object op name call)) [
      | inr (e, refused) ↦
          err_ne_ok _ e x
            (invoke_refused names_missing_object r name args call w op found e refused) h
      | inl admitted ↦ elim (Result-cases (normalize op.args args)) [
        | inr (e, bad) ↦
            err_ne_ok _ e x
              (invoke_bad names_missing_object r name args call w op found e admitted bad) h
        | inl (norm, good) ↦
            let same =
              invoke-perform names_missing_object r name args call w op found norm admitted good
              ∙ perform_plan op name norm call w (rw (runs, destructive, unconfirmed)) in
            answer_plan_fails names_missing_object name call (plan_of op norm w).0 runs x
              (sym (ap (λ y. y.0) same) ∙ h)
      ]
    ]

    -- Where the tier of a destructive operation is allowed and its arguments are accepted, a call that
    -- is neither confirmed nor a dry run and the dry run answer by the same plan, if the planner finds
    -- one: the call with a confirmation_required error that carries the plan, the dry run with the
    -- plan as its result, with the hint "nothing to do" exactly where the plan is empty. The plan is
    -- that of the operation and its tier, with the planner's steps, and says that it needs
    -- confirmation. Where the planner fails, both answer its error, classified, and where it panics,
    -- the same internal error. Both leave the engine as the planner left it.
    pub confirmation_plan :
        (norm : Args) (f : Planner W) (ending : Ending (List String)) (w' : W)
        → allows call.ceiling op.tier ≡ true
        → normalize op.args args ≡ ok norm
        → op.plan ≡ some f
        → f norm w ≡ (ending, w')
        → (let run = invoke names_missing_object r name args call w in
            let dry = invoke names_missing_object r name args (record call { dry_run = true }) w in
            Asks op ending run.0 dry.0 × (run.1 ≡ w') × (dry.1 ≡ w'))
    confirmation_plan norm f ending w' fits good planner planned =
        let run =
          invoke-perform names_missing_object r name args call w op found norm
            (admit_run op name call runs fits) good
          ∙ perform_plan op name norm call w (rw (runs, destructive, unconfirmed)) in
        let dry =
          invoke-perform names_missing_object r name args (record call { dry_run = true }) w op
            found norm (admit_dry op name call (rw planner refl)) good
          ∙ perform_plan op name norm (record call { dry_run = true }) w refl in
        let (asks, left) = asked op name call norm w w' f ending runs destructive planner planned in
        rw (run, dry) (asks, left, left)
