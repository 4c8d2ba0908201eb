-- ===== src/Agent/Invoke/Gate.antt =====
-- Which calls reach a handler, and what a destructive operation answers before it is confirmed.
use d9c.Base.{
  Result-cases, ◌≡◌, ap, ◌∙◌, ◌⊎◌, inl, inr, ◌&&◌, ◌||◌, not, Bool, true, false, String, none, some,
  List, [], ◌∷◌, All, ok, err, arith, Bool-cases, Option-cases, ◌==◌,
}
use mathlib.Core.Path.{subst}
use mathlib.Core.Option.{some-injective}
use d9c.Agent.Tier.{allows}
use d9c.Agent.Error.{Error}
use d9c.Agent.Schema.{Args, lookup}
use d9c.Agent.Schema.Normalize.{normalize}
use d9c.Agent.Registry.{Planner, Op, Registry}
use d9c.Agent.Invoke.{Call, is_destructive, plan_of, perform, admit, invoke_op, invoke}

-- The planners of the registry change nothing.
abbrev pub PlansRead : {W : Type 0} → Registry W → Type 0
PlansRead {W} r =
    All (λ e. (f : Planner W) → e.1.plan ≡ some f → (a : Args) (w : W) → (f a w).1 ≡ w) r

-- A call that may change the engine.
pub record Permitted {W : Type 0} (r : Registry W) (name : String) (args : Args) (call : Call)
    : Type 0 where
  pub op : Op W
  pub found : lookup name r ≡ some op
  pub runs : call.dry_run ≡ false
  pub fits : allows call.ceiling op.tier ≡ true
  pub consented : (is_destructive op.tier ≡ false) ⊎ (call.confirmed ≡ true)
  pub norm : Args
  pub normalized : normalize op.args args ≡ ok norm

pub lookup_All {ℓ} :
    {V : Type 0} (P : String × V → Type ℓ) (k : String) (m : List (String × V)) {v : V}
    → All P m
    → lookup k m ≡ some v
    → (j : String) × P (j, v)
unfolding lookup
lookup_All P k [] h e = cc
lookup_All P k ((j, v) ∷ m) {v = v'} h e = elim (Bool-cases (j == k)) [
  | inl t ↦ (j, subst (λ x. P (j, x)) (some-injective v v' (rw t at e)) h.0)
  | inr f ↦ lookup_All P k m h.1 (rw f at e)
]

module _ (names_missing_object : String → Bool) {W : Type 0} where
  plan_of_reads :
      (op : Op W)
      → ((f : Planner W) → op.plan ≡ some f → (a : Args) (w : W) → (f a w).1 ≡ w)
      → (a : Args) (w : W) → (plan_of op a w).1 ≡ w
  unfolding plan_of
  plan_of_reads op reads a w = elim (Option-cases op.plan) [
    | inl e ↦ rw e
    | inr (f, e) ↦ rw e (reads f e a w)
  ]

  perform_cases :
      (op : Op W) (name : String) (norm : Args) (call : Call) (w : W)
      → ((f : Planner W) → op.plan ≡ some f → (a : Args) (w : W) → (f a w).1 ≡ w)
      → (call.dry_run ≡ false) × ((is_destructive op.tier ≡ false) ⊎ (call.confirmed ≡ true))
        ⊎ ((perform names_missing_object op name norm call w).1 ≡ w)
  unfolding perform
  perform_cases op name norm call w reads =
      elim (Bool-cases (call.dry_run || (is_destructive op.tier && not call.confirmed))) [
        | inl t ↦ inr (rw t (plan_of_reads op reads norm w))
        | inr f ↦ inl (ground arith, ground arith)
      ]

  pub admit-none :
      (op : Op W) (name : String) (call : Call)
      → admit names_missing_object op name call ≡ none
      → call.dry_run ≡ false
      → allows call.ceiling op.tier ≡ true
  unfolding admit
  admit-none op name call h runs = ground arith

  module _ (r : Registry W) (name : String) (args : Args) (call : Call) (w : W) where
    invoke_unknown : lookup name r ≡ none → (invoke names_missing_object r name args call w).1 ≡ w
    unfolding invoke
    invoke_unknown e = rw (e, invoke)

    module _ (op : Op W) (found : lookup name r ≡ some op) where
      pub invoke_refused :
          (e : Error)
          → admit names_missing_object op name call ≡ some e
          → invoke names_missing_object r name args call w ≡ (err e, w)
      unfolding invoke invoke_op
      invoke_refused e refused = rw (found, invoke, refused, invoke_op)

      pub invoke_bad :
          (e : Error)
          → admit names_missing_object op name call ≡ none
          → normalize op.args args ≡ err e
          → invoke names_missing_object r name args call w ≡ (err e, w)
      unfolding invoke invoke_op
      invoke_bad e admitted bad = rw (found, invoke, admitted, bad, invoke_op)

      pub invoke-perform :
          (norm : Args)
          → admit names_missing_object op name call ≡ none
          → normalize op.args args ≡ ok norm
          → invoke names_missing_object r name args call w
            ≡ perform names_missing_object op name norm call w
      unfolding invoke invoke_op
      invoke-perform norm admitted good = rw (found, invoke, admitted, good, invoke_op)

  -- Where the planners only read, a call changes the engine only if it is permitted: its operation
  -- is registered, it is no dry run, the ceiling allows the operation's tier, a destructive operation
  -- is confirmed, and the arguments are accepted.
  pub invoke_Permitted :
      (r : Registry W) (name : String) (args : Args) (call : Call) (w : W)
      → PlansRead r
      → Permitted r name args call ⊎ ((invoke names_missing_object r name args call w).1 ≡ w)
  invoke_Permitted r name args call w reads = elim (Option-cases (lookup name r)) [
    | inl e ↦ inr (invoke_unknown r name args call w e)
    | inr (op, found) ↦ elim (Option-cases (admit names_missing_object op name call)) [
      | inr (e, refused) ↦
          inr (ap (λ x. x.1) (invoke_refused r name args call w op found e refused))
      | inl admitted ↦ elim (Result-cases (normalize op.args args)) [
        | inr (e, bad) ↦ inr (ap (λ x. x.1) (invoke_bad r name args call w op found e admitted bad))
        | inl (norm, good) ↦
            elim (perform_cases op name norm call w (lookup_All _ name r reads found).1) [
              | inr same ↦ inr (
                  ap (λ x. x.1) (invoke-perform r name args call w op found norm admitted good)
                  ∙ same)
              | inl (runs, consented) ↦ inl (record {
                op = op;
                found = found;
                runs = runs;
                fits = admit-none op name call admitted runs;
                consented = consented;
                norm = norm;
                normalized = good;
              })
            ]
      ]
    ]
  ]
