-- ===== src/Agent/Registry/Declared.antt =====
-- What holds of every operation of a registry that `Register` built.
use d9c.Base.{
  ◌≡◌, ◌≢◌, ◌==◌, ne_of_test, refl, sym, ◌⊎◌, inl, inr, true, false, String, Option, none, some, [],
  ◌∷◌, ok, arith,
}
use mathlib.Core.Path.{subst}
use d9c.Base.Int.{leb_ℤ}
use d9c.Agent.Tier.{Tier, tier_read, valid}
use d9c.Agent.Schema.{lookup}
use d9c.Agent.Schema.Check.{check}
use d9c.Agent.Registry.{Op, Registry, register, declared, is_op_name}

-- An entry under its operation's name, with a declared tier, a handler, a summary, a checked schema, and a
-- planner unless it only reads.
pub record IsDeclared {W : Type 0} (e : String × Op W) : Type 0 where
  pub key : e.0 ≡ e.1.name
  pub named : is_op_name e.1.name ≡ true
  pub tiered : valid e.1.tier ≡ true
  pub handled : declared e.1.handler ≡ true
  pub summarized : e.1.summary ≢ ""
  pub planned : (e.1.tier ≡ tier_read) ⊎ (declared e.1.plan ≡ true)
  pub checked : check e.1.args ≡ ok tt

-- No name is declared twice, and every entry is declared.
abbrev pub IsBuilt : {W : Type 0} → Registry W → Type 0
IsBuilt [] = Unit
IsBuilt (e ∷ r) = IsDeclared e × (lookup e.0 r ≡ none) × IsBuilt r

read_of_tests : (t : Tier) → valid t ≡ true → leb_ℤ t tier_read ≡ true → t ≡ tier_read
unfolding valid
read_of_tests t v h = ground arith

abbrev Guards : {W : Type 0} → Registry W → Registry W → Op W → Type 0
Guards r r' op =
    (is_op_name op.name ≡ true)
    × (declared (lookup op.name r) ≡ false)
    × (valid op.tier ≡ true)
    × (declared op.handler ≡ true)
    × ((op.summary == "") ≡ false)
    × ((leb_ℤ op.tier tier_read ≡ true) ⊎ (declared op.plan ≡ true))
    × (check op.args ≡ ok tt)
    × (r' ≡ (op.name, op) ∷ r)

register-Guards :
    {W : Type 0} (r r' : Registry W) (op : Op W) → register r op ≡ ok r' → Guards r r' op
unfolding register
register-Guards r r' op h = ground arith

none_of_undeclared : {A : Type 0} (o : Option A) → declared o ≡ false → o ≡ none
none_of_undeclared none h = refl
none_of_undeclared (some a) h = cc

-- Register keeps a registry well formed, and adds the operation and nothing else.
pub register-IsBuilt :
    {W : Type 0} (r r' : Registry W) (op : Op W)
    → IsBuilt r
    → register r op ≡ ok r'
    → IsBuilt r' × (r' ≡ (op.name, op) ∷ r)
register-IsBuilt r r' op built h =
    let (named, fresh, tiered, handled, summarized, planned, checked, same) =
      register-Guards r r' op h in
    let entry : IsDeclared (op.name, op) = record {
      key = refl;
      named = named;
      tiered = tiered;
      handled = handled;
      summarized = ne_of_test op.summary "" summarized;
      planned = elim planned [
        | inl reads ↦ inl (read_of_tests op.tier tiered reads)
        | inr p ↦ inr p
      ];
      checked = checked;
    } in
    (subst IsBuilt (sym same) (entry, none_of_undeclared _ fresh, built), same)
