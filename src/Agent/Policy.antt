-- ===== src/Agent/Policy.antt =====
-- policy.go: which tiers the user's settings admit.
pub mod Ceiling
pub mod Consent
use d9c.Base.{
  ◌<+>◌, ◌==◌, if◌then◌else◌, ◌&&◌, not, Bool, false, String, Option, none, some, List, [], ◌∷◌,
  Result, ok, err, ◌>>=◌, quote,
}
use d9c.Base.Int.{leb_ℤ}
use d9c.Hosts.{AgentPolicy, Host}
use d9c.Agent.Tier.{Tier, tier_read, tier_safe, tier_string, allows, parse_tier}
use d9c.Agent.Error.{Error, errorf, with_hint, usage, forbidden}

abbrev pub default_max_tier : Tier
default_max_tier = tier_safe

pub record Policy : Type 0 where
  -- the global read-only switch that is on, or the empty text
  pub read_only : String
  pub global : Option AgentPolicy
  pub host : Option Host
  pub allow_write_flag : Bool
  pub config_path : String

pub record Decision : Type 0 where
  pub ceiling : Tier
  pub read_only : String
  pub allow : Option Bool
  pub allow_from : String
  pub max_tier : Tier
  pub max_from : String

pub record Layer : Type 0 where
  pub pol : Option AgentPolicy
  pub scope : String

-- The blocks of the configuration that apply, the one that wins last.
abbrev pub host_scope : Host → String
host_scope h = "for saved host " <+> quote h.name

unfoldable pub layers : Policy → List Layer
layers p =
    record { pol = p.global; scope = "globally" }
    ∷ elim p.host [ none ↦ [] | some h ↦ record { pol = h.agent; scope = host_scope h } ∷ [] ]

abbrev pub bad_max_tier : String → String → String → Error
bad_max_tier path scope e =
    with_hint (errorf usage ("config: agent.maxTier " <+> scope <+> ": " <+> e))
      ("fix the agent: block in " <+> path)

-- The body of the loop over the layers, for a block that is there.
apply_block : String → Decision → AgentPolicy → String → Result Error Decision
apply_block path d pol scope =
    let d' : Decision = elim pol.allow_write [
      | none ↦ d
      | some b ↦ record d { allow = some b; allow_from = scope }
    ] in
    if pol.max_tier == "" then ok d' else elim (parse_tier pol.max_tier) [
      | ok t ↦ ok (record d' { max_tier = t; max_from = scope })
      | err e ↦ err (bad_max_tier path scope e)
    ]

unfoldable pub apply_layers : String → Decision → List Layer → Result Error Decision
unfolding apply_block
apply_layers path d [] = ok d
apply_layers path d (l ∷ rest) = elim l.pol [
  | none ↦ apply_layers path d rest
  | some pol ↦ apply_block path d pol l.scope >>= λ d'. apply_layers path d' rest
]

-- The read-only switch in effect, or the empty text.
unfoldable pub read_only_switch : Policy → String
read_only_switch p =
    if p.read_only == ""
    then elim p.host [
      | none ↦ ""
      | some h ↦
          if h.read_only then "saved host " <+> quote h.name <+> " has read_only: true" else ""
    ]
    else p.read_only

abbrev start : Decision
start = record {
  ceiling = tier_read;
  read_only = "";
  allow = none;
  allow_from = "";
  max_tier = default_max_tier;
  max_from = "";
}

-- What follows the loop over the layers.
unfoldable pub decide_ceiling : Policy → Decision → Decision
decide_ceiling p d =
    let switch = read_only_switch p in
    let allowed : Bool = elim d.allow [ none ↦ p.allow_write_flag | some b ↦ b ] in
    record d {
      read_only = switch;
      ceiling = if (switch == "") && allowed then d.max_tier else d.ceiling;
    }

-- Policy.resolve
unfoldable pub resolve : Policy → Result Error Decision
resolve p = apply_layers p.config_path start (layers p) >>= λ d. ok (decide_ceiling p d)

-- Policy.Ceiling
unfoldable pub ceiling : Policy → Result Error Tier
ceiling p = resolve p >>= λ d. ok d.ceiling

unfoldable pub max_scope : Decision → String
max_scope d = if d.max_from == "" then "the default" else "set " <+> d.max_from

-- decision.forbidden, for an operation's name and tier.
unfoldable pub forbidden_error : Decision → String → Tier → String → Error
unfolding max_scope tier_string
forbidden_error d name tier path =
    let what = "operation " <+> quote name <+> " is " <+> tier_string tier in
    if not (d.read_only == "")
    then with_hint
        (errorf forbidden (what <+> ", but read-only mode is on (" <+> d.read_only <+> ")"))
        "only the user can turn read-only mode off; agents cannot override it"
    else if (elim d.allow [ none ↦ false | some b ↦ not b ])
    then with_hint
        (errorf forbidden
          (what <+> ", but agent.allowWrite is false " <+> d.allow_from <+> " in " <+> path))
        "only the user can change that setting; --allow-write does not override an explicit allowWrite: false"
    else if leb_ℤ d.ceiling tier_read && leb_ℤ tier_read d.ceiling && allows d.max_tier tier
    then with_hint (errorf forbidden (what <+> "; write operations are off by default")) (
        "confirm with the user first, then retry with --allow-write (allows up to tier "
        <+> tier_string d.max_tier
        <+> "), or have the user set agent: {allowWrite: true} in "
        <+> path
        <+> ", globally or under the saved host")
    else if leb_ℤ d.ceiling tier_read && leb_ℤ tier_read d.ceiling
    then with_hint (errorf forbidden (what <+> "; write operations are off by default")) (
        "this needs the user's consent: they can set agent: {allowWrite: true, maxTier: "
        <+> tier_string tier
        <+> "} in "
        <+> path
        <+> ", globally or under the saved host (maxTier is now "
        <+> tier_string d.max_tier
        <+> ", "
        <+> max_scope d
        <+> ")")
    else with_hint
        (errorf forbidden (
          what
          <+> ", above agent.maxTier "
          <+> tier_string d.max_tier
          <+> " ("
          <+> max_scope d
          <+> ")"))
        ("ask the user; they can set maxTier: "
          <+> tier_string tier
          <+> " in the agent: block in "
          <+> path)

-- Policy.Check, for an operation's name and tier.
unfoldable pub check : Policy → String → Tier → Result Error (Unit {0})
check p name tier = resolve p >>= λ d.
    if allows d.ceiling tier then ok tt else err (forbidden_error d name tier p.config_path)
