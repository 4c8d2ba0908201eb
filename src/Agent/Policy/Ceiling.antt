-- ===== src/Agent/Policy/Ceiling.antt =====
-- The ceiling against its description: the host's block wins over the global one field by field, the
-- flag counts where neither sets allowWrite, and a read-only switch caps everything.
use d9c.Base.{
  List, [], ◌∷◌, ◌≡◌, refl, ap, ◌⊎◌, inl, inr, ◌==◌, ◌&&◌, ◌||◌, not, ◌<+>◌, quote, has_prefix,
  has_prefix-append, eq_iff, if◌then◌else◌, Bool, true, false, String, Option, none, some, Result,
  ok, err, arith, or_else, default, Bool-cases, Option-cases,
}
use d9c.Hosts.{AgentPolicy}
use d9c.Agent.Tier.{Tier, tier_read, parse_tier}
use d9c.Agent.Error.{Error, usage}
use d9c.Agent.Policy.{
  Policy, Decision, default_max_tier, start, layers, apply_block, apply_layers, read_only_switch,
  decide_ceiling, resolve, ceiling, bad_max_tier, Layer, host_scope,
}

abbrev pub allow_of : Option AgentPolicy → Option Bool
allow_of none = none
allow_of (some pol) = pol.allow_write

abbrev max_of_text : String → Result String Tier → Option Tier
max_of_text s (ok t) = if s == "" then none else some t
max_of_text s (err e) = none

abbrev pub max_of : Option AgentPolicy → Option Tier
max_of none = none
max_of (some pol) = max_of_text pol.max_tier (parse_tier pol.max_tier)

abbrev pub host_block : Policy → Option AgentPolicy
host_block p = elim p.host [ none ↦ none | some h ↦ h.agent ]

-- allowWrite as configured, the host's block first.
abbrev pub configured_allow : Policy → Option Bool
configured_allow p = or_else (allow_of (host_block p)) (allow_of p.global)

abbrev pub configured_max : Policy → Tier
configured_max p = default (or_else (max_of (host_block p)) (max_of p.global)) default_max_tier

-- Whether the user turned writing off: by the global switch, or on the saved host.
abbrev pub is_locked : Policy → Bool
is_locked p = not (p.read_only == "") || elim p.host [ none ↦ false | some h ↦ h.read_only ]

host_switch_set :
    (name : String) → ("saved host " <+> quote name <+> " has read_only: true" == "") ≡ false
unfolding has_prefix
host_switch_set name =
    elim (Bool-cases ("saved host " <+> quote name <+> " has read_only: true" == "")) [
      | inr f ↦ f
      | inl t ↦
          let none_left =
            (eq_iff ("saved host " <+> quote name <+> " has read_only: true") "").0 t in
          let starts =
            has_prefix-append "saved host " (quote name <+> " has read_only: true") "s"
              (omega arith) in
          absurd (ground (arith, starts, ap (λ s. has_prefix s "s") none_left))
    ]

pub switch-is_locked : (p : Policy) → (read_only_switch p == "") ≡ not (is_locked p)
unfolding read_only_switch
switch-is_locked p = elim (Bool-cases (p.read_only == "")) [
  | inr f ↦ rw (f, f) refl
  | inl t ↦ elim (Option-cases p.host) [
    | inl e ↦ rw (t, e) refl
    | inr (h, e) ↦ elim (Bool-cases h.read_only) [
      | inl on ↦ rw (t, e, on) (host_switch_set h.name)
      | inr off ↦ rw (t, e, off) refl
    ]
  ]
]

abbrev pub ceiling_of : Policy → Tier
ceiling_of p =
    if not (is_locked p) && default (configured_allow p) p.allow_write_flag
    then configured_max p
    else tier_read

-- A block whose maxTier is unset or the name of a tier.
abbrev pub IsReadable : Option AgentPolicy → Type 0
IsReadable none = Unit
IsReadable (some pol) =
    ((pol.max_tier == "") ≡ true) ⊎ ((t : Tier) × (parse_tier pol.max_tier ≡ ok t))

-- What one layer does to the decision.
abbrev step : Option AgentPolicy → String → Decision → Decision
step o scope d = record d {
  allow = or_else (allow_of o) d.allow;
  allow_from = elim (allow_of o) [ none ↦ d.allow_from | some _ ↦ scope ];
  max_tier = default (max_of o) d.max_tier;
  max_from = elim (max_of o) [ none ↦ d.max_from | some _ ↦ scope ];
}

block_step :
    (path scope : String) (d : Decision) (pol : AgentPolicy)
    → IsReadable (some pol)
    → apply_block path d pol scope ≡ ok (step (some pol) scope d)
unfolding apply_block
block_step path scope d pol h = ground arith

block_bad :
    (path scope : String) (d : Decision) (pol : AgentPolicy)
    → IsReadable (some pol)
      ⊎ ((e : Error) × (apply_block path d pol scope ≡ err e) × (e.code ≡ usage))
unfolding apply_block
block_bad path scope d pol = elim (Bool-cases (pol.max_tier == "")) [
  | inl unset ↦ inl (inl unset)
  | inr set ↦ parsed (parse_tier pol.max_tier) refl set
]
  where
    parsed :
        (r : Result String Tier)
        → parse_tier pol.max_tier ≡ r
        → (pol.max_tier == "") ≡ false
        → IsReadable (some pol)
          ⊎ ((e : Error) × (apply_block path d pol scope ≡ err e) × (e.code ≡ usage))
    parsed (ok t) eq set = inl (inr (t, eq))
    parsed (err m) eq set = inr (bad_max_tier path scope m, rw (set, eq), refl)

one_layer :
    (path scope : String) (d : Decision) (o : Option AgentPolicy) (rest : List Layer)
    → IsReadable o
    → apply_layers path d (record { pol = o; scope = scope } ∷ rest)
      ≡ apply_layers path (step o scope d) rest
unfolding apply_layers
one_layer path scope d none rest h = refl
one_layer path scope d (some pol) rest h = rw (block_step path scope d pol h)

abbrev pub decided : Policy → Decision
decided p =
    let d = step p.global "globally" start in
    elim p.host [ none ↦ d | some h ↦ step h.agent (host_scope h) d ]

-- The decision of a readable configuration.
pub resolve-eq-decided :
    (p : Policy)
    → IsReadable p.global
    → IsReadable (host_block p)
    → resolve p ≡ ok (decide_ceiling p (decided p))
unfolding resolve layers
resolve-eq-decided p g h = elim (Option-cases p.host) [
  | inl e ↦
      rw e
        (rw (one_layer p.config_path "globally" start p.global [] g) (unfold apply_layers in refl))
  | inr (host, e) ↦ rw e (
      rw (one_layer p.config_path "globally" start p.global _ g) (
        rw (one_layer p.config_path (host_scope host) _ host.agent [] (rw e at h))
          (unfold apply_layers in refl)))
]

pub ceiling-decide : (p : Policy) → (decide_ceiling p (decided p)).ceiling ≡ ceiling_of p
unfolding decide_ceiling
ceiling-decide p = ground (arith, switch-is_locked p)

-- Where every maxTier of the configuration is unset or the name of a tier, the ceiling is the
-- configured maxTier (the host's before the global one, and `safe` where none is set) if no
-- read-only switch is on and writes are allowed (by the host's allowWrite, else the global one, else
-- the flag), and the read tier otherwise.
pub ceiling-eq-ceiling_of :
    (p : Policy) → IsReadable p.global → IsReadable (host_block p) → ceiling p ≡ ok (ceiling_of p)
unfolding ceiling
ceiling-eq-ceiling_of p g h = rw (resolve-eq-decided p g h) (ap ok (ceiling-decide p))

resolve_bad_global :
    (p : Policy) → IsReadable p.global ⊎ ((e : Error) × (resolve p ≡ err e) × (e.code ≡ usage))
unfolding resolve layers apply_layers
resolve_bad_global p = elim (Option-cases p.global) [
  | inl e ↦ rw e (inl tt)
  | inr (pol, e) ↦ elim (block_bad p.config_path "globally" start pol) [
    | inl readable ↦ rw e (inl readable)
    | inr (m, bad, code) ↦ inr (m, rw e (rw bad), code)
  ]
]

resolve_bad_host :
    (p : Policy)
    → IsReadable p.global
    → IsReadable (host_block p) ⊎ ((e : Error) × (resolve p ≡ err e) × (e.code ≡ usage))
unfolding resolve layers
resolve_bad_host p g = elim (Option-cases p.host) [
  | inl e ↦ rw e (inl tt)
  | inr (host, e) ↦ elim (Option-cases host.agent) [
    | inl e' ↦ inl (rw (e, e') tt)
    | inr (pol, e') ↦
        elim (block_bad p.config_path (host_scope host) (step p.global "globally" start) pol) [
          | inl readable ↦ inl (rw (e, e') readable)
          | inr (m, bad, code) ↦ inr (
            m,
            rw e (
                rw (one_layer p.config_path "globally" start p.global _ g)
                  (unfold apply_layers in rw e' (rw bad))),
            code,
          )
        ]
  ]
]

-- The policy either reads its configuration or refuses every operation with a usage error.
pub resolve-IsReadable :
    (p : Policy)
    → IsReadable p.global × IsReadable (host_block p)
      ⊎ ((e : Error) × (resolve p ≡ err e) × (e.code ≡ usage))
resolve-IsReadable p = elim (resolve_bad_global p) [
  | inr bad ↦ inr bad
  | inl g ↦ elim (resolve_bad_host p g) [ inr bad ↦ inr bad | inl h ↦ inl (g, h) ]
]
