-- ===== src/Agent/Policy/Consent.antt =====
-- What `Policy.Check` admits, and what its refusals advise.
use d9c.Base.{
  sym, ◌∙◌, Option-cases, ◌≡◌, refl, ◌≢◌, ◌↔◌, ◌⊎◌, inl, inr, ◌==◌, ◌&&◌, not, if◌then◌else◌, Bool,
  true, false, String, Option, none, some, Result, ok, err, arith, eq_iff, default, Bool-cases,
  has_prefix, has_prefix-append, ◌<+>◌,
}
use mathlib.Core.Path.{subst}
use d9c.Base.Int.{leb_ℤ}
use d9c.Hosts.{Host}
use d9c.Agent.Tier.{Tier, tier_read, tier_string, allows}
use d9c.Agent.Error.{Error, forbidden}
use d9c.Agent.Policy.{
  Policy, Decision, read_only_switch, decide_ceiling, check, forbidden_error, max_scope,
}
use d9c.Agent.Policy.Ceiling.{
  IsReadable, host_block, configured_allow, configured_max, is_locked, switch-is_locked, ceiling_of,
  decided, resolve-eq-decided, ceiling-decide, resolve-IsReadable,
}

abbrev verdict : Policy → String → Tier → Result Error (Unit {0})
verdict p name tier =
    if allows (ceiling_of p) tier
    then ok tt
    else err (forbidden_error (decide_ceiling p (decided p)) name tier p.config_path)

check_readable :
    (p : Policy) (name : String) (tier : Tier)
    → IsReadable p.global × IsReadable (host_block p)
    → check p name tier ≡ verdict p name tier
unfolding check
check_readable p name tier (g, h) = rw (resolve-eq-decided p g h) (rw (ceiling-decide p))

-- An operation is admitted exactly where the configuration can be read and the operation's tier is a
-- declared one that the ceiling allows.
pub check_iff :
    (p : Policy) (name : String) (tier : Tier)
    → (check p name tier ≡ ok tt)
      ↔ ((IsReadable p.global × IsReadable (host_block p)) × (allows (ceiling_of p) tier ≡ true))
check_iff p name tier = (there, back)
  where
    back :
        (IsReadable p.global × IsReadable (host_block p)) × (allows (ceiling_of p) tier ≡ true)
        → check p name tier ≡ ok tt
    back (readable, fits) = rw (check_readable p name tier readable) (rw fits)

    there :
        check p name tier ≡ ok tt
        → (IsReadable p.global × IsReadable (host_block p)) × (allows (ceiling_of p) tier ≡ true)
    there h = elim (resolve-IsReadable p) [
      | inl readable ↦ (readable, ground (arith, check_readable p name tier readable))
      | inr (e, bad, _) ↦ absurd (unfold check in cc bad)
    ]

allows_read : (tier : Tier) → allows tier_read tier ≡ true → tier ≡ tier_read
unfolding allows
allows_read tier h = ground arith

-- The user turned writing off: by the global switch, or on the saved host.
abbrev pub IsLocked : Policy → Type 0
IsLocked p = (p.read_only ≢ "") ⊎ ((h : Host) × (p.host ≡ some h) × (h.read_only ≡ true))

IsLocked-is_locked : (p : Policy) → IsLocked p → is_locked p ≡ true
IsLocked-is_locked p (inl global) = elim (Bool-cases (p.read_only == "")) [
  | inl t ↦ absurd (global ((eq_iff p.read_only "").0 t))
  | inr f ↦ rw f refl
]
IsLocked-is_locked p (inr (h, saved, on)) = elim (Bool-cases (p.read_only == "")) [
  | inl t ↦ rw (t, saved, on) refl
  | inr f ↦ rw f refl
]

-- Where the global read-only switch is on or the saved host has read_only, only read operations are
-- admitted, whatever the other settings and the flag say.
pub check_read_only :
    (p : Policy) (name : String) (tier : Tier)
    → IsLocked p
    → check p name tier ≡ ok tt
    → tier ≡ tier_read
check_read_only p name tier locked h =
    allows_read tier (ground (arith, IsLocked-is_locked p locked, ((check_iff p name tier).0 h).1))

-- Where neither block sets allowWrite and the flag is not given, only read operations are admitted.
pub check_unset :
    (p : Policy) (name : String) (tier : Tier)
    → configured_allow p ≡ none
    → p.allow_write_flag ≡ false
    → check p name tier ≡ ok tt
    → tier ≡ tier_read
check_unset p name tier unset unflagged h =
    allows_read tier (ground (arith, ((check_iff p name tier).0 h).1))

ceiling_flag :
    (p : Policy) (b : Bool)
    → configured_allow p ≡ some b
    → ceiling_of (record p { allow_write_flag = true })
      ≡ ceiling_of (record p { allow_write_flag = false })
unfolding read_only_switch
ceiling_flag p b set = ground arith

-- Where a block of the configuration sets allowWrite, the flag adds nothing: what is admitted with it
-- is admitted without it.
pub check_explicit :
    (p : Policy) (name : String) (tier : Tier) (b : Bool)
    → configured_allow p ≡ some b
    → check (record p { allow_write_flag = true }) name tier ≡ ok tt
    → check (record p { allow_write_flag = false }) name tier ≡ ok tt
check_explicit p name tier b set h =
    let (readable, fits) = (check_iff (record p { allow_write_flag = true }) name tier).0 h in
    (check_iff (record p { allow_write_flag = false }) name tier).1
      (readable, rw (ceiling_flag p b set) at fits)

abbrev retry_advice : String
retry_advice = "confirm with the user first"

-- The error's hint tells the agent to retry with the flag.
abbrev pub advises_retry : Error → Bool
advises_retry e = has_prefix e.hint retry_advice

abbrev retry_case : Decision → Tier → Bool
retry_case d tier =
    (d.read_only == "")
    && not (elim d.allow [ none ↦ false | some b ↦ not b ])
    && (leb_ℤ d.ceiling tier_read && leb_ℤ tier_read d.ceiling && allows d.max_tier tier)

advises_retry-forbidden :
    (d : Decision) (name : String) (tier : Tier) (path : String)
    → advises_retry (forbidden_error d name tier path) ≡ retry_case d tier
unfolding forbidden_error has_prefix
advises_retry-forbidden d name tier path = elim (Bool-cases (d.read_only == "")) [
  | inr f ↦ rw f
  | inl t ↦ rw t (elim (Bool-cases (elim d.allow [ none ↦ false | some b ↦ not b ])) [
    | inl explicit ↦ rw explicit
    | inr open_ ↦
        rw open_
          (elim (Bool-cases
            (leb_ℤ d.ceiling tier_read && leb_ℤ tier_read d.ceiling && allows d.max_tier tier)) [
              | inl retry ↦ rw retry (
                  has_prefix-append
                    "confirm with the user first, then retry with --allow-write (allows up to tier "
                    (tier_string d.max_tier
                      <+> "), or have the user set agent: {allowWrite: true} in "
                      <+> path
                      <+> ", globally or under the saved host")
                    retry_advice (omega arith))
              | inr stuck ↦
                  rw stuck
                    (elim (Bool-cases (leb_ℤ d.ceiling tier_read && leb_ℤ tier_read d.ceiling)) [
                      | inl off ↦ rw off (
                          has_prefix-append
                            "this needs the user's consent: they can set agent: {allowWrite: true, maxTier: "
                            (tier_string tier
                              <+> "} in "
                              <+> path
                              <+> ", globally or under the saved host (maxTier is now "
                              <+> tier_string d.max_tier
                              <+> ", "
                              <+> max_scope d
                              <+> ")")
                            retry_advice (omega arith))
                      | inr on ↦ rw on (
                          has_prefix-append "ask the user; they can set maxTier: "
                            (tier_string tier <+> " in the agent: block in " <+> path) retry_advice
                            (omega arith))
                    ])
            ])
  ])
]

allow-decided : (p : Policy) → (decided p).allow ≡ configured_allow p
allow-decided p = elim (Option-cases p.host) [
  | inl e ↦ rw e (ground arith)
  | inr (h, e) ↦ rw e (ground arith)
]

max-decided : (p : Policy) → (decided p).max_tier ≡ configured_max p
max-decided p = elim (Option-cases p.host) [
  | inl e ↦ rw e (ground arith)
  | inr (h, e) ↦ rw e (ground arith)
]

-- The same question over the values that the decision is made of.
retry_case_values :
    (open_ flag : Bool) (allow : Option Bool) (max_tier tier : Tier)
    → flag ≡ false
    → allows (if open_ && default allow flag then max_tier else tier_read) tier ≡ false
    → (open_
        && not (elim allow [ none ↦ false | some b ↦ not b ])
        && (leb_ℤ (if open_ && default allow flag then max_tier else tier_read) tier_read
            && leb_ℤ tier_read (if open_ && default allow flag then max_tier else tier_read)
            && allows max_tier tier))
      ≡ allows (if open_ && default allow true then max_tier else tier_read) tier
unfolding allows
retry_case_values open_ flag allow max_tier tier unflagged refused = ground arith

module _ (p : Policy) where
  read_only-decide : (decide_ceiling p (decided p)).read_only ≡ read_only_switch p
  unfolding decide_ceiling
  read_only-decide = refl

  allow-decide : (decide_ceiling p (decided p)).allow ≡ configured_allow p
  unfolding decide_ceiling
  allow-decide = allow-decided p

  max-decide : (decide_ceiling p (decided p)).max_tier ≡ configured_max p
  unfolding decide_ceiling
  max-decide = max-decided p

decide_flag :
    (p : Policy) (tier : Tier)
    → p.allow_write_flag ≡ false
    → allows (ceiling_of p) tier ≡ false
    → retry_case (decide_ceiling p (decided p)) tier
      ≡ allows (ceiling_of (record p { allow_write_flag = true })) tier
decide_flag p tier unflagged refused =
    rw (read_only-decide p, allow-decide p, max-decide p, ceiling-decide p, switch-is_locked p)
      (retry_case_values (not (is_locked p)) p.allow_write_flag (configured_allow p)
        (configured_max p) tier unflagged refused)

refused_of_err :
    (p : Policy) (name : String) (tier : Tier) (e : Error)
    → check p name tier ≡ err e
    → e.code ≡ forbidden
    → (IsReadable p.global × IsReadable (host_block p))
      × (allows (ceiling_of p) tier ≡ false)
      × (forbidden_error (decide_ceiling p (decided p)) name tier p.config_path ≡ e)
refused_of_err p name tier e h code = elim (resolve-IsReadable p) [
  | inl readable ↦
      let v : verdict p name tier ≡ err e = sym (check_readable p name tier readable) ∙ h in
      elim (Bool-cases (allows (ceiling_of p) tier)) [
        | inl fits ↦ absurd (ground (arith, v))
        | inr refused ↦ (readable, refused, ground (arith, v))
      ]
  | inr (e', bad, usage_code) ↦ absurd (unfold check in ground (arith, bad))
]

-- A refusal without the flag advises the agent to retry with the flag exactly where the retry is
-- admitted.
pub advises_retry_iff :
    (p : Policy) (name : String) (tier : Tier) (e : Error)
    → p.allow_write_flag ≡ false
    → check p name tier ≡ err e
    → e.code ≡ forbidden
    → (advises_retry e ≡ true) ↔ (check (record p { allow_write_flag = true }) name tier ≡ ok tt)
advises_retry_iff p name tier e unflagged h code =
    let (readable, refused, same) = refused_of_err p name tier e h code in
    let advice : advises_retry e ≡ allows (ceiling_of (record p { allow_write_flag = true })) tier =
      subst (λ x. advises_retry x ≡ allows (ceiling_of (record p { allow_write_flag = true })) tier)
        same
        (advises_retry-forbidden (decide_ceiling p (decided p)) name tier p.config_path
          ∙ decide_flag p tier unflagged refused) in
    (
      λ a.
          (check_iff (record p { allow_write_flag = true }) name tier).1 (readable, sym advice ∙ a),
      λ c. advice ∙ ((check_iff (record p { allow_write_flag = true }) name tier).0 c).1,
    )
