-- ===== src/Agent/Tests/Consent.antt =====
-- The policy on a saved host.
use d9c.Base.{◌≡◌, ◌↔◌, refl, inl, inr, true, false, none, some, ok, err, quote}
use d9c.Hosts.{Host}
use d9c.Agent.Tier.{tier_read, tier_safe, allows}
use d9c.Agent.Error.{Error, forbidden}
use d9c.Agent.Policy.{
  Policy, ceiling, check, forbidden_error, read_only_switch, resolve, apply_layers, layers,
  decide_ceiling,
}
use d9c.Agent.Policy.Ceiling.{IsReadable, host_block, ceiling_of, ceiling-eq-ceiling_of}
use d9c.Agent.Policy.Consent.{
  check_iff, advises_retry, advises_retry_iff, check_read_only, check_unset, check_explicit,
}

abbrev plain_policy : Policy
plain_policy = record {
  read_only = "";
  global = none;
  host = none;
  allow_write_flag = false;
  config_path = "config.yaml";
}

abbrev open_policy : Policy
open_policy = record plain_policy {
  global = some (record { allow_write = some true; max_tier = "" });
}

check_iff_example : (check open_policy "start" tier_safe ≡ ok tt) ↔ (
    (IsReadable open_policy.global × IsReadable (host_block open_policy))
    × (allows (ceiling_of open_policy) tier_safe ≡ true))
check_iff_example = check_iff open_policy "start" tier_safe

ceiling-eq-ceiling_of_example : ceiling open_policy ≡ ok (ceiling_of open_policy)
ceiling-eq-ceiling_of_example = ceiling-eq-ceiling_of open_policy (inl refl) tt

abbrev prod : Host
prod = record {
  name = "prod";
  host = "ssh://prod";
  ssh_auth = "";
  ssh_key_path = "";
  read_only = true;
  tls_ca_cert = "";
  tls_cert = "";
  tls_key = "";
  agent = none;
}

abbrev locked_policy : Policy
locked_policy = record open_policy { host = some prod }

locked_reads : check locked_policy "ps" tier_read ≡ ok tt
unfolding check resolve apply_layers layers allows decide_ceiling read_only_switch quote
locked_reads = refl

check_read_only_example : tier_read ≡ tier_read
check_read_only_example =
    check_read_only locked_policy "ps" tier_read (inr (prod, refl, refl)) locked_reads

plain_reads : check plain_policy "ps" tier_read ≡ ok tt
unfolding check resolve apply_layers layers allows decide_ceiling read_only_switch
plain_reads = refl

check_unset_example : tier_read ≡ tier_read
check_unset_example = check_unset plain_policy "ps" tier_read refl refl plain_reads

open_starts : check (record open_policy { allow_write_flag = true }) "start" tier_safe ≡ ok tt
unfolding check resolve apply_layers layers allows decide_ceiling read_only_switch
open_starts = refl

check_explicit_example :
    check (record open_policy { allow_write_flag = false }) "start" tier_safe ≡ ok tt
check_explicit_example = check_explicit open_policy "start" tier_safe true refl open_starts

abbrev start_refusal : Error
start_refusal = record {
  code = forbidden;
  message = "operation \"start\" is safe; write operations are off by default";
  hint =
      "confirm with the user first, then retry with --allow-write (allows up to tier safe), or have the user set agent: {allowWrite: true} in config.yaml, globally or under the saved host";
  plan = none;
}

start_refused : check plain_policy "start" tier_safe ≡ err start_refusal
unfolding check resolve apply_layers layers allows decide_ceiling read_only_switch forbidden_error
    quote
start_refused = refl

advises_retry_iff_example :
    (advises_retry start_refusal ≡ true)
    ↔ (check (record plain_policy { allow_write_flag = true }) "start" tier_safe ≡ ok tt)
advises_retry_iff_example =
    advises_retry_iff plain_policy "start" tier_safe start_refusal refl start_refused refl
