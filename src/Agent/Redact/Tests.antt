-- ===== src/Agent/Redact/Tests.antt =====
-- Masking a small inspect tree.
use d9c.Base.{◌≡◌, refl, false, ℕ, Bool, String}
use d9c.Agent.Value.{Value, null, str, list, object, nil, cons, end, field}
use d9c.Agent.Redact.{redact_env}
use d9c.Agent.Redact.Hidden.{nests_env, hides}

abbrev inspected : Value
inspected = object (
    field "Config"
      (object (field "Env" (list (cons (str "DB_PASSWORD=a=b") (cons (str "MODE=dev") nil))) end))
      (field "environment" (object (field "API_TOKEN" (str "t") (field "EMPTY_KEY" null end))) end))

abbrev masked : Value
masked = object (
    field "Config"
      (object
        (field "Env" (list (cons (str "DB_PASSWORD=<redacted>") (cons (str "MODE=dev") nil))) end))
      (field "environment"
        (object (field "API_TOKEN" (str "<redacted>") (field "EMPTY_KEY" null end))) end))

two_masked : redact_env inspected ≡ (masked, 2)
unfolding redact_env d9c.Agent.Redact.is_env_key d9c.Base.to_lower d9c.Agent.Redact.mask_items
    d9c.Agent.Redact.is_secret_name d9c.Base.cut d9c.Base.contains d9c.Base.to_upper
two_masked = refl

not_nested : nests_env inspected ≡ false
unfolding nests_env d9c.Agent.Redact.is_env_key d9c.Base.to_lower
    d9c.Agent.Redact.Hidden.has_env_each
not_nested = refl

-- An environment in an item of another one is left as it is.
abbrev nested : Value
nested = object (
    field "env" (list (cons (object (field "env" (list (cons (str "DB_PASSWORD=x") nil)) end)) nil))
      end)

nested_kept : (redact_env nested ≡ (nested, 0)) × (hides nested ≡ false)
unfolding redact_env hides d9c.Agent.Redact.is_env_key d9c.Base.to_lower d9c.Agent.Redact.mask_items
    d9c.Base.cut d9c.Base.contains d9c.Base.to_upper
nested_kept = (refl, refl)
