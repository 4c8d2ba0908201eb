-- ===== src/Agent/Tests/Arguments.antt =====
-- The arguments of the fleet's operations.
use d9c.Base.{◌≡◌, ◌↔◌, ◌≢◌, refl, true, none, [], ◌∷◌, All, ok, List, String}
use mathlib.Core.Path.{subst}
use mathlib.Core.Option.{some-injective}
use d9c.Agent.Value.{Value, str, bool, parse_bool}
use d9c.Agent.Schema.{coerce, lookup}
use d9c.Agent.Schema.Converted.{Fits, coerce-Fits}
use d9c.Agent.Schema.Normalize.{normalize, check_names, convert_all, convert, given, check_required}
use d9c.Agent.Schema.Normalize.Laws.{HasGoodDefault, IsDeclaredArg, normalize_sound}
use d9c.Agent.Tests.{force_property, rm_args, forced}

abbrev texts : List (String × Value)
texts = ("force", str "true") ∷ []

texts-normalize : normalize rm_args texts ≡ ok forced
unfolding normalize coerce check_names lookup convert_all convert given check_required parse_bool
texts-normalize = refl

coerce-Fits_example :
    (Fits force_property (bool true) ↔ (coerce force_property (bool true) ≡ ok (bool true)))
    × (Fits force_property (bool true) ↔ ((v : Value) × (coerce force_property v ≡ ok (bool true))))
coerce-Fits_example = coerce-Fits force_property (bool true)

default_converts : HasGoodDefault force_property
unfolding coerce
default_converts d e =
    subst (λ x. (w : Value) × (coerce force_property x ≡ ok w)) (some-injective _ d e) (_, refl)

normalize_sound_example :
    All (IsDeclaredArg rm_args.properties) forced
    × All (λ r. lookup r forced ≢ none) rm_args.required
    × All (λ a. lookup a.0 rm_args.properties ≢ none) texts
normalize_sound_example =
    normalize_sound rm_args texts forced (default_converts, tt) texts-normalize
