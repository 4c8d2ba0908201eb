-- ===== src/Keymap/Tests.antt =====
-- Runs of the key bindings at concrete overrides.
use d9c.Base.{◌≡◌, refl, String, Option, none, some, List, [], ◌∷◌, true, Any, Result, ok, err}
use d9c.Keymap.{
  Action, logs, edit, action_order, KeyMap, resolve, build, bind, defaults, key_for, action_for,
  is_reserved,
}
use d9c.Keymap.Actions.{in_order}
use d9c.Keymap.Resolved.{resolve-round_trip}

abbrev overrides : List (String × String)
overrides = (" Logs ", "g") ∷ ("edit", "Space") ∷ ("select", "v") ∷ []

remapped : KeyMap
unfolding build
remapped = build action_order (bind (bind (bind defaults logs "g") edit " ") Action.select "v")

resolve-round_trip_example :
    ((a : Action) → action_for remapped (key_for remapped a) ≡ some a)
    × ((key : String) (a : Action) → action_for remapped key ≡ some a → key_for remapped a ≡ key)
    × ((key : String) → is_reserved key ≡ true → action_for remapped key ≡ none)
    × (action_for remapped "" ≡ none)
unfolding remapped resolve d9c.Base.to_lower d9c.Base.trim_space d9c.Base.trim_right
    d9c.Base.trim_left d9c.Base.is_space d9c.Base.equal_fold
resolve-round_trip_example = resolve-round_trip action_order overrides remapped in_order refl

space_edits : action_for remapped " " ≡ some edit
unfolding remapped action_for
space_edits = refl

taken_key :
    resolve action_order (("logs", "e") ∷ [])
    ≡ err "key \"e\" is bound to both \"logs\" and \"edit\""
unfolding resolve d9c.Base.to_lower d9c.Base.trim_space d9c.Base.trim_right d9c.Base.trim_left
    d9c.Base.is_space d9c.Base.equal_fold d9c.Base.quote
taken_key = refl

exit_key :
    resolve action_order (("logs", "q") ∷ [])
    ≡ err "action \"logs\": key \"q\" is reserved (fixed: enter, esc, q, ctrl+c)"
unfolding resolve d9c.Base.to_lower d9c.Base.trim_space d9c.Base.trim_right d9c.Base.trim_left
    d9c.Base.is_space d9c.Base.equal_fold d9c.Base.quote
exit_key = refl
