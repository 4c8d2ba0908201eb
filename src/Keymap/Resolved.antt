-- ===== src/Keymap/Resolved.antt =====
-- keymap.go: a resolved map has a key of its own for every action, and leaves the reserved keys alone.
use d9c.Base.{
  ◌≡◌, refl, sym, ap, inl, inr, true, false, String, none, some, List, [], ◌∷◌, Any, ok, >>=-eq-ok,
  ok_injective, ◌==◌, arith, Bool-cases, Option-cases, trim_space, to_lower,
}
use d9c.Keymap.{
  Action, inspect, logs, edit, exec, filter, command, toggle_all, stats, select, copy, refresh,
  pause, help, port_forward, text, action_order, defaults, is_reserved, KeyMap, build, key_for,
  action_for, find_action, normalize_key, bind, override, check_conflicts, built, resolve,
}
use d9c.Keymap.Index.{HaveOwnKeys, conflict-none, action_for-key_for, build-round_trip}

-- A key that an action may have.
abbrev IsFree : String → Type 0
IsFree key = (is_reserved key ≡ false) × ((key == "") ≡ false)

defaults-IsFree : (a : Action) → IsFree (defaults a)
unfolding is_reserved
defaults-IsFree inspect = (refl, refl)
defaults-IsFree logs = (refl, refl)
defaults-IsFree edit = (refl, refl)
defaults-IsFree exec = (refl, refl)
defaults-IsFree filter = (refl, refl)
defaults-IsFree command = (refl, refl)
defaults-IsFree toggle_all = (refl, refl)
defaults-IsFree stats = (refl, refl)
defaults-IsFree select = (refl, refl)
defaults-IsFree copy = (refl, refl)
defaults-IsFree refresh = (refl, refl)
defaults-IsFree pause = (refl, refl)
defaults-IsFree help = (refl, refl)
defaults-IsFree port_forward = (refl, refl)

bind-IsFree :
    (by_action : Action → String) (name : Action) (key : String)
    → ((a : Action) → IsFree (by_action a))
    → IsFree key
    → (a : Action) → IsFree (bind by_action name key a)
bind-IsFree by_action name key free k a = elim (Bool-cases (text a == text name)) [
  | inl t ↦ rw t k
  | inr f ↦ rw f (free a)
]

override-IsFree :
    (overrides : List (String × String)) (by_action : Action → String)
    {by_action' : Action → String}
    → ((a : Action) → IsFree (by_action a))
    → override overrides by_action ≡ ok by_action'
    → (a : Action) → IsFree (by_action' a)
unfolding override
override-IsFree [] by_action {by_action'} free h a =
    let same : by_action ≡ by_action' = ok_injective h in rw⁻¹ same (free a)
override-IsFree ((raw_name, raw_key) ∷ rest) by_action {by_action'} free h a =
    elim (Option-cases (find_action (to_lower (trim_space raw_name)))) [
      | inl e ↦ absurd (ground (arith, e, h))
      | inr (name, e) ↦ elim (Bool-cases (normalize_key raw_key == "")) [
        | inl t ↦ absurd (ground (arith, e, h, t))
        | inr f ↦ elim (Bool-cases (is_reserved (normalize_key raw_key))) [
          | inl t ↦ absurd (ground (arith, e, h, f, t))
          | inr g ↦
              override-IsFree rest (bind by_action name (normalize_key raw_key))
                {by_action' = by_action'}
                (bind-IsFree by_action name (normalize_key raw_key) free (g, f))
                (rw (e, f, g, override) at h) a
        ]
      ]
    ]

resolve-built :
    (order : List Action) (overrides : List (String × String)) (m : KeyMap)
    → resolve order overrides ≡ ok m
    → (by_action : Action → String) × (m ≡ build order by_action)
      × HaveOwnKeys by_action action_order
      × ((a : Action) → IsFree (by_action a))
unfolding resolve check_conflicts
resolve-built order overrides m h =
    let (by_action, e, k) = >>=-eq-ok (override overrides defaults) (built order) h in
    elim (Option-cases (check_conflicts by_action)) [
      | inr (problem, c) ↦ absurd (ground (arith, c, k))
      | inl c ↦
          let same : build order by_action ≡ m = ok_injective (rw (c, built) at k) in
          (
            by_action,
            sym same,
            (conflict-none by_action action_order [] c).1,
            override-IsFree overrides defaults defaults-IsFree e,
          )
    ]

-- When Resolve succeeds, whatever the orders of its ranges over maps: the key of every action triggers
-- that action and no other, a key triggers only the action that it is the key of, and a reserved key
-- and the empty one trigger none, so that the exit keys stay.
pub resolve-round_trip :
    (order : List Action) (overrides : List (String × String)) (m : KeyMap)
    → ((a : Action) → Any (λ b. b ≡ a) order)
    → resolve order overrides ≡ ok m
    → ((a : Action) → action_for m (key_for m a) ≡ some a)
      × ((key : String) (a : Action) → action_for m key ≡ some a → key_for m a ≡ key)
      × ((key : String) → is_reserved key ≡ true → action_for m key ≡ none)
      × (action_for m "" ≡ none)
unfolding key_for build
resolve-round_trip order overrides m complete h =
    let (by_action, e, own, free) = resolve-built order overrides m h in
    let back : (key : String) (a : Action)
        → action_for (build order by_action) key ≡ some a
        → by_action a ≡ key =
      λ key a. action_for-key_for order by_action key a in
    rw e (
      (
        λ a. build-round_trip order by_action a own (complete a),
        back,
        λ key r. elim (Option-cases (action_for (build order by_action) key)) [
          | inl n ↦ n
          | inr (a, n) ↦ absurd (ground (arith, r, ap is_reserved (back key a n), (free a).0))
        ],
        elim (Option-cases (action_for (build order by_action) "")) [
          | inl n ↦ n
          | inr (a, n) ↦ absurd (ground (arith, ap (λ k. k == "") (back "" a n), (free a).1))
        ],
      ))
