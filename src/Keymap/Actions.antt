-- ===== src/Keymap/Actions.antt =====
-- keymap.go: the actions are told apart by their texts, and `action_order` has all of them.
use d9c.Base.{◌≡◌, refl, ap, ◌∙◌, sym, inl, inr, some, Any}
use d9c.Keymap.{
  Action, text, action_order, find_action, inspect, logs, edit, exec, filter, command, toggle_all,
  stats, select, copy, refresh, pause, help, port_forward,
}
use mathlib.Core.Option.{some-injective}

pub find_action-text : (a : Action) → find_action (text a) ≡ some a
unfolding find_action
find_action-text inspect = refl
find_action-text logs = refl
find_action-text edit = refl
find_action-text exec = refl
find_action-text filter = refl
find_action-text command = refl
find_action-text toggle_all = refl
find_action-text stats = refl
find_action-text select = refl
find_action-text copy = refl
find_action-text refresh = refl
find_action-text pause = refl
find_action-text help = refl
find_action-text port_forward = refl

pub text_injective : (a b : Action) → text a ≡ text b → a ≡ b
text_injective a b h =
    some-injective a b (sym (find_action-text a) ∙ ap find_action h ∙ find_action-text b)

pub in_order : (a : Action) → Any (λ b. b ≡ a) action_order
in_order inspect = inl refl
in_order logs = inr (inl refl)
in_order edit = inr (inr (inl refl))
in_order exec = inr (inr (inr (inl refl)))
in_order filter = inr (inr (inr (inr (inl refl))))
in_order command = inr (inr (inr (inr (inr (inl refl)))))
in_order toggle_all = inr (inr (inr (inr (inr (inr (inl refl))))))
in_order stats = inr (inr (inr (inr (inr (inr (inr (inl refl)))))))
in_order select = inr (inr (inr (inr (inr (inr (inr (inr (inl refl))))))))
in_order copy = inr (inr (inr (inr (inr (inr (inr (inr (inr (inl refl)))))))))
in_order refresh = inr (inr (inr (inr (inr (inr (inr (inr (inr (inr (inl refl))))))))))
in_order pause = inr (inr (inr (inr (inr (inr (inr (inr (inr (inr (inr (inl refl)))))))))))
in_order help = inr (inr (inr (inr (inr (inr (inr (inr (inr (inr (inr (inr (inl refl))))))))))))
in_order port_forward =
    inr (inr (inr (inr (inr (inr (inr (inr (inr (inr (inr (inr (inr (inl refl)))))))))))))
