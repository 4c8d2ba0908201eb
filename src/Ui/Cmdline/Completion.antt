-- ===== src/Ui/Cmdline/Completion.antt =====
-- cmdline.go: what a completion comes to.
use d9c.Base.{
  ◌≡◌, refl, ap, ◌∙◌, ◌⊎◌, inl, inr, true, false, not, ◌&&◌, String, List, [], ◌∷◌, any, find_first,
  if◌then◌else◌, ◌<+>◌, ◌==◌, to_lower, fields, has_prefix, drop_text, eqb, eqb_iff, code, arith,
  All, All-map, All-append, All-keep, keep_holds, Any, Bool-cases, Option-cases, List-cases, &&_iff,
  find_first_holds, find_first_All, find_first-none_holds, eq_refl, ne_of_test,
}
use Prim.Native.String.append
use text.Mathlib.TextEquality.{Char-path}
use d9c.Ui.Cmdline.{
  CmdDef, Model, is_builtin, builtin_commands, read_only_filter, mutates, is_mutating, commands,
  ends_in_space, complete, hint_of, ghost,
}

-- A text that starts with another is that and the rest.
prefix-joined : (s t : String) → has_prefix s t ≡ true → t <+> drop_text s t ≡ s
unfolding has_prefix drop_text
prefix-joined s String.[] h = append.nil s
prefix-joined String.[] (String.◌∷◌ d t) h = absurd (ground arith)
prefix-joined (String.◌∷◌ c s) (String.◌∷◌ d t) h =
    let (same, rest) = (&&_iff (eqb (code c) (code d)) (has_prefix s t)).0 h in
    let one = Char-path c d ((eqb_iff (code c) (code d)).0 same) in
    rw (append.cons d t (drop_text s t), prefix-joined s t rest, one) refl

-- A command that may be offered: one of a plugin, or a built-in one, which changes nothing on the host
-- where the mode is read-only.
abbrev pub IsOffered : Model → CmdDef → Type 0
IsOffered m c =
    Any (λ p. p ≡ c) m.plugin_cmds
    ⊎ ((is_builtin c.name m ≡ true)
        × (m.read_only ≡ true → is_mutating m.resource c.name [] ≡ false))

any_self : (cmds : List CmdDef) → All (λ c. any (λ d. d.name == c.name) cmds ≡ true) cmds
any_self [] = tt
any_self (c ∷ cmds) =
    (rw (eq_refl c.name) refl, All-map _ _ cmds (λ d h. ground (arith, h)) (any_self cmds))

Any-self : (cmds : List CmdDef) → All (λ c. Any (λ p. p ≡ c) cmds) cmds
Any-self [] = tt
Any-self (c ∷ cmds) = (inl refl, All-map _ _ cmds (λ d i. inr i) (Any-self cmds))

All-both :
    (P Q : CmdDef → Type 0) (xs : List CmdDef) → All P xs → All Q xs → All (λ c. P c × Q c) xs
All-both P Q [] p q = tt
All-both P Q (x ∷ xs) p q = ((p.0, q.0), All-both P Q xs p.1 q.1)

not-mutating :
    (resource name : String)
    → not (mutates resource name) ≡ true
    → is_mutating resource name [] ≡ false
unfolding is_mutating
not-mutating resource name h = ground (arith, h)

commands-IsOffered : (m : Model) → All (IsOffered m) (commands m)
unfolding commands is_builtin read_only_filter
commands-IsOffered m =
    All-append (IsOffered m) _ m.plugin_cmds builtin
      (All-map _ _ m.plugin_cmds (λ c i. inl i) (Any-self m.plugin_cmds))
  where
    known : All (λ c. is_builtin c.name m ≡ true) (builtin_commands m)
    known = any_self (builtin_commands m)

    builtin : All (IsOffered m) (
        if m.read_only
        then read_only_filter m.resource (builtin_commands m)
        else builtin_commands m)
    builtin = elim (Bool-cases m.read_only) [
      | inl t ↦ rw t (
          All-map _ _ (read_only_filter m.resource (builtin_commands m))
            (λ c h. inr (h.0, λ r. not-mutating m.resource c.name h.1))
            (All-both (λ c. is_builtin c.name m ≡ true)
              (λ c. not (mutates m.resource c.name) ≡ true) _
              (All-keep _ (λ c. not (mutates m.resource c.name)) (builtin_commands m) known)
              (keep_holds (λ c. not (mutates m.resource c.name)) (builtin_commands m))))
      | inr f ↦ rw f (
          All-map _ _ (builtin_commands m) (λ c k. inr (k, λ r. absurd (ground (arith, r, f))))
            known)
    ]

hint_of-empty : (cmds : List CmdDef) (name : String) → (hint_of cmds name).completion ≡ ""
unfolding hint_of
hint_of-empty cmds name = elim (Option-cases (find_first (λ c. c.name == name) cmds)) [
  | inl e ↦ rw (e, hint_of) refl
  | inr (c, e) ↦ rw (e, hint_of) refl
]

complete_lem :
    {P : CmdDef → Type 0} (cmds : List CmdDef) (name : String)
    → All P cmds
    → ((complete cmds name).completion == "") ≡ false
    → (c : CmdDef) × (name <+> (complete cmds name).completion ≡ c.name)
      × P c
      × All (λ d. (d.name == name) ≡ false) cmds
unfolding complete
complete_lem {P = P} cmds name offered h =
    elim (Option-cases (find_first (λ c. c.name == name) cmds)) [
      | inr (c, e) ↦
          absurd (ne_of_test (complete cmds name).completion "" h (rw (e, complete) refl))
      | inl e ↦
          elim (Option-cases
            (find_first (λ c. has_prefix c.name name && not (c.name == name)) cmds)) [
              | inl f ↦
                  absurd
                    (ne_of_test (complete cmds name).completion "" h (rw (e, f, complete) refl))
              | inr (c, f) ↦
                  let holds =
                    find_first_holds (λ c. has_prefix c.name name && not (c.name == name)) cmds f in
                  let prefix =
                    ((&&_iff (has_prefix c.name name) (not (c.name == name))).0 holds).0 in
                  (
                    c,
                    rw (e, f, complete) (prefix-joined c.name name prefix),
                    find_first_All P _ cmds offered f,
                    find_first-none_holds _ cmds e,
                  )
            ]
    ]

-- When something is suggested to complete the command line, the line is one word; with the suggestion
-- the word, in lower case, is the name of a command that is offered: a plugin's, or a built-in one
-- of the view, in read-only mode only one that changes nothing on the host; and no command has the
-- word itself for its name.
pub ghost_lem :
    (m : Model)
    → ((ghost m).completion == "") ≡ false
    → (word : String) × (c : CmdDef) × (fields m.value ≡ word ∷ [])
      × (to_lower word <+> (ghost m).completion ≡ c.name)
      × IsOffered m c
      × All (λ d. (d.name == to_lower word) ≡ false) (commands m)
unfolding ghost
ghost_lem m h = elim (List-cases (fields m.value)) [
  | inl e ↦ absurd (ne_of_test (ghost m).completion "" h (rw (e, ghost) refl))
  | inr (word, rest, e) ↦ elim (List-cases rest) [
    | inr (a, args, r) ↦ absurd (ne_of_test (ghost m).completion "" h (rw (e, r, ghost) refl))
    | inl r ↦ elim (Bool-cases (ends_in_space m.value)) [
      | inl t ↦ absurd (
          ne_of_test (ghost m).completion "" h
            (rw (e, r, t, ghost) (hint_of-empty (commands m) (to_lower word))))
      | inr f ↦
          let one : fields m.value ≡ word ∷ [] = e ∙ ap (λ x. word ∷ x) r in
          let same : ghost m ≡ complete (commands m) (to_lower word) = rw (e, r, f, ghost) refl in
          let (c, joined, offered, exact) =
            complete_lem (commands m) (to_lower word) (commands-IsOffered m) (rw same at h) in
          (word, c, one, rw same joined, offered, exact)
    ]
  ]
]
