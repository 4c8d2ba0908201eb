-- ===== src/Keymap/Index.antt =====
-- keymap.go: the conflict check leaves every action a key of its own, and the reverse index leads back.
use d9c.Base.{
  ◌≡◌, ◌≢◌, refl, sym, ap, ◌∙◌, inl, inr, Bool, true, false, String, none, some, List, [], ◌∷◌,
  find_first, All, All-map, Any, ◌==◌, arith, Bool-cases, Option-cases, eq_iff, eq_refl, ne_of_test,
  find_first_holds, find_first_All, find_first-none_holds,
}
use mathlib.Core.Option.{some-injective}
use d9c.Keymap.{Action, action_order, lookup, index_keys, build, action_for, conflict}
use d9c.Keymap.Actions.{in_order}

-- No key of the list is the text.
abbrev IsUnseen : String → List (String × Action) → Type 0
IsUnseen key seen = All (λ e. (e.0 == key) ≡ false) seen

abbrev pub HaveOwnKeys : (Action → String) → List Action → Type 0
HaveOwnKeys by_action [] = Unit
HaveOwnKeys by_action (a ∷ rest) =
    All (λ b. (by_action a == by_action b) ≡ false) rest × HaveOwnKeys by_action rest

lookup-none :
    (key : String) (seen : List (String × Action)) → lookup key seen ≡ none → IsUnseen key seen
unfolding lookup
lookup-none key seen h = find_first-none_holds (λ e. e.0 == key) seen (ground arith)

pub conflict-none :
    (by_action : Action → String) (order : List Action) (seen : List (String × Action))
    → conflict by_action order seen ≡ none
    → All (λ b. IsUnseen (by_action b) seen) order × HaveOwnKeys by_action order
unfolding conflict
conflict-none by_action [] seen h = (tt, tt)
conflict-none by_action (a ∷ rest) seen h = elim (Option-cases (lookup (by_action a) seen)) [
  | inl e ↦
      let (unseen, own) =
        conflict-none by_action rest ((by_action a, a) ∷ seen) (rw (e, conflict) at h) in
      (
        (lookup-none (by_action a) seen e, All-map _ _ rest (λ b u. u.1) unseen),
        (All-map _ _ rest (λ b u. u.0) unseen, own),
      )
  | inr (other, e) ↦ absurd (ground (arith, h, e))
]

differs :
    (by_action : Action → String) (c a : Action) (rest : List Action)
    → All (λ b. (by_action c == by_action b) ≡ false) rest
    → Any (λ b. b ≡ a) rest
    → by_action c ≢ by_action a
differs by_action c a [] h i = elim i [ ]
differs by_action c a (b ∷ rest) h (inl e) = ne_of_test _ _ (rw e at (h.0))
differs by_action c a (b ∷ rest) h (inr i) = differs by_action c a rest h.1 i

-- The actions of such a list that share a key are one.
own-injective :
    (by_action : Action → String) (order : List Action) (a b : Action)
    → HaveOwnKeys by_action order
    → Any (λ c. c ≡ a) order
    → Any (λ c. c ≡ b) order
    → by_action a ≡ by_action b
    → a ≡ b
own-injective by_action [] a b own i j e = elim i [ ]
own-injective by_action (c ∷ rest) a b own (inl ea) (inl eb) e = sym ea ∙ eb
own-injective by_action (c ∷ rest) a b own (inl ea) (inr ib) e =
    absurd (differs by_action c b rest own.0 ib (ap by_action ea ∙ e))
own-injective by_action (c ∷ rest) a b own (inr ia) (inl eb) e =
    absurd (differs by_action c a rest own.0 ia (ap by_action eb ∙ sym e))
own-injective by_action (c ∷ rest) a b own (inr ia) (inr ib) e =
    own-injective by_action rest a b own.1 ia ib e

index_keys-All :
    (by_action : Action → String) (order : List Action) (entries : List (String × Action))
    → All (λ e. e.0 ≡ by_action e.1) entries
    → All (λ e. e.0 ≡ by_action e.1) (index_keys by_action order entries)
unfolding index_keys
index_keys-All by_action [] entries h = h
index_keys-All by_action (a ∷ rest) entries h =
    index_keys-All by_action rest ((by_action a, a) ∷ entries) (refl, h)

-- A key that is in the index stays in it.
index_keys-kept :
    (by_action : Action → String) (order : List Action) (entries : List (String × Action))
    (key : String)
    → Any (λ e. (e.0 == key) ≡ true) entries
    → Any (λ e. (e.0 == key) ≡ true) (index_keys by_action order entries)
unfolding index_keys
index_keys-kept by_action [] entries key h = h
index_keys-kept by_action (a ∷ rest) entries key h =
    index_keys-kept by_action rest ((by_action a, a) ∷ entries) key (inr h)

index_keys-has :
    (by_action : Action → String) (order : List Action) (entries : List (String × Action))
    (a : Action)
    → Any (λ c. c ≡ a) order
    → Any (λ e. (e.0 == by_action a) ≡ true) (index_keys by_action order entries)
unfolding index_keys
index_keys-has by_action [] entries a i = elim i [ ]
index_keys-has by_action (c ∷ rest) entries a (inl e) =
    index_keys-kept by_action rest ((by_action c, c) ∷ entries) (by_action a)
      (inl (rw e (eq_refl (by_action a))))
index_keys-has by_action (c ∷ rest) entries a (inr i) =
    index_keys-has by_action rest ((by_action c, c) ∷ entries) a i

find_first-Any :
    {A : Type 0} (p : A → Bool) (xs : List A)
    → Any (λ x. p x ≡ true) xs
    → (x : A) × (find_first p xs ≡ some x)
find_first-Any p [] i = elim i [ ]
find_first-Any p (x ∷ xs) (inl h) = (x, rw h)
find_first-Any p (x ∷ xs) (inr i) = elim (Bool-cases (p x)) [
  | inl t ↦ (x, rw t)
  | inr f ↦ rw f (find_first-Any p xs i)
]

-- The reverse index gives an action whose key is the text.
pub action_for-key_for :
    (order : List Action) (by_action : Action → String) (key : String) (a : Action)
    → action_for (build order by_action) key ≡ some a
    → by_action a ≡ key
unfolding action_for build lookup
action_for-key_for order by_action key a h =
    elim (Option-cases (find_first (λ e. e.0 == key) (index_keys by_action order []))) [
      | inl e ↦ absurd (ground (arith, h, e))
      | inr (entry, e) ↦
          let holds = find_first_holds (λ e. e.0 == key) (index_keys by_action order []) e in
          let keyed : entry.0 ≡ by_action entry.1 =
            find_first_All (λ e. e.0 ≡ by_action e.1) (λ e. e.0 == key)
              (index_keys by_action order []) (index_keys-All by_action order [] tt) e in
          let same : entry.1 ≡ a = some-injective entry.1 a (rw (e, action_for, lookup) at h) in
          ap by_action (sym same) ∙ sym keyed ∙ (eq_iff entry.0 key).0 holds
    ]

found :
    (order : List Action) (by_action : Action → String) (a : Action)
    → Any (λ b. b ≡ a) order
    → (b : Action) × (action_for (build order by_action) (by_action a) ≡ some b)
unfolding action_for build lookup
found order by_action a i =
    let (entry, e) =
      find_first-Any (λ e. e.0 == by_action a) (index_keys by_action order [])
        (index_keys-has by_action order [] a i) in
    (entry.1, rw (e, action_for, lookup))

pub build-round_trip :
    (order : List Action) (by_action : Action → String) (a : Action)
    → HaveOwnKeys by_action action_order
    → Any (λ b. b ≡ a) order
    → action_for (build order by_action) (by_action a) ≡ some a
build-round_trip order by_action a own i =
    let (b, e) = found order by_action a i in
    let same = action_for-key_for order by_action (by_action a) b e in
    e ∙ ap some (own-injective by_action action_order b a own (in_order b) (in_order a) same)
