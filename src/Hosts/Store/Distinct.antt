-- ===== src/Hosts/Store/Distinct.antt =====
-- hosts.go: lists of hosts with distinct names.
use mathlib.Core.Path.{subst}
use mathlib.Core.Option.{some-injective}
use d9c.Base.{
  ne_of_test, ◌≡◌, refl, sym, ◌∙◌, ◌≢◌, ◌⊎◌, inl, inr, String, none, some, List, [], ◌∷◌, ◌++◌,
  ◌==◌, arith, eq_iff, Bool-cases, Option-cases,
}
use d9c.Hosts.{Host}
use d9c.Hosts.Store.{find, replace_named, remove_named}

-- No two hosts have one name.
abbrev pub AreDistinct : List Host → Type 0
AreDistinct [] = Unit
AreDistinct (h ∷ rest) = (find rest h.name ≡ none) × AreDistinct rest

find-append :
    (hosts : List Host) (n : String) (h : Host)
    → find hosts n ≡ none
    → h.name ≢ n
    → find (hosts ++ h ∷ []) n ≡ none
unfolding find
find-append [] n h e d = ground (arith, eq_iff h.name n)
find-append (x ∷ rest) n h e d = ground (arith, find-append rest n h, eq_iff h.name n)

pub AreDistinct-append :
    (hosts : List Host) (h : Host)
    → AreDistinct hosts
    → find hosts h.name ≡ none
    → AreDistinct (hosts ++ h ∷ [])
unfolding find
AreDistinct-append [] h d f = (refl, tt)
AreDistinct-append (x ∷ rest) h d f = elim (Bool-cases (x.name == h.name)) [
  | inl t ↦ absurd (ground arith)
  | inr n ↦ (
    find-append rest x.name h d.0 (λ e. ne_of_test x.name h.name n (sym e)),
    AreDistinct-append rest h d.1 (rw n at f),
  )
]

find-remove_named :
    (hosts hosts' : List Host) (name n : String)
    → remove_named hosts name ≡ some hosts'
    → find hosts n ≡ none
    → find hosts' n ≡ none
unfolding remove_named find
find-remove_named [] hosts' name n r f = cc
find-remove_named (x ∷ rest) hosts' name n r f = elim (Option-cases (remove_named rest name)) [
  | inl e ↦ ground arith
  | inr (rest', e) ↦ ground (arith, find-remove_named rest rest' name n e)
]

pub remove_named-AreDistinct :
    (hosts hosts' : List Host) (name : String)
    → remove_named hosts name ≡ some hosts'
    → AreDistinct hosts
    → AreDistinct hosts'
unfolding remove_named
remove_named-AreDistinct [] hosts' name r d = cc
remove_named-AreDistinct (x ∷ rest) hosts' name r d = elim (Bool-cases (x.name == name)) [
  | inl t ↦ subst AreDistinct (some-injective _ _ (rw t at r)) d.1
  | inr f ↦ elim (Option-cases (remove_named rest name)) [
    | inl e ↦ absurd (ground arith)
    | inr (rest', e) ↦ subst AreDistinct (some-injective (x ∷ rest') hosts' (ground arith)) (
      find-remove_named rest rest' name x.name e d.0,
      remove_named-AreDistinct rest rest' name e d.1,
    )
  ]
]

-- A replacement that takes another name takes one that is free.
find-replace_named :
    (hosts hosts' : List Host) (name n : String) (f : Host → Host) (m : String)
    → replace_named hosts name f ≡ some hosts'
    → ((h : Host) → (f h).name ≡ m)
    → m ≢ n
    → find hosts n ≡ none
    → find hosts' n ≡ none
unfolding replace_named find
find-replace_named [] hosts' name n f m r named ne e = cc
find-replace_named (x ∷ rest) hosts' name n f m r named ne e =
    elim (Option-cases (replace_named rest name f)) [
      | inl e' ↦ ground (arith, named x, eq_iff (f x).name n)
      | inr (rest', e') ↦ ground (
        arith,
        named x,
        eq_iff (f x).name n,
        find-replace_named rest rest' name n f m e' named ne,
      )
    ]

find-cons_none :
    (x : Host) (rest : List Host) (m : String)
    → find (x ∷ rest) m ≡ none
    → (x.name ≢ m) × (find rest m ≡ none)
unfolding find
find-cons_none x rest m h = elim (Bool-cases (x.name == m)) [
  | inl t ↦ absurd (ground arith)
  | inr n ↦ (ne_of_test x.name m n, rw n at h)
]

pub replace_named-AreDistinct :
    (hosts hosts' : List Host) (name : String) (f : Host → Host) (m : String)
    → ((h : Host) → (f h).name ≡ m)
    → (m ≡ name) ⊎ (find hosts m ≡ none)
    → replace_named hosts name f ≡ some hosts'
    → AreDistinct hosts
    → AreDistinct hosts'
unfolding replace_named
replace_named-AreDistinct [] hosts' name f m named fits r d = cc
replace_named-AreDistinct (x ∷ rest) hosts' name f m named fits r d =
    elim (Bool-cases (x.name == name)) [
      | inl t ↦
          let free : find rest m ≡ none = elim fits [
            | inl same ↦ ground (arith, eq_iff x.name name, d.0)
            | inr f ↦ (find-cons_none x rest m f).1
          ] in
          subst AreDistinct (some-injective (f x ∷ rest) hosts' (rw t at r))
            (rw (named x) free, d.1)
      | inr other ↦ elim (Option-cases (replace_named rest name f)) [
        | inl e ↦ absurd (ground arith)
        | inr (rest', e) ↦
            let differs : m ≢ x.name = elim fits [
              | inl same ↦ λ q. ne_of_test x.name name other (sym q ∙ same)
              | inr f ↦ λ q. (find-cons_none x rest m f).0 (sym q)
            ] in
            let fits' : (m ≡ name) ⊎ (find rest m ≡ none) = elim fits [
              | inl same ↦ inl same
              | inr f ↦ inr (find-cons_none x rest m f).1
            ] in
            subst AreDistinct (some-injective (x ∷ rest') hosts' (ground arith)) (
              find-replace_named rest rest' name x.name f m e named differs d.0,
              replace_named-AreDistinct rest rest' name f m named fits' e d.1,
            )
      ]
    ]
