-- ===== src/Ui/Layout/Projection.antt =====
-- layout.go: a layout that ResolveLayouts returns can be used.
use d9c.Base.{
  ◌≡◌, refl, sym, ap, ◌∙◌, inl, inr, ℕ, zero, suc, ◌+◌, ◌<◌, true, false, ◌||◌, String, Option,
  none, some, List, [], ◌∷◌, ◌++◌, length, find_first, find_first_holds, find_first_All, leb, eqb,
  ◌==◌, to_lower, trim_space, arith, All, All-append, Bool-cases, Option-cases, eq_iff,
}
use mathlib.Core.Option.{some-injective}
use mathlib.Core.Path.{subst}
use d9c.Base.Sort.{sort}
use d9c.Base.TextOrder.{text_le}
use d9c.Ui.Layout.{
  Column, Section, containers, stats, images, networks, volumes, compose, hosts, section_text,
  sections, shares, columns, identity, normalize_column, index_of, first_index, find_column,
  candidates, is_in, pick, insert_at, min_ℕ, is_identity, with_identity, resolve_section, Layouts,
  same_section, layout_for, resolve_keys, resolve_layouts,
}

abbrev pub AreDifferent : List ℕ → Type 0
AreDifferent [] = Unit
AreDifferent (i ∷ idx) = (is_in i idx ≡ false) × AreDifferent idx

is_in-append : (i : ℕ) (xs ys : List ℕ) → is_in i (xs ++ ys) ≡ (is_in i xs || is_in i ys)
is_in-append i [] ys = refl
is_in-append i (x ∷ xs) ys = ground (arith, is_in-append i xs ys)

append-AreDifferent :
    (i : ℕ) (idx : List ℕ) → is_in i idx ≡ false → AreDifferent idx → AreDifferent (idx ++ (i ∷ []))
append-AreDifferent i [] new_one d = (refl, tt)
append-AreDifferent i (j ∷ idx) new_one d =
    (ground (arith, is_in-append j idx (i ∷ []), d.0), append-AreDifferent i idx (ground arith) d.1)

is_in-insert_at :
    (j pos x : ℕ) (idx : List ℕ) → is_in j (insert_at pos x idx) ≡ (eqb j x || is_in j idx)
is_in-insert_at j zero x idx = refl
is_in-insert_at j (suc pos) x [] = refl
is_in-insert_at j (suc pos) x (i ∷ idx) = ground (arith, is_in-insert_at j pos x idx)

insert_at-AreDifferent :
    (pos x : ℕ) (idx : List ℕ)
    → is_in x idx ≡ false
    → AreDifferent idx
    → AreDifferent (insert_at pos x idx)
insert_at-AreDifferent zero x idx new_one d = (new_one, d)
insert_at-AreDifferent (suc pos) x [] new_one d = (refl, tt)
insert_at-AreDifferent (suc pos) x (i ∷ idx) new_one d = (
  ground (arith, is_in-insert_at i pos x idx, d.0),
  insert_at-AreDifferent pos x idx (ground arith) d.1,
)

insert_at-All :
    (P : ℕ → Type 0) (pos x : ℕ) (idx : List ℕ) → P x → All P idx → All P (insert_at pos x idx)
insert_at-All P zero x idx p h = (p, h)
insert_at-All P (suc pos) x [] p h = (p, tt)
insert_at-All P (suc pos) x (i ∷ idx) p h = (h.0, insert_at-All P pos x idx p h.1)

index_of-lt :
    (key : String) (i : ℕ) (cols : List Column) {j : ℕ}
    → index_of key i cols ≡ some j
    → j < i + length cols
unfolding index_of
index_of-lt key i [] {j} h = cc
index_of-lt key i (c ∷ rest) {j} h = elim (Bool-cases (normalize_column c.title == key)) [
  | inl t ↦ let same : i ≡ j = ground (arith, h, t) in omega (arith, same)
  | inr f ↦ omega (arith, index_of-lt key (suc i) rest {j = j} (rw (f, index_of) at h))
]

first_index-lt :
    (cols : List Column) (keys : List String) {j : ℕ}
    → first_index cols keys ≡ some j
    → j < length cols
unfolding first_index
first_index-lt cols [] {j} h = cc
first_index-lt cols (k ∷ rest) {j} h = elim (Option-cases (index_of k 0 cols)) [
  | inl e ↦ first_index-lt cols rest {j = j} (rw (e, first_index) at h)
  | inr (i, e) ↦
      let same : i ≡ j = ground (arith, h, e) in omega (arith, index_of-lt k 0 cols e, same)
]

find_column-lt :
    (cols : List Column) (name : String) {j : ℕ} → find_column cols name ≡ some j → j < length cols
unfolding find_column
find_column-lt cols name {j} h = elim (Bool-cases (normalize_column name == "")) [
  | inl t ↦ absurd (ground (arith, h, t))
  | inr f ↦
      first_index-lt cols (candidates (normalize_column name)) {j = j} (rw (f, find_column) at h)
]

-- Different columns of the table.
abbrev pub ArePicked : ℕ → List ℕ → Type 0
ArePicked n idx = All (λ i. i < n) idx × AreDifferent idx

pick-ArePicked :
    (sec : Section) (cols : List Column) (names : List String) (idx : List ℕ) (warns : List String)
    → ArePicked (length cols) idx
    → ArePicked (length cols) (pick sec cols names idx warns).0
unfolding pick
pick-ArePicked sec cols [] idx warns p = p
pick-ArePicked sec cols (n ∷ rest) idx warns p = elim (Option-cases (find_column cols n)) [
  | inl e ↦ rw (e, pick) (pick-ArePicked sec cols rest idx _ p)
  | inr (i, e) ↦ elim (Bool-cases (is_in i idx)) [
    | inl t ↦ rw (e, t, pick) (pick-ArePicked sec cols rest idx _ p)
    | inr f ↦
        rw (e, f, pick)
          (pick-ArePicked sec cols rest (idx ++ (i ∷ [])) warns
            (All-append _ idx _ p.0 (find_column-lt cols n e, tt), append-AreDifferent i idx f p.1))
  ]
]

-- What the layout of a section of n columns is like.
abbrev pub IsLayout : Section → ℕ → List ℕ → Type 0
IsLayout sec n idx =
    ArePicked n idx × (is_in (identity sec) idx ≡ true) × (is_identity idx n ≡ false)

with_identity-ArePicked :
    (sec : Section) (n : ℕ) (idx : List ℕ)
    → identity sec < n
    → ArePicked n idx
    → ArePicked n (with_identity sec idx) × (is_in (identity sec) (with_identity sec idx) ≡ true)
unfolding with_identity
with_identity-ArePicked sec n idx l p = elim (Bool-cases (is_in (identity sec) idx)) [
  | inl t ↦ rw t (p, t)
  | inr f ↦
      let pos = min_ℕ (identity sec) (length idx) in
      rw f (
        ((
          insert_at-All _ pos (identity sec) idx l p.0,
          insert_at-AreDifferent pos (identity sec) idx f p.1,
        )),
        ground (arith, is_in-insert_at (identity sec) pos (identity sec) idx),
      )
]

resolve_section-IsLayout :
    (sec : Section) (cols : List Column) (names : List String) {idx : List ℕ}
    → identity sec < length cols
    → (resolve_section sec cols names).0 ≡ some idx
    → IsLayout sec (length cols) idx
unfolding resolve_section
resolve_section-IsLayout sec cols names {idx} l h =
    let picked = (pick sec cols names [] []).0 in
    let full = with_identity sec picked in
    let (p, i) =
      with_identity-ArePicked sec (length cols) picked l
        (pick-ArePicked sec cols names [] [] (tt, tt)) in
    elim (Bool-cases (leb (length picked) 0)) [
      | inl t ↦ absurd (ground (arith, h, t))
      | inr f ↦ elim (Bool-cases (is_identity full (length cols))) [
        | inl t ↦ absurd (ground (arith, h, f, t))
        | inr g ↦
            let same : full ≡ idx = some-injective full idx (rw (f, g, resolve_section) at h) in
            rw⁻¹ same ((p, i, g))
      ]
    ]

abbrev width_of : Section → ℕ
width_of sec = length (shares sec)

-- The identity column is one of the section's, whatever the width.
columns-length :
    (scale : ℕ → ℕ → ℕ) (sec : Section) (w : ℕ)
    → (length (columns scale sec w) ≡ width_of sec) × (identity sec < width_of sec)
unfolding columns
columns-length scale containers w = (refl, omega arith)
columns-length scale stats w = (refl, omega arith)
columns-length scale images w = (refl, omega arith)
columns-length scale networks w = (refl, omega arith)
columns-length scale volumes w = (refl, omega arith)
columns-length scale compose w = (refl, omega arith)
columns-length scale hosts w = (refl, omega arith)

abbrev AreLayouts : Layouts → Type 0
AreLayouts out = All (λ e. IsLayout e.0 (width_of e.0) e.1) out

with_section-AreLayouts :
    (scale : ℕ → ℕ → ℕ) (sec : Section) (names : List String) (out : Layouts)
    → AreLayouts out
    → AreLayouts (elim (resolve_section sec (columns scale sec 0) names).0 [
      | none ↦ out
      | some i ↦ (sec, i) ∷ out
    ])
with_section-AreLayouts scale sec names out a =
    let (n, l) = columns-length scale sec 0 in
    elim (Option-cases (resolve_section sec (columns scale sec 0) names).0) [
      | inl e ↦ rw e a
      | inr (idx, e) ↦
          let valid =
            resolve_section-IsLayout sec (columns scale sec 0) names {idx = idx}
              (omega (arith, n, l)) e in
          rw e ((rw n at valid, a))
    ]

resolve_keys-AreLayouts :
    (scale : ℕ → ℕ → ℕ) (cfg : List (String × List String)) (out : Layouts) (warns : List String)
    → AreLayouts out
    → AreLayouts (resolve_keys scale cfg out warns).0
unfolding resolve_keys
resolve_keys-AreLayouts scale [] out warns a = a
resolve_keys-AreLayouts scale ((key, names) ∷ rest) out warns a =
    elim (Option-cases (find_first (λ s. section_text s == to_lower (trim_space key)) sections)) [
      | inl e ↦ rw (e, resolve_keys) (resolve_keys-AreLayouts scale rest out _ a)
      | inr (sec, e) ↦ elim (Bool-cases (leb (length names) 0)) [
        | inl t ↦ rw (e, t, resolve_keys) (resolve_keys-AreLayouts scale rest out warns a)
        | inr f ↦
            rw (e, f, resolve_keys)
              (resolve_keys-AreLayouts scale rest _ _
                (with_section-AreLayouts scale sec names out a))
      ]
    ]

find_section : String → Option Section
find_section name = find_first (λ s. section_text s == name) sections

find_section-text : (s : Section) → find_section (section_text s) ≡ some s
unfolding find_section
find_section-text containers = refl
find_section-text stats = refl
find_section-text images = refl
find_section-text networks = refl
find_section-text volumes = refl
find_section-text compose = refl
find_section-text hosts = refl

same_section-eq : (a b : Section) → same_section a b ≡ true → a ≡ b
same_section-eq a b h = some-injective a b (
    sym (find_section-text a)
    ∙ ap find_section ((eq_iff (section_text a) (section_text b)).0 h)
    ∙ find_section-text b)

-- Whatever the configuration: a layout that ResolveLayouts returns for a section lists columns that
-- the section has, none of them twice and the identity column among them, and it is not the default
-- layout.
pub resolve_layouts-IsLayout :
    (scale : ℕ → ℕ → ℕ) (cfg : List (String × List String)) (sec : Section) (idx : List ℕ)
    → layout_for (resolve_layouts scale cfg).0 sec ≡ some idx
    → IsLayout sec (length (shares sec)) idx
unfolding layout_for resolve_layouts
resolve_layouts-IsLayout scale cfg sec idx h =
    let sorted = sort (λ a b. text_le a.0 b.0) cfg in
    let layouts = (resolve_keys scale sorted [] []).0 in
    let valid = resolve_keys-AreLayouts scale sorted [] [] tt in
    elim (Option-cases (find_first (λ e. same_section e.0 sec) layouts)) [
      | inl e ↦ absurd (ground (arith, h, e))
      | inr ((sec', idx'), e) ↦
          let here : IsLayout sec' (width_of sec') idx' =
            find_first_All (λ e. IsLayout e.0 (width_of e.0) e.1) (λ e. same_section e.0 sec)
              layouts valid e in
          let one =
            same_section-eq sec' sec (find_first_holds (λ e. same_section e.0 sec) layouts e) in
          let same : idx' ≡ idx = some-injective idx' idx (rw (e, layout_for) at h) in
          subst (λ s. IsLayout s (width_of s) idx) one
            (subst (IsLayout sec' (width_of sec')) same here)
    ]
