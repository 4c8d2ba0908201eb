-- ===== src/Ui/Layout.antt =====
-- internal/ui/table/layout.go, with the columns and sections of internal/ui/table/table.go: which
-- columns a table shows. A Go map is a list; the columns' widths in hundredths are scaled by a
-- parameter, `int(float64(w) * pct)`. The texts are the English ones.
pub mod Columns
pub mod Projection
pub mod Widths
use d9c.Base.{
  ◌≡◌, ℕ, zero, suc, ◌+◌, ◌*◌, ◌/◌, Bool, true, false, not, ◌&&◌, ◌||◌, String, Char, code, Option,
  none, some, List, [], ◌∷◌, ◌++◌, map, any, length, take, drop, get_elem?, find_first, default,
  ltb, leb, eqb, if◌then◌else◌, ◌<+>◌, ◌==◌, to_lower, trim_space, join, quote,
}
use Prim.Native.String
use d9c.Base.Sort.{sort}
use d9c.Base.TextOrder.{text_le}
unfoldable pub use Columns.*

-- columnAliases
unfoldable pub column_aliases : List (String × String)
column_aliases =
    ("repository", "repositorytag")
    ∷ ("repo", "repositorytag")
    ∷ ("tag", "repositorytag")
    ∷ ("net", "netio")
    ∷ ("block", "blockio")
    ∷ []

-- unicode.IsLetter or unicode.IsDigit of a character of ASCII that is not upper-case
abbrev pub is_word : ℕ → Bool
is_word c = (leb b'a' c && leb c b'z') || (leb b'0' c && leb c b'9')

-- The loop of normalizeColumn.
unfoldable pub fold_column : String → String
fold_column String.[] = ""
fold_column (String.◌∷◌ c s) =
    let rest = fold_column s in
    if eqb (code c) b'%'
    then "pct" <+> rest
    else if is_word (code c)
    then String.◌∷◌ c rest
    else rest

-- normalizeColumn
unfoldable pub normalize_column : String → String
unfolding fold_column
normalize_column name = fold_column (to_lower name)

-- The column of a normalized title, counted from i.
unfoldable pub index_of : String → ℕ → List Column → Option ℕ
unfolding normalize_column
index_of key i [] = none
index_of key i (c ∷ rest) =
    let later = index_of key (suc i) rest in
    if normalize_column c.title == key then some i else later

-- The outer loop of findColumn over the candidates; none for -1.
unfoldable pub first_index : List Column → List String → Option ℕ
unfolding index_of
first_index cols [] = none
first_index cols (k ∷ rest) = elim (index_of k 0 cols) [
  | some i ↦ some i
  | none ↦ first_index cols rest
]

unfoldable pub candidates : String → List String
unfolding column_aliases
candidates key =
    let alias : List String = elim (find_first (λ a. a.0 == key) column_aliases) [
      | none ↦ []
      | some a ↦ a.1 ∷ []
    ] in
    (key ∷ []) ++ alias ++ ((key <+> "pct") ∷ [])

-- findColumn
unfoldable pub find_column : List Column → String → Option ℕ
unfolding normalize_column candidates first_index
find_column cols name =
    let key = normalize_column name in if key == "" then none else first_index cols (candidates key)

-- titleList
unfoldable pub title_list : List Column → String
title_list cols = join (map (λ c. c.title) cols) ", "

abbrev pub is_in : ℕ → List ℕ → Bool
is_in i idx = any (eqb i) idx

-- The loop of resolveSection: the indices, which are also those that were seen, and the warnings.
unfoldable pub pick :
    Section → List Column → List String → List ℕ → List String → List ℕ × List String
unfolding find_column title_list
pick sec cols [] idx warns = (idx, warns)
pick sec cols (n ∷ rest) idx warns =
    let unknown =
      "columns."
      <+> section_text sec
      <+> ": unknown column "
      <+> quote n
      <+> " (valid: "
      <+> title_list cols
      <+> ")" in
    let twice = "columns." <+> section_text sec <+> ": duplicate column " <+> quote n in
    elim (find_column cols n) [
      | none ↦ pick sec cols rest idx (warns ++ (unknown ∷ []))
      | some i ↦
          let duplicate = pick sec cols rest idx (warns ++ (twice ∷ [])) in
          let added = pick sec cols rest (idx ++ (i ∷ [])) warns in
          if is_in i idx then duplicate else added
    ]

-- append(idx[:pos], append([]int{x}, idx[pos:]...)...)
abbrev pub insert_at : ℕ → ℕ → List ℕ → List ℕ
insert_at pos x idx = take pos idx ++ (x ∷ drop pos idx)

-- Whether the list counts from i.
unfoldable pub counts_from : ℕ → List ℕ → Bool
counts_from i [] = true
counts_from i (v ∷ rest) = eqb v i && counts_from (suc i) rest

-- isIdentity
unfoldable pub is_identity : List ℕ → ℕ → Bool
unfolding counts_from
is_identity idx n = eqb (length idx) n && counts_from 0 idx

abbrev pub min_ℕ : ℕ → ℕ → ℕ
min_ℕ a b = if leb a b then a else b

-- The indices with the identity column.
unfoldable pub with_identity : Section → List ℕ → List ℕ
with_identity sec idx =
    if is_in (identity sec) idx
    then idx
    else insert_at (min_ℕ (identity sec) (length idx)) (identity sec) idx

-- resolveSection; none for nil.
unfoldable pub resolve_section : Section → List Column → List String → Option (List ℕ) × List String
unfolding pick with_identity is_identity
resolve_section sec cols names =
    let (idx, warns) = pick sec cols names [] [] in
    let required =
      "columns."
      <+> section_text sec
      <+> ": column "
      <+> default (elim (get_elem? cols (identity sec)) [ none ↦ none | some c ↦ some c.title ]) ""
      <+> " is required and was added back" in
    if leb (length idx) 0
    then (none, warns)
    else (let all_warns = if is_in (identity sec) idx then warns else warns ++ (required ∷ []) in
        let full = with_identity sec idx in
        (if is_identity full (length cols) then none else some full, all_warns))

-- sectionList
unfoldable pub section_list : String
section_list = join (sort text_le (map section_text sections)) ", "

abbrev pub Layouts : Type 0
Layouts = List (Section × List ℕ)

abbrev pub same_section : Section → Section → Bool
same_section a b = section_text a == section_text b

-- Layouts.For, and the entry of a map; the entry that was put last stands first.
unfoldable pub layout_for : Layouts → Section → Option (List ℕ)
layout_for layouts sec = elim (find_first (λ e. same_section e.0 sec) layouts) [
  | none ↦ none
  | some e ↦ some e.1
]

-- The loop of ResolveLayouts over the sorted keys.
unfoldable pub resolve_keys :
    (ℕ → ℕ → ℕ) → List (String × List String) → Layouts → List String → Layouts × List String
unfolding section_list columns resolve_section
resolve_keys scale [] out warns = (out, warns)
resolve_keys scale ((key, names) ∷ rest) out warns =
    let name = to_lower (trim_space key) in
    let unknown =
      "columns: unknown section " <+> quote key <+> " (valid: " <+> section_list <+> ")" in
    elim (find_first (λ s. section_text s == name) sections) [
      | none ↦ resolve_keys scale rest out (warns ++ (unknown ∷ []))
      | some sec ↦
          let unchanged = resolve_keys scale rest out warns in
          let (idx, more) = resolve_section sec (columns scale sec 0) names in
          let resolved : Layouts = elim idx [ none ↦ out | some i ↦ (sec, i) ∷ out ] in
          let changed = resolve_keys scale rest resolved (warns ++ more) in
          if leb (length names) 0 then unchanged else changed
    ]

-- ResolveLayouts
unfoldable pub resolve_layouts : (ℕ → ℕ → ℕ) → List (String × List String) → Layouts × List String
unfolding resolve_keys
resolve_layouts scale cfg = resolve_keys scale (sort (λ a b. text_le a.0 b.0) cfg) [] []

-- The columns of the indices that are in range.
unfoldable pub kept_columns : List Column → List ℕ → List Column
kept_columns cols [] = []
kept_columns cols (i ∷ idx) = elim (get_elem? cols i) [
  | none ↦ kept_columns cols idx
  | some c ↦ c ∷ kept_columns cols idx
]

unfoldable pub total_width : List Column → ℕ
total_width [] = 0
total_width (c ∷ cols) = c.width + total_width cols

abbrev pub widened : ℕ → ℕ → Column → Column
widened total kept c = record c { width = c.width * total / kept }

-- projectColumns; none for a nil idx.
unfoldable pub project_columns : List Column → Option (List ℕ) → List Column
unfolding kept_columns total_width
project_columns cols none = cols
project_columns cols (some idx) =
    let out = kept_columns cols idx in
    let total = total_width cols in
    let kept = total_width out in
    if ltb 0 kept && ltb kept total then map (widened total kept) out else out

-- projectRow
unfoldable pub project_row : List String → Option (List ℕ) → List String
project_row row none = row
project_row row (some idx) = map (λ i. default (get_elem? row i) "") idx

-- projectColorizers, on colorizers of any kind; a nil entry is none.
unfoldable pub project_colorizers :
    {C : Type 0} → List (Option C) → Option (List ℕ) → List (Option C)
project_colorizers cs none = cs
project_colorizers [] (some idx) = []
project_colorizers (c ∷ cs) (some idx) = map (λ i. default (get_elem? (c ∷ cs) i) none) idx
