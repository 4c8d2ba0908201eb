-- ===== src/Ui/Table/Cursor.antt =====
-- table.go: the cursor stays on a row, and no row has more or fewer cells than there are columns.
use d9c.Base.{
  ◌≡◌, refl, ap, ◌∙◌, inl, inr, ℕ, zero, suc, ◌<◌, true, false, ◌&&◌, Option, none, some, List, [],
  ◌∷◌, length, get_elem?, get_elem?-lt, ltb, leb, eqb, if◌then◌else◌, arith, All, Bool-cases,
  eqb_iff,
}
use d9c.Base.Int.{ℤ, pos, negsuc, leb_ℤ, ltb_ℤ}
use d9c.Ui.Layout.{Column, project_columns, project_row}
use d9c.Ui.Table.{
  Row, Widget, Model, clamp, last_index, shown_rows, fit_cursor, set_rows, set_columns,
  selected_row,
}

-- What the widget's documentation says of its methods: each changes what it is named for, and
-- SetCursor keeps the cursor among the rows.
pub record IsWidget {T M : Type 0} (w : Widget T M) : Type 0 where
  pub rows-set_rows : (rows : List Row) (t : T) → w.rows_of (w.set_rows rows t) ≡ rows
  pub columns-set_rows :
      (rows : List Row) (t : T) → w.columns_of (w.set_rows rows t) ≡ w.columns_of t
  pub cursor-set_rows : (rows : List Row) (t : T) → w.cursor (w.set_rows rows t) ≡ w.cursor t
  pub rows-set_columns :
      (cols : List Column) (t : T) → w.rows_of (w.set_columns cols t) ≡ w.rows_of t
  pub columns-set_columns :
      (cols : List Column) (t : T) → w.columns_of (w.set_columns cols t) ≡ cols
  pub rows-set_height : (n : ℕ) (t : T) → w.rows_of (w.set_height n t) ≡ w.rows_of t
  pub columns-set_height : (n : ℕ) (t : T) → w.columns_of (w.set_height n t) ≡ w.columns_of t
  pub rows-set_cursor : (i : ℤ) (t : T) → w.rows_of (w.set_cursor i t) ≡ w.rows_of t
  pub columns-set_cursor : (i : ℤ) (t : T) → w.columns_of (w.set_cursor i t) ≡ w.columns_of t
  pub cursor-set_cursor :
      (i : ℤ) (t : T) → w.cursor (w.set_cursor i t) ≡ clamp i (length (w.rows_of t))

shown_rows-length :
    (layout : Option (List ℕ)) (rows : List Row) → length (shown_rows layout rows) ≡ length rows
unfolding shown_rows
shown_rows-length none rows = refl
shown_rows-length (some idx) [] = refl
shown_rows-length (some idx) (row ∷ rows) = ap suc (shown_rows-length (some idx) rows)

shown_rows-All :
    (n : ℕ) (layout : Option (List ℕ)) (rows : List Row)
    → All (λ r. length (project_row r layout) ≡ n) rows
    → All (λ r. length r ≡ n) (shown_rows layout rows)
unfolding shown_rows project_row
shown_rows-All n none rows h = h
shown_rows-All n (some idx) [] h = tt
shown_rows-All n (some idx) (row ∷ rows) h = (h.0, shown_rows-All n (some idx) rows h.1)

-- The rows of the widget have a cell for each of its columns.
abbrev pub IsRendered : {T M : Type 0} → Widget T M → Model T → Type 0
IsRendered w m = All (λ r. length r ≡ length (w.columns_of m.table)) (w.rows_of m.table)

module _ {T M : Type 0} (w : Widget T M) where
  -- What SetRows and SetColumns lead to, in any order, where the rows given to SetRows have a cell
  -- for each of the columns that the table has, and SetColumns gets any columns.
  pub data Shown : Model T → Type 0 where
    rows_set :
        (rows : List Row) (cols : List Column) (m : Model T)
        → length (w.columns_of m.table) ≡ length (project_columns cols m.layout)
        → All (λ r. length (project_row r m.layout) ≡ length (project_columns cols m.layout)) rows
        → Shown (set_rows w rows m)
    columns_set : {m : Model T} (cols : List Column) → Shown m → Shown (set_columns w cols m)

module _ {T M : Type 0} (w : Widget T M) (laws : IsWidget w) where
  -- Where the cursor comes to rest among n rows: it is on one of them, and does not leave a row.
  fit_cursor_lem :
      (n : ℕ) (t : T)
      → length (w.rows_of t) ≡ n
      → 0 < n
      → (i : ℕ) × (w.cursor (fit_cursor w n t) ≡ pos i)
        × (i < n)
        × ((k : ℕ) → w.cursor t ≡ pos k → k < n → i ≡ k)
  unfolding fit_cursor
  fit_cursor_lem zero t l h = absurd (omega arith)
  fit_cursor_lem (suc n) t l h = cases (w.cursor t) refl
    where
      cases :
          (c : ℤ)
          → w.cursor t ≡ c
          → (i : ℕ) × (w.cursor (fit_cursor w (suc n) t) ≡ pos i)
            × (i < suc n)
            × ((k : ℕ) → w.cursor t ≡ pos k → k < suc n → i ≡ k)
      cases (negsuc j) e =
          let a : leb_ℤ (pos (suc n)) (w.cursor t) ≡ false = rw e (ground arith) in
          let b : (ltb_ℤ (w.cursor t) (pos 0) && ltb 0 (suc n)) ≡ true = rw e (ground arith) in
          (
            0,
            rw (a, b, laws.cursor-set_cursor (pos 0) t, l) (ground arith),
            omega arith,
            λ k f. absurd (ground (arith, e, f)),
          )
      cases (pos j) e = elim (Bool-cases (leb (suc n) j)) [
        | inl t' ↦
            let a : leb_ℤ (pos (suc n)) (w.cursor t) ≡ true = rw e (ground (arith, t')) in
            (
              n,
              rw (a, laws.cursor-set_cursor (pos n) t, l) (ground arith),
              omega arith,
              λ k f less. absurd (ground (arith, e, f, t')),
            )
        | inr f' ↦
            let a : leb_ℤ (pos (suc n)) (w.cursor t) ≡ false = rw e (ground (arith, f')) in
            let b : ltb_ℤ (w.cursor t) (pos 0) ≡ false = rw e (ground arith) in
            (j, rw (a, b, e), ground (arith, f'), λ k f less. ground (arith, e, f))
      ]

  fit_cursor-rows : (n : ℕ) (t : T) → w.rows_of (fit_cursor w n t) ≡ w.rows_of t
  unfolding fit_cursor
  fit_cursor-rows n t =
      ground (arith, laws.rows-set_cursor (last_index n) t, laws.rows-set_cursor (pos 0) t)

  fit_cursor-columns : (n : ℕ) (t : T) → w.columns_of (fit_cursor w n t) ≡ w.columns_of t
  unfolding fit_cursor
  fit_cursor-columns n t =
      ground (arith, laws.columns-set_cursor (last_index n) t, laws.columns-set_cursor (pos 0) t)

  set_rows-IsRendered :
      (rows : List Row) (cols : List Column) (m : Model T)
      → length (w.columns_of m.table) ≡ length (project_columns cols m.layout)
      → All (λ r. length (project_row r m.layout) ≡ length (project_columns cols m.layout)) rows
      → IsRendered w (set_rows w rows m)
  unfolding set_rows
  set_rows-IsRendered rows cols m c h =
      let shown = shown_rows m.layout rows in
      let table = w.set_rows shown m.table in
      rw
        (
          fit_cursor-rows (length shown) table,
          fit_cursor-columns (length shown) table,
          laws.rows-set_rows shown m.table,
          laws.columns-set_rows shown m.table,
          c,
        )
        (shown_rows-All (length (project_columns cols m.layout)) m.layout rows h)

  with_height-IsRendered :
      (n : ℕ) (t : T) (P : List Row → List Column → Type 0)
      → P (w.rows_of t) (w.columns_of t)
      → (let t' = if ltb 0 n then w.set_height n t else t in P (w.rows_of t') (w.columns_of t'))
  with_height-IsRendered n t P p = elim (Bool-cases (ltb 0 n)) [
    | inl e ↦ rw (e, laws.rows-set_height n t, laws.columns-set_height n t) p
    | inr e ↦ rw e p
  ]

  set_columns-IsRendered :
      (cols : List Column) (m : Model T) → IsRendered w m → IsRendered w (set_columns w cols m)
  unfolding set_columns
  set_columns-IsRendered cols m r =
      let shown = project_columns cols m.layout in
      let cleared = w.set_rows [] m.table in
      let fits : List Row → List Column → Type 0 =
        λ rows columns. All (λ r. length r ≡ length columns) rows in
      elim (Bool-cases (eqb (length shown) (length (w.columns_of m.table)))) [
        | inl e ↦
            let same = (eqb_iff (length shown) (length (w.columns_of m.table))).0 e in
            rw e (
              with_height-IsRendered m.height (w.set_columns shown m.table) fits (
                rw
                  (
                    laws.rows-set_columns shown m.table,
                    laws.columns-set_columns shown m.table,
                    same,
                  )
                  r))
        | inr e ↦ rw e (
            with_height-IsRendered m.height (w.set_columns shown cleared) fits (
              rw
                (
                  laws.rows-set_columns shown cleared,
                  laws.columns-set_columns shown cleared,
                  laws.rows-set_rows [] m.table,
                )
                tt))
      ]

  selected_row-at :
      (m : Model T) (i : ℕ) → w.cursor m.table ≡ pos i → selected_row w m ≡ get_elem? m.rows i
  unfolding selected_row
  selected_row-at m i c = rw (c, selected_row)

  -- Loading rows leaves the cursor on one of them if there is any: the selected row is that row, not
  -- projected, and it is the row at the old place if that is still a place of the list. With no
  -- rows, none is selected.
  pub set_rows_lem :
      (rows : List Row) (m : Model T)
      → (0 < length rows
          → (i : ℕ) × (row : Row) × (get_elem? rows i ≡ some row)
            × (w.cursor (set_rows w rows m).table ≡ pos i)
            × (selected_row w (set_rows w rows m) ≡ some row)
            × ((k : ℕ) → w.cursor m.table ≡ pos k → k < length rows → i ≡ k))
        × (rows ≡ [] → selected_row w (set_rows w rows m) ≡ none)
  unfolding set_rows selected_row
  set_rows_lem rows m =
      let shown = shown_rows m.layout rows in
      let table = w.set_rows shown m.table in
      let l = shown_rows-length m.layout rows in
      (
        λ some_row.
            let (i, c, i_lt, kept) =
              fit_cursor_lem (length shown) table (ap length (laws.rows-set_rows shown m.table))
                (omega (arith, l, some_row)) in
            let (row, e) = get_elem?-lt rows i (omega (arith, i_lt, l)) in
            (
              i,
              row,
              e,
              c,
              selected_row-at (set_rows w rows m) i c ∙ e,
              λ k f less. kept k (laws.cursor-set_rows shown m.table ∙ f) (omega (arith, l, less)),
            ),
        λ z. none_selected (w.cursor (fit_cursor w (length shown) table)) rows z,
      )
    where
      none_selected :
          (c : ℤ) (rows : List Row)
          → rows ≡ []
          → ◌≡◌ {A = Option Row} (elim c [ negsuc k ↦ none | pos i ↦ get_elem? rows i ]) none
      none_selected (negsuc k) rows z = refl
      none_selected (pos i) rows z = rw z

  -- After SetRows with rows that have a cell for each of the columns, and after any calls of
  -- SetColumns and such calls of SetRows that follow, every row of the table has a cell for each of
  -- its columns.
  pub table-IsRendered : {m : Model T} → Shown w m → IsRendered w m
  table-IsRendered (rows_set rows cols m c h) = set_rows-IsRendered rows cols m c h
  table-IsRendered (columns_set cols s) = set_columns-IsRendered cols _ (table-IsRendered s)
