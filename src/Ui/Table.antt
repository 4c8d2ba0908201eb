-- ===== src/Ui/Table.antt =====
-- internal/ui/table/table.go: the rows of the tables, their order and the cursor. The widget of package
-- bubbles is a parameter. A map is a function into optional values; CPU figures are of a type F.
pub mod Rows
pub mod Identity
pub mod Order
pub mod Cursor
use d9c.Base.{
  ◌≡◌, ℕ, zero, suc, ◌+◌, ◌-◌, Bool, true, false, not, ◌&&◌, ◌||◌, String, Option, none, some, List,
  [], ◌∷◌, ◌++◌, map, any, length, get_elem?, find_first, default, ltb, leb, eqb, if◌then◌else◌,
  ◌<+>◌, ◌==◌, to_lower, split_at, decimal,
}
use Prim.Native.String
use Prim.Native.Nat.{Ordering}
use d9c.Base.Int.{ℤ, pos, negsuc, leb_ℤ, ltb_ℤ}
use d9c.Base.Sort.{sort}
use d9c.Base.TextOrder.{text_le}
use d9c.Ui.Layout.{Column, project_columns, project_row}

abbrev pub Row : Type 0
Row = List String

pub data SortField : Type 0 where
  sort_none : SortField
  sort_name : SortField
  sort_status : SortField
  sort_cpu : SortField
  sort_mem : SortField

-- SortField.String
unfoldable pub show_field : SortField → String
show_field sort_none = ""
show_field sort_name = "NAME"
show_field sort_status = "STATUS"
show_field sort_cpu = "CPU"
show_field sort_mem = "MEM"

-- docker.Container, without the fields that no table reads.
pub record Container : Type 0 where
  pub id : String
  pub name : String
  pub image : String
  pub status : String
  pub state : String
  pub health : String
  pub ports : String
  pub labels : List (String × String)
  pub networks : List String

-- docker.ContainerStats, with the texts that its methods make of the figures.
pub record ContainerStats (F : Type 0) : Type 0 where
  pub cpu_perc : F
  pub mem_usage : ℕ
  pub cpu_string : String
  pub mem_string : String
  pub mem_perc_string : String
  pub net_string : String
  pub block_string : String

-- cmp.Compare
unfoldable pub compare : {K : Type 0} → (K → K → Bool) → K → K → Ordering
compare le a b = if le a b then (if le b a then Ordering.eq else Ordering.lt) else Ordering.gt

-- The end of that function: what is decided by the comparison, by the names among equals.
abbrev pub comes_first : Ordering → Bool → Bool → Bool
comes_first Ordering.eq name_less desc = name_less
comes_first Ordering.gt name_less desc = desc
comes_first Ordering.lt name_less desc = not desc

module _ {F : Type 0} (cpu_le : F → F → Bool) (cpu_zero : F)
    (stats : String → Option (ContainerStats F)) where
  abbrev pub cpu_of : Container → F
  cpu_of c = elim (stats c.id) [ none ↦ cpu_zero | some s ↦ s.cpu_perc ]

  abbrev pub mem_of : Container → ℕ
  mem_of c = elim (stats c.id) [ none ↦ 0 | some s ↦ s.mem_usage ]

  -- compareContainers
  unfoldable pub compare_containers : SortField → Container → Container → Ordering
  unfolding compare
  compare_containers sort_none a b = Ordering.eq
  compare_containers sort_name a b = compare text_le a.name b.name
  compare_containers sort_status a b = compare text_le a.state b.state
  compare_containers sort_cpu a b = compare cpu_le (cpu_of a) (cpu_of b)
  compare_containers sort_mem a b = compare leb (mem_of a) (mem_of b)

  -- The function that SortContainers gives sort.SliceStable.
  unfoldable pub less : SortField → Bool → Container → Container → Bool
  unfolding compare_containers
  less field desc a b =
      comes_first (compare_containers field a b) (not (text_le b.name a.name)) desc

  -- SortContainers
  unfoldable pub sort_containers : SortField → Bool → List Container → List Container
  unfolding sort less
  sort_containers sort_none desc xs = xs
  sort_containers field desc xs =
      if ltb (length xs) 2 then xs else sort (λ a b. not (less field desc b a)) xs

-- sortByName
unfoldable pub sort_by_name : {A : Type 0} → (A → String) → List A → List A
unfolding sort
sort_by_name key xs =
    if ltb (length xs) 2 then xs else sort (λ a b. text_le (to_lower (key a)) (to_lower (key b))) xs

-- truncate, at a length that is not negative.
unfoldable pub truncate : String → ℕ → String
truncate s max =
    if leb max 0
    then ""
    else if leb (String.count s) max
    then s
    else (split_at (max - 1) s).0 <+> "…"

-- Summary
unfoldable pub summary : ℕ → ℕ → String
summary total shown =
    if eqb total shown
    then " " <+> decimal total <+> " container(s) "
    else " " <+> decimal shown <+> "/" <+> decimal total <+> " containers (filtered) "

-- The loop of markForwards.
unfoldable pub mark_rows : (String → Option String) → List Row → List Row
mark_rows forwards [] = []
mark_rows forwards ((name ∷ image ∷ status ∷ health ∷ ports ∷ cpu ∷ mem ∷ id ∷ more) ∷ rows) =
    (elim (forwards id) [
      | none ↦ name ∷ image ∷ status ∷ health ∷ ports ∷ cpu ∷ mem ∷ id ∷ more
      | some mark ↦
          name
          ∷ image
          ∷ status
          ∷ health
          ∷ (if ports == "" then mark else mark <+> " " <+> ports)
          ∷ cpu
          ∷ mem
          ∷ id
          ∷ more
    ])
    ∷ mark_rows forwards rows
mark_rows forwards (row ∷ rows) = row ∷ mark_rows forwards rows

-- markForwards; none for an empty map.
unfoldable pub mark_forwards : Option (String → Option String) → List Row → List Row
unfolding mark_rows
mark_forwards none rows = rows
mark_forwards (some forwards) rows = mark_rows forwards rows

-- The table of package bubbles, and what it is told by a message M.
pub record Widget (T M : Type 0) : Type 0 where
  pub set_rows : List Row → T → T
  pub rows_of : T → List Row
  pub set_columns : List Column → T → T
  pub columns_of : T → List Column
  pub set_width : ℕ → T → T
  pub set_height : ℕ → T → T
  pub cursor : T → ℤ
  pub set_cursor : ℤ → T → T
  pub update : M → T → T

-- A cursor among the rows, -1 where there is none.
abbrev pub clamp : ℤ → ℕ → ℤ
clamp i zero = negsuc 0
clamp (negsuc k) (suc n) = pos 0
clamp (pos k) (suc n) = pos (if leb k n then k else n)

-- The index of the last row, -1 where there is none.
abbrev pub last_index : ℕ → ℤ
last_index zero = negsuc 0
last_index (suc n) = pos n

-- Model, without the colours.
pub record Model (T : Type 0) : Type 0 where
  pub table : T
  pub width : ℕ
  pub height : ℕ
  pub sort_field : SortField
  pub sort_desc : Bool
  pub forwards : Option (String → Option String)
  pub layout : Option (List ℕ)
  pub rows : List Row

-- The rows that setRows gives to the widget.
unfoldable pub shown_rows : Option (List ℕ) → List Row → List Row
unfolding project_row
shown_rows none rows = rows
shown_rows (some idx) rows = map (λ r. project_row r (some idx)) rows

module _ {T M : Type 0} (w : Widget T M) where
  -- Model.SetSize
  unfoldable pub set_size : ℕ → ℕ → Model T → Model T
  set_size width height m = record m {
    width = width;
    height = height;
    table = w.set_height height (w.set_width width m.table);
  }

  -- Model.SetLayout
  unfoldable pub set_layout : Option (List ℕ) → Model T → Model T
  set_layout idx m = record m { layout = idx }

  -- Model.SetSort
  unfoldable pub set_sort : SortField → Bool → Model T → Model T
  set_sort field desc m = record m { sort_field = field; sort_desc = desc }

  -- Model.SetForwards
  unfoldable pub set_forwards : Option (String → Option String) → Model T → Model T
  set_forwards forwards m = record m { forwards = forwards }

  -- Model.SetColumns
  unfoldable pub set_columns : List Column → Model T → Model T
  set_columns cols m =
      let shown = project_columns cols m.layout in
      let cleared = record m { rows = []; table = w.set_rows [] m.table } in
      let m' = if eqb (length shown) (length (w.columns_of m.table)) then m else cleared in
      let table = w.set_columns shown m'.table in
      record m' { table = if ltb 0 m'.height then w.set_height m'.height table else table }

  -- The end of setRows: the cursor is among n rows.
  unfoldable pub fit_cursor : ℕ → T → T
  fit_cursor n t =
      if leb_ℤ (pos n) (w.cursor t)
      then w.set_cursor (last_index n) t
      else if ltb_ℤ (w.cursor t) (pos 0) && ltb 0 n
      then w.set_cursor (pos 0) t
      else t

  -- Model.setRows
  unfoldable pub set_rows : List Row → Model T → Model T
  set_rows rows m =
      let shown = shown_rows m.layout rows in
      record m { rows = rows; table = fit_cursor (length shown) (w.set_rows shown m.table) }

  -- Model.SelectedRow
  unfoldable pub selected_row : Model T → Option Row
  selected_row m = elim (w.cursor m.table) [ negsuc k ↦ none | pos i ↦ get_elem? m.rows i ]

  abbrev pub last_cell : Row → String
  last_cell [] = ""
  last_cell (c ∷ []) = c
  last_cell (c ∷ d ∷ row) = last_cell (d ∷ row)

  -- Model.SelectedID
  unfoldable pub selected_id : Model T → String
  unfolding selected_row
  selected_id m = elim (selected_row m) [ none ↦ "" | some row ↦ last_cell row ]

  -- The loop of SelectComposeRow, from row i on.
  unfoldable pub find_row : String → ℕ → List Row → Option ℕ
  find_row id i [] = none
  find_row id i (row ∷ rows) =
      let later = find_row id (suc i) rows in
      elim (get_elem? row 2) [ none ↦ later | some cell ↦ if cell == id then some i else later ]

  -- Model.SelectComposeRow
  unfoldable pub select_compose_row : String → Model T → Model T
  unfolding find_row
  select_compose_row id m = elim (find_row id 0 m.rows) [
    | none ↦ m
    | some i ↦ record m { table = w.set_cursor (pos i) m.table }
  ]
