-- ===== src/Ui/Tests.antt =====
-- Runs of the log viewer and of the tables, over a plain widget.
use d9c.Base.{
  ◌+◌, ◌⊎◌, ◌≡◌, ◌≢◌, refl, ℕ, ◌≤◌, ◌<◌, Bool, true, false, not, String, Option, none, some, List,
  [], ◌∷◌, map, length, get_elem?, leb, All, arith,
}
use mathlib.Core.List.{Perm}
use Prim.Native.String
use d9c.Base.Int.{ℤ, pos, negsuc}
use d9c.Base.Sort.{IsSorted}
use d9c.Filter.{Matcher}
use d9c.Ui.Cmdline.{CmdDef, ghost, commands}
use d9c.Ui.Cmdline as cmdline
use d9c.Ui.Cmdline.Completion.{IsOffered, ghost_lem}
use d9c.Base.{fields, to_lower, ◌<+>◌, ◌==◌}
use d9c.Ui.Logs.{Widgets, Paint}
use d9c.Ui.Logs as logs
use d9c.Ui.Logs.Buffered.{IsSynced, Returns}
use d9c.Ui.Logs.Synced.{Reachable, opened, added, logs-IsSynced}
use d9c.Ui.Logs.Color.{word_in}
use d9c.Ui.Layout.{
  Column, columns, shares, layout_for, resolve_layouts, project_columns, project_row,
}
use d9c.Ui.Layout as layout
use d9c.Ui.Layout.Projection.{IsLayout, resolve_layouts-IsLayout}
use d9c.Ui.Layout.Widths.{project_columns_lem}
use d9c.Ui.Layout.{total_width}
use d9c.Ui.Table.{
  Row, Widget, Model, Container, ContainerStats, clamp, sort_none, sort_cpu, sort_containers,
  truncate, set_rows, set_columns, selected_row,
}
use d9c.Ui.Table.Cursor.{
  IsWidget, IsRendered, Shown, rows_set, columns_set, set_rows_lem, table-IsRendered,
}
use d9c.Ui.Table.Order.{
  in_order, leb-IsTotal, leb-IsTransitive, sort_containers-IsSorted, truncate-count,
}
use d9c.Ui.Table.Rows.{
  containers_rows, image_rows, network_rows, volume_rows, host_rows, compose_rows,
}
use d9c.Ui.Table.Identity.{IsRow, rows-IsRow}

-- A viewport, a text input and a message that are all texts.
abbrev plain_widgets : Widgets String String String
plain_widgets = record {
  set_size = λ width height v. v;
  set_content = λ text v. text;
  goto_top = λ v. v;
  goto_bottom = λ v. v;
  set_y_offset = λ n v. v;
  update_viewport = λ msg v. v;
  reset_input = λ i. "";
  focus_input = λ i. i;
  update_input = λ msg i. msg;
  input_value = λ i. i;
  key = λ msg. some msg;
}

abbrev plain_paint : Paint
plain_paint = record {
  colorize = λ line. line;
  match_line = λ n line. line;
  match_current = λ n line. line;
}

abbrev viewer : logs.Model String String
viewer = record {
  viewport = "";
  lines = [];
  raw_lines = [];
  container_id = "";
  auto_scroll = true;
  width = 80;
  height = 24;
  searching = false;
  search_input = "";
  search_query = "";
  matches = [];
  match_idx = 0;
}

abbrev read_log : logs.Model String String
read_log = record viewer {
  viewport = "GET /";
  lines = "GET /" ∷ [];
  raw_lines = "GET /" ∷ [];
  container_id = "c1";
}

read_log-Reachable : Reachable plain_widgets plain_paint read_log
unfolding d9c.Ui.Logs.add_lines logs.show logs.render_content logs.buffered logs.trim_to_cap
    logs.open_log logs.reset_search logs.follow d9c.Base.join
read_log-Reachable =
    added {m = logs.open_log plain_widgets plain_paint "c1" viewer} ("GET /" ∷ [])
      (opened "c1" viewer) refl

logs-IsSynced_example :
    IsSynced read_log
    × Returns (logs.add_lines plain_widgets plain_paint ("GET /web" ∷ []) read_log)
    × Returns (logs.update plain_widgets plain_paint "n" read_log)
logs-IsSynced_example =
    logs-IsSynced plain_widgets plain_paint read_log ("GET /web" ∷ []) "n" read_log-Reachable

-- The word stands alone at its second place, but only the first is looked at.
second_word : word_in "TERROR ERROR" "ERROR" ≡ false
unfolding word_in d9c.Base.split_first
second_word = refl

abbrev whole : ℕ → ℕ → ℕ
whole w share = w

abbrev two_columns : List (String × List String)
two_columns = ("Images", "size" ∷ "tag" ∷ []) ∷ []

resolve_layouts-IsLayout_example : IsLayout layout.images 4 (1 ∷ 0 ∷ 3 ∷ [])
unfolding layout_for resolve_layouts d9c.Base.Sort.sort d9c.Base.to_lower d9c.Base.trim_space
    d9c.Base.trim_right d9c.Base.trim_left d9c.Base.is_space
resolve_layouts-IsLayout_example =
    resolve_layouts-IsLayout whole two_columns layout.images (1 ∷ 0 ∷ 3 ∷ []) refl

abbrev image_columns : List Column
image_columns =
    record { title = "REPOSITORY:TAG"; width = 45 }
    ∷ record { title = "SIZE"; width = 12 }
    ∷ record { title = "CREATED"; width = 25 }
    ∷ record { title = "ID"; width = 18 }
    ∷ []

project_columns_lem_example :
    (total_width (project_columns image_columns (some (1 ∷ 0 ∷ []))) ≤ total_width image_columns)
    × ((total_width (project_columns image_columns (some (1 ∷ 0 ∷ []))) ≡ 0)
        ⊎ (total_width image_columns
            ≤ total_width (project_columns image_columns (some (1 ∷ 0 ∷ []))) + 2))
    × (length (project_row ("a" ∷ "b" ∷ []) (some (1 ∷ 0 ∷ [])))
        ≡ length (project_columns image_columns (some (1 ∷ 0 ∷ []))))
project_columns_lem_example =
    project_columns_lem image_columns ("a" ∷ "b" ∷ []) (1 ∷ 0 ∷ [])
      ((omega arith, (omega arith, tt)), (refl, (refl, tt)))

-- A table that is its rows, its columns and its cursor.
record Grid : Type 0 where
  rows : List Row
  cols : List Column
  place : ℤ

abbrev grid_widget : Widget Grid String
grid_widget = record {
  set_rows = λ rows t. record t { rows = rows };
  rows_of = λ t. t.rows;
  set_columns = λ cols t. record t { cols = cols };
  columns_of = λ t. t.cols;
  set_width = λ n t. t;
  set_height = λ n t. t;
  cursor = λ t. t.place;
  set_cursor = λ i t. record t { place = clamp i (length t.rows) };
  update = λ msg t. t;
}

grid-IsWidget : IsWidget grid_widget
grid-IsWidget = record {
  rows-set_rows = λ rows t. refl;
  columns-set_rows = λ rows t. refl;
  cursor-set_rows = λ rows t. refl;
  rows-set_columns = λ cols t. refl;
  columns-set_columns = λ cols t. refl;
  rows-set_height = λ n t. refl;
  columns-set_height = λ n t. refl;
  rows-set_cursor = λ i t. refl;
  columns-set_cursor = λ i t. refl;
  cursor-set_cursor = λ i t. refl;
}

abbrev model : Model Grid
model = record {
  table = record { rows = []; cols = image_columns; place = negsuc 0 };
  width = 80;
  height = 24;
  sort_field = sort_none;
  sort_desc = false;
  forwards = none;
  layout = none;
  rows = [];
}

abbrev one_row : List Row
one_row = ("nginx:1" ∷ "1 MB" ∷ "1d ago" ∷ "i1" ∷ []) ∷ []

set_rows_lem_example :
    (0 < 1
      → (i : ℕ) × (row : Row) × (get_elem? one_row i ≡ some row)
        × (grid_widget.cursor (set_rows grid_widget one_row model).table ≡ pos i)
        × (selected_row grid_widget (set_rows grid_widget one_row model) ≡ some row)
        × ((k : ℕ) → negsuc 0 ≡ pos k → k < 1 → i ≡ k))
    × (one_row ≡ [] → selected_row grid_widget (set_rows grid_widget one_row model) ≡ none)
set_rows_lem_example = set_rows_lem grid_widget grid-IsWidget one_row model

abbrev filled : Model Grid
filled = set_columns grid_widget image_columns (set_rows grid_widget one_row model)

filled-Shown : Shown grid_widget filled
unfolding project_columns project_row
filled-Shown = columns_set image_columns (rows_set one_row image_columns model refl (refl, tt))

table-IsRendered_example : IsRendered grid_widget filled
table-IsRendered_example = table-IsRendered grid_widget grid-IsWidget filled-Shown

abbrev web : Container
web = record {
  id = "c1";
  name = "web";
  image = "nginx";
  status = "Up";
  state = "running";
  health = "";
  ports = "";
  labels = [];
  networks = [];
}

abbrev db : Container
db = record {
  id = "c2";
  name = "db";
  image = "postgres";
  status = "Up";
  state = "running";
  health = "";
  ports = "";
  labels = [];
  networks = [];
}

abbrev figures : String → Option (ContainerStats ℕ)
figures id = none

sort_containers-IsSorted_example :
    Perm (sort_containers leb 0 figures sort_cpu true (web ∷ db ∷ [])) (web ∷ db ∷ [])
    × ((sort_cpu ≡ sort_none)
        ⊎ IsSorted
            (in_order leb 0 figures sort_cpu true)
            (sort_containers leb 0 figures sort_cpu true (web ∷ db ∷ [])))
sort_containers-IsSorted_example =
    sort_containers-IsSorted leb 0 figures leb-IsTotal leb-IsTransitive sort_cpu true
      (web ∷ db ∷ [])

truncate-count_example :
    (String.count (truncate "registry.local/nginx" 8) ≤ 8)
    × ((truncate "registry.local/nginx" 8 ≡ "registry.local/nginx")
        ⊎ (8 < String.count "registry.local/nginx")
        ⊎ (8 < 1))
truncate-count_example = truncate-count "registry.local/nginx" 8

truncated : truncate "registry.local/nginx" 8 ≡ "registr…"
unfolding truncate d9c.Base.split_at
truncated = refl

abbrev any_row : Matcher
any_row = record { terms = []; failure = none; need_net = false }

rows-IsRow_example :
    All
      (IsRow layout.containers ("c1" ∷ "c2" ∷ []))
      (containers_rows figures leb 0 any_row false none none model (web ∷ db ∷ []))
    × All (IsRow layout.images []) (image_rows any_row none [])
    × All (IsRow layout.networks []) (network_rows any_row [])
    × All (IsRow layout.volumes []) (volume_rows any_row [])
    × All (IsRow layout.hosts []) (host_rows any_row (λ url. none) [])
    × All (IsRow layout.compose []) (compose_rows any_row [])
rows-IsRow_example =
    rows-IsRow leb 0 figures any_row false none none model (λ url. none) (web ∷ db ∷ []) [] [] [] []
      []

abbrev read_only_compose : cmdline.Model
read_only_compose = record {
  value = "Ba";
  placeholder = "";
  last_err = "";
  resource = "compose";
  plugin_cmds = [];
  host_compose = true;
  read_only = true;
}

completed : (ghost read_only_compose).completion ≡ "ckup"
unfolding ghost fields d9c.Base.is_space cmdline.ends_in_space cmdline.complete commands
    cmdline.read_only_filter cmdline.builtin_commands cmdline.resource_cmds cmdline.mutating_cmds
    to_lower d9c.Base.has_prefix d9c.Base.drop_text
completed = refl

ghost_lem_example :
    (word : String) × (c : CmdDef) × (fields "Ba" ≡ word ∷ [])
    × (to_lower word <+> (ghost read_only_compose).completion ≡ c.name)
    × IsOffered read_only_compose c
    × All (λ d. (d.name == to_lower word) ≡ false) (commands read_only_compose)
unfolding ghost fields d9c.Base.is_space cmdline.ends_in_space cmdline.complete commands
    cmdline.read_only_filter cmdline.builtin_commands cmdline.resource_cmds cmdline.mutating_cmds
    to_lower d9c.Base.has_prefix d9c.Base.drop_text
ghost_lem_example = ghost_lem read_only_compose refl
