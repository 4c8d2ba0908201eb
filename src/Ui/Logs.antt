-- ===== src/Ui/Logs.antt =====
-- internal/ui/logs/logs.go: the log viewer. An operation that may index out of range, where Go
-- panics, returns `none` then.
pub mod Buffered
pub mod Color
pub mod Matches
pub mod Synced
use d9c.Base.{
  ◌≡◌, ℕ, zero, suc, ◌+◌, ◌-◌, ◌%◌, Bool, true, false, not, ◌&&◌, ◌||◌, String, Option, none, some,
  List, [], ◌∷◌, ◌++◌, map, any, length, drop, get_elem?, keep, ltb, leb, eqb, if◌then◌else◌, ◌==◌,
  contains, to_lower, join,
}

abbrev pub max_buffer_lines : ℕ
max_buffer_lines = 10000

-- The widgets of package bubbles: a viewport V, a text input I and the messages M; `key` is the text
-- of a message that is a key press.
pub record Widgets (V I M : Type 0) : Type 0 where
  pub set_size : ℕ → ℕ → V → V
  pub set_content : String → V → V
  pub goto_top : V → V
  pub goto_bottom : V → V
  pub set_y_offset : ℕ → V → V
  pub update_viewport : M → V → V
  pub reset_input : I → I
  pub focus_input : I → I
  pub update_input : M → I → I
  pub input_value : I → String
  pub key : M → Option String

-- How a line is drawn: in the colours of its level, and as a match.
pub record Paint : Type 0 where
  pub colorize : String → String
  pub match_line : ℕ → String → String
  pub match_current : ℕ → String → String

pub record Model (V I : Type 0) : Type 0 where
  pub viewport : V
  pub lines : List String
  pub raw_lines : List String
  pub container_id : String
  pub auto_scroll : Bool
  pub width : ℕ
  pub height : ℕ
  pub searching : Bool
  pub search_input : I
  pub search_query : String
  pub matches : List ℕ
  pub match_idx : ℕ

-- Model.vpHeight
unfoldable pub vp_height : {V I : Type 0} → Model V I → ℕ
vp_height m = let h = m.height - 1 - (if m.searching then 1 else 0) in if ltb h 1 then 1 else h

-- The indices from i on of the lines that contain a query in lower case.
unfoldable pub matching : String → ℕ → List String → List ℕ
matching q i [] = []
matching q i (line ∷ rest) =
    let others = matching q (suc i) rest in
    if contains (to_lower line) q then i ∷ others else others

-- The loop of shiftMatches: the indices that stay, less n.
unfoldable pub shift : ℕ → List ℕ → List ℕ
shift n [] = []
shift n (i ∷ rest) = let others = shift n rest in if ltb i n then others else (i - n) ∷ others

module _ {V I M : Type 0} (w : Widgets V I M) (p : Paint) where
  -- Model.SetSize
  unfoldable pub set_size : ℕ → ℕ → Model V I → Model V I
  set_size width height m =
      let m' = record m { width = width; height = height } in
      record m' { viewport = w.set_size width (vp_height m') m.viewport }

  -- Model.resetSearch
  unfoldable pub reset_search : Model V I → Model V I
  reset_search m = record m {
    searching = false;
    search_query = "";
    search_input = w.reset_input m.search_input;
    matches = [];
    match_idx = 0;
  }

  -- Model.Open
  unfoldable pub open_log : String → Model V I → Model V I
  open_log id m = reset_search (record m {
    container_id = id;
    lines = [];
    raw_lines = [];
    auto_scroll = true;
    viewport = w.goto_top (w.set_content "" m.viewport);
  })

  -- Model.trimToCap: how many lines were dropped.
  unfoldable pub trim_to_cap : Model V I → ℕ × Model V I
  trim_to_cap m =
      let over = length m.raw_lines - max_buffer_lines in
      if leb over 0
      then (0, m)
      else (over, record m { lines = drop over m.lines; raw_lines = drop over m.raw_lines })

  -- Model.shiftMatches
  unfoldable pub shift_matches : ℕ → Model V I → Model V I
  shift_matches n m =
      if leb n 0 || leb (length m.matches) 0
      then m
      else (let kept = shift n m.matches in
          let dropped = length (keep (λ i. ltb i n) m.matches) in
          let idx = m.match_idx - dropped in
          record m { matches = kept; match_idx = if leb (length kept) idx then 0 else idx })

  -- Model.appendMatches
  unfoldable pub append_matches : ℕ → Model V I → Model V I
  append_matches from m = record m {
    matches = m.matches ++ matching (to_lower m.search_query) from (drop from m.raw_lines);
  }

  -- One round of the loop of renderContent, with the raw line of the index if there is one.
  unfoldable pub render_line : List ℕ → ℕ → ℕ → ℕ → String → Option String → Option String
  render_line matches current width i line raw =
      if eqb i current
      then elim raw [ none ↦ none | some r ↦ some (p.match_current width r) ]
      else if any (λ j. eqb j i) matches
      then elim raw [ none ↦ none | some r ↦ some (p.match_line width r) ]
      else some line

  -- The loop of renderContent from the i-th line on.
  unfoldable pub render_lines :
      List ℕ → ℕ → ℕ → ℕ → List String → List String → Option (List String)
  render_lines matches current width i [] raw = some []
  render_lines matches current width i (line ∷ lines) [] =
      elim (render_line matches current width i line none) [
        | none ↦ none
        | some shown ↦ elim (render_lines matches current width (suc i) lines []) [
          | none ↦ none
          | some out ↦ some (shown ∷ out)
        ]
      ]
  render_lines matches current width i (line ∷ lines) (r ∷ raw) =
      elim (render_line matches current width i line (some r)) [
        | none ↦ none
        | some shown ↦ elim (render_lines matches current width (suc i) lines raw) [
          | none ↦ none
          | some out ↦ some (shown ∷ out)
        ]
      ]

  -- Model.renderContent
  unfoldable pub render_content : Model V I → Option String
  render_content m =
      if leb (length m.matches) 0
      then some (join m.lines "\n")
      else elim (get_elem? m.matches m.match_idx) [
        | none ↦ none
        | some current ↦ elim (render_lines m.matches current m.width 0 m.lines m.raw_lines) [
          | none ↦ none
          | some out ↦ some (join out "\n")
        ]
      ]

  -- m.viewport.SetContent(m.renderContent())
  unfoldable pub show : Model V I → Option (Model V I)
  show m = elim (render_content m) [
    | none ↦ none
    | some text ↦ some (record m { viewport = w.set_content text m.viewport })
  ]

  unfoldable pub follow : Model V I → Model V I
  follow m = if m.auto_scroll then record m { viewport = w.goto_bottom m.viewport } else m

  abbrev pub followed : Option (Model V I) → Option (Model V I)
  followed none = none
  followed (some m) = some (follow m)

  -- The buffer and the matches after a batch that is not empty.
  unfoldable pub buffered : List String → Model V I → Model V I
  buffered batch m =
      let added = record m {
        lines = m.lines ++ map p.colorize batch;
        raw_lines = m.raw_lines ++ batch;
      } in
      let (trimmed, m') = trim_to_cap added in
      if m'.search_query == ""
      then m'
      else append_matches (length m.raw_lines - trimmed) (shift_matches trimmed m')

  -- Model.AddLines
  unfoldable pub add_lines : List String → Model V I → Option (Model V I)
  add_lines [] m = some m
  add_lines (line ∷ batch) m = followed (show (buffered (line ∷ batch) m))

  -- Model.computeMatches
  unfoldable pub compute_matches : Model V I → Model V I
  compute_matches m =
      if m.search_query == ""
      then record m { matches = [] }
      else (let found = matching (to_lower m.search_query) 0 m.raw_lines in
          record m {
            matches = found;
            match_idx = if leb (length found) m.match_idx then 0 else m.match_idx;
          })

  -- The end of recomputeMatches.
  unfoldable pub jump : Model V I → Model V I
  jump m = elim m.matches [
    | [] ↦ m
    | first ∷ _ ↦ record m { auto_scroll = false; viewport = w.set_y_offset first m.viewport }
  ]

  abbrev pub jumped : Option (Model V I) → Option (Model V I)
  jumped none = none
  jumped (some m) = some (jump m)

  -- Model.recomputeMatches
  unfoldable pub recompute_matches : Model V I → Option (Model V I)
  recompute_matches m = jumped (show (compute_matches (record m { match_idx = 0 })))

  -- The end of stepMatch: the view is moved to the current match.
  abbrev pub aimed : Option (Model V I) → Option (Model V I)
  aimed none = none
  aimed (some m) = elim (get_elem? m.matches m.match_idx) [
    | none ↦ none
    | some line ↦ some (record m { viewport = w.set_y_offset line m.viewport })
  ]

  -- Model.stepMatch, forwards or backwards
  unfoldable pub step_match : Bool → Model V I → Option (Model V I)
  step_match forwards m =
      let n = length m.matches in
      if leb n 0
      then some m
      else aimed (
          show (record m {
            match_idx = (if forwards then m.match_idx + 1 + n else m.match_idx + n - 1) % n;
          }))

  abbrev pub resized : Model V I → Model V I
  resized m = record m { viewport = w.set_size m.width (vp_height m) m.viewport }

  -- A key while the search input has the focus.
  unfoldable pub search_key : String → M → Model V I → Option (Model V I)
  search_key key msg m =
      if key == "enter"
      then some (resized (record m { searching = false }))
      else if key == "esc"
      then show (resized (reset_search m))
      else (let input = w.update_input msg m.search_input in
          recompute_matches (record m { search_input = input; search_query = w.input_value input }))

  abbrev pub scrolled : M → Model V I → Model V I
  scrolled msg m = record m { auto_scroll = false; viewport = w.update_viewport msg m.viewport }

  -- A key otherwise.
  unfoldable pub view_key : String → M → Model V I → Option (Model V I)
  view_key key msg m =
      if key == "/"
      then some
          (resized (record m { searching = true; search_input = w.focus_input m.search_input }))
      else if key == "f"
      then some (follow (record m { auto_scroll = not m.auto_scroll }))
      else if key == "n"
      then step_match true (record m { auto_scroll = false })
      else if key == "N"
      then step_match false (record m { auto_scroll = false })
      else if (key == "esc") && not (m.search_query == "")
      then show (reset_search m)
      else some (scrolled msg m)

  -- Model.handleKey: whether the search input has the focus.
  unfoldable pub handle_key : Bool → String → M → Model V I → Option (Model V I)
  handle_key true key msg m = search_key key msg m
  handle_key false key msg m = view_key key msg m

  -- Model.Update
  unfoldable pub update : M → Model V I → Option (Model V I)
  update msg m = elim (w.key msg) [
    | none ↦ some (record m { viewport = w.update_viewport msg m.viewport })
    | some key ↦ handle_key m.searching key msg m
  ]
