-- ===== src/Ui/Logs/Buffered.antt =====
-- logs.go: the matches stay those of the buffer when lines are added, and the buffer stays bounded.
use d9c.Base.{
  ℕ, suc, ◌-◌, ◌≤◌, ◌≡◌, refl, ap, inl, inr, false, String, Option, none, some, List, [], ◌∷◌, ◌++◌,
  map, length, drop, ltb, leb, if◌then◌else◌, ◌==◌, to_lower, join, any, eqb, arith, Bool-cases,
  List-cases, length-append, length-drop, get_elem?-lt,
}
use d9c.Ui.Logs.{
  max_buffer_lines, Widgets, Paint, Model, matching, shift, reset_search, trim_to_cap,
  shift_matches, append_matches, render_content, render_line, render_lines, show, follow, buffered,
  add_lines, followed,
}
use d9c.Ui.Logs.Matches.{matching-cut}

-- The matches are the lines that contain the query, the current match is one of them, the buffer is
-- within its bound, and every line has its drawn form.
abbrev pub IsSynced : {V I : Type 0} → Model V I → Type 0
IsSynced m =
    (m.matches
      ≡ (if m.search_query == "" then [] else matching (to_lower m.search_query) 0 m.raw_lines))
    × (m.match_idx ≤ length m.matches - 1)
    × (length m.raw_lines ≤ max_buffer_lines)
    × (length m.lines ≡ length m.raw_lines)

-- An operation returned, and left the viewer so.
abbrev pub Returns : {V I : Type 0} → Option (Model V I) → Type 0
Returns none = ⊥
Returns (some m) = IsSynced m

length-map : {A B : Type 0} (f : A → B) (xs : List A) → length (map f xs) ≡ length xs
length-map f [] = refl
length-map f (x ∷ xs) = ap suc (length-map f xs)

le_grown : (i : ℕ) (xs ys : List ℕ) → i ≤ length xs - 1 → i ≤ length (xs ++ ys) - 1
le_grown i xs ys h = omega (arith, length-append xs ys)

shift-zero : (ms : List ℕ) → shift 0 ms ≡ ms
unfolding shift
shift-zero [] = refl
shift-zero (i ∷ rest) =
    let no : ltb i 0 ≡ false = ground arith in
    let e : i - 0 ≡ i = omega arith in rw (no, e, shift-zero rest)

module _ {V I M : Type 0} (w : Widgets V I M) (p : Paint) where
  render_line_ends :
      (matches : List ℕ) (current width i : ℕ) (line r : String)
      → (shown : String) × (render_line w p matches current width i line (some r) ≡ some shown)
  unfolding render_line
  render_line_ends matches current width i line r = elim (Bool-cases (eqb i current)) [
    | inl t ↦ (p.match_current width r, rw t refl)
    | inr f ↦ elim (Bool-cases (any (λ j. eqb j i) matches)) [
      | inl t ↦ (p.match_line width r, rw (f, t) refl)
      | inr g ↦ (line, rw (f, g) refl)
    ]
  ]

  render_lines_ends :
      (matches : List ℕ) (current width i : ℕ) (lines raw : List String)
      → length lines ≡ length raw
      → (out : List String) × (render_lines w p matches current width i lines raw ≡ some out)
  unfolding render_lines
  render_lines_ends matches current width i [] raw h = ([], refl)
  render_lines_ends matches current width i (line ∷ lines) [] h = absurd (omega (arith, h))
  render_lines_ends matches current width i (line ∷ lines) (r ∷ raw) h =
      let (shown, e) = render_line_ends matches current width i line r in
      let (out, f) = render_lines_ends matches current width (suc i) lines raw (omega (arith, h)) in
      (shown ∷ out, rw (e, f, render_lines) refl)

  -- Drawing finds the current match in the list and a raw line for every line, so it does not panic.
  pub show_lem :
      (m : Model V I)
      → m.match_idx ≤ length m.matches - 1
      → length m.lines ≡ length m.raw_lines
      → (content : String) × (show w p m
          ≡ some (record m { viewport = w.set_content content m.viewport }))
  unfolding show render_content
  show_lem m c full = elim (Bool-cases (leb (length m.matches) 0)) [
    | inl e ↦ (join m.lines "\n", rw (e, show, render_content))
    | inr more ↦
        let (line, e) = get_elem?-lt m.matches m.match_idx (ground (arith, c)) in
        let (out, f) = render_lines_ends m.matches line m.width 0 m.lines m.raw_lines full in
        (join out "\n", rw (more, e, f, show, render_content))
  ]

  pub show-Returns : (m : Model V I) → IsSynced m → Returns (show w p m)
  show-Returns m s = let (content, e) = show_lem m s.1 s.3 in rw e s

  pub reset_search-IsSynced : (m : Model V I) → IsSynced m → IsSynced (reset_search w p m)
  unfolding reset_search
  reset_search-IsSynced m s = (refl, omega arith, s.2, s.3)

  trim_to_cap_lem :
      (m : Model V I)
      → (let n = length m.raw_lines - max_buffer_lines in
          trim_to_cap w p m
          ≡ (n, record m { lines = drop n m.lines; raw_lines = drop n m.raw_lines }))
  unfolding trim_to_cap
  trim_to_cap_lem m = elim (Bool-cases (leb (length m.raw_lines - max_buffer_lines) 0)) [
    | inl few ↦ let e : length m.raw_lines - max_buffer_lines ≡ 0 = ground arith in rw (few, e)
    | inr many ↦ rw many
  ]

  shift_matches_lem :
      (n : ℕ) (m : Model V I)
      → ((shift_matches w p n m).matches ≡ shift n m.matches)
        × ((shift_matches w p n m).raw_lines ≡ m.raw_lines)
        × ((shift_matches w p n m).lines ≡ m.lines)
        × ((shift_matches w p n m).search_query ≡ m.search_query)
        × (m.match_idx ≤ length m.matches - 1
            → (shift_matches w p n m).match_idx ≤ length (shift n m.matches) - 1)
  unfolding shift_matches shift
  shift_matches_lem n m = elim (Bool-cases (leb n 0)) [
    | inl none_cut ↦
        let z : n ≡ 0 = ground arith in
        rw (none_cut, z, shift-zero m.matches) (refl, refl, refl, refl, λ h. h)
    | inr cut ↦ elim (List-cases m.matches) [
      | inl e ↦ rw (cut, e) (refl, refl, refl, refl, λ h. h)
      | inr (i, rest, e) ↦
          let many : leb (length m.matches) 0 ≡ false = ground arith in
          rw (cut, many) (refl, refl, refl, refl, λ h. ground arith)
    ]
  ]

  buffered-IsSynced :
      (batch : List String) (m : Model V I) → IsSynced m → IsSynced (buffered w p batch m)
  unfolding buffered append_matches
  buffered-IsSynced batch m s =
      let added : Model V I = record m {
        lines = m.lines ++ map p.colorize batch;
        raw_lines = m.raw_lines ++ batch;
      } in
      let n = length (m.raw_lines ++ batch) - max_buffer_lines in
      let cut : Model V I = record added {
        lines = drop n added.lines;
        raw_lines = drop n added.raw_lines;
      } in
      let (kept, raw, lines, query, idx) = shift_matches_lem n cut in
      let full : length (drop n added.lines) ≡ length (drop n added.raw_lines) = omega (
        arith,
        length-drop n added.lines,
        length-drop n added.raw_lines,
        length-append m.lines (map p.colorize batch),
        length-append m.raw_lines batch,
        length-map p.colorize batch,
        s.3,
      ) in
      rw (trim_to_cap_lem added) (elim (Bool-cases (m.search_query == "")) [
        | inl none_sought ↦ rw none_sought (
            (
              rw none_sought (rw none_sought at s.0),
              s.1,
              omega (arith, length-drop n added.raw_lines),
              full,
            ))
        | inr sought ↦ rw sought (
            (
              rw (query, sought, kept, raw)
                  (rw (rw sought at s.0)
                    (matching-cut n (to_lower m.search_query) m.raw_lines batch)),
              le_grown (shift_matches w p n cut).match_idx (shift_matches w p n cut).matches _
                  (rw kept (idx s.1)),
              rw raw (omega (arith, length-drop n added.raw_lines)),
              rw (raw, lines) full,
            ))
      ])

  pub follow-IsSynced : (m : Model V I) → IsSynced m → IsSynced (follow w p m)
  unfolding follow
  follow-IsSynced m s = elim (Bool-cases m.auto_scroll) [ inl t ↦ rw t s | inr f ↦ rw f s ]

  followed-Returns : (o : Option (Model V I)) → Returns o → Returns (followed w p o)
  followed-Returns none r = r
  followed-Returns (some m) r = follow-IsSynced m r

  pub add_lines-Returns :
      (batch : List String) (m : Model V I) → IsSynced m → Returns (add_lines w p batch m)
  unfolding add_lines
  add_lines-Returns [] m s = s
  add_lines-Returns (line ∷ batch) m s =
      followed-Returns _ (show-Returns _ (buffered-IsSynced (line ∷ batch) m s))
