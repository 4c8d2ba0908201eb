-- ===== src/Ui/Logs/Synced.antt =====
-- What stays true of the log viewer: the matches are those of the buffer, and the buffer is bounded.
use d9c.Base.{
  ℕ, ◌≤◌, ◌≡◌, refl, inl, inr, Bool, true, false, not, ◌&&◌, String, Option, none, some, List,
  length, leb, ◌==◌, arith, Bool-cases, Option-cases, List-cases, get_elem?-lt,
}
use d9c.Ui.Logs.{
  max_buffer_lines, Widgets, Paint, Model, reset_search, set_size, open_log, show, add_lines,
  compute_matches, jump, recompute_matches, step_match, search_key, view_key, handle_key, update,
  jumped, aimed,
}
use d9c.Ui.Logs.Buffered.{
  IsSynced, Returns, show_lem, show-Returns, reset_search-IsSynced, follow-IsSynced,
  add_lines-Returns,
}

module _ {V I M : Type 0} (w : Widgets V I M) (p : Paint) where
  -- What a search has to know of the buffer.
  abbrev IsBuffered : Model V I → Type 0
  IsBuffered m = (length m.raw_lines ≤ max_buffer_lines) × (length m.lines ≡ length m.raw_lines)

  compute_matches-IsSynced :
      (m : Model V I) → IsBuffered m → m.match_idx ≡ 0 → IsSynced (compute_matches w p m)
  unfolding compute_matches
  compute_matches-IsSynced m b z = elim (Bool-cases (m.search_query == "")) [
    | inl none_sought ↦ rw none_sought ((rw none_sought, omega arith, b.0, b.1))
    | inr sought ↦ rw sought ((rw sought, ground arith, b.0, b.1))
  ]

  jump-IsSynced : (m : Model V I) → IsSynced m → IsSynced (jump w p m)
  unfolding jump
  jump-IsSynced m s = elim (List-cases m.matches) [
    | inl e ↦ rw (e, jump) s
    | inr (i, rest, e) ↦ rw (e, jump) s
  ]

  jumped-Returns : (o : Option (Model V I)) → Returns o → Returns (jumped w p o)
  jumped-Returns none r = r
  jumped-Returns (some m) r = jump-IsSynced m r

  recompute_matches-Returns : (m : Model V I) → IsBuffered m → Returns (recompute_matches w p m)
  unfolding recompute_matches
  recompute_matches-Returns m b =
      jumped-Returns _
        (show-Returns w p _ (compute_matches-IsSynced (record m { match_idx = 0 }) b refl))

  aimed-Returns :
      (m : Model V I) → IsSynced m → 1 ≤ length m.matches → Returns (aimed w p (show w p m))
  aimed-Returns m s some_match =
      let (content, e) = show_lem w p m s.1 s.3 in
      let (line, e') = get_elem?-lt m.matches m.match_idx (omega (arith, s.1)) in
      rw (e, e', Returns) s

  step_match-Returns :
      (forwards : Bool) (m : Model V I) → IsSynced m → Returns (step_match w p forwards m)
  unfolding step_match
  step_match-Returns forwards m s = elim (Bool-cases (leb (length m.matches) 0)) [
    | inl e ↦ rw (e, Returns) s
    | inr more ↦ rw more (aimed-Returns _ ((s.0, grind arith, s.2, s.3)) (ground arith))
  ]

  search_key-Returns :
      (key : String) (msg : M) (m : Model V I) → IsSynced m → Returns (search_key w p key msg m)
  unfolding search_key
  search_key-Returns key msg m s = elim (Bool-cases (key == "enter")) [
    | inl t ↦ rw (t, Returns) s
    | inr f ↦ elim (Bool-cases (key == "esc")) [
      | inl t ↦ let r = reset_search-IsSynced w p m s in rw (f, t) (show-Returns w p _ r)
      | inr g ↦ rw (f, g) (recompute_matches-Returns _ (s.2, s.3))
    ]
  ]

  view_key-Returns :
      (key : String) (msg : M) (m : Model V I) → IsSynced m → Returns (view_key w p key msg m)
  unfolding view_key
  view_key-Returns key msg m s = elim (Bool-cases (key == "/")) [
    | inl t ↦ rw (t, Returns) s
    | inr a ↦ elim (Bool-cases (key == "f")) [
      | inl t ↦
          rw (a, t, Returns) (follow-IsSynced w p (record m { auto_scroll = not m.auto_scroll }) s)
      | inr b ↦ elim (Bool-cases (key == "n")) [
        | inl t ↦ rw (a, b, t) (step_match-Returns true (record m { auto_scroll = false }) s)
        | inr c ↦ elim (Bool-cases (key == "N")) [
          | inl t ↦ rw (a, b, c, t) (step_match-Returns false (record m { auto_scroll = false }) s)
          | inr d ↦ elim (Bool-cases ((key == "esc") && not (m.search_query == ""))) [
            | inl t ↦
                rw (a, b, c, d, t)
                  (show-Returns w p (reset_search w p m) (reset_search-IsSynced w p m s))
            | inr e ↦ rw (a, b, c, d, e, Returns) s
          ]
        ]
      ]
    ]
  ]

  handle_key-Returns :
      (searching : Bool) (key : String) (msg : M) (m : Model V I)
      → IsSynced m
      → Returns (handle_key w p searching key msg m)
  unfolding handle_key
  handle_key-Returns true key msg m s = search_key-Returns key msg m s
  handle_key-Returns false key msg m s = view_key-Returns key msg m s

  update-Returns : (msg : M) (m : Model V I) → IsSynced m → Returns (update w p msg m)
  unfolding update
  update-Returns msg m s = elim (Option-cases (w.key msg)) [
    | inl e ↦ rw (e, update, Returns) s
    | inr (key, e) ↦ rw (e, update) (handle_key-Returns m.searching key msg m s)
  ]

  open_log-IsSynced : (id : String) (m : Model V I) → IsSynced (open_log w p id m)
  unfolding open_log reset_search
  open_log-IsSynced id m = (refl, omega arith, omega arith, refl)

  set_size-IsSynced :
      (width height : ℕ) (m : Model V I) → IsSynced m → IsSynced (set_size w p width height m)
  unfolding set_size
  set_size-IsSynced width height m s = s

  -- The states that opening logs, new sizes, batches of lines and messages lead to, in any order.
  pub data Reachable : Model V I → Type 0 where
    opened : (id : String) (m : Model V I) → Reachable (open_log w p id m)
    resized :
        {m : Model V I} (width height : ℕ) → Reachable m → Reachable (set_size w p width height m)
    added :
        {m m' : Model V I} (batch : List String)
        → Reachable m
        → add_lines w p batch m ≡ some m'
        → Reachable m'
    updated : {m m' : Model V I} (msg : M) → Reachable m → update w p msg m ≡ some m' → Reachable m'

  returned-IsSynced : (o : Option (Model V I)) {m : Model V I} → Returns o → o ≡ some m → IsSynced m
  returned-IsSynced o r e = rw e at r

  Reachable-IsSynced : {m : Model V I} → Reachable m → IsSynced m
  Reachable-IsSynced (opened id m) = open_log-IsSynced id m
  Reachable-IsSynced (resized width height r) =
      set_size-IsSynced width height _ (Reachable-IsSynced r)
  Reachable-IsSynced (added batch r e) =
      returned-IsSynced _ (add_lines-Returns w p batch _ (Reachable-IsSynced r)) e
  Reachable-IsSynced (updated msg r e) =
      returned-IsSynced _ (update-Returns msg _ (Reachable-IsSynced r)) e

-- In every state that opening logs, new sizes, batches of lines and messages lead to, the matches are exactly
-- the lines of the buffer that contain the query, as a new search would find them, the current match
-- is one of them, the buffer holds at most 10,000 lines, and every line has its drawn form; and the
-- next batch or message returns such a state again, without an index out of range.
pub logs-IsSynced :
    {V I M : Type 0} (w : Widgets V I M) (p : Paint) (m : Model V I) (batch : List String) (msg : M)
    → Reachable w p m
    → IsSynced m × Returns (add_lines w p batch m) × Returns (update w p msg m)
logs-IsSynced w p m batch msg r =
    let s = Reachable-IsSynced w p r in
    (s, add_lines-Returns w p batch m s, update-Returns w p msg m s)
