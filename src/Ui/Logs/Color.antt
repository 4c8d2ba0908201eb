-- ===== src/Ui/Logs/Color.antt =====
-- logs.go: the colours of a line. Positions in a text count its characters.
use Prim.Native.String
use d9c.Base.{
  ℕ, Bool, false, not, ◌&&◌, ◌||◌, String, code, Option, none, some, List, [], ◌∷◌, any, find_first,
  leb, eqb, if◌then◌else◌, ◌==◌, ◌<+>◌, cut, to_upper, split_first, split_at,
}
use Prim.Native.String.{char_at}

pub data Style : Type 0 where
  badge_error badge_warn badge_info badge_debug : Style
  line_error line_warn line_info line_debug : Style
  timestamp : Style

-- levelDef
pub record Level : Type 0 where
  pub words : List String
  pub badge : Style
  pub line : Style

abbrev pub levels : List Level
levels =
    record {
      words = "ERROR" ∷ "FATAL" ∷ "PANIC" ∷ "CRITICAL" ∷ "CRIT" ∷ "ERR" ∷ [];
      badge = badge_error;
      line = line_error;
    }
    ∷ record { words = "WARN" ∷ "WARNING" ∷ []; badge = badge_warn; line = line_warn }
    ∷ record {
      words = "INFO" ∷ "INFORMATION" ∷ "NOTICE" ∷ [];
      badge = badge_info;
      line = line_info;
    }
    ∷ record { words = "DEBUG" ∷ "TRACE" ∷ "VERBOSE" ∷ []; badge = badge_debug; line = line_debug }
    ∷ []

-- splitTimestamp
unfoldable pub split_timestamp : String → String × String
split_timestamp line =
    let (ts, rest) = cut line " " in
    elim rest [
      | none ↦ ("", line)
      | some content ↦
          if leb 19 (String.count ts)
            && eqb (code (char_at ts 4)) b'-'
            && eqb (code (char_at ts 7)) b'-'
            && eqb (code (char_at ts 10)) b'T'
          then (ts, content)
          else ("", line)
    ]

is_letter : ℕ → Bool
is_letter c = (leb b'A' c && leb c b'Z') || (leb b'a' c && leb c b'z')

ends_in_letter : String → Bool
unfolding is_letter
ends_in_letter String.[] = false
ends_in_letter (String.◌∷◌ c s) = if s == "" then is_letter (code c) else ends_in_letter s

starts_with_letter : String → Bool
unfolding is_letter
starts_with_letter String.[] = false
starts_with_letter (String.◌∷◌ c s) = is_letter (code c)

-- wordIn, which looks at the first occurrence only.
unfoldable pub word_in : String → String → Bool
unfolding ends_in_letter starts_with_letter
word_in s word = elim (split_first s word) [
  | none ↦ false
  | some (before, after) ↦ not (ends_in_letter before) && not (starts_with_letter after)
]

-- matchLevel
unfoldable pub match_level : String → Option Level
match_level content = find_first (λ lv. any (word_in (to_upper content)) lv.words) levels

-- lipgloss.Style.Render
module _ (render : Style → String → String) where
  around : Level → String → String → String → String
  around lv before word after =
      render lv.line before <+> render lv.badge word <+> render lv.line after

  -- The loop of highlightLevel over the level's words.
  unfoldable pub highlight_words : Level → String → List String → String
  unfolding around
  highlight_words lv content [] = render lv.line content
  highlight_words lv content (word ∷ words) =
      let rest = highlight_words lv content words in
      elim (split_first (to_upper content) word) [
        | none ↦ rest
        | some (before, _) ↦
            if word_in (to_upper content) word
            then (let (head, tail) = split_at (String.count before) content in
                let (found, after) = split_at (String.count word) tail in
                around lv head found after)
            else rest
      ]

  -- highlightLevel
  unfoldable pub highlight_level : String → Level → String
  highlight_level content lv =
      if eqb (String.count (to_upper content)) (String.count content)
      then highlight_words lv content lv.words
      else render lv.line content

  -- colorizeLogLine
  unfoldable pub colorize_log_line : String → String
  colorize_log_line line =
      if line == ""
      then line
      else (let (ts, content) = split_timestamp line in
          (if ts == "" then "" else render timestamp ts <+> " ") <+> elim (match_level content) [
            | some lv ↦ highlight_level content lv
            | none ↦ render line_info content
          ])
