-- ===== src/Base/Text.antt =====
-- Go's `strings` and `fmt` as far as the program uses them. A text is its code points; the case
-- mappings are those of ASCII.
pub mod Decimal
pub mod Trim
use Prim.Native.Nat.{ℕ, zero, suc, ◌-◌, ◌/◌, ◌%◌}
use Prim.Native.Char.{Char, code}
use Prim.Native.String
use Prim.Native.String.append
use Prim.Native.String.count
use Prim.Native.Nat.{◌≤◌}
use native.Mathlib.Omega.{arith}
use mathlib.Core.Path.{◌≡◌, refl, ap, sym}
use Prim.Native.String.{String, [], ◌∷◌, char_at}
use mathlib.Core.Bool.{Bool, true, false, ◌&&◌, ◌||◌}
use mathlib.Core.List.{List}
use mathlib.Core.Option.{Option, none, some}
use text.Mathlib.Text.{◌==◌}
use d9c.Base.Tests.{ltb, leb, eqb, if◌then◌else◌}

infixr 66 ◌<+>◌
abbrev pub ◌<+>◌ : String → String → String
s <+> t = String.◌++◌ s t

-- strings.HasPrefix
unfoldable pub has_prefix : String → String → Bool
has_prefix s [] = true
has_prefix [] (d ∷ t) = false
has_prefix (c ∷ s) (d ∷ t) = eqb (code c) (code d) && has_prefix s t

-- What follows a prefix of the given text's length.
unfoldable pub drop_text : String → String → String
drop_text s [] = s
drop_text [] (d ∷ t) = []
drop_text (c ∷ s) (d ∷ t) = drop_text s t

-- strings.TrimPrefix
unfoldable pub trim_prefix : String → String → String
unfolding has_prefix drop_text
trim_prefix s t = if has_prefix s t then drop_text s t else s

-- strings.Contains
unfoldable pub contains : String → String → Bool
unfolding has_prefix
contains [] t = has_prefix [] t
contains (c ∷ s) t = has_prefix (c ∷ s) t || contains s t

-- strings.Cut at a separator of one character: what stands before it, and what follows if it is
-- found.
unfoldable pub cut : String → Char → String × Option String
cut [] sep = ([], none)
cut (c ∷ s) sep =
    let (before, after) = cut s sep in
    if eqb (code c) (code sep) then ([], some s) else (c ∷ before, after)

-- What follows the last separator, with what stands before it.
unfoldable pub cut_last : String → Char → Option (String × String)
cut_last [] sep = none
cut_last (c ∷ s) sep = elim (cut_last s sep) [
  | some (before, after) ↦ some (c ∷ before, after)
  | none ↦ if eqb (code c) (code sep) then some ([], s) else none
]

-- The text before and behind the first occurrence of another.
unfoldable pub split_first : String → String → Option (String × String)
unfolding has_prefix drop_text
split_first [] t = if has_prefix [] t then some ([], []) else none
split_first (c ∷ s) t =
    let rest = split_first s t in
    if has_prefix (c ∷ s) t
    then some ([], drop_text (c ∷ s) t)
    else elim rest [ none ↦ none | some (before, after) ↦ some (c ∷ before, after) ]

-- The first n characters, and those behind them.
unfoldable pub split_at : ℕ → String → String × String
split_at zero s = ([], s)
split_at (suc n) [] = ([], [])
split_at (suc n) (c ∷ s) = let (before, after) = split_at n s in (c ∷ before, after)

abbrev pub upper_letters : String
upper_letters = "ABCDEFGHIJKLMNOPQRSTUVWXYZ"

abbrev pub lower_letters : String
lower_letters = "abcdefghijklmnopqrstuvwxyz"

unfoldable pub to_lower : String → String
to_lower [] = []
to_lower (c ∷ s) =
    (if leb b'A' (code c) && leb (code c) b'Z' then char_at lower_letters (code c - b'A') else c)
    ∷ to_lower s

unfoldable pub to_upper : String → String
to_upper [] = []
to_upper (c ∷ s) =
    (if leb b'a' (code c) && leb (code c) b'z' then char_at upper_letters (code c - b'a') else c)
    ∷ to_upper s

-- strings.EqualFold
unfoldable pub equal_fold : String → String → Bool
unfolding to_lower
equal_fold s t = to_lower s == to_lower t

-- unicode.IsSpace
unfoldable pub is_space : ℕ → Bool
is_space c =
    (leb 9 c && leb c 13)
    || eqb c 32
    || eqb c 133
    || eqb c 160
    || eqb c 5760
    || (leb 8192 c && leb c 8202)
    || eqb c 8232
    || eqb c 8233
    || eqb c 8239
    || eqb c 8287
    || eqb c 12288

unfoldable pub trim_left : String → String
trim_left [] = []
trim_left (c ∷ s) = if is_space (code c) then trim_left s else c ∷ s

-- The text without the white space at its end.
unfoldable pub trim_right : String → String
trim_right [] = []
trim_right (c ∷ s) =
    let rest = trim_right s in if is_space (code c) && rest == "" then [] else c ∷ rest

-- strings.TrimSpace
unfoldable pub trim_space : String → String
trim_space s = trim_right (trim_left s)

-- The text up to a space and the fields behind it.
split_fields : String → String × List String
split_fields [] = ("", List.[])
split_fields (c ∷ s) =
    let (word, rest) = split_fields s in
    if is_space (code c)
    then ("", if word == "" then rest else List.◌∷◌ word rest)
    else (c ∷ word, rest)

-- strings.Fields
unfoldable pub fields : String → List String
unfolding split_fields
fields s = let (word, rest) = split_fields s in if word == "" then rest else List.◌∷◌ word rest

-- strings.Join
unfoldable pub join : List String → String → String
join List.[] sep = ""
join (List.◌∷◌ s List.[]) sep = s
join (List.◌∷◌ s (List.◌∷◌ t rest)) sep = s <+> sep <+> join (List.◌∷◌ t rest) sep

-- strings.ReplaceAll by the empty text, on fuel: each round consumes a character.
unfoldable pub delete_fuel : ℕ → String → String → String
unfolding has_prefix drop_text
delete_fuel zero s t = s
delete_fuel (suc f) [] t = []
delete_fuel (suc f) (c ∷ s) t =
    let found = delete_fuel f (drop_text (c ∷ s) t) t in
    let kept = c ∷ delete_fuel f s t in if has_prefix (c ∷ s) t then found else kept

unfoldable pub delete_all : String → String → String
unfolding delete_fuel
delete_all s t = delete_fuel (suc (String.count s)) s t

-- strings.Replace(s, old, new, 1)
unfoldable pub replace_first : String → String → String → String
unfolding has_prefix drop_text
replace_first [] old new = if old == "" then new else []
replace_first (c ∷ s) old new =
    if has_prefix (c ∷ s) old then new <+> drop_text (c ∷ s) old else c ∷ replace_first s old new

digit : ℕ → Char
digit n = char_at "0123456789" n

decimal_fuel : ℕ → ℕ → String → String
unfolding digit
decimal_fuel zero n acc = acc
decimal_fuel (suc f) n acc =
    let more = decimal_fuel f (n / 10) (digit (n % 10) ∷ acc) in
    if ltb n 10 then digit n ∷ acc else more

-- %d of a number that is not negative.
unfoldable pub decimal : ℕ → String
unfolding decimal_fuel
decimal n = decimal_fuel (suc n) n []

escaped : Char → String
escaped c =
    if eqb (code c) b'"'
    then "\\\""
    else if eqb (code c) 92
    then "\\\\"
    else if eqb (code c) 10
    then "\\n"
    else if eqb (code c) 9
    then "\\t"
    else if eqb (code c) 13
    then "\\r"
    else c ∷ []

quoted : String → String
unfolding escaped
quoted [] = "\""
quoted (c ∷ s) = escaped c <+> quoted s

-- %q of a text that is printable but for the escapes of `escaped`.
unfoldable pub quote : String → String
unfolding quoted
quote s = "\"" <+> quoted s

count-cons : (c : Char) (s : String) → String.count (c ∷ s) ≡ suc (String.count s)
count-cons c s = count.cons c s

-- A prefix is decided by the first of two texts if that is long enough.
pub has_prefix-append :
    (s t q : String) → String.count q ≤ String.count s → has_prefix (s <+> t) q ≡ has_prefix s q
unfolding has_prefix
has_prefix-append [] t [] h = refl
has_prefix-append [] t (d ∷ q) h = absurd (omega (arith, count-cons d q))
has_prefix-append (c ∷ s) t [] h = refl
has_prefix-append (c ∷ s) t (d ∷ q) h = rw (append.cons c s t) (
    ap (λ b. eqb (code c) (code d) && b)
      (has_prefix-append s t q (omega (arith, count-cons c s, count-cons d q))))
