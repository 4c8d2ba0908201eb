-- ===== src/Agent/Tier.antt =====
-- tier.go: the safety classes of operations.
use d9c.Base.{◌<+>◌, ◌==◌, if◌then◌else◌, ◌&&◌, Bool, String, Result, ok, err, quote}
use d9c.Base.Int.{ℤ, pos, leb_ℤ, show_int}

-- `type Tier int`: any integer, of which three are declared.
abbrev pub Tier : Type 0
Tier = ℤ

abbrev pub tier_read : Tier
tier_read = pos 0

abbrev pub tier_safe : Tier
tier_safe = pos 1

abbrev pub tier_destructive : Tier
tier_destructive = pos 2

unfoldable pub valid : Tier → Bool
valid t = leb_ℤ tier_read t && leb_ℤ t tier_destructive

tier_names : Tier → String
tier_names (pos n) =
    if leb_ℤ (pos n) tier_read
    then "read"
    else if leb_ℤ (pos n) tier_safe
    then "safe"
    else "destructive"
tier_names _ = ""

-- Tier.String
unfoldable pub tier_string : Tier → String
unfolding valid tier_names show_int
tier_string t = if valid t then tier_names t else "tier(" <+> show_int t <+> ")"

-- t.Allows(op)
unfoldable pub allows : Tier → Tier → Bool
unfolding valid
allows t op = valid op && leb_ℤ op t

-- The loop over the names of the tiers.
unfoldable pub parse_tier : String → Result String Tier
unfolding quote
parse_tier s =
    if s == "read"
    then ok tier_read
    else if s == "safe"
    then ok tier_safe
    else if s == "destructive"
    then ok tier_destructive
    else err ("unknown tier " <+> quote s <+> " (want read, safe or destructive)")

-- Tier.MarshalText
unfoldable pub marshal_text : Tier → Result String String
unfolding tier_string
marshal_text t = if valid t then ok (tier_string t) else err ("invalid tier " <+> show_int t)

-- Tier.UnmarshalText: the new value of the receiver, or the error that leaves it alone.
unfoldable pub unmarshal_text : String → Result String Tier
unfolding parse_tier
unmarshal_text b = parse_tier b
