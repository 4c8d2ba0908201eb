-- ===== src/Hosts/Store/Names.antt =====
-- uniqueName ends, with a name that no host has.
use text.Mathlib.TextLemmas.{append_cancel_left, append-nil, cons-append, nil≢cons}
use d9c.Base.{
  ℕ, zero, suc, ◌+◌, ◌≤◌, ◌<◌, ◌≡◌, refl, ap, ◌∙◌, ◌≢◌, inl, inr, Bool, true, false, String, none,
  some, List, [], ◌∷◌, ◌<+>◌, ◌==◌, if◌then◌else◌, decimal, length, arith, eq_iff, Option-cases,
}
use d9c.Base.Text.Decimal.{decimal_injective}
use d9c.Hosts.{Host}
use d9c.Hosts.Store.{find, candidate, first_free, unique_name}

-- Occurrences of a text.
has : List String → String → Bool
has [] s = false
has (t ∷ l) s = if t == s then true else has l s

without : List String → String → List String
without [] s = []
without (t ∷ l) s = let rest = without l s in if t == s then rest else t ∷ rest

length-without-le : (l : List String) (s : String) → length (without l s) ≤ length l
unfolding without
length-without-le [] s = omega arith
length-without-le (t ∷ l) s = ground (arith, length-without-le l s)

length-without_lt :
    (l : List String) (s : String) → has l s ≡ true → length (without l s) < length l
unfolding has without
length-without_lt [] s h = cc
length-without_lt (t ∷ l) s h = ground (arith, length-without-le l s, length-without_lt l s)

has-without_ne :
    (l : List String) (s u : String) → s ≢ u → has l u ≡ true → has (without l s) u ≡ true
unfolding has without
has-without_ne [] s u n h = h
has-without_ne (t ∷ l) s u n h =
    ground (arith, has-without_ne l s u n, eq_iff t s, eq_iff t u, eq_iff s u)

suffix_injective :
    (m n : ℕ) (base : String) → base <+> "-" <+> decimal m ≡ base <+> "-" <+> decimal n → m ≡ n
suffix_injective m n base h = decimal_injective m n (
    append_cancel_left "-" (decimal m) (decimal n)
      (append_cancel_left base ("-" <+> decimal m) ("-" <+> decimal n) h))

suffix_ne : (n : ℕ) (base : String) → base ≢ base <+> "-" <+> decimal n
suffix_ne n base h = nil≢cons (
    append_cancel_left base "" ("-" <+> decimal n) (append-nil base ∙ h)
    ∙ cons-append _ "" (decimal n))

candidate_ne : (base : String) (i j : ℕ) → i < j → candidate base i ≢ candidate base j
unfolding candidate
candidate_ne base i zero h e = elim h [ ]
candidate_ne base zero (suc j) h e = suffix_ne (j + 2) base e
candidate_ne base (suc i) (suc j) h e =
    absurd (omega (arith, suffix_injective (i + 2) (j + 2) base e))

-- Every candidate from the i-th on that a host has stands in the list.
abbrev Covers : List String → List Host → String → ℕ → Type 0
Covers l hosts base i =
    (j : ℕ) (h : Host)
    → i ≤ j
    → find hosts (candidate base j) ≡ some h
    → has l (candidate base j) ≡ true

Covers-without :
    (l : List String) (hosts : List Host) (base : String) (i : ℕ)
    → Covers l hosts base i
    → Covers (without l (candidate base i)) hosts base (suc i)
Covers-without l hosts base i c j h le e =
    has-without_ne l (candidate base i) (candidate base j) (candidate_ne base i j le)
      (c j h (omega arith) e)

first_free_lem :
    (fuel i : ℕ) (l : List String) (hosts : List Host) (base : String)
    → length l < fuel
    → Covers l hosts base i
    → (n : String) × (first_free fuel hosts base i ≡ some n) × (find hosts n ≡ none)
unfolding first_free
first_free_lem zero i l hosts base h c = elim h [ ]
first_free_lem (suc fuel) i l hosts base h c = elim (Option-cases (find hosts (candidate base i))) [
  | inl e ↦ (candidate base i, rw (e, first_free), e)
  | inr (host, e) ↦
      let (n, found, free) =
        first_free_lem fuel (suc i) (without l (candidate base i)) hosts base
          (omega (arith, length-without_lt l (candidate base i) (c i host (omega arith) e)))
          (Covers-without l hosts base i c) in
      (n, rw (e, first_free) found, free)
]

names_of : List Host → List String
names_of [] = []
names_of (h ∷ rest) = h.name ∷ names_of rest

length-names_of : (hosts : List Host) → length (names_of hosts) ≡ length hosts
unfolding names_of
length-names_of [] = refl
length-names_of (h ∷ rest) = ap suc (length-names_of rest)

find-names_of :
    (hosts : List Host) (n : String) (h : Host)
    → find hosts n ≡ some h
    → has (names_of hosts) n ≡ true
unfolding find has names_of
find-names_of [] n h e = cc
find-names_of (x ∷ rest) n h e = ground (arith, find-names_of rest n h)

-- The loop of uniqueName ends for every store and base, within one round more than there are hosts,
-- and the name that it returns is no host's.
pub unique_name_free :
    (hosts : List Host) (base : String)
    → (n : String) × (unique_name hosts base ≡ some n) × (find hosts n ≡ none)
unfolding unique_name
unique_name_free hosts base =
    first_free_lem (suc (length hosts)) 0 (names_of hosts) hosts
      (if base == "" then "host" else base) (omega (arith, length-names_of hosts))
      (λ j h le e. find-names_of hosts _ h e)
