-- ===== src/Filter/Compiled.antt =====
-- The compiled queries against their terms: the flag, the cache and the lowering change nothing.
use d9c.Base.{
  ◌≡◌, refl, sym, ap, ◌∙◌, inl, inr, ◌&&◌, ◌||◌, Bool, true, false, String, none, some, List, map,
  any, all, length, leb, ltb, to_lower, contains, equal_fold, Result, ok, err, ◌>>=◌, Result-cases,
  Bool-cases, List-cases, suc, arith, if◌then◌else◌, ◌==◌, eq_iff,
}
use mathlib.Core.List.{[], ◌∷◌, ◌++◌}
use d9c.Filter.{
  Target, Term, text, regex, status, label, network, Matcher, fields, is_network, with_term, Cache,
  parse_term, compile_terms, compile_new, compile, match_term, lowered, matches,
}

-- A term against a row, whose texts it lowers itself.
abbrev pub row_matches : Target → Term → Bool
row_matches t (text needle) = contains (to_lower t.text) needle
row_matches t (regex re) = re (to_lower t.text)
row_matches t (status needle) = contains (to_lower t.status) needle
row_matches t (label key none) = any (λ l. equal_fold l.0 key) t.labels
row_matches t (label key (some value)) =
    any (λ l. equal_fold l.0 key && equal_fold l.1 value) t.labels
row_matches t (network needle) = any (λ n. contains (to_lower n) needle) t.networks

any-map :
    {A B : Type 0} (p : B → Bool) (f : A → B) (xs : List A)
    → any p (map f xs) ≡ any (λ x. p (f x)) xs
any-map p f [] = refl
any-map p f (x ∷ xs) = ap (λ b. p (f x) || b) (any-map p f xs)

match_lowered :
    (b : Bool) (t : Target) (term : Term)
    → (is_network term ≡ true → b ≡ true)
    → match_term (lowered b t) term ≡ row_matches t term
unfolding match_term lowered
match_lowered b t (text needle) h = refl
match_lowered b t (regex re) h = refl
match_lowered b t (status needle) h = refl
match_lowered b t (label key none) h = refl
match_lowered b t (label key (some value)) h = refl
match_lowered b t (network needle) h = rw (h refl) (networks t.networks)
  where
    networks :
        (ns : List String)
        → any (λ n. contains n needle) (if ltb 0 (length ns) then map to_lower ns else ns)
          ≡ any (λ n. contains (to_lower n) needle) ns
    networks [] = refl
    networks (n ∷ ns) =
        let some_network : ltb 0 (suc (length ns)) ≡ true = ground arith in
        rw some_network (any-map (λ n. contains n needle) to_lower (n ∷ ns))

all-lowered :
    (b : Bool) (t : Target) (terms : List Term)
    → (any is_network terms ≡ true → b ≡ true)
    → all (match_term (lowered b t)) terms ≡ all (row_matches t) terms
all-lowered b t [] h = refl
all-lowered b t (x ∷ rest) h =
    rw (match_lowered b t x (λ e. h (ground arith)), all-lowered b t rest (λ e. h (ground arith)))

-- The terms of a query: all of them, or the first one's error.
abbrev pub parse_terms :
    (String → Result String (String → Bool)) → List String → Result String (List Term)
parse_terms regexp [] = ok []
parse_terms regexp (tok ∷ rest) =
    parse_term regexp tok >>= (λ t. parse_terms regexp rest >>= (λ ts. ok (t ∷ ts)))

append_nil : (xs : List Term) → xs ++ [] ≡ xs
append_nil [] = refl
append_nil (x ∷ xs) = ap (λ l. x ∷ l) (append_nil xs)

append_one : (xs : List Term) (t : Term) (ys : List Term) → (xs ++ t ∷ []) ++ ys ≡ xs ++ t ∷ ys
append_one [] t ys = refl
append_one (x ∷ xs) t ys = ap (λ l. x ∷ l) (append_one xs t ys)

any-append :
    (xs : List Term) (t : Term)
    → any is_network (xs ++ t ∷ []) ≡ (any is_network xs || is_network t)
any-append [] t = ground arith
any-append (x ∷ xs) t = ground (arith, any-append xs t)

-- The meaning of a query on a row.
abbrev pub query_matches : (String → Result String (String → Bool)) → String → Target → Bool
query_matches regexp query t = elim (parse_terms regexp (fields query)) [
  | err e ↦ false
  | ok terms ↦ all (row_matches t) terms
]

module _ (regexp : String → Result String (String → Bool)) where
  matches-fine :
      (m : Matcher) (t : Target)
      → m.failure ≡ none
      → m.need_net ≡ any is_network m.terms
      → matches m t ≡ all (row_matches t) m.terms
  unfolding matches
  matches-fine m t fine net = elim (List-cases m.terms) [
    | inl e ↦ rw (fine, e)
    | inr (x, rest, e) ↦
        let many : leb (length m.terms) 0 ≡ false = ground arith in
        rw (fine, many) (all-lowered m.need_net t m.terms (λ h. net ∙ h))
  ]

  compile_terms-matches :
      (toks : List String) (m : Matcher) (t : Target)
      → m.failure ≡ none
      → m.need_net ≡ any is_network m.terms
      → matches (compile_terms regexp toks m) t ≡ elim (parse_terms regexp toks) [
        | err e ↦ false
        | ok ts ↦ all (row_matches t) (m.terms ++ ts)
      ]
  unfolding compile_terms matches
  compile_terms-matches [] m t fine net =
      matches-fine m t fine net ∙ ap (all (row_matches t)) (sym (append_nil m.terms))
  compile_terms-matches (tok ∷ rest) m t fine net = elim (Result-cases (parse_term regexp tok)) [
    | inr (e, bad) ↦ rw (bad, compile_terms, matches)
    | inl (x, good) ↦
        let tail =
          compile_terms-matches rest (with_term m x) t fine (rw net (sym (any-append m.terms x))) in
        elim (Result-cases (parse_terms regexp rest)) [
          | inr (e, bad) ↦ rw (good, compile_terms, bad) (rw bad at tail)
          | inl (ts, fit) ↦
              rw (good, compile_terms, fit)
                (rw fit at tail ∙ ap (all (row_matches t)) (append_one m.terms x ts))
        ]
  ]

-- The entry of the cache is its query's matcher.
abbrev pub IsFresh : (String → Result String (String → Bool)) → Cache → Type 0
IsFresh regexp none = Unit
IsFresh regexp (some (q, m)) = m ≡ (compile_new regexp q).0

compile_new-matches :
    (regexp : String → Result String (String → Bool)) (query : String) (t : Target)
    → matches (compile_new regexp query).0 t ≡ query_matches regexp query t
compile_new-matches regexp query t =
    compile_terms-matches regexp (fields query)
      (record { terms = []; failure = none; need_net = false }) t refl refl

-- With a cache whose entry is its query's matcher, a row matches the compiled query exactly when every
-- term parses and the row matches every term, lowering its own texts; and the cache is left so again.
pub compile-matches :
    (regexp : String → Result String (String → Bool)) (cache : Cache) (query : String) (t : Target)
    → IsFresh regexp cache
    → (matches (compile regexp cache query).0 t ≡ query_matches regexp query t)
      × IsFresh regexp (compile regexp cache query).1
unfolding compile
compile-matches regexp none query t h = (compile_new-matches regexp query t, refl)
compile-matches regexp (some (q, m)) query t h = elim (Bool-cases (q == query)) [
  | inl same ↦
      let e : q ≡ query = ground (arith, eq_iff q query) in
      rw same (
        ap (λ x. matches x t) (h ∙ ap (λ x. (compile_new regexp x).0) e)
            ∙ compile_new-matches regexp query t,
        h,
      )
  | inr other ↦ rw other (compile_new-matches regexp query t, refl)
]
