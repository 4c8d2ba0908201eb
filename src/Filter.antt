-- ===== src/Filter.antt =====
-- internal/ui/filter/query.go: the filter query of the tables.
pub mod Compiled
mod Tests
use d9c.Base.{
  ◌<+>◌, ◌==◌, if◌then◌else◌, ◌&&◌, ◌||◌, not, Bool, true, false, ℕ, zero, suc, String, Char, code,
  Option, none, some, List, map, any, all, length, ltb, leb, quote, equal_fold, to_lower, fields,
  trim_prefix, has_prefix, contains, cut, Result, ok, err,
}
use mathlib.Core.List.{[], ◌∷◌, ◌++◌}
use Prim.Native.String

pub record Target : Type 0 where
  pub text : String
  pub status : String
  pub labels : List (String × String)
  pub networks : List String

-- A term by its kind, with the fields that the kind uses.
pub data Term : Type 0 where
  text : String → Term
  regex : (String → Bool) → Term
  status : String → Term
  label : (key : String) (value : Option String) → Term
  network : String → Term

pub record Matcher : Type 0 where
  pub terms : List Term
  pub failure : Option String
  pub need_net : Bool

abbrev pub is_network : Term → Bool
is_network (network n) = true
is_network _ = false

abbrev pub with_term : Matcher → Term → Matcher
with_term m t = record {
  terms = m.terms ++ t ∷ [];
  failure = m.failure;
  need_net = m.need_net || is_network t;
}

-- compileCache
abbrev pub Cache : Type 0
Cache = Option (String × Matcher)

-- regexp.Compile: the test of a text, or what is wrong with the pattern.
module _ (regexp : String → Result String (String → Bool)) where
  -- parseTerm
  unfoldable pub parse_term : String → Result String Term
  parse_term tok =
      if has_prefix tok "re:"
      then elim (regexp ("(?i)" <+> trim_prefix tok "re:")) [
        | err e ↦ err ("invalid regexp " <+> quote (trim_prefix tok "re:") <+> ": " <+> e)
        | ok re ↦ ok (regex re)
      ]
      else if has_prefix tok "status:"
      then ok (status (to_lower (trim_prefix tok "status:")))
      else if has_prefix tok "label:"
      then (let (key, value) = cut (trim_prefix tok "label:") "=" in
          elim value [
            | some val ↦ ok (label (to_lower key) (some (to_lower val)))
            | none ↦ ok (label (to_lower (trim_prefix tok "label:")) none)
          ])
      else if has_prefix tok "network:"
      then ok (network (to_lower (trim_prefix tok "network:")))
      else if has_prefix tok "net:"
      then ok (network (to_lower (trim_prefix tok "net:")))
      else ok (text (to_lower tok))

  -- The loop of Compile, which a term that does not parse ends.
  unfoldable pub compile_terms : List String → Matcher → Matcher
  compile_terms [] m = m
  compile_terms (tok ∷ rest) m = elim (parse_term tok) [
    | err e ↦ record m { failure = some e }
    | ok t ↦ compile_terms rest (with_term m t)
  ]

  abbrev pub compile_new : String → Matcher × Cache
  compile_new query =
      let m =
        compile_terms (fields query) (record { terms = []; failure = none; need_net = false }) in
      (m, some (query, m))

  -- Compile, with the state of compileCache before and after it.
  unfoldable pub compile : Cache → String → Matcher × Cache
  compile none query = compile_new query
  compile (some (q, m)) query = if q == query then (m, some (q, m)) else compile_new query

-- term.match, on a target in lower case
unfoldable pub match_term : Target → Term → Bool
match_term t (text needle) = contains t.text needle
match_term t (regex re) = re t.text
match_term t (status needle) = contains t.status needle
match_term t (label key none) = any (λ l. equal_fold l.0 key) t.labels
match_term t (label key (some value)) =
    any (λ l. equal_fold l.0 key && equal_fold l.1 value) t.labels
match_term t (network needle) = any (λ n. contains n needle) t.networks

-- The target that Match passes to the terms.
unfoldable pub lowered : Bool → Target → Target
lowered need_net t = record t {
  text = to_lower t.text;
  status = to_lower t.status;
  networks = if need_net && ltb 0 (length t.networks) then map to_lower t.networks else t.networks;
}

-- Matcher.Match of a matcher that is not nil.
unfoldable pub matches : Matcher → Target → Bool
matches m t = elim m.failure [
  | some e ↦ false
  | none ↦ if leb (length m.terms) 0 then true else all (match_term (lowered m.need_net t)) m.terms
]
