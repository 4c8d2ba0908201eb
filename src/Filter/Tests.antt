-- ===== src/Filter/Tests.antt =====
-- A query on a row.
use d9c.Base.{◌≡◌, refl, Bool, [], ◌∷◌, String, Result, err}
use d9c.Filter.{Target, compile, compile_new, matches}
use d9c.Filter.Compiled.{IsFresh, query_matches, compile-matches}

abbrev row : Target
row = record { text = "Web nginx"; status = "running"; labels = []; networks = "Front" ∷ [] }

-- A stand-in for package regexp that compiles nothing.
abbrev no_regexp : String → Result String (String → Bool)
no_regexp s = err "no regexp"

compile-matches_example :
    (matches (compile no_regexp (compile_new no_regexp "web").1 "WEB net:front").0 row
      ≡ query_matches no_regexp "WEB net:front" row)
    × IsFresh no_regexp (compile no_regexp (compile_new no_regexp "web").1 "WEB net:front").1
compile-matches_example =
    compile-matches no_regexp (compile_new no_regexp "web").1 "WEB net:front" row refl
