-- ===== src/Agent/Containers/Resolve.antt =====
-- What a reference to a container resolves to.
use d9c.Base.{
  ◌≡◌, refl, ◌⊎◌, inl, inr, Bool, true, false, String, some, List, [], ◌∷◌, Any, All, All-map, keep,
  find_first, find_first_holds, ok, ok_injective, arith, Bool-cases, Option-cases, ◌==◌,
}
use mathlib.Core.Path.{subst}
use mathlib.Core.Option.{some-injective}
use d9c.Agent.Containers.{Container, is_named, is_hit, only_hit, resolve_container}

abbrev pub IsListed : List Container → Container → Type 0
IsListed list c = Any (λ d. d ≡ c) list

keep-IsListed : (p : Container → Bool) (list : List Container) → All (IsListed list) (keep p list)
keep-IsListed p [] = tt
keep-IsListed p (c ∷ rest) =
    let others =
      All-map (IsListed rest) (IsListed (c ∷ rest)) (keep p rest) (λ d m. inr m)
        (keep-IsListed p rest) in
    elim (Bool-cases (p c)) [ inl t ↦ rw t (inl refl, others) | inr f ↦ rw f others ]

pub find_first-IsListed :
    (p : Container → Bool) (list : List Container) {c : Container}
    → find_first p list ≡ some c
    → IsListed list c
find_first-IsListed p [] e = cc
find_first-IsListed p (d ∷ rest) {c} e = elim (Bool-cases (p d)) [
  | inl t ↦ inl (some-injective d c (rw t at e))
  | inr f ↦ inr (find_first-IsListed p rest (rw f at e))
]

keep_none :
    (p : Container → Bool) (list : List Container) (c : Container)
    → keep p list ≡ []
    → All (λ d. p d ≡ true → d ≡ c) list
keep_none p [] c e = tt
keep_none p (d ∷ rest) c e = elim (Bool-cases (p d)) [
  | inl t ↦ absurd (ground arith)
  | inr f ↦ (λ t. absurd (ground arith), keep_none p rest c (rw f at e))
]

-- Where one entry passes the test, every entry that passes it is that one.
keep_one :
    (p : Container → Bool) (list : List Container) (c : Container)
    → keep p list ≡ c ∷ []
    → All (λ d. p d ≡ true → d ≡ c) list
keep_one p [] c e = tt
keep_one p (d ∷ rest) c e = elim (Bool-cases (p d)) [
  | inl t ↦ (λ _. ground arith, keep_none p rest c (ground arith))
  | inr f ↦ (λ t. absurd (ground arith), keep_one p rest c (rw f at e))
]

only_hit_ok :
    (ref : String) (hits : List Container) (c : Container)
    → only_hit ref hits ≡ ok c
    → hits ≡ c ∷ []
unfolding only_hit
only_hit_ok ref [] c h = cc
only_hit_ok ref (d ∷ []) c h = cc
only_hit_ok ref (d ∷ e ∷ rest) c h = cc

-- A reference that resolves is not empty and resolves to a listed container, which it names or whose
-- ID it is, or which is the only listed one that it hits as a prefix: an ambiguous prefix never
-- resolves.
pub resolve_container-ok :
    (list : List Container) (ref : String) (c : Container)
    → resolve_container list ref ≡ ok c
    → ((ref == "") ≡ false)
      × IsListed list c
      × ((is_named ref c ≡ true) ⊎ All (λ d. is_hit ref d ≡ true → d ≡ c) list)
unfolding resolve_container
resolve_container-ok list ref c h = elim (Bool-cases (ref == "")) [
  | inl t ↦ absurd (ground arith)
  | inr f ↦ elim (Option-cases (find_first (is_named ref) list)) [
    | inr (d, e) ↦
        let same : d ≡ c = ok_injective (rw (f, e) at h) in
        (
          f,
          subst (IsListed list) same (find_first-IsListed (is_named ref) list e),
          inl (subst (λ x. is_named ref x ≡ true) same (find_first_holds (is_named ref) list e)),
        )
    | inl e ↦
        let one = only_hit_ok ref (keep (is_hit ref) list) c (rw (f, e) at h) in
        (
          f,
          (subst (All (IsListed list)) one (keep-IsListed (is_hit ref) list)).0,
          inr (keep_one (is_hit ref) list c one),
        )
  ]
]
