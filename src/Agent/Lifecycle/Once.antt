-- ===== src/Agent/Lifecycle/Once.antt =====
-- Which targets a lifecycle command acts on.
use d9c.Base.{
  ◌≡◌, refl, sym, ◌∙◌, ◌⊎◌, inl, inr, ◌≢◌, Bool, true, false, String, Option, List, [], ◌∷◌, ◌++◌,
  All, All-map, All-append, Result-cases, arith, Bool-cases, Option-cases, ◌==◌, ne_of_test, eq_iff,
}
use d9c.Agent.OpResult.{unset, failed, ActionTarget}
use d9c.Agent.Schema.{contains_text}
use d9c.Agent.Containers.{Container, resolve_container}
use d9c.Agent.Containers.Resolve.{IsListed, resolve_container-ok}
use d9c.Agent.Lifecycle.{
  Gathered, push, fail, bare_target, target_of, add_target, add_refs, add_matches, resolve_targets,
}

-- A target that is to be acted on, or one that resolved to no container.
abbrev pub IsResolved : List Container → ActionTarget → Type 0
IsResolved list t =
    ((t.result ≡ failed) × (t.id ≡ ""))
    ⊎ ((c : Container) × IsListed list c × (t.id ≡ c.id) × (t.name ≡ c.name) × (t.result ≡ unset))

-- No container is targeted twice.
abbrev pub AreOnce : List ActionTarget → Type 0
AreOnce [] = Unit
AreOnce (t ∷ rest) = All (λ u. (t.id ≡ "") ⊎ (u.id ≢ t.id)) rest × AreOnce rest

AreOnce-append :
    (ts : List ActionTarget) (t : ActionTarget)
    → AreOnce ts
    → All (λ u. (u.id ≡ "") ⊎ (t.id ≢ u.id)) ts
    → AreOnce (ts ++ t ∷ [])
AreOnce-append [] t h a = (tt, tt)
AreOnce-append (u ∷ ts) t h a = (
  All-append (λ v. (u.id ≡ "") ⊎ (v.id ≢ u.id)) ts (t ∷ []) h.0 (a.0, tt),
  AreOnce-append ts t h.1 a.1,
)

-- The invariant of the gathering loops.
record IsGathered (list : List Container) (g : Gathered) : Type 0 where
  resolved : All (IsResolved list) g.out
  once : AreOnce g.out
  noted : All (λ u. (u.id ≡ "") ⊎ (contains_text g.seen u.id ≡ true)) g.out

seen_more :
    (seen : List String) (a b : String)
    → contains_text seen b ≡ true
    → contains_text (a ∷ seen) b ≡ true
unfolding contains_text
seen_more seen a b h = ground arith

seen_new : (seen : List String) (a : String) → contains_text (a ∷ seen) a ≡ true
unfolding contains_text
seen_new seen a = ground (arith, eq_iff a a)

push_empty :
    (list : List Container) (g : Gathered) (t : ActionTarget)
    → t.id ≡ ""
    → IsResolved list t
    → IsGathered list g
    → IsGathered list (push g t)
push_empty list g t e r i = record {
  resolved = All-append (IsResolved list) g.out (t ∷ []) i.resolved (r, tt);
  once = AreOnce-append g.out t i.once (
      All-map (λ u. (u.id ≡ "") ⊎ (contains_text g.seen u.id ≡ true))
        (λ u. (u.id ≡ "") ⊎ (t.id ≢ u.id)) g.out (λ u n. apart u) i.noted);
  noted =
      All-append (λ u. (u.id ≡ "") ⊎ (contains_text g.seen u.id ≡ true)) g.out (t ∷ []) i.noted
        (inl e, tt);
}
  where
    apart : (u : ActionTarget) → (u.id ≡ "") ⊎ (t.id ≢ u.id)
    apart u = elim (Bool-cases (u.id == "")) [
      | inl y ↦ inl (ground (arith, eq_iff u.id ""))
      | inr n ↦ inr (λ q. ne_of_test u.id "" n (sym q ∙ e))
    ]

push_new :
    (list : List Container) (g : Gathered) (t : ActionTarget)
    → contains_text g.seen t.id ≡ false
    → IsResolved list t
    → IsGathered list g
    → IsGathered list (push (record g { seen = t.id ∷ g.seen }) t)
push_new list g t n r i = record {
  resolved = All-append (IsResolved list) g.out (t ∷ []) i.resolved (r, tt);
  once = AreOnce-append g.out t i.once (
      All-map (λ u. (u.id ≡ "") ⊎ (contains_text g.seen u.id ≡ true))
        (λ u. (u.id ≡ "") ⊎ (t.id ≢ u.id)) g.out (λ u h. apart u h) i.noted);
  noted =
      All-append (λ u. (u.id ≡ "") ⊎ (contains_text (t.id ∷ g.seen) u.id ≡ true)) g.out (t ∷ [])
        (All-map (λ u. (u.id ≡ "") ⊎ (contains_text g.seen u.id ≡ true))
          (λ u. (u.id ≡ "") ⊎ (contains_text (t.id ∷ g.seen) u.id ≡ true)) g.out (λ u h. more u h)
          i.noted)
        (inr (seen_new g.seen t.id), tt);
}
  where
    apart :
        (u : ActionTarget)
        → (u.id ≡ "") ⊎ (contains_text g.seen u.id ≡ true)
        → (u.id ≡ "") ⊎ (t.id ≢ u.id)
    apart u (inl e) = inl e
    apart u (inr s) = inr (λ q. absurd (cc q))

    more :
        (u : ActionTarget)
        → (u.id ≡ "") ⊎ (contains_text g.seen u.id ≡ true)
        → (u.id ≡ "") ⊎ (contains_text (t.id ∷ g.seen) u.id ≡ true)
    more u (inl e) = inl e
    more u (inr s) = inr (seen_more g.seen t.id u.id s)

add_target-IsGathered :
    (list : List Container) (g : Gathered) (ref : String) (c : Container)
    → IsListed list c
    → IsGathered list g
    → IsGathered list (add_target g (target_of ref c))
unfolding add_target
add_target-IsGathered list g ref c m i = elim (Bool-cases (c.id == "")) [
  | inl t ↦ rw t (push_empty list g (target_of ref c) (ground (arith, eq_iff c.id "")) target i)
  | inr f ↦ elim (Bool-cases (contains_text g.seen c.id)) [
    | inl t ↦ rw (f, t) i
    | inr n ↦ rw (f, n) (push_new list g (target_of ref c) n target i)
  ]
]
  where
    target : IsResolved list (target_of ref c)
    target = inr (c, m, refl, refl, refl)

add_refs-IsGathered :
    (list : List Container) (refs : List String) (g : Gathered)
    → IsGathered list g
    → IsGathered list (add_refs list refs g)
unfolding add_refs
add_refs-IsGathered list [] g i = i
add_refs-IsGathered list (ref ∷ rest) g i = elim (Result-cases (resolve_container list ref)) [
  | inl (c, e) ↦ rw e (
      add_refs-IsGathered list rest (add_target g (target_of ref c))
        (add_target-IsGathered list g ref c (resolve_container-ok list ref c e).1 i))
  | inr (e, f) ↦ rw f (
      add_refs-IsGathered list rest (push g (fail (bare_target ref) e))
        (push_empty list g (fail (bare_target ref) e) refl (inl (refl, refl)) i))
]

add_matches-IsGathered :
    (list rest : List Container) (p : Container → Bool) (g : Gathered)
    → All (IsListed list) rest
    → IsGathered list g
    → IsGathered list (add_matches rest p g)
unfolding add_matches
add_matches-IsGathered list [] p g m i = i
add_matches-IsGathered list (c ∷ rest) p g m i = elim (Bool-cases (p c)) [
  | inl t ↦ rw t (
      add_matches-IsGathered list rest p (add_target g (target_of "" c)) m.1
        (add_target-IsGathered list g "" c m.0 i))
  | inr f ↦ rw f (add_matches-IsGathered list rest p g m.1 i)
]

All-IsListed : (list : List Container) → All (IsListed list) list
All-IsListed [] = tt
All-IsListed (c ∷ rest) = (
  inl refl,
  All-map (IsListed rest) (IsListed (c ∷ rest)) rest (λ d m. inr m) (All-IsListed rest),
)

-- Every target of a lifecycle command is a failed one without a container or one that is still to be
-- acted on, with the ID and the name of a listed container, and no two targets have one container's
-- ID.
pub resolve_targets-AreOnce :
    (list : List Container) (refs : List String) (match : Option (Container → Bool))
    → All (IsResolved list) (resolve_targets list refs match)
      × AreOnce (resolve_targets list refs match)
unfolding resolve_targets
resolve_targets-AreOnce list refs match =
    let g = add_refs list refs (record { out = []; seen = [] }) in
    let i =
      add_refs-IsGathered list refs (record { out = []; seen = [] })
        (record { resolved = tt; once = tt; noted = tt }) in
    elim (Option-cases match) [
      | inl e ↦ rw e (i.resolved, i.once)
      | inr (p, e) ↦
          let j = add_matches-IsGathered list list p g (All-IsListed list) i in
          rw e (j.resolved, j.once)
    ]
