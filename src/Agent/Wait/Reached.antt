-- ===== src/Agent/Wait/Reached.antt =====
-- ops_wait.go: wait ends, and what it reports was so of the container that it was told of.
use d9c.Base.{
  ◌≡◌, sym, ap, ◌∙◌, inl, inr, ◌==◌, if◌then◌else◌, Bool, true, false, ℕ, zero, suc, ◌-◌, ◌≤◌,
  String, some, List, leb, find_first, find_first_holds, ok, err, arith, Bool-cases, Option-cases,
  Result-cases, ok_injective, eq_iff,
}
use mathlib.Core.Option.{some-injective}
use d9c.Agent.Error.{Failure}
use d9c.Agent.Containers.{Container, resolve_container}
use d9c.Agent.Containers.Resolve.{IsListed, find_first-IsListed, resolve_container-ok}
use d9c.Agent.Wait.{
  Until, Polls, WaitData, wait_poll, wait_find, wait_reached, waited, seen, wait_from, wait,
}

-- time.After: the next poll comes when the pause is over or later.
abbrev pub IsClock : Polls → Type 0
IsClock p =
    (k : ℕ) → p.left (suc k) ≤ p.left k - (if leb wait_poll (p.left k) then wait_poll else p.left k)

wait_find-IsListed :
    (list : List Container) (ref id : String) (c : Container)
    → wait_find list ref id ≡ ok c
    → IsListed list c × ((id == "") ≡ false → c.id ≡ id)
unfolding wait_find
wait_find-IsListed list ref id c h = elim (Bool-cases (id == "")) [
  | inl t ↦ ((resolve_container-ok list ref c (rw t at h)).1, λ f. absurd (ground (arith, t, f)))
  | inr f ↦ elim (Option-cases (find_first (λ d. d.id == id) list)) [
    | inl e ↦ absurd (ground (arith, h, f, e))
    | inr (d, e) ↦
        let same : d ≡ c = ok_injective (rw (f, e) at h) in
        rw⁻¹ same (
          (
            find_first-IsListed (λ d. d.id == id) list e,
            λ g. (eq_iff d.id id).0 (find_first_holds (λ d. d.id == id) list e),
          ))
  ]
]

module _ (p : Polls) (ref : String) (until : Until) (seconds : ℕ) where
  seen-ok :
      (k : ℕ) (id : String) (c : Container) (done : Bool)
      → seen p ref until seconds k id ≡ ok (c, done)
      → (list : List Container) × (p.listed k ≡ ok list)
        × (wait_find list ref id ≡ ok c)
        × (wait_reached c until ≡ ok done)
  unfolding seen
  seen-ok k id c done h = elim (Result-cases (p.listed k)) [
    | inr (e, l) ↦ absurd (ground (arith, h, l))
    | inl (list, l) ↦ elim (Result-cases (wait_find list ref id)) [
      | inr (e, f) ↦ absurd (ground (arith, h, l, f))
      | inl (d, f) ↦ elim (Result-cases (wait_reached d until)) [
        | inr (e, r) ↦ absurd (ground (arith, h, l, f, r))
        | inl (b, r) ↦
            let same : (d, b) ≡ (c, done) = ok_injective (rw (l, f, r, seen) at h) in
            let same_c : d ≡ c = ap (λ x. x.0) same in
            let same_b : b ≡ done = ap (λ x. x.1) same in
            (list, l, rw⁻¹ same_c f, rw⁻¹ (same_c, same_b) r)
      ]
    ]
  ]

  -- A poll at which a listed container was in the state that was waited for.
  abbrev pub WasReached : WaitData → Type 0
  WasReached data_ =
      (n : ℕ) × (list : List Container) × (c : Container) × (p.listed n ≡ ok list)
      × IsListed list c
      × (wait_reached c until ≡ ok true)
      × (data_ ≡ waited p until n c)

  wait_from-WasReached :
      (fuel k : ℕ) (id : String) (result : WaitData)
      → wait_from p ref until seconds fuel k id ≡ some (ok result)
      → WasReached result × ((id == "") ≡ false → result.id ≡ id)
  unfolding wait_from
  wait_from-WasReached zero k id result h = cc
  wait_from-WasReached (suc fuel) k id result h =
      elim (Result-cases (seen p ref until seconds k id)) [
        | inr (e, s) ↦ absurd (ground (arith, h, s))
        | inl ((c, done), s) ↦
            let (list, l, f, r) = seen-ok k id c done s in
            let (listed, followed) = wait_find-IsListed list ref id c f in
            elim (Bool-cases done) [
              | inl t ↦
                  let same : waited p until k c ≡ result =
                    ok_injective (some-injective _ _ (rw (s, t, wait_from) at h)) in
                  (
                    (k, list, c, l, listed, rw t at r, sym same),
                    λ g. ap (λ d. d.id) (sym same) ∙ followed g,
                  )
              | inr f' ↦ elim (Bool-cases (leb (p.left k) 0)) [
                | inl z ↦ absurd (ground (arith, h, s, f', z))
                | inr more ↦ elim (Option-cases (p.cancelled k)) [
                  | inr (e, x) ↦ absurd (ground (arith, h, s, f', more, x))
                  | inl x ↦
                      let (reached, kept) =
                        wait_from-WasReached fuel (suc k) c.id result
                          (rw (s, f', more, x, wait_from) at h) in
                      (reached, λ g. kept (rw (followed g) g) ∙ followed g)
                ]
              ]
            ]
      ]

  followed_id :
      (fuel : ℕ) (id : String) (c : Container) (done : Bool) (result : WaitData)
      → wait_from p ref until seconds (suc fuel) 0 id ≡ some (ok result)
      → seen p ref until seconds 0 id ≡ ok (c, done)
      → (c.id == "") ≡ false
      → result.id ≡ c.id
  unfolding wait_from
  followed_id fuel id c true result h s named =
      let same : waited p until 0 c ≡ result =
        ok_injective (some-injective _ _ (rw (s, wait_from) at h)) in
      ap (λ d. d.id) (sym same)
  followed_id fuel id c false result h s named = elim (Bool-cases (leb (p.left 0) 0)) [
    | inl z ↦ absurd (ground (arith, h, s, z))
    | inr more ↦ elim (Option-cases (p.cancelled 0)) [
      | inr (e, x) ↦ absurd (ground (arith, h, s, more, x))
      | inl x ↦ (wait_from-WasReached fuel 1 c.id result (rw (s, more, x, wait_from) at h)).1 named
    ]
  ]

  wait-seen :
      (e : Failure)
      → seen p ref until seconds 0 "" ≡ err e
      → wait p ref until seconds ≡ some (err e)
  unfolding wait wait_from
  wait-seen e s = rw (s, wait_from)

  -- When wait succeeds, some poll listed the container that it reports, in the state that was waited
  -- for and with that state and health; and it is the container that the reference named at the first
  -- poll, told by an ID that is not empty, whatever was renamed, removed or started since.
  pub wait_lem :
      (result : WaitData)
      → wait p ref until seconds ≡ some (ok result)
      → WasReached result
        × ((list : List Container) (c : Container)
            → p.listed 0 ≡ ok list
            → resolve_container list ref ≡ ok c
            → (c.id == "") ≡ false
            → result.id ≡ c.id)
  unfolding wait wait_find
  wait_lem result h = (
    (wait_from-WasReached (suc (p.left 0)) 0 "" result h).0,
    λ list c l r named. elim (Result-cases (seen p ref until seconds 0 "")) [
      | inr (e, s) ↦ absurd (ground (arith, h, wait-seen e s))
      | inl ((d, done), s) ↦
          let (list', l', f, r') = seen-ok 0 "" d done s in
          let same_list : list' ≡ list = ok_injective (sym l' ∙ l) in
          let same : d ≡ c =
            ok_injective (sym f ∙ ap (λ x. resolve_container x ref) same_list ∙ r) in
          followed_id (p.left 0) "" d done result h s (rw same named) ∙ ap (λ x. x.id) same
    ],
  )
