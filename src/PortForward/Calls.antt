-- ===== src/PortForward/Calls.antt =====
-- portfwd.go: what the user's calls of the manager come to.
use d9c.Base.{
  ◌≡◌, ◌≢◌, refl, ap, inl, inr, ℕ, ◌<◌, Bool, true, false, ◌||◌, String, none, some, List, [], ◌∷◌,
  map, keep, find_first, if◌then◌else◌, eqb, leb, arith, All, All-map, Bool-cases, ok, err,
  find_first-none, find_first-other,
}
use mathlib.Core.List.{Perm}
use mathlib.Core.List.Perm
use d9c.Base.Int.{pos, leb_ℤ, ltb_ℤ}
use d9c.Base.Sort.{IsSorted, sort-perm, sort-IsSorted}
use d9c.PortForward.{
  Spec, active, stopped, Info, Listen, Listener, Tunnel, Manager, is_stopped, is_entry, halted,
  close_locked, reopened, forwards, made, at, entry, add_tunnel, start, stop, get, reopen, resume,
  toggle, list, listen_local,
}
use d9c.PortForward.Steps.{Reachable, IsIncreasing, IsValid}
use d9c.PortForward.Valid.{Reachable-IsValid}

-- The ports that Start takes.
abbrev pub HasPorts : Spec → Type 0
HasPorts s =
    ((leb_ℤ s.container_port (pos 0) || ltb_ℤ (pos 65535) s.container_port) ≡ false)
    × ((ltb_ℤ s.local_port (pos 0) || ltb_ℤ (pos 65535) s.local_port) ≡ false)

below_next :
    (n : ℕ) (ts : List Tunnel) → All (λ t. t.info.id < n) ts → All (λ t. is_entry n t ≡ false) ts
below_next n ts h = All-map _ _ ts (λ t l. ground (arith, l)) h

find_first-changed :
    (p : Tunnel → Bool) (f : Tunnel → Tunnel) (ts : List Tunnel) {t : Tunnel}
    → ((u : Tunnel) → p (f u) ≡ p u)
    → find_first p ts ≡ some t
    → find_first p (map (λ u. if p u then f u else u) ts) ≡ some (f t)
find_first-changed p f [] {t} k e = cc
find_first-changed p f (u ∷ ts) {t} k e = elim (Bool-cases (p u)) [
  | inl h ↦
      let same : u ≡ t = ground (arith, e, h) in rw (h, k u) (rw h (ap (λ x. some (f x)) same))
  | inr h ↦ rw h (rw h (find_first-changed p f ts {t = t} k (rw h at e)))
]

-- A tunnel at rest, and one that is open again.
abbrev pub at_rest : Info → Info
at_rest i = record i { state = stopped; last_err = ""; conns = 0 }

abbrev pub open_again : Info → Info
open_again i = record i { state = active; last_err = ""; conns = 0 }

reopened-keeps_entry : (id ln : ℕ) (u : Tunnel) → is_entry id (reopened ln u) ≡ is_entry id u
unfolding reopened
reopened-keeps_entry id ln u = ground arith

-- An ID that no tunnel had yet, of those of the map and of those removed from it.
abbrev pub IsNew : {D : Type 0} → ℕ → Manager D → Type 0
IsNew id m = All (λ t. t.info.id ≢ id) m.tunnels

module _ {D : Type 0} (listen : Listen) where
  start-error :
      (s : Spec) (m : Manager D) (problem : String)
      → (start listen s m).1 ≡ err problem
      → (start listen s m).0 ≡ m
  unfolding start
  start-error s m problem e = ground arith

  start-ok :
      (s : Spec) (ln : Listener) (m : Manager D)
      → HasPorts s
      → find_first (forwards s) m.tunnels ≡ none
      → listen_local listen s.local_port ≡ ok ln
      → start listen s m ≡ (add_tunnel s ln m, ok (made s ln m.next_id).info)
  unfolding start
  start-ok s ln m p free l = rw (p.0, p.1, free, l)

  get-add :
      (s : Spec) (ln : Listener) (m : Manager D)
      → IsValid m
      → get m.next_id (add_tunnel s ln m) ≡ ok (made s ln m.next_id).info
  unfolding get entry add_tunnel made
  get-add s ln m v =
      let same : eqb m.next_id m.next_id ≡ true = ground arith in
      rw (
        find_first-none (is_entry m.next_id) m.tunnels (made s ln m.next_id ∷ [])
            (below_next m.next_id m.tunnels v.2),
        same,
        get,
        entry,
      )

  get-add_other :
      (s : Spec) (ln : Listener) (m : Manager D) (id : ℕ)
      → id ≢ m.next_id
      → get id (add_tunnel s ln m) ≡ get id m
  unfolding get entry add_tunnel made
  get-add_other s ln m id n =
      let other : eqb m.next_id id ≡ false = ground arith in
      rw (find_first-other (is_entry id) m.tunnels (made s ln m.next_id) other, get, entry)

  next_id-IsNew : (m : Manager D) → IsValid m → IsNew m.next_id m
  next_id-IsNew m v = All-map _ _ m.tunnels (λ t l e. omega (arith, l, e)) v.2

  -- Start changes nothing where it fails. Where the ports are in range, no open tunnel forwards the
  -- same port of the same container and the local port can be listened on, it returns an active
  -- tunnel with the listener's port under an ID that no tunnel had, Get returns that tunnel from then on, and every
  -- other ID gives what it gave before.
  pub start_result :
      (s : Spec) (m : Manager D)
      → IsValid m
      → ((problem : String) → (start listen s m).1 ≡ err problem → (start listen s m).0 ≡ m)
        × ((ln : Listener)
            → HasPorts s
            → All (λ t. forwards s t ≡ false) m.tunnels
            → listen_local listen s.local_port ≡ ok ln
            → (info : Info) × ((start listen s m).1 ≡ ok info)
              × IsNew info.id m
              × (info.state ≡ active)
              × (info.local_port ≡ ln.port)
              × (get info.id (start listen s m).0 ≡ ok info)
              × ((id : ℕ) → id ≢ info.id → get id (start listen s m).0 ≡ get id m))
  unfolding made
  start_result s m v = (
    start-error s m,
    λ ln p free l.
        let unused : find_first (forwards s) m.tunnels ≡ none = none_of m.tunnels free in
        let e = start-ok s ln m p unused l in
        (
          (made s ln m.next_id).info,
          ap (λ r. r.1) e,
          next_id-IsNew m v,
          refl,
          refl,
          rw e (get-add s ln m v),
          λ id n. rw e (get-add_other s ln m id n),
        ),
  )
    where
      none_of :
          (ts : List Tunnel)
          → All (λ t. forwards s t ≡ false) ts
          → find_first (forwards s) ts ≡ none
      none_of [] h = refl
      none_of (t ∷ ts) h = rw h.0 (none_of ts h.1)

  entry-changed :
      (id : ℕ) (f : Tunnel → Tunnel) (m : Manager D) {t : Tunnel}
      → ((u : Tunnel) → is_entry id (f u) ≡ is_entry id u)
      → entry id m ≡ some t
      → entry id (at (is_entry id) f m) ≡ some (f t)
  unfolding entry at
  entry-changed id f m k e = find_first-changed (is_entry id) f m.tunnels k e

  stop-entry :
      (id : ℕ) (m : Manager D) (t : Tunnel)
      → entry id m ≡ some t
      → stop id m ≡ (at (is_entry id) halted m, none)
  unfolding stop
  stop-entry id m t e = rw (e, stop)

  get-entry : (id : ℕ) (m : Manager D) (t : Tunnel) → entry id m ≡ some t → get id m ≡ ok t.info
  unfolding get
  get-entry id m t e = rw (e, get)

  toggle-open :
      (id : ℕ) (m : Manager D) (t : Tunnel)
      → entry id m ≡ some t
      → is_stopped t.info.state ≡ false
      → toggle listen id m ≡ (at (is_entry id) halted m, ok (at_rest t.info))
  unfolding toggle halted close_locked
  toggle-open id m t e o =
      rw (e, o, toggle, stop-entry id m t e)
        (rw (stop-entry id m t e) (
          ap (λ r. (at (is_entry id) halted m, r))
            (get-entry id (at (is_entry id) halted m) (halted t)
              (entry-changed id halted m (λ u. refl) e))))

  resume-entry :
      (id : ℕ) (m : Manager D) (t : Tunnel) (ln : Listener)
      → entry id m ≡ some t
      → is_stopped t.info.state ≡ true
      → listen_local listen t.info.local_port ≡ ok ln
      → resume listen id m ≡ (reopen id ln m, ok (record t.info { state = active; last_err = "" }))
  unfolding resume reopen reopened
  resume-entry id m t ln e o l =
      let same : (reopened ln.ident t).info ≡ record t.info { state = active; last_err = "" } =
        rw (o, reopened) in
      rw
        (
          e,
          o,
          l,
          get-entry id (reopen id ln m) (reopened ln.ident t)
              (entry-changed id (reopened ln.ident) m (reopened-keeps_entry id ln.ident) e),
          resume,
        )
        (ap (λ i. (reopen id ln m, ok i)) same)

  toggle-stopped :
      (id : ℕ) (m : Manager D) (t : Tunnel) (ln : Listener)
      → entry id m ≡ some t
      → is_stopped t.info.state ≡ true
      → listen_local listen t.info.local_port ≡ ok ln
      → toggle listen id m ≡ (reopen id ln m, ok (record t.info { state = active; last_err = "" }))
  unfolding toggle
  toggle-stopped id m t ln e o l = rw (e, o, toggle) (resume-entry id m t ln e o l)

  -- Toggle of an open tunnel stops it, with no connection left, and a second Toggle opens it again
  -- under its ID, on the local port that it had, if that port can be listened on.
  pub toggle_twice :
      (id : ℕ) (m : Manager D) (t : Tunnel) (ln : Listener)
      → entry id m ≡ some t
      → is_stopped t.info.state ≡ false
      → listen_local listen t.info.local_port ≡ ok ln
      → ((toggle listen id m).1 ≡ ok (at_rest t.info))
        × ((toggle listen id (toggle listen id m).0).1 ≡ ok (open_again t.info))
        × (entry id (toggle listen id (toggle listen id m).0).0
            ≡ some (record t { info = open_again t.info; ln = some ln.ident; conns = [] }))
  unfolding halted close_locked reopen reopened
  toggle_twice id m t ln e o l =
      let first = toggle-open id m t e o in
      let e' = entry-changed id halted m (λ u. refl) e in
      let second = toggle-stopped id (at (is_entry id) halted m) (halted t) ln e' refl l in
      let e'' =
        entry-changed id (reopened ln.ident) (at (is_entry id) halted m) {t = halted t}
          (reopened-keeps_entry id ln.ident) e' in
      rw (first, second) ((refl, refl, e''))

abbrev pub id_le : Info → Info → Bool
id_le a b = leb a.id b.id

id_le-total : (a b : Info) → id_le a b ≡ false → id_le b a ≡ true
id_le-total a b h = ground (arith, h)

id_le_trans : (a b c : Info) → id_le a b ≡ true → id_le b c ≡ true → id_le a c ≡ true
id_le_trans a b c h k = ground (arith, h, k)

-- Of a manager that any sections under its lock led to, and whatever the order in which its loop
-- meets the entries of the map, List returns the tunnels that were not removed, each once, in the
-- order of their IDs, which differ and increase in the order in which the tunnels were started.
pub list_lem :
    {D : Type 0} (m : Manager D) (range : List Tunnel → List Tunnel)
    → ((ts : List Tunnel) → Perm (range ts) ts)
    → Reachable m
    → Perm (list range m) (map (λ t. t.info) (keep (λ t. t.listed) m.tunnels))
      × IsSorted id_le (list range m)
      × IsIncreasing m.tunnels
unfolding list
list_lem m range any_order r =
    let v = Reachable-IsValid r in
    let listed = keep (λ t. t.listed) m.tunnels in
    let met = map (λ t. t.info) (range listed) in
    (
      Perm.trans (sort-perm id_le met) (Perm.map (λ t. t.info) (any_order listed)),
      sort-IsSorted id_le id_le-total id_le_trans met,
      v.1,
    )
