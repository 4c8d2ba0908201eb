-- ===== src/PortForward.antt =====
-- internal/portfwd/portfwd.go: the tunnels to container ports, and what runs under the manager's lock.
-- A method returns the manager it leaves and its result; the texts are the English ones. A tunnel is
-- known by its ID, listeners and connections by numbers. `tunnels` holds every tunnel that was made,
-- in that order, since connections still refer to a removed one; `listed` tells whether the map has it.
pub mod Tunnels
pub mod Steps
pub mod Sound
pub mod Valid
pub mod Calls
mod Tests
use d9c.Base.{
  ◌≡◌, ℕ, suc, ◌+◌, ◌-◌, Bool, true, false, not, ◌&&◌, ◌||◌, String, Option, none, some, List, [],
  ◌∷◌, ◌++◌, map, any, keep, length, find_first, Result, ok, err, ◌<+>◌, ◌==◌, if◌then◌else◌, eqb,
  decimal, to_lower, contains, leb,
}
use d9c.Base.Int.{ℤ, pos, leb_ℤ, ltb_ℤ, show_int}
use d9c.Base.Sort.{sort}
unfoldable pub use Tunnels.*

module _ {D : Type 0} where
  -- New
  abbrev pub new : Manager D
  new = record { dialer = none; tunnels = []; next_id = 1 }

  -- Manager.SetDialer
  unfoldable pub set_dialer : Option D → Manager D → Manager D
  set_dialer d m = record m { dialer = d }

  unfoldable pub at : (Tunnel → Bool) → (Tunnel → Tunnel) → Manager D → Manager D
  at which f m = record m { tunnels = map (λ t. if which t then f t else t) m.tunnels }

  -- m.tunnels[id]
  unfoldable pub entry : ℕ → Manager D → Option Tunnel
  entry id m = find_first (is_entry id) m.tunnels

  -- The last part of Start, which runs under the lock.
  unfoldable pub add_tunnel : Spec → Listener → Manager D → Manager D
  unfolding made
  add_tunnel s ln m = record m {
    tunnels = m.tunnels ++ (made s ln m.next_id ∷ []);
    next_id = suc m.next_id;
  }

  -- Manager.Start
  unfoldable pub start : Listen → Spec → Manager D → Manager D × Result String Info
  unfolding forwards local_addr listen_local add_tunnel made
  start listen s m =
      if leb_ℤ s.container_port (pos 0) || ltb_ℤ (pos 65535) s.container_port
      then (m, err ("invalid container port: " <+> show_int s.container_port))
      else if ltb_ℤ s.local_port (pos 0) || ltb_ℤ (pos 65535) s.local_port
      then (m, err ("invalid local port: " <+> show_int s.local_port))
      else elim (find_first (forwards s) m.tunnels) [
        | some t ↦ (
          m,
          err (
              "port "
              <+> show_int s.container_port
              <+> " is already forwarded to "
              <+> local_addr t.info),
        )
        | none ↦ elim (listen_local listen s.local_port) [
          | err e ↦ (m, err e)
          | ok ln ↦ (add_tunnel s ln m, ok (made s ln m.next_id).info)
        ]
      ]

  -- A connection that the loop of serve accepts on a listener, for a tunnel.
  unfoldable pub accept : ℕ → ℕ → ℕ → Manager D → Manager D
  unfolding at accepted
  accept id ln c m = at (has_id id) (accepted ln c) m

  -- Manager.markDial, with the error's text
  unfoldable pub mark_dial : ℕ → Option String → Manager D → Manager D
  unfolding at dialled
  mark_dial id problem m = at (has_id id) (dialled problem) m

  -- The two changes of handle to the set of connections, around pipe.
  unfoldable pub add_remote : ℕ → ℕ → Manager D → Manager D
  unfolding at put_conn
  add_remote id c m = at (has_id id) (λ t. record t { conns = put_conn (remote c) t.conns }) m

  unfoldable pub delete_remote : ℕ → ℕ → Manager D → Manager D
  unfolding at delete_conn
  delete_remote id c m = at (has_id id) (λ t. record t { conns = delete_conn (remote c) t.conns }) m

  -- Manager.release
  unfoldable pub release : ℕ → ℕ → Manager D → Manager D
  unfolding at released
  release id c m = at (has_id id) (released c) m

  -- Manager.handle, where nothing else takes the lock meanwhile; `dial` is DialPort.
  unfoldable pub handle :
      (D → String → ℤ → Result String ℕ) → ℕ → ℕ → Option D → Spec → Manager D → Manager D
  unfolding mark_dial add_remote delete_remote release
  handle dial id c none s m = release id c (mark_dial id (some "not connected") m)
  handle dial id c (some d) s m = elim (dial d s.container_id s.container_port) [
    | err e ↦ release id c (mark_dial id (some e) m)
    | ok r ↦ release id c (delete_remote id r (add_remote id r (mark_dial id none m)))
  ]

  -- Manager.Stop
  unfoldable pub stop : ℕ → Manager D → Manager D × Option String
  unfolding at entry halted
  stop id m = elim (entry id m) [
    | none ↦ (m, some (no_such_tunnel id))
    | some t ↦ (at (is_entry id) halted m, none)
  ]

  -- Manager.Get
  unfoldable pub get : ℕ → Manager D → Result String Info
  unfolding entry
  get id m = elim (entry id m) [ none ↦ err (no_such_tunnel id) | some t ↦ ok t.info ]

  -- The last part of Resume.
  unfoldable pub reopen : ℕ → Listener → Manager D → Manager D
  unfolding at reopened
  reopen id ln m = at (is_entry id) (reopened ln.ident) m

  -- Manager.Resume
  unfoldable pub resume : Listen → ℕ → Manager D → Manager D × Result String Info
  unfolding entry get listen_local reopen
  resume listen id m = elim (entry id m) [
    | none ↦ (m, err (no_such_tunnel id))
    | some t ↦
        if is_stopped t.info.state
        then elim (listen_local listen t.info.local_port) [
          | err e ↦ (m, err e)
          | ok ln ↦ (reopen id ln m, get id (reopen id ln m))
        ]
        else (m, ok t.info)
  ]

  -- Manager.Toggle
  unfoldable pub toggle : Listen → ℕ → Manager D → Manager D × Result String Info
  unfolding entry resume stop get
  toggle listen id m = elim (entry id m) [
    | none ↦ (m, err (no_such_tunnel id))
    | some t ↦
        if is_stopped t.info.state
        then resume listen id m
        else (let (m', problem) = stop id m in
            elim problem [ some e ↦ (m', err e) | none ↦ (m', get id m') ])
  ]

  -- Manager.Remove
  unfoldable pub remove : ℕ → Manager D → Manager D
  unfolding at unlisted
  remove id m = at (is_entry id) unlisted m

  -- Manager.CloseAll
  unfoldable pub close_all : Manager D → Manager D
  unfolding at unlisted
  close_all m = at (λ t. t.listed) unlisted m

  -- Manager.List. The loop meets the entries of the map in any order, in that of `range`.
  unfoldable pub list : (List Tunnel → List Tunnel) → Manager D → List Info
  unfolding sort
  list range m =
      sort (λ a b. leb a.id b.id) (map (λ t. t.info) (range (keep (λ t. t.listed) m.tunnels)))

  -- Manager.Len
  unfoldable pub len : Manager D → ℕ
  len m = length (keep (λ t. t.listed) m.tunnels)

  -- Manager.ByContainer: the ports of a container's entry.
  unfoldable pub by_container : Manager D → String → List ℤ
  unfolding sort
  by_container m id = sort leb_ℤ (
      map (λ t. t.info.local_port)
        (keep (λ t. t.listed && (not (is_stopped t.info.state) && (t.info.spec.container_id == id)))
          m.tunnels))
