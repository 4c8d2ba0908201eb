-- ===== src/PortForward/Steps.antt =====
-- portfwd.go: what the goroutines and the user may do to the manager, one section under its lock at a
-- time in any order, and what stays true.
use d9c.Base.{
  ◌≡◌, refl, ap, inl, inr, ℕ, suc, ◌≤◌, ◌<◌, Bool, true, false, String, Option, none, some, List,
  [], ◌∷◌, eqb, arith, All, Bool-cases,
}
use d9c.PortForward.{
  Spec, Listener, Conn, client, remote, has_conn, put_conn, delete_conn, Tunnel, Manager,
  is_stopped, is_entry, halted, new, set_dialer, at, add_tunnel, accept, mark_dial, add_remote,
  delete_remote, release, reopen, remove, close_all,
}

module _ {D : Type 0} where
  -- One section under the lock. A new connection is in no set yet.
  pub data Step : Manager D → Manager D → Type 0 where
    dialer_set : (d : Option D) (m : Manager D) → Step m (set_dialer d m)
    started : (s : Spec) (ln : Listener) (m : Manager D) → Step m (add_tunnel s ln m)
    taken :
        (id ln c : ℕ) (m : Manager D)
        → All (λ t. has_conn (client c) t.conns ≡ false) m.tunnels
        → Step m (accept id ln c m)
    dial_marked :
        (id : ℕ) (problem : Option String) (m : Manager D) → Step m (mark_dial id problem m)
    piped : (id c : ℕ) (m : Manager D) → Step m (add_remote id c m)
    ended : (id c : ℕ) (m : Manager D) → Step m (delete_remote id c m)
    let_go : (id c : ℕ) (m : Manager D) → Step m (release id c m)
    stopped_one : (id : ℕ) (m : Manager D) → Step m (at (is_entry id) halted m)
    resumed : (id : ℕ) (ln : Listener) (m : Manager D) → Step m (reopen id ln m)
    removed : (id : ℕ) (m : Manager D) → Step m (remove id m)
    all_closed : (m : Manager D) → Step m (close_all m)

  -- What the sections lead to from a new manager.
  pub data Reachable : Manager D → Type 0 where
    fresh : Reachable new
    after : {m m' : Manager D} → Reachable m → Step m m' → Reachable m'

abbrev pub is_none : Option ℕ → Bool
is_none none = true
is_none (some ln) = false

-- How many of the connections are a client's.
abbrev pub clients : List Conn → ℕ
clients [] = 0
clients (client c ∷ cs) = suc (clients cs)
clients (remote c ∷ cs) = clients cs

-- The counter is the number of the clients, of which no more are open than came; a listed tunnel
-- listens unless it is stopped, a removed one does not; without a listener no client is left.
abbrev pub IsSound : Tunnel → Type 0
IsSound t =
    (t.info.conns ≡ clients t.conns)
    × (t.info.conns ≤ t.info.total)
    × (t.listed ≡ true → is_none t.ln ≡ is_stopped t.info.state)
    × (t.listed ≡ false → is_none t.ln ≡ true)
    × (is_none t.ln ≡ true → t.info.conns ≡ 0)

abbrev pub IsIncreasing : List Tunnel → Type 0
IsIncreasing [] = Unit
IsIncreasing (t ∷ ts) = All (λ u. t.info.id < u.info.id) ts × IsIncreasing ts

abbrev pub IsValid : {D : Type 0} → Manager D → Type 0
IsValid m =
    All IsSound m.tunnels × IsIncreasing m.tunnels × All (λ t. t.info.id < m.next_id) m.tunnels

pub clients-put :
    (c : ℕ) (cs : List Conn)
    → has_conn (client c) cs ≡ false
    → clients (put_conn (client c) cs) ≡ suc (clients cs)
unfolding put_conn
clients-put c cs h = rw h

pub clients-put_remote : (c : ℕ) (cs : List Conn) → clients (put_conn (remote c) cs) ≡ clients cs
unfolding put_conn
clients-put_remote c cs = elim (Bool-cases (has_conn (remote c) cs)) [ inl t ↦ rw t | inr f ↦ rw f ]

pub clients-delete :
    (c : ℕ) (cs : List Conn)
    → has_conn (client c) cs ≡ true
    → suc (clients (delete_conn (client c) cs)) ≡ clients cs
unfolding has_conn delete_conn
clients-delete c [] h = absurd (ground arith)
clients-delete c (client d ∷ cs) h = elim (Bool-cases (eqb c d)) [
  | inl t ↦ rw t
  | inr f ↦ rw f (ap suc (clients-delete c cs (ground arith)))
]
clients-delete c (remote d ∷ cs) h = clients-delete c cs (ground arith)

pub clients-delete_remote :
    (c : ℕ) (cs : List Conn) → clients (delete_conn (remote c) cs) ≡ clients cs
unfolding delete_conn
clients-delete_remote c [] = refl
clients-delete_remote c (client d ∷ cs) = ap suc (clients-delete_remote c cs)
clients-delete_remote c (remote d ∷ cs) = elim (Bool-cases (eqb c d)) [
  | inl t ↦ rw t
  | inr f ↦ rw f (clients-delete_remote c cs)
]
