-- ===== src/PortForward/Valid.antt =====
-- portfwd.go: the manager stays sound whatever happens to it.
use d9c.Base.{
  ◌≡◌, refl, inl, inr, ℕ, ◌<◌, Bool, true, false, String, Option, List, [], ◌∷◌, ◌++◌, map,
  if◌then◌else◌, arith, All, All-map, All-append, Bool-cases, &&_iff,
}
use d9c.PortForward.{
  Spec, Listener, client, has_conn, Tunnel, Manager, has_id, is_entry, accepted, dialled, released,
  halted, unlisted, reopened, made, set_dialer, at, add_tunnel, accept, mark_dial, add_remote,
  delete_remote, release, reopen, remove, close_all,
}
use d9c.PortForward.Steps.{
  Step, dialer_set, started, taken, dial_marked, piped, ended, let_go, stopped_one, resumed,
  removed, all_closed, Reachable, fresh, after, IsSound, IsIncreasing, IsValid,
}
use d9c.PortForward.Sound.{
  made-IsSound, accepted-IsSound, dialled-IsSound, with_remote-IsSound, without_remote-IsSound,
  released-IsSound, halted-IsSound, unlisted-IsSound, reopened-IsSound,
}

-- The change of one tunnel, or of none.
abbrev chosen : (Tunnel → Bool) → (Tunnel → Tunnel) → Tunnel → Tunnel
chosen which f t = if which t then f t else t

-- A change that keeps the IDs.
abbrev KeepsId : (Tunnel → Tunnel) → Type 0
KeepsId f = (t : Tunnel) → (f t).info.id ≡ t.info.id

chosen-KeepsId :
    (which : Tunnel → Bool) (f : Tunnel → Tunnel) → KeepsId f → KeepsId (chosen which f)
chosen-KeepsId which f k t = elim (Bool-cases (which t)) [ inl e ↦ rw e (k t) | inr e ↦ rw e ]

map-All :
    (P Q : Tunnel → Type 0) (g : Tunnel → Tunnel) (ts : List Tunnel)
    → ((t : Tunnel) → P t → Q (g t))
    → All P ts
    → All Q (map g ts)
map-All P Q g [] f h = tt
map-All P Q g (t ∷ ts) f h = (f t h.0, map-All P Q g ts f h.1)

map-IsIncreasing :
    (g : Tunnel → Tunnel) (ts : List Tunnel) → KeepsId g → IsIncreasing ts → IsIncreasing (map g ts)
map-IsIncreasing g [] k h = tt
map-IsIncreasing g (t ∷ ts) k h = (
  map-All (λ u. t.info.id < u.info.id) (λ u. (g t).info.id < u.info.id) g ts
      (λ u l. omega (arith, l, k t, k u)) h.0,
  map-IsIncreasing g ts k h.1,
)

append-IsIncreasing :
    (t : Tunnel) (ts : List Tunnel)
    → All (λ u. u.info.id < t.info.id) ts
    → IsIncreasing ts
    → IsIncreasing (ts ++ (t ∷ []))
append-IsIncreasing t [] b h = (tt, tt)
append-IsIncreasing t (u ∷ ts) b h =
    (All-append _ ts (t ∷ []) h.0 (b.0, tt), append-IsIncreasing t ts b.1 h.1)

accepted-KeepsId : (ln c : ℕ) → KeepsId (accepted ln c)
unfolding accepted
accepted-KeepsId ln c t = ground arith

dialled-KeepsId : (problem : Option String) → KeepsId (dialled problem)
unfolding dialled
dialled-KeepsId problem t = ground arith

released-KeepsId : (c : ℕ) → KeepsId (released c)
unfolding released
released-KeepsId c t = ground arith

halted-KeepsId : KeepsId halted
unfolding halted
halted-KeepsId t = refl

unlisted-KeepsId : KeepsId unlisted
unfolding unlisted
unlisted-KeepsId t = refl

reopened-KeepsId : (ln : ℕ) → KeepsId (reopened ln)
unfolding reopened
reopened-KeepsId ln t = ground arith

anywhere : (ts : List Tunnel) → All (λ t. Unit {0}) ts
anywhere [] = tt
anywhere (t ∷ ts) = (tt, anywhere ts)

module _ {D : Type 0} where
  -- A change of the chosen tunnels, sound where P holds.
  at-IsValid :
      (P : Tunnel → Type 0) (which : Tunnel → Bool) (f : Tunnel → Tunnel) (m : Manager D)
      → KeepsId f
      → ((t : Tunnel) → which t ≡ true → P t → IsSound t → IsSound (f t))
      → All P m.tunnels
      → IsValid m
      → IsValid (at which f m)
  unfolding at
  at-IsValid P which f m k sound p v = (
    both m.tunnels p v.0,
    map-IsIncreasing (chosen which f) m.tunnels (chosen-KeepsId which f k) v.1,
    map-All _ (λ t. t.info.id < m.next_id) (chosen which f) m.tunnels
        (λ t l. omega (arith, l, chosen-KeepsId which f k t)) v.2,
  )
    where
      both : (ts : List Tunnel) → All P ts → All IsSound ts → All IsSound (map (chosen which f) ts)
      both [] p s = tt
      both (t ∷ ts) p s = (
        elim (Bool-cases (which t)) [ inl e ↦ rw e (sound t e p.0 s.0) | inr e ↦ rw e s.0 ],
        both ts p.1 s.1,
      )

  -- A change that is always sound.
  sound_at-IsValid :
      (which : Tunnel → Bool) (f : Tunnel → Tunnel) (m : Manager D)
      → KeepsId f
      → ((t : Tunnel) → which t ≡ true → IsSound t → IsSound (f t))
      → IsValid m
      → IsValid (at which f m)
  sound_at-IsValid which f m k sound v =
      at-IsValid (λ t. Unit {0}) which f m k (λ t e u s. sound t e s) (anywhere m.tunnels) v

  started_lem : (s : Spec) (ln : Listener) (m : Manager D) → IsValid m → IsValid (add_tunnel s ln m)
  unfolding add_tunnel made
  started_lem s ln m v = (
    All-append IsSound m.tunnels _ v.0 (made-IsSound s ln m.next_id, tt),
    append-IsIncreasing (made s ln m.next_id) m.tunnels v.2 v.1,
    All-append _ m.tunnels _ (All-map _ _ m.tunnels (λ t l. omega (arith, l)) v.2)
        (omega arith, tt),
  )

  Step-IsValid : {m m' : Manager D} → Step m m' → IsValid m → IsValid m'
  unfolding set_dialer accept mark_dial add_remote delete_remote release reopen remove close_all
  Step-IsValid (dialer_set d m) v = v
  Step-IsValid (started s ln m) v = started_lem s ln m v
  Step-IsValid (taken id ln c m free) v =
      at-IsValid (λ t. has_conn (client c) t.conns ≡ false) (has_id id) (accepted ln c) m
        (accepted-KeepsId ln c) (λ t e. accepted-IsSound ln c t) free v
  Step-IsValid (dial_marked id problem m) v =
      sound_at-IsValid (has_id id) (dialled problem) m (dialled-KeepsId problem)
        (λ t e. dialled-IsSound problem t) v
  Step-IsValid (piped id c m) v =
      sound_at-IsValid (has_id id) _ m (λ t. refl) (λ t e. with_remote-IsSound c t) v
  Step-IsValid (ended id c m) v =
      sound_at-IsValid (has_id id) _ m (λ t. refl) (λ t e. without_remote-IsSound c t) v
  Step-IsValid (let_go id c m) v =
      sound_at-IsValid (has_id id) (released c) m (released-KeepsId c) (λ t e. released-IsSound c t)
        v
  Step-IsValid (stopped_one id m) v =
      sound_at-IsValid (is_entry id) halted m halted-KeepsId (λ t e. halted-IsSound t) v
  Step-IsValid (resumed id ln m) v =
      sound_at-IsValid (is_entry id) (reopened ln.ident) m (reopened-KeepsId ln.ident)
        (λ t e. reopened-IsSound ln.ident t ((&&_iff t.listed (has_id id t)).0 e).0) v
  Step-IsValid (removed id m) v =
      sound_at-IsValid (is_entry id) unlisted m unlisted-KeepsId (λ t e. unlisted-IsSound t) v
  Step-IsValid (all_closed m) v =
      sound_at-IsValid (λ t. t.listed) unlisted m unlisted-KeepsId (λ t e. unlisted-IsSound t) v

-- Whatever the goroutines and the user do to the manager, one section under its lock at a time in
-- any order: the IDs stay below the next one and increase, the counter of a tunnel is the number of
-- its open client connections and not above the total, a listed tunnel has a listener exactly if it
-- is not stopped, and one that is stopped or removed has neither listener nor client connection.
pub Reachable-IsValid : {D : Type 0} {m : Manager D} → Reachable m → IsValid m
Reachable-IsValid fresh = (tt, tt, tt)
Reachable-IsValid (after r step) = Step-IsValid step (Reachable-IsValid r)
