-- ===== src/PortForward/Sound.antt =====
-- portfwd.go: each section under the lock keeps a tunnel sound.
use d9c.Base.{
  ◌≡◌, refl, sym, ◌∙◌, inl, inr, ℕ, true, false, String, Option, eqb, arith, Bool-cases,
  Option-cases,
}
use d9c.PortForward.{
  Spec, Listener, client, remote, has_conn, put_conn, delete_conn, Tunnel, is_stopped, close_locked,
  accepted, dialled, released, halted, unlisted, reopened, made,
}
use d9c.PortForward.Steps.{
  IsSound, clients-put, clients-put_remote, clients-delete, clients-delete_remote,
}

pub made-IsSound : (s : Spec) (ln : Listener) (id : ℕ) → IsSound (made s ln id)
unfolding made
made-IsSound s ln id = (refl, omega arith, λ e. refl, λ e. cc, λ e. cc)

pub accepted-IsSound :
    (ln c : ℕ) (t : Tunnel)
    → has_conn (client c) t.conns ≡ false
    → IsSound t
    → IsSound (accepted ln c t)
unfolding accepted
accepted-IsSound ln c t new_one s = elim (Option-cases t.ln) [
  | inl e ↦ rw e (rw e at s)
  | inr (ln', e) ↦ elim (Bool-cases (eqb ln' ln)) [
    | inl same ↦
        rw (e, same)
          ((
            omega (arith, clients-put c t.conns new_one, s.0),
            omega (arith, s.1),
            rw e at s.2,
            rw e at s.3,
            λ h. cc,
          ))
    | inr other ↦ rw (e, other) (rw e at s)
  ]
]

pub dialled-IsSound :
    (problem : Option String) (t : Tunnel) → IsSound t → IsSound (dialled problem t)
unfolding dialled
dialled-IsSound problem t s = elim (Bool-cases (is_stopped t.info.state)) [
  | inl e ↦ rw e s
  | inr e ↦ elim (Option-cases problem) [
    | inl p ↦ rw (e, p) ((s.0, s.1, rw e at s.2, s.3, s.4))
    | inr (text, p) ↦ rw (e, p) ((s.0, s.1, rw e at s.2, s.3, s.4))
  ]
]

pub with_remote-IsSound :
    (c : ℕ) (t : Tunnel) → IsSound t → IsSound (record t { conns = put_conn (remote c) t.conns })
with_remote-IsSound c t s = (s.0 ∙ sym (clients-put_remote c t.conns), s.1, s.2, s.3, s.4)

pub without_remote-IsSound :
    (c : ℕ) (t : Tunnel) → IsSound t → IsSound (record t { conns = delete_conn (remote c) t.conns })
without_remote-IsSound c t s = (s.0 ∙ sym (clients-delete_remote c t.conns), s.1, s.2, s.3, s.4)

pub released-IsSound : (c : ℕ) (t : Tunnel) → IsSound t → IsSound (released c t)
unfolding released
released-IsSound c t s = elim (Bool-cases (has_conn (client c) t.conns)) [
  | inl e ↦ rw e (
      (
        omega (arith, s.0, clients-delete c t.conns e),
        omega (arith, s.1),
        s.2,
        s.3,
        λ h. omega (arith, s.4 h),
      ))
  | inr e ↦ rw e s
]

pub halted-IsSound : (t : Tunnel) → IsSound t → IsSound (halted t)
unfolding halted close_locked
halted-IsSound t s = (refl, omega arith, λ h. refl, λ h. refl, λ h. refl)

pub unlisted-IsSound : (t : Tunnel) → IsSound t → IsSound (unlisted t)
unfolding unlisted close_locked
unlisted-IsSound t s = (refl, omega arith, λ h. cc, λ h. refl, λ h. refl)

pub reopened-IsSound : (ln : ℕ) (t : Tunnel) → t.listed ≡ true → IsSound t → IsSound (reopened ln t)
unfolding reopened
reopened-IsSound ln t l s = elim (Bool-cases (is_stopped t.info.state)) [
  | inl e ↦ rw e ((s.0, s.1, λ h. refl, λ h. cc, λ h. cc))
  | inr e ↦ rw e s
]
