-- ===== src/PortForward/Tunnels.antt =====
-- portfwd.go: the tunnels, and what becomes of one under the lock.
use d9c.Base.{
  ℕ, suc, ◌-◌, Bool, true, false, not, ◌&&◌, ◌||◌, String, Option, none, some, List, [], ◌∷◌, any,
  Result, ok, err, ◌<+>◌, ◌==◌, if◌then◌else◌, eqb, decimal, to_lower, contains,
}
use d9c.Base.Int.{ℤ, leb_ℤ, show_int}

pub record Spec : Type 0 where
  pub container_id : String
  pub name : String
  pub container_port : ℤ
  pub local_port : ℤ
  pub target : String

pub data State : Type 0 where
  active : State
  failing : State
  stopped : State

-- State.String
unfoldable pub show_state : State → String
show_state active = "active"
show_state failing = "failing"
show_state stopped = "stopped"

abbrev pub is_stopped : State → Bool
is_stopped active = false
is_stopped failing = false
is_stopped stopped = true

pub record Info : Type 0 where
  pub id : ℕ
  pub spec : Spec
  pub state : State
  pub local_port : ℤ
  pub conns : ℕ
  pub total : ℕ
  pub last_err : String

abbrev pub loopback : String
loopback = "127.0.0.1"

-- Info.LocalAddr
unfoldable pub local_addr : Info → String
local_addr i = loopback <+> ":" <+> show_int i.local_port

-- The two ends of what is piped.
pub data Conn : Type 0 where
  client : ℕ → Conn
  remote : ℕ → Conn

abbrev pub eq_conn : Conn → Conn → Bool
eq_conn (client a) (client b) = eqb a b
eq_conn (client a) (remote b) = false
eq_conn (remote a) (client b) = false
eq_conn (remote a) (remote b) = eqb a b

-- A set of connections: the test, the insertion and the deletion of a map's key.
unfoldable pub has_conn : Conn → List Conn → Bool
has_conn c cs = any (eq_conn c) cs

unfoldable pub put_conn : Conn → List Conn → List Conn
unfolding has_conn
put_conn c cs = if has_conn c cs then cs else c ∷ cs

unfoldable pub delete_conn : Conn → List Conn → List Conn
delete_conn c [] = []
delete_conn c (d ∷ cs) = let rest = delete_conn c cs in if eq_conn c d then cs else d ∷ rest

-- A listener of package net, and the port that it is bound to.
pub record Listener : Type 0 where
  pub ident : ℕ
  pub port : ℤ

-- An error of package net, and whether it is EADDRINUSE.
pub record ListenError : Type 0 where
  pub text : String
  pub in_use : Bool

-- net.Listen, at a network and an address.
abbrev pub Listen : Type 0
Listen = String → String → Result ListenError Listener

pub record Tunnel : Type 0 where
  pub info : Info
  pub ln : Option ℕ
  pub conns : List Conn
  pub listed : Bool

pub record Manager (D : Type 0) : Type 0 where
  pub dialer : Option D
  pub tunnels : List Tunnel
  pub next_id : ℕ

-- isAddrInUse
unfoldable pub is_addr_in_use : ListenError → Bool
is_addr_in_use e =
    e.in_use
    || (contains (to_lower e.text) "address already in use"
        || contains (to_lower e.text) "only one usage of each socket address")

-- friendlyListenErr
unfoldable pub friendly_listen_err : ℤ → ListenError → String
unfolding is_addr_in_use
friendly_listen_err port e =
    if is_addr_in_use e
    then "local port "
      <+> show_int port
      <+> " is busy — choose another or leave the field empty for a free port"
    else if contains (to_lower e.text) "forbidden by its access permissions"
        || contains (to_lower e.text) "permission denied"
    then "local port "
      <+> show_int port
      <+> " is unavailable (reserved by the system or needs privileges) — choose another"
    else "listen on " <+> loopback <+> ":" <+> show_int port <+> ": " <+> e.text

-- Manager.listenLocal
unfoldable pub listen_local : Listen → ℤ → Result String Listener
unfolding friendly_listen_err
listen_local listen port = elim (listen "tcp" (loopback <+> ":" <+> show_int port)) [
  | ok ln ↦ ok ln
  | err e ↦ err (friendly_listen_err port e)
]

-- A tunnel, through its pointer; the map's entry of an ID.
abbrev pub has_id : ℕ → Tunnel → Bool
has_id id t = eqb t.info.id id

abbrev pub is_entry : ℕ → Tunnel → Bool
is_entry id t = t.listed && has_id id t

-- tunnel.closeLocked
unfoldable pub close_locked : Tunnel → Tunnel
close_locked t =
    let closed : Info = record t.info { conns = 0 } in
    record t { ln = none; conns = []; info = closed }

abbrev pub no_such_tunnel : ℕ → String
no_such_tunnel id = "no such tunnel: " <+> decimal id

-- What becomes of one tunnel under the lock: in serve, markDial, release, Stop, Remove and the end of
-- Resume.
unfoldable pub accepted : ℕ → ℕ → Tunnel → Tunnel
unfolding put_conn
accepted ln c t =
    let counted : Info = record t.info { conns = suc t.info.conns; total = suc t.info.total } in
    elim t.ln [
      | none ↦ t
      | some ln' ↦
          if eqb ln' ln then record t { conns = put_conn (client c) t.conns; info = counted } else t
    ]

unfoldable pub dialled : Option String → Tunnel → Tunnel
dialled problem t =
    let up : Info = record t.info { state = active; last_err = "" } in
    if is_stopped t.info.state then t else elim problem [
      | some text ↦
          let down : Info = record t.info { state = failing; last_err = text } in
          record t { info = down }
      | none ↦ record t { info = up }
    ]

unfoldable pub released : ℕ → Tunnel → Tunnel
unfolding has_conn delete_conn
released c t =
    let fewer : Info = record t.info { conns = t.info.conns - 1 } in
    if has_conn (client c) t.conns
    then record t { conns = delete_conn (client c) t.conns; info = fewer }
    else t

unfoldable pub halted : Tunnel → Tunnel
unfolding close_locked
halted t =
    let t' = close_locked t in
    let at_rest : Info = record t'.info { state = stopped; last_err = "" } in
    record t' { info = at_rest }

unfoldable pub unlisted : Tunnel → Tunnel
unfolding close_locked
unlisted t = record (close_locked t) { listed = false }

unfoldable pub reopened : ℕ → Tunnel → Tunnel
reopened ln t =
    let up : Info = record t.info { state = active; last_err = "" } in
    if is_stopped t.info.state then record t { ln = some ln; info = up } else t

-- Whether a tunnel is open for the container and the port.
unfoldable pub forwards : Spec → Tunnel → Bool
forwards s t =
    t.listed
    && ((t.info.spec.container_id == s.container_id)
        && (leb_ℤ t.info.spec.container_port s.container_port
            && leb_ℤ s.container_port t.info.spec.container_port)
        && not (is_stopped t.info.state))

-- The tunnel that Start makes of its listener.
unfoldable pub made : Spec → Listener → ℕ → Tunnel
made s ln id =
    let info : Info = record {
      id = id;
      spec = s;
      state = active;
      local_port = ln.port;
      conns = 0;
      total = 0;
      last_err = "";
    } in
    record { info = info; ln = some ln.ident; conns = []; listed = true }
