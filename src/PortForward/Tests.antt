-- ===== src/PortForward/Tests.antt =====
-- Runs of the tunnel manager at concrete calls.
use d9c.Base.{◌≡◌, ◌≢◌, refl, ℕ, false, some, List, [], ◌∷◌, String, map, keep, ok, err, All}
use mathlib.Core.List.{Perm}
use mathlib.Core.List.Perm
use d9c.Base.Int.{pos}
use d9c.Base.Sort.{IsSorted}
use d9c.PortForward.{
  Spec, Info, client, active, Listen, Listener, Tunnel, Manager, new, start, stop, resume, toggle,
  entry, get, list, listen_local, add_tunnel, made, accept, forwards, by_container, has_conn, at,
  is_entry, halted,
}
use d9c.PortForward.Steps.{
  Reachable, fresh, after, started, taken, stopped_one, IsValid, IsIncreasing,
}
use d9c.PortForward.Valid.{Reachable-IsValid}
use d9c.PortForward.Calls.{
  HasPorts, IsNew, start_result, toggle_twice, id_le, list_lem, at_rest, open_again,
}

abbrev web : Spec
web = record {
  container_id = "c1";
  name = "web";
  container_port = pos 80;
  local_port = pos 0;
  target = "";
}

abbrev db : Spec
db = record {
  container_id = "c2";
  name = "db";
  container_port = pos 5432;
  local_port = pos 5432;
  target = "";
}

abbrev free_port : Listener
free_port = record { ident = 7; port = pos 40000 }

abbrev listens : Listen
listens network address = ok free_port

abbrev empty : Manager String
empty = new

abbrev one : Manager String
one = add_tunnel web free_port empty

abbrev busy : Manager String
busy = accept 1 7 3 one

abbrev two : Manager String
two = add_tunnel db free_port (at (is_entry 1) halted busy)

two-Reachable : Reachable two
unfolding add_tunnel made has_conn
two-Reachable =
    after
      (after (after (after fresh (started web free_port empty)) (taken 1 7 3 one (refl, tt)))
        (stopped_one 1 busy))
      (started db free_port (at (is_entry 1) halted busy))

Reachable-IsValid_example : IsValid two
Reachable-IsValid_example = Reachable-IsValid two-Reachable

-- A loop over the map that meets the entries in the order in which they were started.
abbrev in_order : List Tunnel → List Tunnel
in_order ts = ts

list_lem_example :
    Perm (list in_order two) (map (λ t. t.info) (keep (λ t. t.listed) two.tunnels))
    × IsSorted id_le (list in_order two)
    × IsIncreasing two.tunnels
list_lem_example = list_lem two in_order (λ ts. Perm.refl ts) two-Reachable

start_result_example :
    ((problem : String) → (start listens web two).1 ≡ err problem → (start listens web two).0 ≡ two)
    × ((ln : Listener)
        → HasPorts web
        → All (λ t. forwards web t ≡ false) two.tunnels
        → listen_local listens web.local_port ≡ ok ln
        → (info : Info) × ((start listens web two).1 ≡ ok info)
          × IsNew info.id two
          × (info.state ≡ active)
          × (info.local_port ≡ ln.port)
          × (get info.id (start listens web two).0 ≡ ok info)
          × ((id : ℕ) → id ≢ info.id → get id (start listens web two).0 ≡ get id two))
start_result_example = start_result listens web two (Reachable-IsValid two-Reachable)

web_tunnel : Tunnel
unfolding made
web_tunnel = record (made web free_port 1) {
  info = record (made web free_port 1).info { conns = 1; total = 1 };
  conns = client 3 ∷ [];
}

toggle_twice_example :
    ((toggle listens 1 busy).1 ≡ ok (at_rest web_tunnel.info))
    × ((toggle listens 1 (toggle listens 1 busy).0).1 ≡ ok (open_again web_tunnel.info))
    × (entry 1 (toggle listens 1 (toggle listens 1 busy).0).0
        ≡ some (record web_tunnel { info = open_again web_tunnel.info; ln = some 7; conns = [] }))
unfolding web_tunnel entry accept at listen_local made add_tunnel
toggle_twice_example = toggle_twice listens 1 busy web_tunnel free_port refl refl refl

-- A tunnel that was stopped is resumed beside another that was started for the same port of the same
-- container meanwhile: Resume does not look for duplicates as Start does.
resume_duplicates :
    by_container (resume listens 1 (start listens web (stop 1 one).0).0).0 "c1"
    ≡ pos 40000 ∷ pos 40000 ∷ []
unfolding by_container resume start stop
resume_duplicates = refl
