-- ===== src/Hosts/Store.antt =====
-- hosts.go: the store of saved hosts. A method returns the store that it leaves and its error, `none`
-- for nil.
pub mod Names
pub mod Distinct
pub mod Kept
use d9c.Base.{
  ℕ, zero, suc, ◌+◌, Bool, true, false, ◌&&◌, ◌||◌, not, String, Option, none, some, List, [], ◌∷◌,
  ◌++◌, ◌<+>◌, ◌==◌, if◌then◌else◌, has_prefix, trim_space, quote, decimal, find_first, any, length,
  Result, ok,
}
use d9c.Hosts.{AgentPolicy, Host, has_tls}
use d9c.Hosts.Url.{is_ssh}

-- `persist` is the callback that writes the hosts, or nil.
pub record Store : Type 0 where
  pub hosts : List Host
  pub persist : Option (List Host → Result String (Unit {0}))

-- Store.Save
unfoldable pub save : Store → Result String (Unit {0})
save s = elim s.persist [ none ↦ ok tt | some f ↦ f s.hosts ]

-- Store.Find, over the hosts
unfoldable pub find : List Host → String → Option Host
find hosts name = find_first (λ h. h.name == name) hosts

-- Store.FindByURL
unfoldable pub find_by_url : List Host → String → Option Host
find_by_url hosts url = find_first (λ h. h.host == url) hosts

-- Store.ReadOnlyFor
unfoldable pub read_only_for : List Host → String → Bool
read_only_for hosts url =
    if url == "" then false else any (λ h. (h.host == url) && h.read_only) hosts

unfoldable pub drop_ssh : Host → Host
drop_ssh h = if is_ssh h.host then h else record h { ssh_auth = ""; ssh_key_path = "" }

unfoldable pub drop_key : Host → Host
drop_key h = if h.ssh_auth == "password" then record h { ssh_key_path = "" } else h

unfoldable pub drop_tls : Host → Host
drop_tls h =
    if has_prefix h.host "tcp://"
    then h
    else record h { tls_ca_cert = ""; tls_cert = ""; tls_key = "" }

-- Host.normalized
unfoldable pub normalized : Host → Host
normalized h = drop_tls (
    drop_key (
      drop_ssh (record h {
        name = trim_space h.name;
        host = trim_space h.host;
        ssh_key_path = trim_space h.ssh_key_path;
      })))

abbrev required_error : String
required_error = "name and host are required"

exists_error : String → String
exists_error name = "host " <+> quote name <+> " already exists"

unfoldable pub not_found_error : String → String
not_found_error name = "host " <+> quote name <+> " not found"

abbrev is_taken : List Host → String → Bool
is_taken hosts name = elim (find hosts name) [ none ↦ false | some _ ↦ true ]

abbrev pub plain_host : String → String → Host
plain_host name url = record {
  name = name;
  host = url;
  ssh_auth = "";
  ssh_key_path = "";
  read_only = false;
  tls_ca_cert = "";
  tls_cert = "";
  tls_key = "";
  agent = none;
}

-- Appends a host unless a field is empty or the name is taken.
append_new : Store → Host → Store × Option String
unfolding exists_error
append_new s h =
    if (h.name == "") || (h.host == "")
    then (s, some required_error)
    else if is_taken s.hosts h.name
    then (s, some (exists_error h.name))
    else (record s { hosts = s.hosts ++ h ∷ [] }, none)

-- Store.Add
unfoldable pub add : Store → String → String → Store × Option String
unfolding append_new
add s name url = append_new s (plain_host (trim_space name) (trim_space url))

-- Store.AddHost
unfoldable pub add_host : Store → Host → Store × Option String
unfolding append_new
add_host s h = append_new s (normalized h)

-- What EditHost carries over from the entry that it replaces.
unfoldable pub carry : Host → Host → Host
carry old h =
    let h' : Host = record h { read_only = old.read_only; agent = old.agent } in
    if has_tls h'
    then h'
    else normalized (record h' {
      tls_ca_cert = old.tls_ca_cert;
      tls_cert = old.tls_cert;
      tls_key = old.tls_key;
    })

abbrev pub prepend : Host → Option (List Host) → Option (List Host)
prepend h none = none
prepend h (some l) = some (h ∷ l)

-- The first host of the name is replaced; `none` where there is none.
unfoldable pub replace_named : List Host → String → (Host → Host) → Option (List Host)
replace_named [] name f = none
replace_named (h ∷ rest) name f =
    if h.name == name then some (f h ∷ rest) else prepend h (replace_named rest name f)

-- Store.EditHost
unfoldable pub edit_host : Store → String → Host → Store × Option String
unfolding exists_error
edit_host s name h0 =
    let h = normalized h0 in
    if (h.name == "") || (h.host == "")
    then (s, some required_error)
    else elim (replace_named s.hosts name (λ old. carry old h)) [
      | none ↦ (s, some (not_found_error name))
      | some hosts' ↦
          if not (h.name == name) && is_taken s.hosts h.name
          then (s, some (exists_error h.name))
          else (record s { hosts = hosts' }, none)
    ]

-- Store.Edit
unfoldable pub edit : Store → String → String → String → Store × Option String
edit s name new_name new_host = edit_host s name (plain_host new_name new_host)

-- The first host of the name is dropped; `none` where there is none.
unfoldable pub remove_named : List Host → String → Option (List Host)
remove_named [] name = none
remove_named (h ∷ rest) name =
    if h.name == name then some rest else prepend h (remove_named rest name)

-- Store.Remove
unfoldable pub remove : Store → String → Store × Option String
remove s name = elim (remove_named s.hosts name) [
  | none ↦ (s, some (not_found_error name))
  | some hosts' ↦ (record s { hosts = hosts' }, none)
]

-- The names that uniqueName tries: the base, then base-2, base-3 and so on.
unfoldable pub candidate : String → ℕ → String
candidate base zero = base
candidate base (suc i) = base <+> "-" <+> decimal (i + 2)

-- The loop of uniqueName from the i-th name on; `none` when the fuel is used up.
unfoldable pub first_free : ℕ → List Host → String → ℕ → Option String
first_free zero hosts base i = none
first_free (suc fuel) hosts base i =
    let next = first_free fuel hosts base (suc i) in
    elim (find hosts (candidate base i)) [ none ↦ some (candidate base i) | some _ ↦ next ]

-- uniqueName
unfoldable pub unique_name : List Host → String → Option String
unique_name hosts base =
    first_free (suc (length hosts)) hosts (if base == "" then "host" else base) 0

-- Appends a host under the unique name; without one nothing changes.
abbrev append_unique : Store → String → Host → Store
append_unique s base h = elim (unique_name s.hosts base) [
  | none ↦ s
  | some name ↦ record s { hosts = s.hosts ++ record h { name = name } ∷ [] }
]

-- net/url.Parse: the login, empty where there is none, and the host name, or an error.
module _ (parse_url : String → Option (String × String)) where
  -- deriveName
  unfoldable pub derive_name : String → String
  derive_name url = elim (parse_url url) [
    | none ↦ url
    | some (login, hostname) ↦
        if hostname == "" then url else if login == "" then hostname else login <+> "@" <+> hostname
  ]

  -- Store.UpsertByHost
  unfoldable pub upsert_by_host : Store → String → Store × Bool
  upsert_by_host s url0 =
      let url = trim_space url0 in
      if url == "" then (s, false) else elim (find_by_url s.hosts url) [
        | some _ ↦ (s, false)
        | none ↦ (append_unique s (derive_name url) (plain_host "" url), true)
      ]

pub data ImportResult : Type 0 where
  imported skipped invalid : ImportResult

-- Store.Import: the outcome, and the name under which the host is stored.
unfoldable pub import_host : Store → Host → Store × ImportResult × String
import_host s h0 =
    let h = normalized h0 in
    if (h.name == "") || (h.host == "")
    then (s, invalid, "")
    else elim (find_by_url s.hosts h.host) [
      | some existing ↦ (s, skipped, existing.name)
      | none ↦ elim (unique_name s.hosts h.name) [
        | none ↦ (s, invalid, "")
        | some name ↦
            (record s { hosts = s.hosts ++ record h { name = name } ∷ [] }, imported, name)
      ]
    ]
