-- ===== src/Hosts/Store/Kept.antt =====
-- hosts.go: the methods of the store keep the names of its hosts distinct.
use d9c.Base.{
  ◌≡◌, sym, ap, ◌∙◌, ◌⊎◌, inl, inr, false, not, ◌&&◌, ◌||◌, String, Option, none, some, List, ◌==◌,
  arith, eq_iff, Bool-cases, Option-cases, trim_space,
}
use d9c.Base.Text.Trim.{trim_space_idem}
use d9c.Hosts.{Host, has_tls}
use d9c.Hosts.Store.{
  Store, not_found_error, plain_host, append_unique, drop_ssh, drop_key, drop_tls, find,
  find_by_url, normalized, add, add_host, edit_host, edit, carry, replace_named, remove,
  remove_named, append_new, upsert_by_host, derive_name, import_host, is_taken,
}
use d9c.Hosts.Store.Names.{unique_name_free}
use d9c.Hosts.Store.Distinct.{
  AreDistinct, AreDistinct-append, remove_named-AreDistinct, replace_named-AreDistinct,
}

append_new-AreDistinct :
    (s : Store) (h : Host) → AreDistinct s.hosts → AreDistinct (append_new s h).0.hosts
unfolding append_new
append_new-AreDistinct s h d = elim (Bool-cases ((h.name == "") || (h.host == ""))) [
  | inl t ↦ rw t d
  | inr f ↦ elim (Option-cases (find s.hosts h.name)) [
    | inl e ↦ rw (f, e, is_taken) (AreDistinct-append s.hosts h d e)
    | inr (x, e) ↦ rw (f, e, is_taken) d
  ]
]

name-drop_ssh : (h : Host) → (drop_ssh h).name ≡ h.name
unfolding drop_ssh
name-drop_ssh h = ground arith

name-drop_key : (h : Host) → (drop_key h).name ≡ h.name
unfolding drop_key
name-drop_key h = ground arith

name-drop_tls : (h : Host) → (drop_tls h).name ≡ h.name
unfolding drop_tls
name-drop_tls h = ground arith

pub name-normalized : (h : Host) → (normalized h).name ≡ trim_space h.name
unfolding normalized
name-normalized h = name-drop_tls _ ∙ name-drop_key _ ∙ name-drop_ssh _

pub carry-name : (old h : Host) → trim_space h.name ≡ h.name → (carry old h).name ≡ h.name
unfolding carry
carry-name old h t =
    elim (Bool-cases (has_tls (record h { read_only = old.read_only; agent = old.agent }))) [
      | inl tls ↦ rw tls
      | inr plain ↦ rw plain (name-normalized _ ∙ t)
    ]

untaken :
    (hosts : List Host) (m name : String)
    → (not (m == name) && is_taken hosts m) ≡ false
    → (m ≡ name) ⊎ (find hosts m ≡ none)
untaken hosts m name h = elim (Option-cases (find hosts m)) [
  | inl e ↦ inr e
  | inr (x, e) ↦ inl (ground (arith, eq_iff m name))
]

edit_host-AreDistinct :
    (s : Store) (name : String) (h : Host)
    → AreDistinct s.hosts
    → AreDistinct (edit_host s name h).0.hosts
unfolding edit_host
edit_host-AreDistinct s name h d =
    let n = normalized h in
    elim (Bool-cases ((n.name == "") || (n.host == ""))) [
      | inl t ↦ rw t d
      | inr f ↦ elim (Option-cases (replace_named s.hosts name (λ old. carry old n))) [
        | inl e ↦ rw (f, e) d
        | inr (hosts', e) ↦ elim (Bool-cases (not (n.name == name) && is_taken s.hosts n.name)) [
          | inl t ↦ rw (f, e, t) d
          | inr free ↦
              rw (f, e, free)
                (replace_named-AreDistinct s.hosts hosts' name (λ old. carry old n) n.name
                  (λ old. carry-name old n (
                    ap trim_space (name-normalized h)
                    ∙ trim_space_idem h.name
                    ∙ sym (name-normalized h)))
                  (untaken s.hosts n.name name free) e d)
        ]
      ]
    ]

remove-none :
    (s : Store) (name : String)
    → remove_named s.hosts name ≡ none
    → remove s name ≡ (s, some (not_found_error name))
unfolding remove
remove-none s name e = rw (e, remove)

remove-some :
    (s : Store) (name : String) (l : List Host)
    → remove_named s.hosts name ≡ some l
    → remove s name ≡ (record s { hosts = l }, none)
unfolding remove
remove-some s name l e = rw (e, remove)

remove-AreDistinct :
    (s : Store) (name : String) → AreDistinct s.hosts → AreDistinct (remove s name).0.hosts
remove-AreDistinct s name d = elim (Option-cases (remove_named s.hosts name)) [
  | inl e ↦ rw (remove-none s name e) d
  | inr (hosts', e) ↦
      rw (remove-some s name hosts' e) (remove_named-AreDistinct s.hosts hosts' name e d)
]

append_unique-AreDistinct :
    (s : Store) (base : String) (h : Host)
    → AreDistinct s.hosts
    → AreDistinct (append_unique s base h).hosts
append_unique-AreDistinct s base h d =
    let (n, found, free) = unique_name_free s.hosts base in
    rw (found, append_unique) (AreDistinct-append s.hosts (record h { name = n }) d free)

upsert-AreDistinct :
    (parse_url : String → Option (String × String)) (s : Store) (url : String)
    → AreDistinct s.hosts
    → AreDistinct (upsert_by_host parse_url s url).0.hosts
unfolding upsert_by_host
upsert-AreDistinct parse_url s url d = elim (Bool-cases (trim_space url == "")) [
  | inl t ↦ rw t d
  | inr f ↦ elim (Option-cases (find_by_url s.hosts (trim_space url))) [
    | inr (x, e) ↦ rw (f, e) d
    | inl e ↦
        rw (f, e)
          (append_unique-AreDistinct s (derive_name parse_url (trim_space url))
            (plain_host "" (trim_space url)) d)
  ]
]

import-AreDistinct :
    (s : Store) (h : Host) → AreDistinct s.hosts → AreDistinct (import_host s h).0.hosts
unfolding import_host
import-AreDistinct s h d =
    let n = normalized h in
    elim (Bool-cases ((n.name == "") || (n.host == ""))) [
      | inl t ↦ rw t d
      | inr f ↦ elim (Option-cases (find_by_url s.hosts n.host)) [
        | inr (x, e) ↦ rw (f, e) d
        | inl e ↦
            let (m, found, free) = unique_name_free s.hosts n.name in
            rw (f, e, found) (AreDistinct-append s.hosts (record n { name = m }) d free)
      ]
    ]

-- Every method that changes the store keeps the names of its hosts distinct, whatever it is given and
-- whether it fails or not: Add, AddHost, EditHost, Edit, Remove, UpsertByHost and Import.
pub store-AreDistinct :
    (parse_url : String → Option (String × String)) (s : Store) (name url new_name : String)
    (h : Host)
    → AreDistinct s.hosts
    → AreDistinct (add s name url).0.hosts
      × AreDistinct (add_host s h).0.hosts
      × AreDistinct (edit_host s name h).0.hosts
      × AreDistinct (edit s name new_name url).0.hosts
      × AreDistinct (remove s name).0.hosts
      × AreDistinct (upsert_by_host parse_url s url).0.hosts
      × AreDistinct (import_host s h).0.hosts
unfolding add add_host edit
store-AreDistinct parse_url s name url new_name h d = (
  append_new-AreDistinct s (plain_host (trim_space name) (trim_space url)) d,
  append_new-AreDistinct s (normalized h) d,
  edit_host-AreDistinct s name h d,
  edit_host-AreDistinct s name (plain_host new_name url) d,
  remove-AreDistinct s name d,
  upsert-AreDistinct parse_url s url d,
  import-AreDistinct s h d,
)
