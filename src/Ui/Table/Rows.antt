-- ===== src/Ui/Table/Rows.antt =====
-- table.go: the rows that the tables show of their resources, those that match the filter.
use d9c.Base.{
  Bool, String, Option, none, some, List, [], ◌∷◌, ltb, if◌then◌else◌, ◌<+>◌, ◌==◌, decimal, ◌/◌,
}
use d9c.Base.Int.{ℤ, pos, negsuc, show_int}
use d9c.Hosts.{Host}
use d9c.Filter.{Target, Matcher, matches}
use d9c.Ui.Table.{
  Row, Container, ContainerStats, Model, sort_containers, sort_by_name, truncate, mark_forwards,
}

-- A set, or nil.
abbrev pub Marked : Type 0
Marked = Option (String → Bool)

-- selMarker
unfoldable pub sel_marker : String → Marked → String
sel_marker id none = "  "
sel_marker id (some selected) = if selected id then "● " else "  "

-- alertMarker
unfoldable pub alert_marker : String → Marked → String
alert_marker id none = ""
alert_marker id (some alerted) = if alerted id then "⚠ " else "  "

-- containerTarget
unfoldable pub container_target : Container → Target
container_target c = record {
  text = c.name <+> c.image <+> c.status;
  status = c.status <+> " " <+> c.state;
  labels = c.labels;
  networks = c.networks;
}

-- filter.Target with the text only
abbrev pub text_target : String → Target
text_target text = record { text = text; status = ""; labels = []; networks = [] }

-- The loop of the row builders: a row of each entry that matches.
unfoldable pub build : {A : Type 0} → Matcher → (A → Target) → (A → Row) → List A → List Row
build m target row [] = []
build m target row (x ∷ xs) =
    let rest = build m target row xs in if matches m (target x) then row x ∷ rest else rest

module _ {F : Type 0} (stats : String → Option (ContainerStats F)) where
  abbrev pub stat : (ContainerStats F → String) → Container → String
  stat f c = elim (stats c.id) [ none ↦ "-" | some s ↦ f s ]

  abbrev pub marked_name : Marked → Marked → Container → String
  marked_name selected alerted c = sel_marker c.id selected <+> alert_marker c.id alerted <+> c.name

  -- The row of buildRows.
  unfoldable pub container_row : Marked → Marked → Container → Row
  container_row selected alerted c =
      marked_name selected alerted c
      ∷ truncate c.image 35
      ∷ c.status
      ∷ (if c.health == "" then "-" else c.health)
      ∷ truncate c.ports 25
      ∷ stat (λ s. s.cpu_string) c
      ∷ stat (λ s. s.mem_string) c
      ∷ c.id
      ∷ []

  -- The row of buildStatsRows.
  unfoldable pub stats_row : Marked → Marked → Container → Row
  stats_row selected alerted c =
      marked_name selected alerted c
      ∷ stat (λ s. s.cpu_string) c
      ∷ stat (λ s. s.mem_string) c
      ∷ stat (λ s. s.mem_perc_string) c
      ∷ stat (λ s. s.net_string) c
      ∷ stat (λ s. s.block_string) c
      ∷ c.id
      ∷ []

  -- The rows that Model.SetContainers loads.
  unfoldable pub containers_rows :
      (F → F → Bool)
      → F
      → Matcher
      → (statsView : Bool) → Marked
      → Marked
      → {T : Type 0} → Model T
      → List Container
      → List Row
  unfolding build container_row stats_row
  containers_rows cpu_le cpu_zero matcher stats_view selected alerted m xs =
      let sorted = sort_containers cpu_le cpu_zero stats m.sort_field m.sort_desc xs in
      if stats_view
      then build matcher container_target (stats_row selected alerted) sorted
      else mark_forwards m.forwards
          (build matcher container_target (container_row selected alerted) sorted)

-- docker.Image, with the seconds since it was made and the date.
pub record Image : Type 0 where
  pub id : String
  pub tags : String
  pub size : String
  pub age : ℤ
  pub date : String

-- timeAgo
unfoldable pub time_ago : ℤ → String → String
time_ago (negsuc n) date = "just now"
time_ago (pos s) date =
    if ltb s 60
    then "just now"
    else if ltb s 3600
    then decimal (s / 60) <+> "m ago"
    else if ltb s 86400
    then decimal (s / 3600) <+> "h ago"
    else if ltb s 2592000
    then decimal (s / 86400) <+> "d ago"
    else date

-- buildImageRows
unfoldable pub image_row : Marked → Image → Row
unfolding time_ago
image_row selected i =
    (sel_marker i.id selected <+> truncate i.tags 55) ∷ i.size ∷ time_ago i.age i.date ∷ i.id ∷ []

unfoldable pub image_rows : Matcher → Marked → List Image → List Row
unfolding build image_row
image_rows matcher selected xs =
    build matcher (λ i. text_target (i.tags <+> i.id)) (image_row selected)
      (sort_by_name (λ i. i.tags) xs)

pub record Network : Type 0 where
  pub id : String
  pub name : String
  pub driver : String
  pub scope : String
  pub subnet : String

-- buildNetworkRows
unfoldable pub network_row : Network → Row
network_row n = truncate n.name 35 ∷ n.driver ∷ n.scope ∷ n.subnet ∷ n.id ∷ []

unfoldable pub network_rows : Matcher → List Network → List Row
unfolding build network_row
network_rows matcher xs =
    build matcher (λ n. text_target (n.name <+> n.driver <+> n.subnet)) network_row
      (sort_by_name (λ n. n.name) xs)

pub record Volume : Type 0 where
  pub name : String
  pub driver : String
  pub mountpoint : String
  pub created : String

-- buildVolumeRows
unfoldable pub volume_row : Volume → Row
volume_row v = v.name ∷ v.driver ∷ truncate v.mountpoint 50 ∷ v.created ∷ []

unfoldable pub volume_rows : Matcher → List Volume → List Row
unfolding build volume_row
volume_rows matcher xs =
    build matcher (λ v. text_target (v.name <+> v.driver <+> v.mountpoint)) volume_row
      (sort_by_name (λ v. v.name) xs)

-- docker.HostSummary, without the fields that no table reads.
pub record HostSummary : Type 0 where
  pub reachable : Bool
  pub containers : ℤ
  pub running : ℤ
  pub images : ℤ
  pub version : String

-- buildHostRows
unfoldable pub host_row : (String → Option HostSummary) → Host → Row
host_row summaries h = elim (summaries h.host) [
  | none ↦ h.name ∷ h.host ∷ "…" ∷ "-" ∷ "-" ∷ "-" ∷ "-" ∷ []
  | some s ↦
      if s.reachable
      then h.name
        ∷ h.host
        ∷ "● up"
        ∷ show_int s.containers
        ∷ show_int s.running
        ∷ show_int s.images
        ∷ s.version
        ∷ []
      else h.name ∷ h.host ∷ "● down" ∷ "-" ∷ "-" ∷ "-" ∷ "-" ∷ []
]

unfoldable pub host_rows : Matcher → (String → Option HostSummary) → List Host → List Row
unfolding build host_row
host_rows matcher summaries xs =
    build matcher (λ h. text_target (h.name <+> h.host)) (host_row summaries) xs

-- docker.ComposeProject, without the files.
pub record ComposeProject : Type 0 where
  pub project : String
  pub name : String
  pub working_dir : String
  pub status : String
  pub command : String
  pub running : ℤ
  pub total : ℤ

-- ComposeProject.Identity
unfoldable pub compose_identity : ComposeProject → String
compose_identity p = if p.working_dir == "" then p.project else p.working_dir

-- buildComposeRows
unfoldable pub compose_row : ComposeProject → Row
unfolding compose_identity
compose_row p =
    truncate p.project 22
    ∷ truncate p.name 26
    ∷ compose_identity p
    ∷ (p.status <+> " " <+> show_int p.running <+> "/" <+> show_int p.total)
    ∷ truncate p.command 28
    ∷ []

abbrev pub compose_target : ComposeProject → Target
compose_target p = record {
  text = p.project <+> p.name <+> p.working_dir <+> p.status;
  status = p.status;
  labels = [];
  networks = [];
}

unfoldable pub compose_rows : Matcher → List ComposeProject → List Row
unfolding build compose_row
compose_rows matcher xs =
    build matcher compose_target compose_row
      (sort_by_name (λ p. p.project <+> "\0" <+> p.working_dir) xs)
