-- ===== src/Ui/Table/Identity.antt =====
-- table.go: a row of a table tells which resource it shows, whatever is sorted, filtered or marked.
use d9c.Base.{
  ◌≡◌, refl, inl, inr, Bool, true, false, not, String, Option, none, some, List, [], ◌∷◌, map,
  length, get_elem?, ltb, if◌then◌else◌, All, All-map, Any, Bool-cases, Option-cases, to_lower,
  arith,
}
use d9c.Base.Sort.{sort, sort-All}
use d9c.Base.TextOrder.{text_le}
use d9c.Hosts.{Host}
use d9c.Filter.{Target, Matcher, matches}
use d9c.Ui.Layout.{
  Section, containers, stats, images, networks, volumes, compose, hosts, shares, identity,
}
use d9c.Ui.Table.{
  Row, Container, ContainerStats, Model, SortField, sort_none, sort_name, sort_status, sort_cpu,
  sort_mem, less, sort_containers, sort_by_name, mark_rows, mark_forwards,
}
use d9c.Ui.Table.Rows.{
  Marked, build, container_target, container_row, stats_row, containers_rows, Image, image_row,
  image_rows, Network, network_row, network_rows, Volume, volume_row, volume_rows, HostSummary,
  host_row, host_rows, ComposeProject, compose_identity, compose_row, compose_rows,
}

-- A row of the section: it has a cell for each column, and the identity column has one of the ids.
abbrev pub IsRow : Section → List String → Row → Type 0
IsRow sec ids row =
    (length row ≡ length (shares sec))
    × (id : String) × (get_elem? row (identity sec) ≡ some id)
    × Any (λ i. i ≡ id) ids

module _ {A : Type 0} where
  -- The ids of the entries are among those of the list.
  ids-All : (id : A → String) (xs : List A) → All (λ x. Any (λ i. i ≡ id x) (map id xs)) xs
  ids-All id [] = tt
  ids-All id (x ∷ xs) = (inl refl, All-map _ _ xs (λ y i. inr i) (ids-All id xs))

  build-All :
      (P : A → Type 0) (R : Row → Type 0) (m : Matcher) (target : A → Target) (row : A → Row)
      (xs : List A)
      → ((x : A) → P x → R (row x))
      → All P xs
      → All R (build m target row xs)
  unfolding build
  build-All P R m target row [] f h = tt
  build-All P R m target row (x ∷ xs) f h = elim (Bool-cases (matches m (target x))) [
    | inl t ↦ rw t ((f x h.0, build-All P R m target row xs f h.1))
    | inr n ↦ rw n (build-All P R m target row xs f h.1)
  ]

  sort_by_name-All :
      (P : A → Type 0) (key : A → String) (xs : List A) → All P xs → All P (sort_by_name key xs)
  unfolding sort_by_name
  sort_by_name-All P key xs h = elim (Bool-cases (ltb (length xs) 2)) [
    | inl few ↦ rw few h
    | inr many ↦ rw many (sort-All (λ a b. text_le (to_lower (key a)) (to_lower (key b))) P xs h)
  ]

  -- The rows of a table that is sorted by name.
  named-IsRow :
      (sec : Section) (m : Matcher) (target : A → Target) (row : A → Row) (id key : A → String)
      (xs : List A)
      → ((x : A)
          → (length (row x) ≡ length (shares sec))
            × (get_elem? (row x) (identity sec) ≡ some (id x)))
      → All (IsRow sec (map id xs)) (build m target row (sort_by_name key xs))
  named-IsRow sec m target row id key xs f =
      build-All (λ x. Any (λ i. i ≡ id x) (map id xs)) (IsRow sec (map id xs)) m target row
        (sort_by_name key xs) (λ x i. ((f x).0, id x, (f x).1, i))
        (sort_by_name-All _ key xs (ids-All id xs))

mark_rows-IsRow :
    (forwards : String → Option String) (ids : List String) (rows : List Row)
    → All (IsRow containers ids) rows
    → All (IsRow containers ids) (mark_rows forwards rows)
unfolding mark_rows
mark_rows-IsRow forwards ids [] h = tt
mark_rows-IsRow forwards ids ([] ∷ rows) h = absurd (omega (arith, h.0.0))
mark_rows-IsRow forwards ids ((a ∷ []) ∷ rows) h = absurd (omega (arith, h.0.0))
mark_rows-IsRow forwards ids ((a ∷ b ∷ []) ∷ rows) h = absurd (omega (arith, h.0.0))
mark_rows-IsRow forwards ids ((a ∷ b ∷ c ∷ []) ∷ rows) h = absurd (omega (arith, h.0.0))
mark_rows-IsRow forwards ids ((a ∷ b ∷ c ∷ d ∷ []) ∷ rows) h = absurd (omega (arith, h.0.0))
mark_rows-IsRow forwards ids ((a ∷ b ∷ c ∷ d ∷ e ∷ []) ∷ rows) h = absurd (omega (arith, h.0.0))
mark_rows-IsRow forwards ids ((a ∷ b ∷ c ∷ d ∷ e ∷ f ∷ []) ∷ rows) h = absurd (omega (arith, h.0.0))
mark_rows-IsRow forwards ids ((a ∷ b ∷ c ∷ d ∷ e ∷ f ∷ g ∷ []) ∷ rows) h =
    absurd (omega (arith, h.0.0))
mark_rows-IsRow forwards ids ((a ∷ b ∷ c ∷ d ∷ e ∷ f ∷ g ∷ id ∷ more) ∷ rows) h =
    elim (Option-cases (forwards id)) [
      | inl n ↦ rw (n, mark_rows) (h.0, mark_rows-IsRow forwards ids rows h.1)
      | inr (mark, n) ↦ rw (n, mark_rows) (h.0, mark_rows-IsRow forwards ids rows h.1)
    ]

mark_forwards-IsRow :
    (forwards : Option (String → Option String)) (ids : List String) (rows : List Row)
    → All (IsRow containers ids) rows
    → All (IsRow containers ids) (mark_forwards forwards rows)
unfolding mark_forwards
mark_forwards-IsRow none ids rows h = h
mark_forwards-IsRow (some forwards) ids rows h = mark_rows-IsRow forwards ids rows h

module _ {F : Type 0} (cpu_le : F → F → Bool) (cpu_zero : F)
    (figures : String → Option (ContainerStats F)) where
  reordered-All :
      (P : Container → Type 0) (field : SortField) (desc : Bool) (xs : List Container)
      → All P xs
      → All P (
          if ltb (length xs) 2
          then xs
          else sort (λ a b. not (less cpu_le cpu_zero figures field desc b a)) xs)
  reordered-All P field desc xs h = elim (Bool-cases (ltb (length xs) 2)) [
    | inl few ↦ rw few h
    | inr many ↦ rw many (sort-All _ P xs h)
  ]

  sort_containers-All :
      (P : Container → Type 0) (field : SortField) (desc : Bool) (xs : List Container)
      → All P xs
      → All P (sort_containers cpu_le cpu_zero figures field desc xs)
  unfolding sort_containers
  sort_containers-All P sort_none desc xs h = h
  sort_containers-All P sort_name desc xs h = reordered-All P sort_name desc xs h
  sort_containers-All P sort_status desc xs h = reordered-All P sort_status desc xs h
  sort_containers-All P sort_cpu desc xs h = reordered-All P sort_cpu desc xs h
  sort_containers-All P sort_mem desc xs h = reordered-All P sort_mem desc xs h

  containers_rows-IsRow :
      (matcher : Matcher) (stats_view : Bool) (selected alerted : Marked) {T : Type 0} (m : Model T)
      (xs : List Container)
      → All
          (IsRow (if stats_view then stats else containers) (map (λ c. c.id) xs))
          (containers_rows figures cpu_le cpu_zero matcher stats_view selected alerted m xs)
  unfolding containers_rows container_row stats_row
  containers_rows-IsRow matcher true selected alerted m xs =
      build-All (λ c. Any (λ i. i ≡ c.id) (map (λ c. c.id) xs)) (IsRow stats (map (λ c. c.id) xs))
        matcher container_target (stats_row figures selected alerted) _
        (λ c i. (refl, c.id, refl, i))
        (sort_containers-All _ m.sort_field m.sort_desc xs (ids-All (λ c. c.id) xs))
  containers_rows-IsRow matcher false selected alerted m xs =
      mark_forwards-IsRow m.forwards (map (λ c. c.id) xs) _ (
        build-All (λ c. Any (λ i. i ≡ c.id) (map (λ c. c.id) xs))
          (IsRow containers (map (λ c. c.id) xs)) matcher container_target
          (container_row figures selected alerted) _ (λ c i. (refl, c.id, refl, i))
          (sort_containers-All _ m.sort_field m.sort_desc xs (ids-All (λ c. c.id) xs)))

image_row-cells :
    (selected : Marked) (i : Image)
    → (length (image_row selected i) ≡ 4) × (get_elem? (image_row selected i) 3 ≡ some i.id)
unfolding image_row
image_row-cells selected i = (refl, refl)

network_row-cells :
    (n : Network) → (length (network_row n) ≡ 5) × (get_elem? (network_row n) 4 ≡ some n.id)
unfolding network_row
network_row-cells n = (refl, refl)

volume_row-cells :
    (v : Volume) → (length (volume_row v) ≡ 4) × (get_elem? (volume_row v) 0 ≡ some v.name)
unfolding volume_row
volume_row-cells v = (refl, refl)

host_row-cells :
    (summaries : String → Option HostSummary) (h : Host)
    → (length (host_row summaries h) ≡ 7) × (get_elem? (host_row summaries h) 0 ≡ some h.name)
unfolding host_row
host_row-cells summaries h = elim (Option-cases (summaries h.host)) [
  | inl e ↦ rw (e, host_row) (refl, refl)
  | inr (s, e) ↦ elim (Bool-cases s.reachable) [
    | inl t ↦ rw (e, t, host_row) (refl, refl)
    | inr f ↦ rw (e, f, host_row) (refl, refl)
  ]
]

compose_row-cells :
    (p : ComposeProject)
    → (length (compose_row p) ≡ 5) × (get_elem? (compose_row p) 2 ≡ some (compose_identity p))
unfolding compose_row
compose_row-cells p = (refl, refl)

-- Every row of every table has a cell for each of its columns, and in its identity column, whole, the
-- identity of a resource of the list: the ID of a container, an image or a network, the name of a
-- volume or a host, the directory or else the project of a deployment. That holds whatever the order,
-- the filter, the selection, the alerts and the port forwards.
pub rows-IsRow :
    {F T : Type 0} (cpu_le : F → F → Bool) (cpu_zero : F)
    (figures : String → Option (ContainerStats F)) (matcher : Matcher) (stats_view : Bool)
    (selected alerted : Marked) (m : Model T) (summaries : String → Option HostSummary)
    (cs : List Container) (is : List Image) (ns : List Network) (vs : List Volume) (hs : List Host)
    (ps : List ComposeProject)
    → All
        (IsRow (if stats_view then stats else containers) (map (λ c. c.id) cs))
        (containers_rows figures cpu_le cpu_zero matcher stats_view selected alerted m cs)
      × All (IsRow images (map (λ i. i.id) is)) (image_rows matcher selected is)
      × All (IsRow networks (map (λ n. n.id) ns)) (network_rows matcher ns)
      × All (IsRow volumes (map (λ v. v.name) vs)) (volume_rows matcher vs)
      × All (IsRow hosts (map (λ h. h.name) hs)) (host_rows matcher summaries hs)
      × All (IsRow compose (map compose_identity ps)) (compose_rows matcher ps)
unfolding image_rows network_rows volume_rows host_rows compose_rows
rows-IsRow cpu_le cpu_zero figures matcher stats_view selected alerted m summaries cs is ns vs hs
      ps =
    (
      containers_rows-IsRow cpu_le cpu_zero figures matcher stats_view selected alerted m cs,
      named-IsRow images matcher _ (image_row selected) (λ i. i.id) _ is (image_row-cells selected),
      named-IsRow networks matcher _ network_row (λ n. n.id) _ ns network_row-cells,
      named-IsRow volumes matcher _ volume_row (λ v. v.name) _ vs volume_row-cells,
      build-All (λ h. Any (λ i. i ≡ h.name) (map (λ h. h.name) hs))
          (IsRow hosts (map (λ h. h.name) hs)) matcher _ (host_row summaries) hs
          (λ h i. ((host_row-cells summaries h).0, h.name, (host_row-cells summaries h).1, i))
          (ids-All (λ h. h.name) hs),
      named-IsRow compose matcher _ compose_row compose_identity _ ps compose_row-cells,
    )
