-- ===== src/Ui/Table/Order.antt =====
-- table.go: the containers are ordered by the chosen column, and texts are cut to their column.
use d9c.Base.{
  ◌⊎◌, ◌≡◌, refl, ap, inl, inr, ℕ, zero, suc, ◌+◌, ◌-◌, ◌≤◌, ◌<◌, Bool, true, false, not, ◌&&◌,
  String, Option, List, [], ◌∷◌, length, ltb, leb, if◌then◌else◌, ◌<+>◌, split_at, arith,
  Bool-cases,
}
use mathlib.Core.List.{Perm}
use mathlib.Core.List.Perm
use mathlib.Core.Path.{fun_ext}
use Prim.Native.Nat.{Ordering}
use Prim.Native.String
use Prim.Native.String.count
use Prim.Native.String.append
use d9c.Base.Sort.{sort, IsSorted, sort-perm, sort-IsSorted}
use d9c.Base.TextOrder.{text_le, text_le_total, text_le_trans}
use d9c.Ui.Table.{
  SortField, sort_none, sort_name, sort_status, sort_cpu, sort_mem, Container, ContainerStats,
  compare, comes_first, cpu_of, mem_of, compare_containers, less, sort_containers, truncate,
}

-- An order in which any two keys can be compared.
abbrev pub IsTotal : {K : Type 0} → (K → K → Bool) → Type 0
IsTotal {K = K} le = (x y : K) → le x y ≡ false → le y x ≡ true

abbrev pub IsTransitive : {K : Type 0} → (K → K → Bool) → Type 0
IsTransitive {K = K} le = (x y z : K) → le x y ≡ true → le y z ≡ true → le x z ≡ true

pub leb-IsTotal : IsTotal leb
leb-IsTotal x y h = ground arith

pub leb-IsTransitive : IsTransitive leb
leb-IsTransitive x y z h k = ground arith

double_not : (b : Bool) → not (not b) ≡ b
double_not true = refl
double_not false = refl

comes_first-order :
    (p q desc name : Bool)
    → (q ≡ false → p ≡ true)
    → not (
        comes_first
          (if p then (if q then Ordering.eq else Ordering.lt) else Ordering.gt)
          (not name)
          desc)
      ≡ ((if desc then p else q) && (if if desc then q else p then name else true))
comes_first-order true true false name h = double_not name
comes_first-order true true true name h = double_not name
comes_first-order true false false name h = refl
comes_first-order true false true name h = refl
comes_first-order false true false name h = refl
comes_first-order false true true name h = refl
comes_first-order false false desc name h = absurd (ground (arith, h refl))

module _ {F : Type 0} (cpu_le : F → F → Bool) (cpu_zero : F)
    (stats : String → Option (ContainerStats F)) where
  -- That a container does not come after another by the column alone, in ascending order.
  unfoldable pub field_le : SortField → Container → Container → Bool
  field_le sort_none a b = true
  field_le sort_name a b = text_le a.name b.name
  field_le sort_status a b = text_le a.state b.state
  field_le sort_cpu a b = cpu_le (cpu_of cpu_le cpu_zero stats a) (cpu_of cpu_le cpu_zero stats b)
  field_le sort_mem a b = leb (mem_of cpu_le cpu_zero stats a) (mem_of cpu_le cpu_zero stats b)

  -- The order of the table: by the column, descending or not, and by name among equals.
  unfoldable pub in_order : SortField → Bool → Container → Container → Bool
  unfolding field_le
  in_order field desc a b =
      let before = if desc then field_le field b a else field_le field a b in
      let after = if desc then field_le field a b else field_le field b a in
      before && (if after then text_le a.name b.name else true)

  module _ (total : IsTotal cpu_le) (trans : IsTransitive cpu_le) where
    field_le-IsTotal : (field : SortField) → IsTotal (field_le field)
    unfolding field_le
    field_le-IsTotal sort_none x y h = refl
    field_le-IsTotal sort_name x y h = text_le_total x.name y.name h
    field_le-IsTotal sort_status x y h = text_le_total x.state y.state h
    field_le-IsTotal sort_cpu x y h = total _ _ h
    field_le-IsTotal sort_mem x y h = leb-IsTotal _ _ h

    field_le-IsTransitive : (field : SortField) → IsTransitive (field_le field)
    unfolding field_le
    field_le-IsTransitive sort_none x y z h k = refl
    field_le-IsTransitive sort_name x y z h k = text_le_trans x.name y.name z.name h k
    field_le-IsTransitive sort_status x y z h k = text_le_trans x.state y.state z.state h k
    field_le-IsTransitive sort_cpu x y z h k = trans _ _ _ h k
    field_le-IsTransitive sort_mem x y z h k = leb-IsTransitive _ _ _ h k

    in_order-IsTotal : (field : SortField) (desc : Bool) → IsTotal (in_order field desc)
    unfolding in_order
    in_order-IsTotal field desc x y h = ground (
      arith,
      h,
      field_le-IsTotal field x y,
      field_le-IsTotal field y x,
      text_le_total x.name y.name,
    )

    in_order-IsTransitive : (field : SortField) (desc : Bool) → IsTransitive (in_order field desc)
    unfolding in_order
    in_order-IsTransitive field desc x y z h k = ground (
      arith,
      h,
      k,
      field_le-IsTransitive field x y z,
      field_le-IsTransitive field z y x,
      field_le-IsTransitive field y z x,
      field_le-IsTransitive field z x y,
      field_le-IsTransitive field x z y,
      field_le-IsTransitive field y x z,
      text_le_trans x.name y.name z.name,
    )

    -- What sort.SliceStable is told is this order.
    less-in_order :
        (field : SortField) (desc : Bool) (a b : Container)
        → not (less cpu_le cpu_zero stats field desc b a) ≡ in_order field desc a b
    unfolding less in_order field_le compare_containers compare
    less-in_order sort_none false a b = double_not (text_le a.name b.name)
    less-in_order sort_none true a b = double_not (text_le a.name b.name)
    less-in_order sort_name desc a b =
        comes_first-order (text_le b.name a.name) (text_le a.name b.name) desc
          (text_le a.name b.name) (text_le_total a.name b.name)
    less-in_order sort_status desc a b =
        comes_first-order (text_le b.state a.state) (text_le a.state b.state) desc
          (text_le a.name b.name) (text_le_total a.state b.state)
    less-in_order sort_cpu desc a b =
        let x = cpu_of cpu_le cpu_zero stats a in
        let y = cpu_of cpu_le cpu_zero stats b in
        comes_first-order (cpu_le y x) (cpu_le x y) desc (text_le a.name b.name) (total x y)
    less-in_order sort_mem desc a b =
        let x = mem_of cpu_le cpu_zero stats a in
        let y = mem_of cpu_le cpu_zero stats b in
        comes_first-order (leb y x) (leb x y) desc (text_le a.name b.name) (leb-IsTotal x y)

    sort-in_order :
        (field : SortField) (desc : Bool) (xs : List Container)
        → sort (λ a b. not (less cpu_le cpu_zero stats field desc b a)) xs
          ≡ sort (in_order field desc) xs
    sort-in_order field desc xs =
        ap (λ le. sort le xs) (fun_ext (λ a. fun_ext (λ b. less-in_order field desc a b)))

    few-IsSorted :
        (le : Container → Container → Bool) (xs : List Container)
        → ltb (length xs) 2 ≡ true
        → IsSorted le xs
    few-IsSorted le [] h = tt
    few-IsSorted le (x ∷ []) h = (tt, tt)
    few-IsSorted le (x ∷ y ∷ xs) h = absurd (ground arith)

    -- The containers sorted by a column, or left alone if there are too few.
    reordered_lem :
        (field : SortField) (desc : Bool) (xs : List Container)
        → (let ys =
              if ltb (length xs) 2
              then xs
              else sort (λ a b. not (less cpu_le cpu_zero stats field desc b a)) xs in
            Perm ys xs × IsSorted (in_order field desc) ys)
    reordered_lem field desc xs = elim (Bool-cases (ltb (length xs) 2)) [
      | inl few ↦ rw few ((Perm.refl xs, few-IsSorted (in_order field desc) xs few))
      | inr many ↦
          rw (many, sort-in_order field desc xs)
            ((
              sort-perm (in_order field desc) xs,
              sort-IsSorted (in_order field desc) (in_order-IsTotal field desc)
                  (in_order-IsTransitive field desc) xs,
            ))
    ]

    -- Sorting by a column that CPU figures can be compared for rearranges the containers, losing none
    -- and making none up, so that every container comes before the ones behind it: by the column, in
    -- the direction chosen, and by name in ascending order where the column does not tell them apart.
    pub sort_containers-IsSorted :
        (field : SortField) (desc : Bool) (xs : List Container)
        → Perm (sort_containers cpu_le cpu_zero stats field desc xs) xs
          × ((field ≡ sort_none)
              ⊎ IsSorted
                  (in_order field desc)
                  (sort_containers cpu_le cpu_zero stats field desc xs))
    unfolding sort_containers
    sort_containers-IsSorted sort_none desc xs = (Perm.refl xs, inl refl)
    sort_containers-IsSorted sort_name desc xs =
        let s = reordered_lem sort_name desc xs in (s.0, inr s.1)
    sort_containers-IsSorted sort_status desc xs =
        let s = reordered_lem sort_status desc xs in (s.0, inr s.1)
    sort_containers-IsSorted sort_cpu desc xs =
        let s = reordered_lem sort_cpu desc xs in (s.0, inr s.1)
    sort_containers-IsSorted sort_mem desc xs =
        let s = reordered_lem sort_mem desc xs in (s.0, inr s.1)

count-append : (s t : String) → String.count (s <+> t) ≡ String.count s + String.count t
count-append String.[] t = rw (append.nil t) (omega arith)
count-append (String.◌∷◌ c s) t =
    rw (append.cons c s t) (omega (arith, count.cons c s, count.cons c (s <+> t), count-append s t))

split_at-count : (n : ℕ) (s : String) → String.count (split_at n s).0 ≤ n
unfolding split_at
split_at-count zero s = omega arith
split_at-count (suc n) String.[] = omega arith
split_at-count (suc n) (String.◌∷◌ c s) =
    omega (arith, count.cons c (split_at n s).0, split_at-count n s)

truncate-bounded :
    (s : String) (max : ℕ)
    → (String.count (truncate s max) ≤ max) × (String.count s ≤ max → 0 < max → truncate s max ≡ s)
unfolding truncate
truncate-bounded s max = elim (Bool-cases (leb max 0)) [
  | inl z ↦ rw z ((omega arith, λ fits more. absurd (ground arith)))
  | inr more ↦ elim (Bool-cases (leb (String.count s) max)) [
    | inl fits ↦ rw (more, fits) ((ground arith, λ f m. refl))
    | inr long ↦
        rw (more, long)
          ((
            omega (
              arith,
              count-append (split_at (max - 1) s).0 "…",
              split_at-count (max - 1) s,
              ellipsis,
              positive more,
            ),
            λ f m. absurd (ground arith),
          ))
  ]
]
  where
    ellipsis : String.count "…" ≡ 1
    ellipsis = refl

    positive : leb max 0 ≡ false → 0 < max
    positive h = ground arith

-- A cell is cut to at most the given number of characters, and is left as it is if it has no more,
-- and if the number is not 0.
pub truncate-count :
    (s : String) (max : ℕ)
    → (String.count (truncate s max) ≤ max)
      × ((truncate s max ≡ s) ⊎ (max < String.count s) ⊎ (max < 1))
truncate-count s max =
    let (short, kept) = truncate-bounded s max in
    (
      short,
      elim (Bool-cases (leb (String.count s) max)) [
        | inr long ↦ inr (inl (ground arith))
        | inl fits ↦ elim (Bool-cases (leb max 0)) [
          | inl z ↦ inr (inr (ground arith))
          | inr more ↦ inl (kept (ground arith) (ground arith))
        ]
      ],
    )
