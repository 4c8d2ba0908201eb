-- ===== src/Agent/Output/Shaped.antt =====
-- output.go: the items of the output through a projection, a cut and their way back.
use d9c.Base.{
  ◌≡◌, refl, sym, ap, ◌∙◌, inl, inr, ◌==◌, ◌&&◌, ℕ, zero, suc, ◌≤◌, ◌<◌, String, Option, none, some,
  List, [], ◌∷◌, length, take, ltb, arith, Bool-cases, Option-cases, eq_refl,
}
use mathlib.Core.Option.{some-injective}
use d9c.Base.Int.{pos}
use d9c.Agent.Value.{
  Value, null, str, integer, float, number, bool, strs, list, object, Fields, end, field,
}
use d9c.Agent.OpResult.{OpResult}
use d9c.Agent.Output.{
  to_list, from_list, get_field, put_field, split_items, join_items, project, project_each,
  available, add_keys, check_fields, cut_items,
}

abbrev pub Ends : {A : Type 0} → Option A → Type 0
Ends {A = A} o = (a : A) × (o ≡ some a)

-- Where the keys of the items can be collected, the items can be projected.
available-Ends :
    (items : List Value) (avail all_keys fields : List String)
    → available items avail ≡ some all_keys
    → Ends (project_each items fields)
unfolding available project_each
available-Ends [] avail all_keys fields h = ([], refl)
available-Ends (null ∷ rest) avail all_keys fields h = cc
available-Ends ((str s) ∷ rest) avail all_keys fields h = cc
available-Ends ((integer i n) ∷ rest) avail all_keys fields h = cc
available-Ends ((float x) ∷ rest) avail all_keys fields h = cc
available-Ends ((number s) ∷ rest) avail all_keys fields h = cc
available-Ends ((bool b) ∷ rest) avail all_keys fields h = cc
available-Ends ((strs l) ∷ rest) avail all_keys fields h = cc
available-Ends ((list l) ∷ rest) avail all_keys fields h = cc
available-Ends (object m ∷ rest) avail all_keys fields h =
    let (out, e) = available-Ends rest (add_keys m avail) all_keys fields h in
    (object (project m fields) ∷ out, rw (e, project_each) refl)

pub check_fields-Ends :
    (fields known : List String) (items : List Value)
    → check_fields fields known items ≡ none
    → Ends (project_each items fields)
unfolding check_fields
check_fields-Ends fields known items h = elim (Option-cases (available items known)) [
  | inl e ↦ absurd (ground (arith, h, e))
  | inr (avail, e) ↦ available-Ends items known avail fields e
]

to_list-from_list : (items : List Value) → to_list (from_list items) ≡ items
unfolding to_list from_list
to_list-from_list [] = refl
to_list-from_list (v ∷ items) = ap (λ l. v ∷ l) (to_list-from_list items)

get_field-put : (key : String) (v : Value) (m : Fields) → get_field key (put_field key v m) ≡ some v
unfolding get_field put_field
get_field-put key v end = rw (eq_refl key) refl
get_field-put key v (field k w m) = elim (Bool-cases (k == key)) [
  | inl t ↦ rw t (rw t refl)
  | inr f ↦ rw f (rw f (get_field-put key v m))
]

-- What is put back in the place of the items is found there again.
pub split-join :
    (g : Value) (key : String) (old items : List Value)
    → split_items g key ≡ some old
    → split_items (join_items g key items) key ≡ some items
unfolding split_items join_items
split-join (list l) key old items h = ap some (to_list-from_list items)
split-join (object m) key old items h = elim (Bool-cases (key == "")) [
  | inl t ↦ absurd (ground (arith, h, t))
  | inr f ↦
      rw (f, split_items)
        (rw (f, get_field-put key (list (from_list items)) m) (ap some (to_list-from_list items)))
]
split-join null key old items h = cc
split-join (str s) key old items h = cc
split-join (integer i n) key old items h = cc
split-join (float x) key old items h = cc
split-join (number s) key old items h = cc
split-join (bool b) key old items h = cc
split-join (strs l) key old items h = cc

pub project_each-length :
    (items fields' : List Value) (fields : List String)
    → project_each items fields ≡ some fields'
    → length fields' ≡ length items
unfolding project_each
project_each-length [] out fields h = ground (arith, h)
project_each-length (null ∷ rest) out fields h = cc
project_each-length ((str s) ∷ rest) out fields h = cc
project_each-length ((integer i n) ∷ rest) out fields h = cc
project_each-length ((float x) ∷ rest) out fields h = cc
project_each-length ((number s) ∷ rest) out fields h = cc
project_each-length ((bool b) ∷ rest) out fields h = cc
project_each-length ((strs l) ∷ rest) out fields h = cc
project_each-length ((list l) ∷ rest) out fields h = cc
project_each-length (object m ∷ rest) out fields h =
    elim (Option-cases (project_each rest fields)) [
      | inl e ↦ absurd (ground (arith, h, e))
      | inr (more, e) ↦
          let same : object (project m fields) ∷ more ≡ out =
            some-injective _ _ (rw (e, project_each) at h) in
          sym (ap length same) ∙ ap suc (project_each-length rest more fields e)
    ]

take-length : (n : ℕ) (items : List Value) → length (take n items) ≤ n
take-length zero items = omega arith
take-length (suc n) [] = omega arith
take-length (suc n) (v ∷ items) = omega (arith, take-length n items)

pub cut_items-length :
    (n : ℕ) (items : List Value) (r : OpResult Value)
    → 0 < n
    → length (cut_items (pos n) items r).0 ≤ n
unfolding cut_items
cut_items-length n items r h = elim (Bool-cases (ltb 0 n && ltb n (length items))) [
  | inl t ↦ rw t (take-length n items)
  | inr f ↦ rw f (ground (arith, f, h))
]
