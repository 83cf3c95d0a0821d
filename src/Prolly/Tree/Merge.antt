-- ===== src/Prolly/Tree/Merge.antt =====
-- What edits make of entries: the reference for `Apply`.
use repodb.Base.{
  ◌≡◌, refl, Ordering, true, false, Option, none, some, List, [], ◌∷◌, if◌then◌else◌, arith,
  Bool-cases, inl, inr,
}
use repodb.Bytes.{Bytes, compare_bytes, equal_bytes}
use repodb.Bytes.Order.{compare_bytes_refl, eq_of_compare, lt_of_gt, Ordering-cases}
use repodb.Bytes.Sorted.{Above, Sorted, find, find-Above, Above-weaken}
use repodb.Prolly.{Entry, Edit, entry_key}

abbrev pub edit_key : Edit → Bytes
edit_key e = e.key

abbrev pub with_edit : Edit → List Entry → List Entry
with_edit e entries =
    if e.delete then entries else record { key = e.key; value = e.value } ∷ entries

unfoldable pub inserted : List Edit → List Entry
inserted [] = []
inserted (e ∷ edits) = with_edit e (inserted edits)

-- Both sorted by key: an edit replaces or deletes the entry of its key, or inserts one.
unfoldable pub merge_edits : List Entry → List Edit → List Entry
merge_edits [] edits = inserted edits
merge_edits (x ∷ entries) [] = x ∷ entries
merge_edits (x ∷ entries) (e ∷ edits) = elim (compare_bytes e.key x.key) [
  | Ordering.lt ↦ with_edit e (merge_edits (x ∷ entries) edits)
  | Ordering.eq ↦ with_edit e (merge_edits entries edits)
  | Ordering.gt ↦ x ∷ merge_edits entries (e ∷ edits)
]

-- What stands at a key: what its edit says, or what stood there.
abbrev pub edited : Option Edit → Option Entry → Option Entry
edited none o = o
edited (some e) o = if e.delete then none else some (record { key = e.key; value = e.value })

pub merge_edits-nil : (entries : List Entry) → merge_edits entries [] ≡ entries
unfolding merge_edits inserted
merge_edits-nil [] = refl
merge_edits-nil (x ∷ entries) = refl

inserted-Above :
    (k : Bytes) (edits : List Edit) → Above edit_key k edits → Above entry_key k (inserted edits)
unfolding inserted
inserted-Above k [] a = tt
inserted-Above k (e ∷ edits) a = ground (arith, inserted-Above k edits a.1, a.0)

inserted-Sorted : (edits : List Edit) → Sorted edit_key edits → Sorted entry_key (inserted edits)
unfolding inserted
inserted-Sorted [] s = tt
inserted-Sorted (e ∷ edits) s =
    ground (arith, inserted-Sorted edits s.1, inserted-Above e.key edits s.0)

find-inserted :
    (k : Bytes) (edits : List Edit)
    → Sorted edit_key edits
    → find entry_key k (inserted edits) ≡ edited (find edit_key k edits) none
unfolding inserted find
find-inserted k [] s = refl
find-inserted k (e ∷ edits) s = ground (
  arith,
  find-inserted k edits s.1,
  find-Above edit_key e.key k edits s.0,
  eq_of_compare e.key k,
  compare_bytes_refl k,
)

merge_edits-Above :
    (k : Bytes) (entries : List Entry) (edits : List Edit)
    → Above entry_key k entries
    → Above edit_key k edits
    → Above entry_key k (merge_edits entries edits)
unfolding merge_edits
merge_edits-Above k [] edits a b = inserted-Above k edits b
merge_edits-Above k (x ∷ entries) [] a b = a
merge_edits-Above k (x ∷ entries) (e ∷ edits) a b = ground (
  arith,
  merge_edits-Above k (x ∷ entries) edits a b.1,
  merge_edits-Above k entries edits a.1 b.1,
  merge_edits-Above k entries (e ∷ edits) a.1 b,
  a.0,
  b.0,
)

pub merge_edits-Sorted :
    (entries : List Entry) (edits : List Edit)
    → Sorted entry_key entries
    → Sorted edit_key edits
    → Sorted entry_key (merge_edits entries edits)
unfolding merge_edits
merge_edits-Sorted [] edits s t = inserted-Sorted edits t
merge_edits-Sorted (x ∷ entries) [] s t = s
merge_edits-Sorted (x ∷ entries) (e ∷ edits) s t = ground (
  arith,
  merge_edits-Sorted (x ∷ entries) edits s t.1,
  merge_edits-Sorted entries edits s.1 t.1,
  merge_edits-Sorted entries (e ∷ edits) s.1 t,
  merge_edits-Above e.key (x ∷ entries) edits,
  merge_edits-Above e.key entries edits,
  merge_edits-Above x.key entries (e ∷ edits) s.0,
  Above-weaken edit_key x.key e.key edits,
  Above-weaken entry_key e.key x.key entries,
  lt_of_gt e.key x.key,
  t.0,
  s.0,
)

-- An edit in front, where nothing behind it has its key.
find-with_edit :
    (k : Bytes) (e : Edit) (entries : List Entry) (d : Option Edit) (c c' : Option Entry)
    → find entry_key k entries ≡ edited d c
    → (equal_bytes e.key k ≡ true → (d ≡ none) × (c ≡ none))
    → (equal_bytes e.key k ≡ false → c' ≡ c)
    → find entry_key k (with_edit e entries) ≡ edited (if equal_bytes e.key k then some e else d) c'
unfolding find
find-with_edit k e entries d c c' h same other = elim (Bool-cases (equal_bytes e.key k)) [
  | inl t ↦ rw t (elim (Bool-cases e.delete) [
    | inl del ↦ rw (del, find, h, (same t).0, (same t).1) refl
    | inr keep ↦ rw (keep, find, t) refl
  ])
  | inr f ↦
      rw (f, other f)
        (elim (Bool-cases e.delete) [
          | inl del ↦ rw (del, h) refl
          | inr keep ↦ rw (keep, find, f, h) refl
        ])
]

module _ (k : Bytes) (x : Entry) (entries : List Entry) (e : Edit) (edits : List Edit)
    (s : Sorted entry_key (x ∷ entries)) (t : Sorted edit_key (e ∷ edits)) where
  no_edit : equal_bytes e.key k ≡ true → find edit_key k edits ≡ none
  no_edit q =
      find-Above edit_key e.key k edits t.0
        (ground (arith, q, eq_of_compare e.key k, compare_bytes_refl k))

  no_entry_lt :
      compare_bytes e.key x.key ≡ Ordering.lt
      → equal_bytes e.key k ≡ true
      → find entry_key k (x ∷ entries) ≡ none
  no_entry_lt h q =
      find-Above entry_key e.key k (x ∷ entries)
        (h, Above-weaken entry_key e.key x.key entries (ground (arith, h)) s.0)
        (ground (arith, q, eq_of_compare e.key k, compare_bytes_refl k))

  no_entry_eq :
      compare_bytes e.key x.key ≡ Ordering.eq
      → equal_bytes e.key k ≡ true
      → find entry_key k entries ≡ none
  no_entry_eq h q =
      find-Above entry_key x.key k entries s.0 (
        ground
          (arith, h, q, eq_of_compare e.key k, eq_of_compare e.key x.key, compare_bytes_refl k))

  other_entry :
      compare_bytes e.key x.key ≡ Ordering.eq
      → equal_bytes e.key k ≡ false
      → find entry_key k (x ∷ entries) ≡ find entry_key k entries
  unfolding find
  other_entry h q = ground (arith, h, q, eq_of_compare e.key x.key)

  no_edits_gt :
      compare_bytes e.key x.key ≡ Ordering.gt
      → equal_bytes x.key k ≡ true
      → find edit_key k (e ∷ edits) ≡ none
  no_edits_gt h q =
      let below_edit : compare_bytes x.key e.key ≡ Ordering.lt = lt_of_gt e.key x.key h in
      find-Above edit_key x.key k (e ∷ edits)
        (below_edit, Above-weaken edit_key x.key e.key edits (ground (arith, below_edit)) t.0)
        (ground (arith, q, eq_of_compare x.key k, compare_bytes_refl k))

pub find-merge_edits :
    (k : Bytes) (entries : List Entry) (edits : List Edit)
    → Sorted entry_key entries
    → Sorted edit_key edits
    → find entry_key k (merge_edits entries edits)
      ≡ edited (find edit_key k edits) (find entry_key k entries)
unfolding merge_edits find
find-merge_edits k [] edits s t = find-inserted k edits t
find-merge_edits k (x ∷ entries) [] s t = refl
find-merge_edits k (x ∷ entries) (e ∷ edits) s t =
    elim (Ordering-cases (compare_bytes e.key x.key)) [
      | inl lt ↦
          rw (merge_edits, lt)
            (find-with_edit k e _ _ _ _ (find-merge_edits k (x ∷ entries) edits s t.1)
              (λ q. (no_edit k x entries e edits s t q, no_entry_lt k x entries e edits s t lt q))
              (λ q. refl))
      | inr (inl eq) ↦
          rw (merge_edits, eq)
            (find-with_edit k e _ _ _ _ (find-merge_edits k entries edits s.1 t.1)
              (λ q. (no_edit k x entries e edits s t q, no_entry_eq k x entries e edits s t eq q))
              (other_entry k x entries e edits s t eq))
      | inr (inr gt) ↦
          rw (merge_edits, gt)
            (elim (Bool-cases (equal_bytes x.key k)) [
              | inl q ↦ rw (find, q, no_edits_gt k x entries e edits s t gt q) refl
              | inr q ↦ rw (find, q) (find-merge_edits k entries (e ∷ edits) s.1 t)
            ])
    ]
