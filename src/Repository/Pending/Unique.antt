-- ===== src/Repository/Pending/Unique.antt =====
-- The runs that `with` makes of a transaction's edits: sorted, one edit for each key, and that is the
-- last one.
use repodb.Base.{
  ℕ, ◌+◌, ◌<◌, ◌≡◌, ◌≢◌, refl, Ordering, true, false, Option, none, some, List, [], ◌∷◌, arith, All,
  Bool-cases, inl, inr, ap, ◌∙◌, if◌then◌else◌,
}
use repodb.Bytes.{Bytes, compare_bytes, equal_bytes}
use repodb.Bytes.Order.{compare_bytes_refl, eq_of_compare, lt_trans, gt_of_lt, lt_of_gt}
use repodb.Bytes.Sorted.{Above, Sorted, find}
use repodb.Repository.Pending.{
  TypedRowEdit, PendingRun, edit_key, Positioned, positions, insert_sorted, sort_positions,
  superseded, unique_edits,
}

-- The last edit of a key, by a scan of the edits in their order.
unfoldable pub last_edit : Bytes → List TypedRowEdit → Option TypedRowEdit
last_edit k [] = none
last_edit k (x ∷ edits) = elim (last_edit k edits) [
  | some e ↦ some e
  | none ↦ if equal_bytes x.key k then some x else none
]

-- The same, at positions.
abbrev last_positioned : Bytes → List Positioned → Option TypedRowEdit
last_positioned k [] = none
last_positioned k ((i, x) ∷ ps) = elim (last_positioned k ps) [
  | some e ↦ some e
  | none ↦ if equal_bytes x.key k then some x else none
]

abbrev After : ℕ → List Positioned → Type 0
After i ps = All (λ p. i < p.0) ps

positions-After : (i j : ℕ) (edits : List TypedRowEdit) → i < j → After i (positions j edits)
positions-After i j [] h = tt
positions-After i j (x ∷ edits) h = (h, positions-After i (j + 1) edits (omega arith))

insert_sorted-After :
    (i j : ℕ) (x : TypedRowEdit) (ps : List Positioned)
    → i < j
    → After i ps
    → After i (insert_sorted (j, x) ps)
insert_sorted-After i j x [] h a = (h, tt)
insert_sorted-After i j x ((k, y) ∷ ps) h a = ground (arith, insert_sorted-After i j x ps h a.1)

sort_positions-After : (i : ℕ) (ps : List Positioned) → After i ps → After i (sort_positions ps)
sort_positions-After i [] a = tt
sort_positions-After i ((j, x) ∷ ps) a =
    insert_sorted-After i j x (sort_positions ps) a.0 (sort_positions-After i ps a.1)

last-insert_sorted :
    (k : Bytes) (i : ℕ) (x : TypedRowEdit) (ps : List Positioned)
    → After i ps
    → last_positioned k (insert_sorted (i, x) ps) ≡ last_positioned k ((i, x) ∷ ps)
last-insert_sorted k i x [] a = refl
last-insert_sorted k i x ((j, y) ∷ ps) a = ground (
  arith,
  last-insert_sorted k i x ps a.1,
  eq_of_compare x.key k,
  eq_of_compare y.key k,
  compare_bytes_refl k,
  a.0,
)

last-sort_positions :
    (k : Bytes) (i : ℕ) (edits : List TypedRowEdit)
    → last_positioned k (sort_positions (positions i edits)) ≡ last_edit k edits
unfolding last_edit
last-sort_positions k i [] = refl
last-sort_positions k i (x ∷ edits) = ground (
  arith,
  last-sort_positions k (i + 1) edits,
  last-insert_sorted k i x (sort_positions (positions (i + 1) edits))
      (sort_positions-After i _ (positions-After i (i + 1) edits (omega arith))),
)

-- No key is below `k`.
abbrev AtLeast : Bytes → List Positioned → Type 0
AtLeast k ps = All (λ p. compare_bytes p.1.key k ≢ Ordering.lt) ps

abbrev Ordered : List Positioned → Type 0
Ordered [] = Unit
Ordered (p ∷ ps) = AtLeast p.1.key ps × Ordered ps

le_trans_bytes :
    (a b c : Bytes)
    → compare_bytes b a ≢ Ordering.lt
    → compare_bytes c b ≢ Ordering.lt
    → compare_bytes c a ≢ Ordering.lt
le_trans_bytes a b c h l = ground (arith, lt_trans b c a, eq_of_compare c b, lt_of_gt c b)

AtLeast-weaken :
    (k l : Bytes) (ps : List Positioned)
    → compare_bytes l k ≢ Ordering.lt
    → AtLeast l ps
    → AtLeast k ps
AtLeast-weaken k l [] h a = tt
AtLeast-weaken k l (p ∷ ps) h a = (le_trans_bytes k l p.1.key h a.0, AtLeast-weaken k l ps h a.1)

insert_sorted-AtLeast :
    (k : Bytes) (i : ℕ) (x : TypedRowEdit) (ps : List Positioned)
    → compare_bytes x.key k ≢ Ordering.lt
    → AtLeast k ps
    → AtLeast k (insert_sorted (i, x) ps)
insert_sorted-AtLeast k i x [] h a = (h, tt)
insert_sorted-AtLeast k i x ((j, y) ∷ ps) h a =
    ground (arith, insert_sorted-AtLeast k i x ps h a.1, a.0, a.1)

insert_sorted-Ordered :
    (i : ℕ) (x : TypedRowEdit) (ps : List Positioned)
    → Ordered ps
    → Ordered (insert_sorted (i, x) ps)
insert_sorted-Ordered i x [] o = (tt, tt)
insert_sorted-Ordered i x ((j, y) ∷ ps) o = ground (
  arith,
  insert_sorted-Ordered i x ps o.1,
  insert_sorted-AtLeast y.key i x ps,
  AtLeast-weaken x.key y.key ps,
  gt_of_lt x.key y.key,
  gt_of_lt y.key x.key,
  eq_of_compare x.key y.key,
  compare_bytes_refl x.key,
  o.0,
  o.1,
)

sort_positions-Ordered : (ps : List Positioned) → Ordered (sort_positions ps)
sort_positions-Ordered [] = tt
sort_positions-Ordered ((i, x) ∷ ps) =
    insert_sorted-Ordered i x (sort_positions ps) (sort_positions-Ordered ps)

unique_edits-Above :
    (k : Bytes) (g : ℕ) (ps : List Positioned)
    → All (λ p. compare_bytes k p.1.key ≡ Ordering.lt) ps
    → Above edit_key k (unique_edits g ps)
unfolding unique_edits
unique_edits-Above k g [] a = tt
unique_edits-Above k g ((i, x) ∷ ps) a = ground (arith, unique_edits-Above k g ps a.1, a.0)

All-above :
    (k l : Bytes) (ps : List Positioned)
    → compare_bytes k l ≡ Ordering.lt
    → AtLeast l ps
    → All (λ p. compare_bytes k p.1.key ≡ Ordering.lt) ps
All-above k l [] h a = tt
All-above k l (p ∷ ps) h a = (
  ground (arith, lt_trans k l p.1.key, lt_of_gt p.1.key l, eq_of_compare p.1.key l, a.0),
  All-above k l ps h a.1,
)

-- The keys behind an edit that nothing supersedes are greater.
not_superseded :
    (x : TypedRowEdit) (ps : List Positioned)
    → AtLeast x.key ps
    → Ordered ps
    → superseded x ps ≡ false
    → All (λ p. compare_bytes x.key p.1.key ≡ Ordering.lt) ps
not_superseded x [] a o h = tt
not_superseded x ((j, y) ∷ ps) a o h =
    let lt : compare_bytes x.key y.key ≡ Ordering.lt = ground (arith, lt_of_gt x.key y.key, a.0) in
    (lt, All-above x.key y.key ps lt o.0)

unique_edits-Sorted :
    (g : ℕ) (ps : List Positioned) → Ordered ps → Sorted edit_key (unique_edits g ps)
unfolding unique_edits
unique_edits-Sorted g [] o = tt
unique_edits-Sorted g ((i, x) ∷ ps) o = ground (
  arith,
  unique_edits-Sorted g ps o.1,
  λ (h : superseded x ps ≡ false). unique_edits-Above x.key g ps (not_superseded x ps o.0 o.1 h),
)

last_positioned-above :
    (k : Bytes) (ps : List Positioned)
    → All (λ p. compare_bytes k p.1.key ≡ Ordering.lt) ps
    → last_positioned k ps ≡ none
last_positioned-above k [] a = refl
last_positioned-above k ((j, y) ∷ ps) a =
    ground (arith, last_positioned-above k ps a.1, gt_of_lt k y.key a.0)

superseded-last :
    (x : TypedRowEdit) (ps : List Positioned)
    → superseded x ps ≡ true
    → last_positioned x.key ps ≢ none
superseded-last x [] h = cc
superseded-last x ((j, y) ∷ ps) h =
    ground (arith, eq_of_compare x.key y.key, compare_bytes_refl y.key)

-- The generation that `with` writes into each edit.
abbrev pub stamp : ℕ → Option TypedRowEdit → Option TypedRowEdit
stamp generation none = none
stamp generation (some e) = some (record e { generation = generation })

find-unique_edits :
    (k : Bytes) (g : ℕ) (ps : List Positioned)
    → Ordered ps
    → find edit_key k (unique_edits g ps) ≡ stamp g (last_positioned k ps)
unfolding unique_edits find
find-unique_edits k g [] o = refl
find-unique_edits k g ((i, x) ∷ ps) o = elim (Bool-cases (superseded x ps)) [
  | inl h ↦
      rw (h, find-unique_edits k g ps o.1)
        (ground (arith, superseded-last x ps h, eq_of_compare x.key k))
  | inr h ↦ rw h (
      ground (
        arith,
        find-unique_edits k g ps o.1,
        last_positioned-above x.key ps (not_superseded x ps o.0 o.1 h),
        eq_of_compare x.key k,
      ))
]

module _ (generation : ℕ) (edits : List TypedRowEdit) where
  abbrev pub new_run : PendingRun
  new_run = unique_edits generation (sort_positions (positions 0 edits))

  pub new_run-Sorted : Sorted edit_key new_run
  new_run-Sorted = unique_edits-Sorted generation _ (sort_positions-Ordered (positions 0 edits))

  pub find-new_run : (k : Bytes) → find edit_key k new_run ≡ stamp generation (last_edit k edits)
  find-new_run k =
      find-unique_edits k generation _ (sort_positions-Ordered (positions 0 edits))
      ∙ ap (stamp generation) (last-sort_positions k 0 edits)
