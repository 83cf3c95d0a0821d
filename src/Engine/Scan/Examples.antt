-- ===== src/Engine/Scan/Examples.antt =====
-- Scans of a small table, backwards and forwards.
use repodb.Base.{
  ℕ, ◌<◌, ◌≡◌, refl, ap, ◌∙◌, Bool, true, false, Option, none, some, List, [], ◌∷◌, if◌then◌else◌,
  arith, Bool-cases, inl, inr,
}
use repodb.Bytes.{Bytes, compare_bytes, equal_bytes}
use repodb.Bytes.Assoc.{Assoc, lookup}
use repodb.Prolly.{Entry}
use repodb.Repository.Pending.{TypedRowEdit}
use repodb.Engine.RowCodec.Values.{done}
use repodb.Prolly.Varint.{uvarint_from}
use repodb.Engine.RowCodec.Cell.{read_uvarint}
use repodb.Engine.RowCodec.Row.{decode_row, read_cells}
use repodb.Engine.RowCodec.Projection.{project, decode_row_projected}
use repodb.Engine.Ranges.{KeyInterval, contains, scan_order}
use repodb.Engine.Ranges.Merge.Apart.{AreApart}
use repodb.Engine.Ranges.Merge.Cover.{contains_any}
use repodb.Engine.Scan.{RowEdit, insert_key, sorted_keys}
use repodb.Engine.Scan.Order.{InOrder, same_key}
use repodb.Engine.Scan.Cursor.{DecodeTo}
use repodb.Engine.Scan.Entries.{Slot}
use repodb.Engine.Scan.Keys.{IsMap, only_in}
use repodb.Engine.Scan.Order.{lookup-same, lookup-other}
use repodb.Engine.Scan.Tree.{tree_keyed, Reached, is_reached}
use repodb.Engine.Scan.Iter.{TableState, drain, round, read_next, new_primary_row_iter}
use repodb.Engine.Scan.Iter.Drain.{slot_rows}
use repodb.Engine.Scan.Iter.Slots.{Iterators}
use repodb.Engine.Scan.Iter.Rounds.{work}
use repodb.Engine.Scan.Iter.Exact.{visible, primary_row_iter_lem}

no_json : Bytes → Option ℕ
no_json b = none

-- A pending edit that deletes the key 3, and the tree's entry of the key 5, where they lie in an interval.
abbrev deletion : TypedRowEdit
deletion = record { key = 3 ∷ []; value = []; delete = true; generation = 1 }

abbrev deleted : RowEdit ℕ
deleted = record { row = []; delete = true }

abbrev entry : Entry
entry = record { key = 5 ∷ []; value = 0 ∷ [] }

abbrev one_if : {A : Type 0} → Bool → A → List A
one_if b a = if b then a ∷ [] else []

-- The transaction has edited the keys 4 and 2.
abbrev small_state : TableState ℕ
small_state = record {
  edits =
      (4 ∷ [], record { row = []; delete = false })
      ∷ (2 ∷ [], record { row = none ∷ []; delete = false })
      ∷ [];
  pending_in = λ iv. one_if (contains iv (3 ∷ [])) deletion;
  tree_in = λ iv. one_if (contains iv (5 ∷ [])) entry;
}

lookup-one :
    {V : Type 0} (iv : KeyInterval) (j k : Bytes) (v : V)
    → lookup k (one_if (contains iv j) (j, v)) ≡ only_in iv k (lookup k ((j, v) ∷ []))
lookup-one iv j k v = elim (Bool-cases (equal_bytes j k)) [
  | inl same ↦
      rw (lookup-same j k v [] same, ap (contains iv) (same_key j k same))
        (found_one same (contains iv k))
  | inr differ ↦
      rw (lookup-other j k v [] differ) (not_found differ (contains iv j) (contains iv k))
]
  where
    found_one :
        equal_bytes j k ≡ true
        → (b : Bool) → lookup k (one_if b (j, v)) ≡ (if b then some v else none)
    found_one same true = lookup-same j k v [] same
    found_one same false = unfold lookup in refl

    not_found :
        equal_bytes j k ≡ false
        → (b c : Bool) → lookup k (one_if b (j, v)) ≡ (if c then lookup k [] else none)
    not_found differ true true = lookup-other j k v [] differ
    not_found differ true false = lookup-other j k v [] differ ∙ unfold lookup in refl
    not_found differ false true = refl
    not_found differ false false = unfold lookup in refl

decodes_one : (b : Bool) → DecodeTo no_json [] (one_if b deletion) (one_if b (3 ∷ [], deleted))
decodes_one true = (refl, refl, tt)
decodes_one false = tt

one-InOrder :
    {V : Type 0} (backwards b : Bool) (j : Bytes) (v : V) → InOrder backwards (one_if b (j, v))
one-InOrder backwards true j v = (tt, tt)
one-InOrder backwards false j v = tt

tree-InOrder : (backwards b : Bool) → InOrder backwards (tree_keyed (one_if b entry))
tree-InOrder backwards true = (tt, tt)
tree-InOrder backwards false = tt

tree-Reached :
    (backwards : Bool) (start : Bytes) (end : Option Bytes)
    → Reached backwards
        (record { start = start; end = end })
        (one_if (contains (record { start = start; end = end }) (5 ∷ [])) entry)
tree-Reached backwards start end =
    elim (Bool-cases (contains (record { start = start; end = end }) (5 ∷ []))) [
      | inl inside ↦ rw inside (reached backwards inside, tt)
      | inr outside ↦ rw outside tt
    ]
  where
    reached :
        (b : Bool)
        → contains (record { start = start; end = end }) (5 ∷ []) ≡ true
        → is_reached b (record { start = start; end = end }) (5 ∷ []) ≡ true
    reached true h = ground (arith, h)
    reached false h = ground (arith, h)

tree_one : (b : Bool) → tree_keyed (one_if b entry) ≡ one_if b (5 ∷ [], 0 ∷ [])
tree_one true = refl
tree_one false = refl

only_inside :
    {V : Type 0} (iv : KeyInterval) (k : Bytes) (o : Option V)
    → contains iv k ≡ true
    → only_in iv k o ≡ o
only_inside iv k o inside = rw inside refl

abbrev pending_at : Bytes → Option (RowEdit ℕ)
pending_at k = lookup k ((3 ∷ [], deleted) ∷ [])

abbrev tree_at : Bytes → Option Bytes
tree_at k = lookup k ((5 ∷ [], 0 ∷ []) ∷ [])

small-Iterators : (backwards : Bool) → Iterators no_json [] backwards small_state pending_at tree_at
small-Iterators backwards = record {
  items_in = λ iv. one_if (contains iv (3 ∷ [])) (3 ∷ [], deleted);
  pending_decodes = λ iv. decodes_one (contains iv (3 ∷ []));
  pending_order = λ iv. one-InOrder backwards (contains iv (3 ∷ [])) (3 ∷ []) deleted;
  pending_find = λ iv k. lookup-one iv (3 ∷ []) k deleted;
  tree_order = λ iv. tree-InOrder backwards (contains iv (5 ∷ []));
  tree_reached = λ iv. tree-Reached backwards iv.start iv.end;
  tree_find = λ iv k inside.
      ap (lookup k) (tree_one (contains iv (5 ∷ [])))
      ∙ lookup-one iv (5 ∷ []) k (0 ∷ [])
      ∙ only_inside iv k (tree_at k) inside;
}

distinct : IsMap small_state.edits
unfolding lookup compare_bytes
distinct = (refl, (refl, tt))

-- All keys from 2 to 4, and those from 5 on.
abbrev two_intervals : List KeyInterval
two_intervals =
    record { start = 2 ∷ []; end = some (4 ∷ 0 ∷ []) } ∷ record { start = 5 ∷ []; end = none } ∷ []

apart : AreApart two_intervals
unfolding compare_bytes
apart = (refl, refl, (refl, tt, tt))

rows_backwards :
    drain no_json [] small_state true none 12
      (new_primary_row_iter no_json [] small_state true none two_intervals)
    ≡ done ([] ∷ [] ∷ (none ∷ []) ∷ [])
unfolding drain round read_next compare_bytes insert_key sorted_keys lookup decode_row
    decode_row_projected project read_uvarint read_cells uvarint_from
rows_backwards = refl

rows_forwards :
    drain no_json [] small_state false none 12
      (new_primary_row_iter no_json [] small_state false none two_intervals)
    ≡ done ((none ∷ []) ∷ [] ∷ [] ∷ [])
unfolding drain round read_next compare_bytes insert_key sorted_keys lookup decode_row
    decode_row_projected project read_uvarint read_cells uvarint_from
rows_forwards = refl

enough_rounds : work small_state true (scan_order two_intervals true) < 12
unfolding compare_bytes insert_key sorted_keys
enough_rounds = omega arith

primary_row_iter_lem_example :
    (slots : Assoc (Slot (RowEdit ℕ))) × (drain no_json [] small_state true none 12
        (new_primary_row_iter no_json [] small_state true none two_intervals)
      ≡ slot_rows no_json [] small_state true none slots (done []))
    × InOrder true slots
    × ((k : Bytes)
        → lookup k slots ≡ (
            if contains_any two_intervals k
            then visible small_state.edits pending_at tree_at k
            else none))
primary_row_iter_lem_example =
    primary_row_iter_lem no_json [] small_state true none pending_at tree_at (small-Iterators true)
      distinct 12 two_intervals apart enough_rounds
