-- ===== src/Engine/MergeRows/Spec.antt =====
-- What the merge of three versions is: a decision for each key on its own.
use repodb.Base.{◌≡◌, refl, Bool, true, false, Option, none, some, List, [], ◌∷◌, ◌++◌}
use repodb.Bytes.{Bytes}
use repodb.Bytes.Sorted.{Above, Sorted, find}
use repodb.Bytes.Assoc.{Assoc, lookup}
use repodb.Prolly.{Entry, entry_key}
use repodb.Engine.MergeRows.{
  Resolution, Cell, RowConflict, row_id, Decision, take, conflict, invalid, decide, row_conflict,
  same_value,
}
use repodb.Engine.MergeRows.Cursors.{cell}

abbrev pub chosen : Decision → Cell
chosen (take c) = c
chosen conflict = none
chosen (invalid text) = none

abbrev pub is_conflict : Decision → Bool
is_conflict (take c) = false
is_conflict conflict = true
is_conflict (invalid text) = false

abbrev pub only_key : Bool → Bytes → Option Bytes
only_key true k = some k
only_key false k = none

-- A merge that collects what it emits.
abbrev pub collect : List Entry → Entry → Option (List Entry)
collect rows e = some (rows ++ e ∷ [])

abbrev pub itself : Bytes → Bytes
itself k = k

abbrev pub row_of : Bytes → Cell → List Entry
row_of k none = []
row_of k (some v) = record { key = k; value = v } ∷ []

module _ (table : Bytes) (resolutions : Assoc Resolution) where
  -- The decision for a key, from its cells in the three versions alone.
  abbrev pub decision : Bytes → List Entry → List Entry → List Entry → Decision
  decision k b l r = decide (lookup (row_id table k) resolutions) (cell k b) (cell k l) (cell k r)

  abbrev pub conflict_at : List Entry → List Entry → List Entry → Bytes → RowConflict
  conflict_at b l r k = row_conflict collect table resolutions k (cell k b) (cell k l) (cell k r)

  -- `keys` are the keys in conflict, and `rows` the merged rows, both in key order.
  pub record IsMerge (b l r : List Entry) (keys : List Bytes) (rows : List Entry) : Type 0 where
    pub rows_sorted : Sorted entry_key rows
    pub rows_cells : (k : Bytes) → cell k rows ≡ chosen (decision k b l r)
    pub keys_sorted : Sorted itself keys
    pub keys_conflict :
        (k : Bytes) → find itself k keys ≡ only_key (is_conflict (decision k b l r)) k

  -- Keys above a bound of all three versions only.
  pub record Bounded (b l r : List Entry) (keys : List Bytes) (rows : List Entry) : Type 0 where
    pub rows_above :
        (k : Bytes)
        → Above entry_key k b
        → Above entry_key k l
        → Above entry_key k r
        → Above entry_key k rows
    pub keys_above :
        (k : Bytes)
        → Above entry_key k b
        → Above entry_key k l
        → Above entry_key k r
        → Above itself k keys

  pub no_cells : (o : Option Resolution) → decide o none none none ≡ take none
  no_cells o = unfold decide same_value in refl

  pub empty-IsMerge : IsMerge [] [] [] [] []
  empty-IsMerge = record {
    rows_sorted = tt;
    rows_cells = λ k. unfold find in rw no_cells;
    keys_sorted = tt;
    keys_conflict = λ k. unfold find in rw no_cells;
  }
