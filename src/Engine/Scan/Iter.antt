-- ===== src/Engine/Scan/Iter.antt =====
-- `primaryRowIter` of engine/ranges.go.
pub mod Drain
pub mod Slots
pub mod Intervals
pub mod Rounds
pub mod Exact
use repodb.Base.{
  ℕ, zero, suc, Bool, true, false, Option, none, some, List, [], ◌∷◌, ◌++◌, if◌then◌else◌, map,
}
use repodb.Bytes.{Bytes}
use repodb.Bytes.Assoc.{Assoc, lookup}
use repodb.Prolly.{Entry}
use repodb.Repository.Pending.{TypedRowEdit}
use repodb.Engine.RowCodec.Values.{Result, failed, done, and_then, out_of_range}
use repodb.Engine.RowCodec.Row.{Schema, Row}
use repodb.Engine.RowCodec.Projection.{RowProjection, project, decode_row_projected}
use repodb.Engine.Ranges.{KeyInterval, scan_order}
use repodb.Engine.Scan.{
  RowEdit, sorted_overlay_keys, RowOverlayCursor, peek, advance, MergedEntries, NextKey,
  overlay_key, tree_value, advance_tree, next,
}

-- What a scan takes of a `tableState`: the transaction's edits, and for an interval the pending edits and the
-- tree's entries that their iterators in the scan's direction give.
pub record TableState (J : Type 0) : Type 0 where
  pub edits : Assoc (RowEdit J)
  pub pending_in : KeyInterval → List TypedRowEdit
  pub tree_in : KeyInterval → List Entry

-- `primaryRowIter`: the intervals that are left, and the merged entries of the one that is being read.
pub record PrimaryRowIter (J : Type 0) : Type 0 where
  pub intervals : List KeyInterval
  pub cur : Option (KeyInterval × MergedEntries (RowOverlayCursor J))

-- One round of the loop in `Next`: the end, a row that it returns, or another round.
pub data Round (J : Type 0) : Type 0 where
  at_end : Round J
  again : PrimaryRowIter J → Round J
  returned : Row J → PrimaryRowIter J → Round J

abbrev pub add_row : {J : Type 0} → Row J → Result (List (Row J)) → Result (List (Row J))
add_row row rows = and_then rows (λ rest. done (row ∷ rest))

-- What a client collects behind a round.
abbrev pub follow :
    {J : Type 0} → (PrimaryRowIter J → Result (List (Row J))) → Round J → Result (List (Row J))
follow rest at_end = done []
follow rest (again it) = rest it
follow rest (returned row it) = add_row row (rest it)

module _ {J : Type 0} (parse_json : Bytes → Option J) (schema : Schema) (state : TableState J)
    (backwards : Bool) (projection : Option RowProjection) where
  -- `newRowOverlayCursor`
  abbrev pub new_row_overlay_cursor : KeyInterval → RowOverlayCursor J
  new_row_overlay_cursor iv = record {
    local = sorted_overlay_keys state.edits iv backwards;
    pending = state.pending_in iv;
    edit = record { row = []; delete = false };
  }

  -- `newMergedEntries`
  abbrev pub new_merged_entries : KeyInterval → MergedEntries (RowOverlayCursor J)
  new_merged_entries iv = advance_tree backwards iv (state.tree_in iv) (new_row_overlay_cursor iv)

  -- What `Next` does with the next key. A row that is edited is projected.
  abbrev pub show_key :
      List KeyInterval
      → KeyInterval
      → Option NextKey
      → MergedEntries (RowOverlayCursor J)
      → Result (Round J)
  show_key intervals iv none m = done (again (record { intervals = intervals; cur = none }))
  show_key intervals iv (some (overlay_key key)) m =
      let it : PrimaryRowIter J = record { intervals = intervals; cur = some (iv, m) } in
      done (
        if m.overlay.edit.delete
        then again it
        else returned (project projection m.overlay.edit.row) it)
  show_key intervals iv (some (tree_value value)) m =
      and_then (decode_row_projected parse_json schema value projection)
        (λ row. done (returned row (record { intervals = intervals; cur = some (iv, m) })))

  unfoldable pub read_next :
      List KeyInterval → KeyInterval → MergedEntries (RowOverlayCursor J) → Result (Round J)
  read_next intervals iv m =
      and_then
        (next (peek backwards) (advance parse_json schema backwards state.edits) backwards iv m)
        (λ (key, m'). show_key intervals iv key m')

  unfoldable pub round : PrimaryRowIter J → Result (Round J)
  round it = elim it.cur [
    | some (iv, m) ↦ read_next it.intervals iv m
    | none ↦ elim it.intervals [
      | [] ↦ done at_end
      | iv ∷ intervals ↦ read_next intervals iv (new_merged_entries iv)
    ]
  ]

  -- The rows that a client collects that calls `Next` up to the end, in `fuel` rounds.
  unfoldable pub drain : ℕ → PrimaryRowIter J → Result (List (Row J))
  drain zero it = failed out_of_range
  drain (suc fuel) it = and_then (round it) (follow (λ it'. drain fuel it'))

  -- `newPrimaryRowIter`, of a state whose rows are not all in memory.
  abbrev pub new_primary_row_iter : List KeyInterval → PrimaryRowIter J
  new_primary_row_iter intervals = record { intervals = scan_order intervals backwards; cur = none }
