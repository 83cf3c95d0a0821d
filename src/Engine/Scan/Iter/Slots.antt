-- ===== src/Engine/Scan/Iter/Slots.antt =====
-- The slots that a scan meets in an interval and in all of them, and its rows.
use repodb.Base.{
  ℕ, suc, ◌≡◌, refl, sym, ap, ◌∙◌, Bool, true, false, Option, none, some, List, [], ◌∷◌, ◌++◌,
}
use repodb.Bytes.{Bytes}
use repodb.Bytes.Assoc.{Assoc, lookup}
use repodb.Engine.RowCodec.Values.{Result, done}
use repodb.Engine.RowCodec.Row.{Schema, Row}
use repodb.Engine.RowCodec.Projection.{RowProjection}
use repodb.Engine.Ranges.{KeyInterval, contains}
use repodb.Engine.Scan.{peek, advance, RowEdit, sorted_overlay_keys, RowOverlayCursor}
use repodb.Engine.Scan.Order.{InOrder}
use repodb.Engine.Scan.Overlay.{overlaid}
use repodb.Engine.Scan.Cursor.{DecodeTo, own_edits, cursor-EmitsRows}
use repodb.Engine.Scan.Entries.{Slot, edited, stored, tree_slots, overlay_slots, merged-Serves}
use repodb.Engine.Scan.Keys.{only_in}
use repodb.Engine.Scan.Tree.{tree_keyed, Reached}
use repodb.Engine.Scan.Iter.{TableState, new_merged_entries, new_row_overlay_cursor, round, drain}
use repodb.Engine.Scan.Iter.Drain.{slot_rows, rounds, drained, drain_interval}

-- What the iterators of a scan give, of the pending edits and the tree as maps from keys: each interval's own
-- keys in the scan's order, and the tree from the interval's near end on, perhaps beyond its far one. The
-- pending edits decode.
pub record Iterators {J : Type 0} (parse_json : Bytes → Option J) (schema : Schema)
    (backwards : Bool) (state : TableState J) (pending : Bytes → Option (RowEdit J))
    (tree : Bytes → Option Bytes) : Type 0 where
  pub items_in : KeyInterval → Assoc (RowEdit J)
  pub pending_decodes :
      (iv : KeyInterval) → DecodeTo parse_json schema (state.pending_in iv) (items_in iv)
  pub pending_order : (iv : KeyInterval) → InOrder backwards (items_in iv)
  pub pending_find :
      (iv : KeyInterval) (k : Bytes) → lookup k (items_in iv) ≡ only_in iv k (pending k)
  pub tree_order : (iv : KeyInterval) → InOrder backwards (tree_keyed (state.tree_in iv))
  pub tree_reached : (iv : KeyInterval) → Reached backwards iv (state.tree_in iv)
  pub tree_find :
      (iv : KeyInterval) (k : Bytes)
      → contains iv k ≡ true
      → lookup k (tree_keyed (state.tree_in iv)) ≡ tree k

slot_rows-append :
    {J : Type 0} (parse_json : Bytes → Option J) (schema : Schema) (state : TableState J)
    (backwards : Bool) (projection : Option RowProjection) (xs ys : Assoc (Slot (RowEdit J)))
    (later : Result (List (Row J)))
    → slot_rows parse_json schema state backwards projection (xs ++ ys) later
      ≡ slot_rows parse_json schema state backwards projection xs
          (slot_rows parse_json schema state backwards projection ys later)
unfolding slot_rows
slot_rows-append parse_json schema state backwards projection [] ys later = refl
slot_rows-append parse_json schema state backwards projection ((k, edited e) ∷ xs) ys later =
    rw (slot_rows-append parse_json schema state backwards projection xs ys later) refl
slot_rows-append parse_json schema state backwards projection ((k, stored v) ∷ xs) ys later =
    rw (slot_rows-append parse_json schema state backwards projection xs ys later) refl

module _ {J : Type 0} (parse_json : Bytes → Option J) (schema : Schema) (state : TableState J)
    (backwards : Bool) (projection : Option RowProjection) (pending : Bytes → Option (RowEdit J))
    (tree : Bytes → Option Bytes)
    (iterators : Iterators parse_json schema backwards state pending tree) where
  abbrev pub interval_slots : KeyInterval → Assoc (Slot (RowEdit J))
  interval_slots iv =
      overlaid backwards
        (overlay_slots (
          overlaid backwards (own_edits state.edits (sorted_overlay_keys state.edits iv backwards))
            (iterators.items_in iv)))
        (tree_slots backwards iv (state.tree_in iv))

  abbrev pub all_slots : List KeyInterval → Assoc (Slot (RowEdit J))
  all_slots [] = []
  all_slots (iv ∷ intervals) = interval_slots iv ++ all_slots intervals

  -- The rounds for the intervals, and one more that finds no interval.
  abbrev pub all_rounds : List KeyInterval → ℕ → ℕ
  all_rounds [] fuel = suc fuel
  all_rounds (iv ∷ intervals) fuel = rounds (interval_slots iv) (all_rounds intervals fuel)

  opened :
      (fuel : ℕ) (iv : KeyInterval) (intervals : List KeyInterval)
      (slots : Assoc (Slot (RowEdit J)))
      → drained parse_json schema state backwards projection
          (rounds slots fuel)
          (iv ∷ intervals)
          none
        ≡ drained parse_json schema state backwards projection
            (rounds slots fuel)
            intervals
            (some (iv, new_merged_entries parse_json schema state backwards projection iv))
  unfolding drain round
  opened fuel iv intervals [] = refl
  opened fuel iv intervals (x ∷ slots) = refl

  -- All the rows of a scan.
  pub drain_all :
      (fuel : ℕ) (intervals : List KeyInterval)
      → drained parse_json schema state backwards projection
          (all_rounds intervals fuel)
          intervals
          none
        ≡ slot_rows parse_json schema state backwards projection (all_slots intervals) (done [])
  unfolding drain round slot_rows
  drain_all fuel [] = refl
  drain_all fuel (iv ∷ intervals) =
      opened (all_rounds intervals fuel) iv intervals (interval_slots iv)
      ∙ drain_interval parse_json schema state backwards projection (all_rounds intervals fuel)
          intervals iv (new_merged_entries parse_json schema state backwards projection iv)
          (interval_slots iv)
          (merged-Serves (peek backwards) (advance parse_json schema backwards state.edits)
            (λ (c : RowOverlayCursor J). c.edit) backwards iv
            (new_row_overlay_cursor parse_json schema state backwards projection iv)
            (state.tree_in iv)
            (overlaid backwards
              (own_edits state.edits (sorted_overlay_keys state.edits iv backwards))
              (iterators.items_in iv))
            (cursor-EmitsRows parse_json schema backwards state.edits
              (sorted_overlay_keys state.edits iv backwards) (state.pending_in iv)
              (iterators.items_in iv) (record { row = []; delete = false })
              (iterators.pending_decodes iv)))
      ∙ ap (slot_rows parse_json schema state backwards projection (interval_slots iv))
          (drain_all fuel intervals)
      ∙ sym (
          slot_rows-append parse_json schema state backwards projection (interval_slots iv)
            (all_slots intervals) (done []))
