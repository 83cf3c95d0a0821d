-- ===== src/Engine/Scan/Iter/Exact.antt =====
-- A scan shows, in its order, what the edits and the tree say of each key in its intervals.
use repodb.Base.{
  ℕ, ◌<◌, ◌≡◌, refl, ap, ap₂, ◌∙◌, Bool, true, false, Option, none, some, List, [], ◌∷◌, ◌||◌,
  if◌then◌else◌, All,
}
use repodb.Bytes.{Bytes}
use repodb.Bytes.Assoc.{Assoc, lookup}
use repodb.Engine.RowCodec.Values.{done}
use repodb.Engine.RowCodec.Row.{Schema}
use repodb.Engine.RowCodec.Projection.{RowProjection}
use repodb.Engine.Ranges.{KeyInterval, contains, scan_order}
use repodb.Engine.Ranges.Merge.Apart.{AreApart}
use repodb.Engine.Ranges.Merge.Cover.{contains_any}
use repodb.Engine.Scan.{RowEdit, sorted_overlay_keys, edit_at, edit_or_zero}
use repodb.Engine.Scan.Order.{AllLater, InOrder}
use repodb.Engine.Scan.Append.{AllLater-append, lookup-append, InOrder-append, All-keys}
use repodb.Engine.Scan.Overlay.{or_else, overlaid, overlaid-InOrder, lookup-overlaid}
use repodb.Engine.Scan.Cursor.{own_edits}
use repodb.Engine.Scan.Entries.{Slot, tree_slots, overlay_slots}
use repodb.Engine.Scan.Keys.{IsMap, only_in, found_as}
use repodb.Engine.Scan.Keys.Reverse.{sorted_overlay_keys-InOrder, lookup-sorted_overlay_keys}
use repodb.Engine.Scan.Tree.{
  as_edited, as_stored, tree_keyed, lookup-overlay_slots, overlay_slots-InOrder, lookup-tree_slots,
  tree_slots-InOrder,
}
use repodb.Engine.Scan.Iter.{TableState, drain, new_primary_row_iter}
use repodb.Engine.Scan.Iter.Drain.{slot_rows}
use repodb.Engine.Scan.Iter.Slots.{Iterators, interval_slots, all_slots, drain_all}
use repodb.Engine.Scan.Iter.Intervals.{
  IsAhead, AreInOrder, scan_order-AreInOrder, scan_order-contains_any,
}
use repodb.Engine.Scan.Iter.Rounds.{work, all_rounds_enough}

-- What is visible under a key: the transaction's edit, else the pending edit, else the tree's value.
abbrev pub visible :
    {J : Type 0}
    → Assoc (RowEdit J)
    → (Bytes → Option (RowEdit J))
    → (Bytes → Option Bytes)
    → Bytes
    → Option (Slot (RowEdit J))
visible edits pending tree k =
    or_else (as_edited (or_else (lookup k edits) (pending k))) (as_stored (tree k))

found_own : {J : Type 0} (o : Option (RowEdit J)) → found_as (edit_or_zero o) o ≡ o
found_own none = refl
found_own (some e) = refl

module _ {J : Type 0} (parse_json : Bytes → Option J) (schema : Schema) (state : TableState J)
    (backwards : Bool) (projection : Option RowProjection) (pending : Bytes → Option (RowEdit J))
    (tree : Bytes → Option Bytes)
    (iterators : Iterators parse_json schema backwards state pending tree)
    (distinct : IsMap state.edits) where
  abbrev slots_of : KeyInterval → Assoc (Slot (RowEdit J))
  slots_of iv =
      interval_slots parse_json schema state backwards projection pending tree iterators iv

  abbrev own_in : KeyInterval → Assoc (RowEdit J)
  own_in iv = own_edits state.edits (sorted_overlay_keys state.edits iv backwards)

  own-InOrder : (iv : KeyInterval) → InOrder backwards (own_in iv)
  own-InOrder iv =
      sorted_overlay_keys-InOrder (edit_at state.edits) state.edits iv distinct backwards

  interval-InOrder : (iv : KeyInterval) → InOrder backwards (slots_of iv)
  interval-InOrder iv =
      overlaid-InOrder backwards
        (overlay_slots (overlaid backwards (own_in iv) (iterators.items_in iv)))
        (tree_slots backwards iv (state.tree_in iv))
        (overlay_slots-InOrder backwards (overlaid backwards (own_in iv) (iterators.items_in iv)) (
          overlaid-InOrder backwards (own_in iv) (iterators.items_in iv) (own-InOrder iv)
            (iterators.pending_order iv)))
        (tree_slots-InOrder (RowEdit J) backwards iv (state.tree_in iv) (iterators.tree_order iv))

  combined :
      (b : Bool) (o p : Option (RowEdit J)) (q r : Option Bytes)
      → (b ≡ true → q ≡ r)
      → or_else
          (as_edited (or_else (if b then o else none) (if b then p else none)))
          (if b then as_stored q else none)
        ≡ (if b then or_else (as_edited (or_else o p)) (as_stored r) else none)
  combined true o p q r h = rw (h refl) refl
  combined false o p q r h = refl

  lookup-slots_of :
      (iv : KeyInterval) (k : Bytes)
      → lookup k (slots_of iv) ≡ only_in iv k (visible state.edits pending tree k)
  lookup-slots_of iv k =
      lookup-overlaid backwards k
        (overlay_slots (overlaid backwards (own_in iv) (iterators.items_in iv)))
        (tree_slots backwards iv (state.tree_in iv))
        (overlay_slots-InOrder backwards (overlaid backwards (own_in iv) (iterators.items_in iv)) (
          overlaid-InOrder backwards (own_in iv) (iterators.items_in iv) (own-InOrder iv)
            (iterators.pending_order iv)))
        (tree_slots-InOrder (RowEdit J) backwards iv (state.tree_in iv) (iterators.tree_order iv))
      ∙ ap₂ or_else
          (lookup-overlay_slots k (overlaid backwards (own_in iv) (iterators.items_in iv))
            ∙ ap as_edited (
                lookup-overlaid backwards k (own_in iv) (iterators.items_in iv) (own-InOrder iv)
                  (iterators.pending_order iv)
                ∙ ap₂ or_else
                    (lookup-sorted_overlay_keys (edit_at state.edits) state.edits iv distinct
                        backwards k
                      ∙ ap (only_in iv k) (found_own (lookup k state.edits)))
                    (iterators.pending_find iv k)))
          (lookup-tree_slots (RowEdit J) backwards iv k (state.tree_in iv) (iterators.tree_order iv)
            (iterators.tree_reached iv))
      ∙ combined (contains iv k) (lookup k state.edits) (pending k)
          (lookup k (tree_keyed (state.tree_in iv))) (tree k)
          (λ inside. iterators.tree_find iv k inside)

  keys_inside :
      (iv : KeyInterval)
      → All (λ (x : Bytes × Slot (RowEdit J)). contains iv x.0 ≡ true) (slots_of iv)
  keys_inside iv =
      All-keys (contains iv) (slots_of iv) (λ k outside. lookup-slots_of iv k ∙ rw outside refl)

  abbrev slots_of_all : List KeyInterval → Assoc (Slot (RowEdit J))
  slots_of_all intervals =
      all_slots parse_json schema state backwards projection pending tree iterators intervals

  lookup-slots_of_all :
      (intervals : List KeyInterval) (k : Bytes)
      → lookup k (slots_of_all intervals)
        ≡ (if contains_any intervals k then visible state.edits pending tree k else none)
  lookup-slots_of_all [] k = unfold lookup in refl
  lookup-slots_of_all (iv ∷ intervals) k =
      lookup-append k (slots_of iv) (slots_of_all intervals)
      ∙ ap₂ or_else (lookup-slots_of iv k) (lookup-slots_of_all intervals k)
      ∙ either (contains iv k) (contains_any intervals k) (visible state.edits pending tree k)
    where
      either :
          (p q : Bool) (o : Option (Slot (RowEdit J)))
          → or_else (if p then o else none) (if q then o else none) ≡ (if p || q then o else none)
      either true true none = refl
      either true true (some x) = refl
      either true false none = refl
      either true false (some x) = refl
      either false q o = refl

  later_intervals :
      (iv : KeyInterval) (a : Bytes) (intervals : List KeyInterval)
      → contains iv a ≡ true
      → All (IsAhead backwards iv) intervals
      → AllLater backwards a (slots_of_all intervals)
  later_intervals iv a [] inside t = tt
  later_intervals iv a (jv ∷ intervals) inside t =
      AllLater-append backwards a (slots_of jv) (slots_of_all intervals)
        (later (slots_of jv) (keys_inside jv)) (later_intervals iv a intervals inside t.1)
    where
      later :
          (xs : Assoc (Slot (RowEdit J)))
          → All (λ (x : Bytes × Slot (RowEdit J)). contains jv x.0 ≡ true) xs
          → AllLater backwards a xs
      later [] p = tt
      later (x ∷ xs) p = (t.0 a x.0 inside p.0, later xs p.1)

  all_slots-InOrder :
      (intervals : List KeyInterval)
      → AreInOrder backwards intervals
      → InOrder backwards (slots_of_all intervals)
  all_slots-InOrder [] t = tt
  all_slots-InOrder (iv ∷ intervals) t =
      InOrder-append backwards (slots_of iv) (slots_of_all intervals) (interval-InOrder iv)
        (later (slots_of iv) (keys_inside iv)) (all_slots-InOrder intervals t.1)
    where
      later :
          (xs : Assoc (Slot (RowEdit J)))
          → All (λ (x : Bytes × Slot (RowEdit J)). contains iv x.0 ≡ true) xs
          → All
              (λ (x : Bytes × Slot (RowEdit J)). AllLater backwards x.0 (slots_of_all intervals))
              xs
      later [] p = tt
      later (x ∷ xs) p = (later_intervals iv x.0 intervals p.0 t.0, later xs p.1)

  -- Let a table's state give a scan its pending edits, which decode, and its tree's entries in the
  -- scan's order. Let its own edits have each key once, and let the intervals be apart, as
  -- rangeIntervals gives them. Then a client that calls `Next` up to the end, in more rounds than
  -- there are intervals, edits and entries in them, collects the rows of slots in the scan's strict
  -- order. They hold each key in one of the intervals with what is visible under it, the
  -- transaction's edit over the pending edit over the tree's value, and no other key. Deleted ones
  -- give no row, edited ones their projected row, and the tree's values what they decode to, or the
  -- scan's first error.
  pub primary_row_iter_lem :
      (fuel : ℕ) (intervals : List KeyInterval)
      → AreApart intervals
      → work state backwards (scan_order intervals backwards) < fuel
      → (slots : Assoc (Slot (RowEdit J))) × (drain parse_json schema state backwards projection
            fuel
            (new_primary_row_iter parse_json schema state backwards projection intervals)
          ≡ slot_rows parse_json schema state backwards projection slots (done []))
        × InOrder backwards slots
        × ((k : Bytes)
            → lookup k slots
              ≡ (if contains_any intervals k then visible state.edits pending tree k else none))
  primary_row_iter_lem fuel intervals apart enough =
      let visited = scan_order intervals backwards in
      let (more, e) =
        all_rounds_enough parse_json schema state backwards projection pending tree iterators
          visited fuel enough in
      (
        slots_of_all visited,
        ap
              (λ n.
                drain parse_json schema state backwards projection n
                  (new_primary_row_iter parse_json schema state backwards projection intervals))
              e
            ∙ drain_all parse_json schema state backwards projection pending tree iterators more
                visited,
        all_slots-InOrder visited (scan_order-AreInOrder intervals backwards apart),
        (λ k.
            lookup-slots_of_all visited k
            ∙ ap (λ b. if b then visible state.edits pending tree k else none)
                (scan_order-contains_any intervals backwards k)),
      )
