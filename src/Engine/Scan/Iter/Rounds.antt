-- ===== src/Engine/Scan/Iter/Rounds.antt =====
-- How many rounds the loop in `Next` makes for a whole scan.
use repodb.Base.{
  ℕ, ◌+◌, ◌-◌, ◌<◌, ◌≤◌, ◌≡◌, refl, Bool, Option, List, [], ◌∷◌, arith, length, Bool-cases, inl,
  inr,
}
use repodb.Bytes.{Bytes, equal_bytes}
use repodb.Bytes.Assoc.{Assoc}
use repodb.Prolly.{Entry}
use repodb.Repository.Pending.{TypedRowEdit}
use repodb.Engine.RowCodec.Row.{Schema}
use repodb.Engine.RowCodec.Projection.{RowProjection}
use repodb.Engine.Ranges.{KeyInterval, before}
use repodb.Engine.Scan.{RowEdit, sorted_overlay_keys, is_behind}
use repodb.Engine.Scan.Overlay.{overlaid}
use repodb.Engine.Scan.Cursor.{DecodeTo, own_edits}
use repodb.Engine.Scan.Entries.{tree_slots, overlay_slots}
use repodb.Engine.Scan.Iter.{TableState}
use repodb.Engine.Scan.Iter.Drain.{rounds}
use repodb.Engine.Scan.Iter.Slots.{Iterators, interval_slots, all_rounds}

length-overlay_slots : {E : Type 0} (items : Assoc E) → length (overlay_slots items) ≡ length items
length-overlay_slots [] = refl
length-overlay_slots (x ∷ items) = ground (arith, length-overlay_slots items)

length-own_edits :
    {J : Type 0} (edits : Assoc (RowEdit J)) (keys : List Bytes)
    → length (own_edits edits keys) ≡ length keys
length-own_edits edits [] = refl
length-own_edits edits (k ∷ keys) = ground (arith, length-own_edits edits keys)

length-overlaid :
    {V : Type 0} (backwards : Bool) (xs ys : Assoc V)
    → length (overlaid backwards xs ys) ≤ length xs + length ys
unfolding overlaid
length-overlaid backwards [] ys = omega arith
length-overlaid backwards (x ∷ xs) [] = omega arith
length-overlaid backwards (x ∷ xs) (y ∷ ys) = elim (Bool-cases (before y.0 x.0 backwards)) [
  | inl second ↦
      rw (second, overlaid) (let n = length-overlaid backwards (x ∷ xs) ys in omega arith)
  | inr first ↦ elim (Bool-cases (equal_bytes x.0 y.0)) [
    | inl same ↦ rw (first, same, overlaid) (let n = length-overlaid backwards xs ys in omega arith)
    | inr differ ↦
        rw (first, differ, overlaid) (let n = length-overlaid backwards xs (y ∷ ys) in omega arith)
  ]
]

length-tree_slots :
    (E : Type 0) (backwards : Bool) (iv : KeyInterval) (tree : List Entry)
    → length (tree_slots {E = E} backwards iv tree) ≤ length tree
unfolding tree_slots
length-tree_slots E backwards iv [] = omega arith
length-tree_slots E backwards iv (e ∷ tree) = elim (Bool-cases (is_behind backwards iv e)) [
  | inl behind ↦ rw (behind, tree_slots) (omega arith)
  | inr within ↦
      rw (within, tree_slots) (let n = length-tree_slots E backwards iv tree in omega arith)
]

DecodeTo-length :
    {J : Type 0} (parse_json : Bytes → Option J) (schema : Schema) (pending : List TypedRowEdit)
    (items : Assoc (RowEdit J))
    → DecodeTo parse_json schema pending items
    → length items ≡ length pending
DecodeTo-length parse_json schema [] [] d = refl
DecodeTo-length parse_json schema [] (x ∷ items) d = absurd d
DecodeTo-length parse_json schema (p ∷ pending) [] d = absurd d
DecodeTo-length parse_json schema (p ∷ pending) (x ∷ items) d =
    let n = DecodeTo-length parse_json schema pending items d.2 in omega arith

rounds_lem : {A : Type 0} (slots : List A) (fuel : ℕ) → rounds slots fuel ≡ 1 + length slots + fuel
rounds_lem [] fuel = omega arith
rounds_lem (x ∷ slots) fuel = let n = rounds_lem slots fuel in omega arith

-- The keys, edits and entries of the intervals, and one for each interval.
abbrev pub work : {J : Type 0} → TableState J → Bool → List KeyInterval → ℕ
work state backwards [] = 0
work state backwards (iv ∷ intervals) =
    1
    + length (sorted_overlay_keys state.edits iv backwards)
    + length (state.pending_in iv)
    + length (state.tree_in iv)
    + work state backwards intervals

module _ {J : Type 0} (parse_json : Bytes → Option J) (schema : Schema) (state : TableState J)
    (backwards : Bool) (projection : Option RowProjection) (pending : Bytes → Option (RowEdit J))
    (tree : Bytes → Option Bytes)
    (iterators : Iterators parse_json schema backwards state pending tree) where
  length-interval_slots :
      (iv : KeyInterval)
      → length
          (interval_slots parse_json schema state backwards projection pending tree iterators iv)
        ≤ length (sorted_overlay_keys state.edits iv backwards)
          + length (state.pending_in iv)
          + length (state.tree_in iv)
  length-interval_slots iv =
      let keys = sorted_overlay_keys state.edits iv backwards in
      let items = iterators.items_in iv in
      let own = own_edits state.edits keys in
      let a = length-overlaid backwards own items in
      let b =
        length-overlaid backwards (overlay_slots (overlaid backwards own items))
          (tree_slots backwards iv (state.tree_in iv)) in
      let c = length-own_edits state.edits keys in
      let d = length-overlay_slots (overlaid backwards own items) in
      let e =
        DecodeTo-length parse_json schema (state.pending_in iv) items
          (iterators.pending_decodes iv) in
      let f = length-tree_slots (RowEdit J) backwards iv (state.tree_in iv) in omega arith

  -- Enough fuel is that for all rounds, and some more.
  pub all_rounds_enough :
      (intervals : List KeyInterval) (fuel : ℕ)
      → work state backwards intervals < fuel
      → (more : ℕ) × (fuel
          ≡ all_rounds parse_json schema state backwards projection pending tree iterators intervals
              more)
  all_rounds_enough [] fuel h = (fuel - 1, omega arith)
  all_rounds_enough (iv ∷ intervals) fuel h =
      let slots =
        interval_slots parse_json schema state backwards projection pending tree iterators iv in
      let n = length-interval_slots iv in
      let (more, e) = all_rounds_enough intervals (fuel - (1 + length slots)) (omega arith) in
      (
        more,
        let r = rounds_lem slots (
              all_rounds parse_json schema state backwards projection pending tree iterators
                intervals more) in
            omega arith,
      )
