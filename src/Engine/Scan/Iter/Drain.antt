-- ===== src/Engine/Scan/Iter/Drain.antt =====
-- The rows of a scan are those of the slots that its intervals give, in order, up to the first error.
use repodb.Base.{
  ℕ, suc, ◌≡◌, refl, sym, ap, ◌∙◌, Bool, true, false, Option, none, some, List, [], ◌∷◌,
  if◌then◌else◌,
}
use repodb.Bytes.{Bytes}
use repodb.Bytes.Assoc.{Assoc}
use repodb.Engine.RowCodec.Values.{Result, failed, done, and_then}
use repodb.Engine.RowCodec.Row.{Schema, Row}
use repodb.Engine.RowCodec.Projection.{RowProjection, project, decode_row_projected}
use repodb.Engine.Ranges.{KeyInterval}
use repodb.Engine.Scan.{
  RowEdit, RowOverlayCursor, peek, advance, MergedEntries, NextKey, overlay_key, tree_value, next,
}
use repodb.Engine.Scan.Entries.{Slot, edited, stored, Serves}
use repodb.Engine.Scan.Iter.{
  TableState, PrimaryRowIter, again, returned, show_key, round, read_next, drain, add_row, follow,
}

-- A round for each slot, and one that finds no more.
abbrev pub rounds : {A : Type 0} → List A → ℕ → ℕ
rounds [] fuel = suc fuel
rounds (x ∷ slots) fuel = suc (rounds slots fuel)

module _ {J : Type 0} (parse_json : Bytes → Option J) (schema : Schema) (state : TableState J)
    (backwards : Bool) (projection : Option RowProjection) where
  -- The rows of slots: deleted ones have none, and the tree's values are decoded.
  unfoldable pub slot_rows :
      Assoc (Slot (RowEdit J)) → Result (List (Row J)) → Result (List (Row J))
  slot_rows [] later = later
  slot_rows ((k, edited e) ∷ slots) later =
      let rest = slot_rows slots later in
      if e.delete then rest else add_row (project projection e.row) rest
  slot_rows ((k, stored v) ∷ slots) later =
      let rest = slot_rows slots later in
      and_then (decode_row_projected parse_json schema v projection) (λ row. add_row row rest)

  abbrev pub ServesRows :
      KeyInterval → MergedEntries (RowOverlayCursor J) → Assoc (Slot (RowEdit J)) → Type 0
  ServesRows iv m slots =
      Serves (peek backwards) (advance parse_json schema backwards state.edits)
        (λ (c : RowOverlayCursor J). c.edit) backwards iv m slots

  round_lem :
      (intervals : List KeyInterval) (iv : KeyInterval) (m m' : MergedEntries (RowOverlayCursor J))
      (key : Option NextKey)
      → next (peek backwards) (advance parse_json schema backwards state.edits) backwards iv m
        ≡ done (key, m')
      → read_next parse_json schema state backwards projection intervals iv m
        ≡ show_key parse_json schema state backwards projection intervals iv key m'
  unfolding read_next
  round_lem intervals iv m m' key e =
      ap
        (λ n.
          and_then n (λ (key, m').
            show_key parse_json schema state backwards projection intervals iv key m'))
        e

  abbrev pub drained :
      ℕ
      → List KeyInterval
      → Option (KeyInterval × MergedEntries (RowOverlayCursor J))
      → Result (List (Row J))
  drained fuel intervals cur =
      drain parse_json schema state backwards projection fuel
        (record { intervals = intervals; cur = cur })

  -- One round, and then those behind it.
  drained_lem :
      (fuel : ℕ) (intervals : List KeyInterval) (iv : KeyInterval)
      (m m' : MergedEntries (RowOverlayCursor J)) (key : Option NextKey)
      → next (peek backwards) (advance parse_json schema backwards state.edits) backwards iv m
        ≡ done (key, m')
      → drained (suc fuel) intervals (some (iv, m))
        ≡ and_then
            (show_key parse_json schema state backwards projection intervals iv key m')
            (follow (λ it. drain parse_json schema state backwards projection fuel it))
  unfolding drain round
  drained_lem fuel intervals iv m m' key e =
      ap
        (λ r.
          and_then r (follow (λ it. drain parse_json schema state backwards projection fuel it)))
        (round_lem intervals iv m m' key e)

  show_deleted :
      (fuel : ℕ) (intervals : List KeyInterval) (iv : KeyInterval)
      (m : MergedEntries (RowOverlayCursor J)) (k : Bytes) (x : RowEdit J)
      → m.overlay.edit ≡ x
      → and_then
          (show_key parse_json schema state backwards projection intervals iv
            (some (overlay_key k))
            m)
          (follow (λ it. drain parse_json schema state backwards projection fuel it))
        ≡ (if x.delete
            then drained fuel intervals (some (iv, m))
            else add_row (project projection x.row) (drained fuel intervals (some (iv, m))))
  show_deleted fuel intervals iv m k x e = rw (sym e) (by_flag m.overlay.edit.delete)
    where
      it : PrimaryRowIter J
      it = record { intervals = intervals; cur = some (iv, m) }

      by_flag :
          (b : Bool)
          → follow
              (λ it. drain parse_json schema state backwards projection fuel it)
              (if b then again it else returned (project projection m.overlay.edit.row) it)
            ≡ (if b
                then drained fuel intervals (some (iv, m))
                else add_row
                    (project projection m.overlay.edit.row)
                    (drained fuel intervals (some (iv, m))))
      by_flag true = refl
      by_flag false = refl

  show_stored :
      (fuel : ℕ) (intervals : List KeyInterval) (iv : KeyInterval)
      (m : MergedEntries (RowOverlayCursor J)) (v : Bytes)
      → and_then
          (show_key parse_json schema state backwards projection intervals iv
            (some (tree_value v))
            m)
          (follow (λ it. drain parse_json schema state backwards projection fuel it))
        ≡ and_then
            (decode_row_projected parse_json schema v projection)
            (λ row. add_row row (drained fuel intervals (some (iv, m))))
  show_stored fuel intervals iv m v =
      by_result (decode_row_projected parse_json schema v projection)
    where
      by_result :
          (r : Result (Row J))
          → and_then
              (and_then r
                (λ row. done (returned row (record { intervals = intervals; cur = some (iv, m) }))))
              (follow (λ it. drain parse_json schema state backwards projection fuel it))
            ≡ and_then r (λ row. add_row row (drained fuel intervals (some (iv, m))))
      by_result (failed e) = refl
      by_result (done row) = refl

  pub drain_interval :
      (fuel : ℕ) (intervals : List KeyInterval) (iv : KeyInterval)
      (m : MergedEntries (RowOverlayCursor J)) (slots : Assoc (Slot (RowEdit J)))
      → ServesRows iv m slots
      → drained (rounds slots fuel) intervals (some (iv, m))
        ≡ slot_rows slots (drained fuel intervals none)
  unfolding slot_rows
  drain_interval fuel intervals iv m [] (m', e) = drained_lem fuel intervals iv m m' none e
  drain_interval fuel intervals iv m ((k, edited x) ∷ slots) (m', e, is_edit, later) =
      drained_lem (rounds slots fuel) intervals iv m m' (some (overlay_key k)) e
      ∙ show_deleted (rounds slots fuel) intervals iv m' k x is_edit
      ∙ ap (λ rest. if x.delete then rest else add_row (project projection x.row) rest)
          (drain_interval fuel intervals iv m' slots later)
  drain_interval fuel intervals iv m ((k, stored v) ∷ slots) (m', e, later) =
      drained_lem (rounds slots fuel) intervals iv m m' (some (tree_value v)) e
      ∙ show_stored (rounds slots fuel) intervals iv m' v
      ∙ ap
          (λ rest.
            and_then (decode_row_projected parse_json schema v projection)
              (λ row. add_row row rest))
          (drain_interval fuel intervals iv m' slots later)
