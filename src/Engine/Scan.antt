-- ===== src/Engine/Scan.antt =====
-- Range scans of engine/ranges.go in either direction: the entries of a tree under the pending edits of the
-- journal and the edits of a transaction. An iterator is the list of what it has still to give: that of the
-- tree opened for an interval, and that of the pending edits in the interval.
pub mod Order
pub mod Overlay
pub mod Append
pub mod Cursor
pub mod Entries
pub mod Iter
pub mod Keys
pub mod Tree
mod Examples
use repodb.Base.{
  ℕ, zero, suc, Bool, true, false, Option, none, some, List, [], ◌∷◌, ◌++◌, not, if◌then◌else◌,
}
use mathlib.Core.List.{reverse}
use repodb.Bytes.{Bytes, equal_bytes, below, at_least}
use repodb.Bytes.Assoc.{Assoc, lookup}
use repodb.Prolly.{Entry}
use repodb.Repository.Pending.{TypedRowEdit}
use repodb.Engine.RowCodec.Values.{Result, failed, done, and_then, out_of_range}
use repodb.Engine.RowCodec.Row.{Schema, Row, decode_row}
use repodb.Engine.RowCodec.Projection.{RowProjection, project, decode_row_projected}
use repodb.Engine.Ranges.{KeyInterval, contains, before}

-- `rowEdit` of engine/catalog.go; a row that is nil is empty.
pub record RowEdit (J : Type 0) : Type 0 where
  pub row : Row J
  pub delete : Bool

-- `sort.Strings`, of the keys of a map, which differ.
pub insert_key : Bytes → List Bytes → List Bytes
insert_key k [] = k ∷ []
insert_key k (j ∷ keys) =
    let rest = insert_key k keys in if below j k then j ∷ rest else k ∷ j ∷ keys

-- The keys in an interval, sorted.
pub sorted_keys : {V : Type 0} → Assoc V → KeyInterval → List Bytes
sorted_keys [] iv = []
sorted_keys ((k, v) ∷ overlay) iv =
    let rest = sorted_keys overlay iv in if contains iv k then insert_key k rest else rest

-- `sortedOverlayKeys`
abbrev pub sorted_overlay_keys : {V : Type 0} → Assoc V → KeyInterval → Bool → List Bytes
sorted_overlay_keys overlay iv backwards =
    if backwards then reverse (sorted_keys overlay iv) else sorted_keys overlay iv

-- `rowOverlayCursor`: the keys of `local` and what `pending` gives that are not passed. The pending edit that
-- is loaded is the first of `pending`.
pub record RowOverlayCursor (J : Type 0) : Type 0 where
  pub local : List Bytes
  pub pending : List TypedRowEdit
  pub edit : RowEdit J

module _ {J : Type 0} (parse_json : Bytes → Option J) (schema : Schema) where
  -- `tableState.decodePending` of engine/catalog.go
  abbrev pub decode_pending : TypedRowEdit → Result (RowEdit J)
  decode_pending p =
      if p.delete
      then done (record { row = []; delete = true })
      else and_then (decode_row parse_json schema p.value)
          (λ row. done (record { row = row; delete = false }))

abbrev zero_edit : TypedRowEdit
zero_edit = record { key = []; value = []; delete = false; generation = 0 }

abbrev pub edit_or_zero : {J : Type 0} → Option (RowEdit J) → RowEdit J
edit_or_zero none = record { row = []; delete = false }
edit_or_zero (some e) = e

module _ {J : Type 0} (edits : Assoc (RowEdit J)) where
  -- `state.edits[key]`
  abbrev pub edit_at : Bytes → RowEdit J
  edit_at key = edit_or_zero (lookup key edits)

module _ (backwards : Bool) where
  abbrev pub peek_keys : List Bytes → List TypedRowEdit → Option Bytes
  peek_keys [] [] = none
  peek_keys (k ∷ local) [] = some k
  peek_keys [] (p ∷ pending) = some p.key
  peek_keys (k ∷ local) (p ∷ pending) = if before p.key k backwards then some p.key else some k

  -- `rowOverlayCursor.peek`
  abbrev pub peek : {J : Type 0} → RowOverlayCursor J → Option Bytes
  peek c = peek_keys c.local c.pending

module _ {J : Type 0} (parse_json : Bytes → Option J) (schema : Schema) (backwards : Bool)
    (edits : Assoc (RowEdit J)) where
  abbrev pub take_pending :
      List Bytes → TypedRowEdit → List TypedRowEdit → Result (RowOverlayCursor J)
  take_pending local p pending =
      and_then (decode_pending parse_json schema p)
        (λ e. done (record { local = local; pending = pending; edit = e }))

  -- `rowOverlayCursor.advance`; with no edit left the source decodes an empty one, which fails.
  abbrev pub advance_keys : List Bytes → List TypedRowEdit → Result (RowOverlayCursor J)
  advance_keys [] [] = take_pending [] zero_edit []
  advance_keys (k ∷ local) [] =
      done (record { local = local; pending = []; edit = edit_at edits k })
  advance_keys [] (p ∷ pending) = take_pending [] p pending
  advance_keys (k ∷ local) (p ∷ pending) =
      if before p.key k backwards
      then take_pending (k ∷ local) p pending
      else done (record {
        local = local;
        pending = if equal_bytes k p.key then pending else p ∷ pending;
        edit = edit_at edits k;
      })

  abbrev pub advance : RowOverlayCursor J → Result (RowOverlayCursor J)
  advance c = advance_keys c.local c.pending

-- `mergedEntries`: `tree_next` is none where the source's `treeOK` is false.
pub record MergedEntries (C : Type 0) : Type 0 where
  pub tree_next : Option Entry
  pub tree : List Entry
  pub overlay : C

-- What `mergedEntries.next` has advanced to.
pub data NextKey : Type 0 where
  overlay_key tree_value : Bytes → NextKey

module _ (backwards : Bool) (iv : KeyInterval) where
  -- An entry behind the interval in the scan's direction.
  abbrev pub is_behind : Entry → Bool
  is_behind e =
      if backwards
      then below e.key iv.start
      else (elim iv.end [ none ↦ false | some end ↦ at_least e.key end ])

  -- `mergedEntries.advanceTree`
  abbrev pub advance_tree : {C : Type 0} → List Entry → C → MergedEntries C
  advance_tree [] c = record { tree_next = none; tree = []; overlay = c }
  advance_tree (e ∷ tree) c = record {
    tree_next = if is_behind e then none else some e;
    tree = tree;
    overlay = c;
  }

module _ {C : Type 0} (peek : C → Option Bytes) (advance : C → Result C) (backwards : Bool)
    (iv : KeyInterval) where
  -- The entry of the tree is passed too if it has the key.
  abbrev pub pass_overlay : Bytes → MergedEntries C → Result (Option NextKey × MergedEntries C)
  pass_overlay key m = and_then (advance m.overlay) (λ c. elim m.tree_next [
    | none ↦ done (some (overlay_key key), record m { overlay = c })
    | some e ↦ done (
      some (overlay_key key),
      (if equal_bytes key e.key
          then advance_tree backwards iv m.tree c
          else record m { overlay = c }),
    )
  ])

  abbrev pub next_of :
      Option Bytes → Option Entry → MergedEntries C → Result (Option NextKey × MergedEntries C)
  next_of none none m = done (none, m)
  next_of (some key) none m = pass_overlay key m
  next_of none (some e) m =
      done (some (tree_value e.value), advance_tree backwards iv m.tree m.overlay)
  next_of (some key) (some e) m =
      if not (before e.key key backwards)
      then pass_overlay key m
      else done (some (tree_value e.value), advance_tree backwards iv m.tree m.overlay)

  -- `mergedEntries.next`
  abbrev pub next : MergedEntries C → Result (Option NextKey × MergedEntries C)
  next m = next_of (peek m.overlay) m.tree_next m
