-- ===== src/Engine/MergeRows.antt =====
-- engine/merge.go: the three-way merge of one table's rows. A cursor is the list of the entries that
-- its iterator has not passed; reads of the trees are taken to succeed.
pub mod Symmetry
pub mod Cursors
pub mod Spec
pub mod Step
pub mod Pointwise
pub mod Disjoint
pub mod FastForward
mod Examples
use repodb.Base.{
  ℕ, zero, suc, ◌+◌, Bool, true, false, Option, none, some, List, [], ◌∷◌, ◌++◌, if◌then◌else◌,
}
use repodb.Bytes.{Bytes, compare_bytes, equal_bytes, below}
use repodb.Bytes.Assoc.{Assoc, lookup}
use repodb.Prolly.{Entry}
use repodb.Engine.Base64.{raw_url, raw_std}

-- `Resolution`; a text that is none of the four stays as it is.
pub data Resolution : Type 0 where
  take_base take_local take_remote take_delete : Resolution
  other : Bytes → Resolution

-- A value with its presence flag: `none` is (nil, false).
abbrev pub Cell : Type 0
Cell = Option Bytes

-- `MergeConflict` of a row.
pub record RowConflict : Type 0 where
  pub id : Bytes
  pub table : Bytes
  pub key : Bytes
  pub base : Cell
  pub local : Cell
  pub remote : Cell

-- `sameValue`
pub same_value : Cell → Cell → Bool
same_value none none = true
same_value none (some b) = false
same_value (some a) none = false
same_value (some a) (some b) = equal_bytes a b

-- "row:" and ":"
abbrev row_prefix : Bytes
row_prefix = b'r' ∷ b'o' ∷ b'w' ∷ b':' ∷ []

-- `"row:" + table + ":" + base64.RawURLEncoding.EncodeToString(key)`
pub row_id : Bytes → Bytes → Bytes
row_id table key = row_prefix ++ (table ++ (b':' ∷ raw_url key))

-- What the merge does with one key.
pub data Decision : Type 0 where
  take : Cell → Decision
  conflict : Decision
  invalid : Bytes → Decision

abbrev pub resolve : Option Resolution → Cell → Cell → Cell → Decision
resolve none b l r = conflict
resolve (some take_base) b l r = take b
resolve (some take_local) b l r = take l
resolve (some take_remote) b l r = take r
resolve (some take_delete) b l r = take none
resolve (some (other text)) b l r = invalid text

-- The `switch` of `mergeRows`.
pub decide : Option Resolution → Cell → Cell → Cell → Decision
decide resolution b l r =
    if same_value l r
    then take l
    else if same_value l b
    then take r
    else if same_value r b
    then take l
    else resolve resolution b l r

-- The loop over the cursors that finds the least key.
abbrev pub least_key : Option Bytes → List Entry → Option Bytes
least_key key [] = key
least_key none (e ∷ cursor) = some e.key
least_key (some key) (e ∷ cursor) = if below e.key key then some e.key else some key

-- The cell of a cursor at the key, and the cursor behind it.
abbrev pub cell_at : Bytes → List Entry → Cell
cell_at key [] = none
cell_at key (e ∷ cursor) = if equal_bytes e.key key then some e.value else none

abbrev pub behind : Bytes → List Entry → List Entry
behind key [] = []
behind key (e ∷ cursor) = if equal_bytes e.key key then cursor else e ∷ cursor

-- `failed_emit` and `invalid_resolution` are errors; `stuck` is no Go value: the fuel ran out.
pub data Merged (S : Type 0) : Type 0 where
  merged : List RowConflict → S → Merged S
  failed_emit : Merged S
  invalid_resolution : Bytes → Merged S
  stuck : Merged S

module _ {S : Type 0} (emit : S → Entry → Option S) (table : Bytes)
    (resolutions : Assoc Resolution) where
  abbrev pub row_conflict : Bytes → Cell → Cell → Cell → RowConflict
  row_conflict key b l r = record {
    id = row_id table key;
    table = table;
    key = raw_std key;
    base = b;
    local = l;
    remote = r;
  }

  -- `if selected { emit(...) }`
  abbrev pub emit_cell : S → Bytes → Cell → Option S
  emit_cell s key none = some s
  emit_cell s key (some value) = emit s (record { key = key; value = value })

  -- The loop of `mergeRows`: each round takes the least key off the cursors.
  pub merge_loop : ℕ → List Entry → List Entry → List Entry → List RowConflict → S → Merged S
  merge_loop zero b l r conflicts s = stuck
  merge_loop (suc fuel) b l r conflicts s = elim (least_key (least_key (least_key none b) l) r) [
    | none ↦ merged conflicts s
    | some key ↦
        let rest = merge_loop fuel (behind key b) (behind key l) (behind key r) in
        elim (decide (lookup (row_id table key) resolutions) (cell_at key b) (cell_at key l)
          (cell_at key r)) [
            | take cell ↦ elim (emit_cell s key cell) [
              | none ↦ failed_emit
              | some s' ↦ rest conflicts s'
            ]
            | conflict ↦
                rest
                  (conflicts
                    ++ row_conflict key (cell_at key b) (cell_at key l) (cell_at key r) ∷ [])
                  s
            | invalid text ↦ invalid_resolution text
          ]
  ]
