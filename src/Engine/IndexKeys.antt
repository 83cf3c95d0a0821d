-- ===== src/Engine/IndexKeys.antt =====
-- The keys of rows in engine/catalog.go: `encodeKey` and `encodeIndexKey`.
pub mod Columns
use repodb.Base.{
  ℕ, zero, suc, Bool, true, false, Option, none, some, List, [], ◌∷◌, ◌++◌, ◌||◌, not,
  if◌then◌else◌, get_elem?, map,
}
use repodb.Bytes.{Bytes}
use repodb.Engine.KeyCodec.Column.{ColumnType, unsupported, KeyValue, append_key_column}

-- A column of a row: its type and its value, where NULL is `none`.
pub record Column : Type 0 where
  pub type : ColumnType
  pub value : Option KeyValue

abbrev pub type_or : Option ColumnType → ColumnType
type_or none = unsupported
type_or (some t) = t

abbrev pub value_or : Option (Option KeyValue) → Option KeyValue
value_or none = none
value_or (some v) = v

-- The column at an ordinal: out of the row there is no value, and out of the schema the source panics.
abbrev pub column_at : List ColumnType → List (Option KeyValue) → ℕ → Column
column_at schema row ordinal = record {
  type = type_or (get_elem? schema ordinal);
  value = value_or (get_elem? row ordinal);
}

-- `nullMarker` of engine/ranges.go.
abbrev pub null_marker : Bytes → Bool → ℕ → Bytes
null_marker prefix nullable marker = if nullable then prefix ++ marker ∷ [] else prefix

-- One column in the loops of both functions; only an index has NULLs and markers.
abbrev pub append_value : Bool → Bytes → ColumnType → Option KeyValue → Option Bytes
append_value nullable out type none = if nullable then some (null_marker out true 0x00) else none
append_value nullable out type (some v) = append_key_column (null_marker out nullable 0x01) type v

unfoldable pub append_columns : Bool → Bytes → List Column → Option Bytes
append_columns nullable out [] = some out
append_columns nullable out (c ∷ columns) = elim (append_value nullable out c.type c.value) [
  | none ↦ none
  | some out' ↦ append_columns nullable out' columns
]

-- `encodeKey`: `none` for its errors.
unfoldable pub encode_key : List ColumnType → List (Option KeyValue) → List ℕ → Option Bytes
encode_key schema row ordinals = append_columns false [] (map (column_at schema row) ordinals)

abbrev pub is_absent : Option KeyValue → Bool
is_absent none = true
is_absent (some v) = false

unfoldable pub has_null : List Column → Bool
has_null [] = false
has_null (c ∷ columns) = is_absent c.value || has_null columns

-- `encodeIndexKey`: the key and whether a column is NULL.
unfoldable pub encode_index_key :
    List ColumnType → List (Option KeyValue) → List ℕ → Bytes → Bool → Option (Bytes × Bool)
encode_index_key schema row ordinals pk_key unique =
    let columns = map (column_at schema row) ordinals in
    elim (append_columns true [] columns) [
      | none ↦ none
      | some out ↦
          some ((if has_null columns || not unique then out ++ pk_key else out), has_null columns)
    ]
