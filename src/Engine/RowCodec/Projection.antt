-- ===== src/Engine/RowCodec/Projection.antt =====
-- Projections in engine/rowcodec.go: some of a row's columns, decoded without the others.
pub mod Positions
pub mod Slots
pub mod Fill
pub mod Repeats
pub mod Equal
use repodb.Base.{
  ℕ, zero, suc, ◌+◌, Bool, true, false, Option, none, some, List, [], ◌∷◌, ◌==◌, ltb, if◌then◌else◌,
  length, take, drop, map,
}
use repodb.Bytes.{Bytes}
use repodb.Engine.RowCodec.Values.{
  CellType, CellValue, Result, failed, done, and_then, wrong_width, truncated, out_of_range,
}
use repodb.Engine.RowCodec.Cell.{read_uvarint, cell, skip}
use repodb.Engine.RowCodec.Row.{is_null, bitmap_size, Schema, Row, decode_row}

-- `xs[n]` of a slice whose values may be absent, and `xs[n] = v`; out of range the source panics.
pub value_at : {A : Type 0} → List (Option A) → ℕ → Option A
value_at [] n = none
value_at (x ∷ xs) zero = x
value_at (x ∷ xs) (suc n) = value_at xs n

pub set_value : {A : Type 0} → List (Option A) → ℕ → Option A → List (Option A)
set_value [] n v = []
set_value (x ∷ xs) zero v = v ∷ xs
set_value (x ∷ xs) (suc n) v = x ∷ set_value xs n v

-- A slice of absent values.
pub blanks : {A : Type 0} → ℕ → List (Option A)
blanks zero = []
blanks (suc n) = none ∷ blanks n

-- `rowProjection`; no slot and no last column are -1 in the source.
pub record RowProjection : Type 0 where
  pub ordinals : List ℕ
  pub slot : List (Option ℕ)
  pub last : Option ℕ
  pub repeats : Bool

-- Whether the ordinals are i, i + 1, ...
pub counts_from : ℕ → List ℕ → Bool
counts_from i [] = true
counts_from i (ordinal ∷ ordinals) = if ordinal == i then counts_from (i + 1) ordinals else false

abbrev pub max_last : Option ℕ → ℕ → ℕ
max_last none ordinal = ordinal
max_last (some l) ordinal = if ltb l ordinal then ordinal else l

abbrev pub add_ordinal : ℕ → ℕ → RowProjection → Option ℕ → RowProjection
add_ordinal i ordinal p (some s) = record p { repeats = true }
add_ordinal i ordinal p none = record p {
  slot = set_value p.slot ordinal (some i);
  last = some (max_last p.last ordinal);
}

-- The loop over the ordinals from position `i` on.
pub add_ordinals : ℕ → List ℕ → RowProjection → RowProjection
add_ordinals i [] p = p
add_ordinals i (ordinal ∷ ordinals) p =
    add_ordinals (i + 1) ordinals (add_ordinal i ordinal p (value_at p.slot ordinal))

abbrev pub empty_projection : ℕ → List ℕ → RowProjection
empty_projection width ordinals = record {
  ordinals = ordinals;
  slot = blanks width;
  last = none;
  repeats = false;
}

pub built : ℕ → List ℕ → RowProjection
built width ordinals = add_ordinals 0 ordinals (empty_projection width ordinals)

-- `newRowProjection`
pub new_row_projection : ℕ → List ℕ → Option RowProjection
new_row_projection width ordinals =
    let p = built width ordinals in
    if length ordinals == width then (if counts_from 0 ordinals then none else some p) else some p

module _ {J : Type 0} where
  -- `rowProjection.project`, of a row that is not nil.
  unfoldable pub project : Option RowProjection → Row J → Row J
  project none row = row
  project (some p) row = map (value_at row) p.ordinals

  -- `for i, ordinal := range p.ordinals { out[i] = out[p.slot[ordinal]] }`
  abbrev pub slot_value : Row J → Option ℕ → Option (CellValue J)
  slot_value out none = none
  slot_value out (some s) = value_at out s

  pub fill_repeats : ℕ → List ℕ → List (Option ℕ) → Row J → Row J
  fill_repeats i [] slot out = out
  fill_repeats i (ordinal ∷ ordinals) slot out =
      fill_repeats (i + 1) ordinals slot (set_value out i (slot_value out (value_at slot ordinal)))

  abbrev pub fill : RowProjection → Row J → Row J
  fill p out = if p.repeats then fill_repeats 0 p.ordinals p.slot out else out

module _ {J : Type 0} (parse_json : Bytes → Option J) where
  -- The loop of `decodeRowProjected` over `n` columns from column `i` on.
  pub project_cells : ℕ → ℕ → Schema → List (Option ℕ) → Bytes → Bytes → Row J → Result (Row J)
  project_cells i zero schema slots nulls input out = done out
  project_cells i (suc n) [] slots nulls input out = failed out_of_range
  project_cells i (suc n) (type ∷ schema) [] nulls input out = failed out_of_range
  project_cells i (suc n) (type ∷ schema) (slot ∷ slots) nulls input out = elim (is_null nulls i) [
    | true ↦ project_cells (i + 1) n schema slots nulls input out
    | false ↦ elim slot [
      | some s ↦
          and_then (cell parse_json type input) (λ (v, rest).
            project_cells (i + 1) n schema slots nulls rest (set_value out s (some v)))
      | none ↦
          and_then (skip type input) (λ rest. project_cells (i + 1) n schema slots nulls rest out)
    ]
  ]

  -- The part behind the header of a row.
  abbrev pub project_rest : Schema → RowProjection → ℕ → Bytes → Result (Row J)
  project_rest schema p n rest =
      if ltb (length rest) (bitmap_size (length schema))
      then failed truncated
      else and_then
          (project_cells 0 n schema p.slot (take (bitmap_size (length schema)) rest)
            (drop (bitmap_size (length schema)) rest) (blanks (length p.ordinals)))
          (λ out. done (fill p out))

  -- `decodeRowProjected`
  unfoldable pub decode_row_projected : Schema → Bytes → Option RowProjection → Result (Row J)
  decode_row_projected schema input none = decode_row parse_json schema input
  decode_row_projected schema input (some p) = elim p.last [
    | none ↦ done (blanks (length p.ordinals))
    | some last ↦ and_then (read_uvarint input) (λ (width, rest).
        if width == length schema
        then project_rest schema p (suc last) rest
        else failed wrong_width)
  ]
