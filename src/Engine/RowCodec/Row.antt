-- ===== src/Engine/RowCodec/Row.antt =====
-- The rows of engine/rowcodec.go: their NULL bitmap and their cells.
pub mod Bitmap
pub mod Steps
pub mod RoundTrip
use repodb.Base.{
  ℕ, zero, suc, ◌+◌, ◌*◌, ◌/◌, ◌%◌, Bool, true, false, Option, none, some, List, [], ◌∷◌, ◌++◌,
  ◌==◌, ltb, if◌then◌else◌, length, take, drop,
}
use repodb.Bytes.{Bytes}
use repodb.Prolly.Varint.{append_uvarint}
use repodb.Engine.RowCodec.Values.{
  CellType, Decimal, CellValue, Result, failed, done, and_then, wrong_width, truncated,
  trailing_bytes,
}
use repodb.Engine.RowCodec.Cell.{append_cell, read_uvarint, cell}

-- `b | 1 << k` and `b & (1 << k) != 0`.
unfoldable pub set_bit : ℕ → ℕ → ℕ
set_bit zero b = if b % 2 == 1 then b else b + 1
set_bit (suc k) b = b % 2 + 2 * set_bit k (b / 2)

unfoldable pub test_bit : ℕ → ℕ → Bool
test_bit zero b = b % 2 == 1
test_bit (suc k) b = test_bit k (b / 2)

-- A byte of the bitmap, and an update of it.
unfoldable pub byte_at : Bytes → ℕ → ℕ
byte_at [] n = 0
byte_at (b ∷ bytes) zero = b
byte_at (b ∷ bytes) (suc n) = byte_at bytes n

unfoldable pub set_bit_at : Bytes → ℕ → ℕ → Bytes
set_bit_at [] n k = []
set_bit_at (b ∷ bytes) zero k = set_bit k b ∷ bytes
set_bit_at (b ∷ bytes) (suc n) k = b ∷ set_bit_at bytes n k

-- `out[nulls+i/8] |= 1 << (i % 8)` and `nulls[i/8]&(1<<(i%8)) != 0`.
abbrev pub set_null : Bytes → ℕ → Bytes
set_null nulls i = set_bit_at nulls (i / 8) (i % 8)

abbrev pub is_null : Bytes → ℕ → Bool
is_null nulls i = test_bit (i % 8) (byte_at nulls (i / 8))

-- `make([]byte, bitmap)`
unfoldable pub zeros : ℕ → Bytes
zeros zero = []
zeros (suc n) = 0 ∷ zeros n

abbrev pub bitmap_size : ℕ → ℕ
bitmap_size n = (n + 7) / 8

-- Columns and values; `none` is nil.
abbrev pub Schema : Type 0
Schema = List CellType

abbrev pub Row : Type 0 → Type 0
Row J = List (Option (CellValue J))

module _ {J : Type 0} (narrow widen : ℕ → ℕ) (round : Decimal → ℕ → Option Decimal)
    (json_text : J → Option Bytes) where
  -- The loop of `encodeRow` from column `i` on, with the bitmap and the cells so far.
  unfoldable pub append_cells : ℕ → Schema → Row J → Bytes → Bytes → Result (Bytes × Bytes)
  append_cells i (type ∷ schema) (none ∷ row) nulls cells =
      append_cells (i + 1) schema row (set_null nulls i) cells
  append_cells i (type ∷ schema) (some v ∷ row) nulls cells =
      and_then (append_cell narrow widen round json_text cells type v)
        (λ cells'. append_cells (i + 1) schema row nulls cells')
  append_cells i schema row nulls cells = done (nulls, cells)

  -- `encodeRow`
  unfoldable pub encode_row : Schema → Row J → Result Bytes
  encode_row schema row =
      if length row == length schema
      then and_then (append_cells 0 schema row (zeros (bitmap_size (length row))) [])
          (λ (nulls, cells). done (append_uvarint (length row) ++ (nulls ++ cells)))
      else failed wrong_width

module _ {J : Type 0} (parse_json : Bytes → Option J) where
  abbrev pub with_value : Option (CellValue J) → Result (Row J × Bytes) → Result (Row J × Bytes)
  with_value v r = and_then r (λ (row, rest). done (v ∷ row, rest))

  -- The loop of `decodeRow` from column `i` on.
  unfoldable pub read_cells : ℕ → Schema → Bytes → Bytes → Result (Row J × Bytes)
  read_cells i [] nulls input = done ([], input)
  read_cells i (type ∷ schema) nulls input = elim (is_null nulls i) [
    | true ↦ with_value none (read_cells (i + 1) schema nulls input)
    | false ↦
        and_then (cell parse_json type input)
          (λ (v, rest). with_value (some v) (read_cells (i + 1) schema nulls rest))
  ]

  abbrev pub all_read : Row J → Bytes → Result (Row J)
  all_read row [] = done row
  all_read row (b ∷ rest) = failed trailing_bytes

  -- `decodeRow`
  unfoldable pub decode_row : Schema → Bytes → Result (Row J)
  decode_row schema input = and_then (read_uvarint input) (λ (width, rest).
      if width == length schema
      then (if ltb (length rest) (bitmap_size (length schema))
          then failed truncated
          else and_then
              (read_cells 0 schema (take (bitmap_size (length schema)) rest)
                (drop (bitmap_size (length schema)) rest))
              (λ (row, rest'). all_read row rest'))
      else failed wrong_width)
