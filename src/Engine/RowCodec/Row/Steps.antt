-- ===== src/Engine/RowCodec/Row/Steps.antt =====
-- One column of the loop of `decodeRow`.
use repodb.Base.{
  ℕ, ◌+◌, ◌≡◌, refl, sym, arith, Bool, [], ltb, ◌==◌, length, take, drop, if◌then◌else◌, true,
  false, Option, none, some, ◌∷◌,
}
use repodb.Bytes.{Bytes}
use repodb.Engine.RowCodec.Values.{CellType, RowError, Result, failed, done, and_then}
use repodb.Engine.RowCodec.Cell.{cell, read_uvarint}
use repodb.Engine.RowCodec.Row.{
  is_null, bitmap_size, Schema, Row, all_read, with_value, read_cells, decode_row,
}

module _ {J : Type 0} (parse_json : Bytes → Option J) where
  pub read_cells-null :
      (i : ℕ) (type : CellType) (schema : Schema) (nulls input : Bytes)
      → is_null nulls i ≡ true
      → read_cells parse_json i (type ∷ schema) nulls input
        ≡ with_value parse_json none (read_cells parse_json (i + 1) schema nulls input)
  unfolding read_cells
  read_cells-null i type schema nulls input h = rw (h, read_cells) refl

  pub read_cells-value :
      (i : ℕ) (type : CellType) (schema : Schema) (nulls input : Bytes)
      → is_null nulls i ≡ false
      → read_cells parse_json i (type ∷ schema) nulls input
        ≡ and_then (cell parse_json type input) (λ (v, rest).
          with_value parse_json (some v) (read_cells parse_json (i + 1) schema nulls rest))
  unfolding read_cells
  read_cells-value i type schema nulls input h = rw (h, read_cells) refl

-- Tests that an error did not stop.
if-done :
    {A : Type 0} (b : Bool) (m : Result A) (e : RowError) {a : A}
    → (if b then m else failed e) ≡ done a
    → (b ≡ true) × (m ≡ done a)
if-done true m e h = (refl, h)
if-done false m e h = absurd (ground (arith, h))

if_not-done :
    {A : Type 0} (b : Bool) (m : Result A) (e : RowError) {a : A}
    → (if b then failed e else m) ≡ done a
    → (b ≡ false) × (m ≡ done a)
if_not-done true m e h = absurd (ground (arith, h))
if_not-done false m e h = (refl, h)

-- What a decoded row was read from.
pub record Decoded {J : Type 0} (parse_json : Bytes → Option J) (schema : Schema) (input : Bytes)
    (row : Row J) : Type 0 where
  pub width : ℕ
  pub rest : Bytes
  pub header_read : read_uvarint input ≡ done (width, rest)
  pub same_width : (width == length schema) ≡ true
  pub long_enough : ltb (length rest) (bitmap_size (length schema)) ≡ false
  pub cells :
      read_cells parse_json 0 schema
        (take (bitmap_size (length schema)) rest)
        (drop (bitmap_size (length schema)) rest)
      ≡ done (row, [])

module _ {J : Type 0} (parse_json : Bytes → Option J) where
  all_read-done :
      (m : Result (Row J × Bytes)) (row : Row J)
      → and_then m (λ (row', rest). all_read parse_json row' rest) ≡ done row
      → m ≡ done (row, [])
  all_read-done (done (row', [])) row h = cc
  all_read-done (done (row', b ∷ rest)) row h = absurd (ground (arith, h))
  all_read-done (failed e) row h = absurd (ground (arith, h))

  find-Decoded :
      (schema : Schema) (input : Bytes) (row : Row J) (m : Result (ℕ × Bytes))
      → read_uvarint input ≡ m
      → decode_row parse_json schema input ≡ done row
      → Decoded parse_json schema input row
  unfolding decode_row
  find-Decoded schema input row (failed e) r h = absurd (no (sym (rw r at h)))
    where
      no : done row ≡ failed e → ⊥
      no h = absurd (ground (arith, h))
  find-Decoded schema input row (done (width, rest)) r h = record {
    width = width;
    rest = rest;
    header_read = r;
    same_width = (if-done (width == length schema) _ _ (rw r at h)).0;
    long_enough =
        (if_not-done (ltb (length rest) (bitmap_size (length schema))) _ _
          (if-done (width == length schema) _ _ (rw r at h)).1).0;
    cells =
        all_read-done _ row
          (if_not-done (ltb (length rest) (bitmap_size (length schema))) _ _
            (if-done (width == length schema) _ _ (rw r at h)).1).1;
  }

  pub Decoded_lem :
      (schema : Schema) (input : Bytes) (row : Row J)
      → decode_row parse_json schema input ≡ done row
      → Decoded parse_json schema input row
  Decoded_lem schema input row h = find-Decoded schema input row (read_uvarint input) refl h
