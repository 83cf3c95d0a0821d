-- ===== src/Engine/RowCodec/Examples.antt =====
-- A row of four columns, one of them NULL, and its bytes. A JSON document is its own text here.
use repodb.Base.{ℕ, ◌≡◌, refl, true, Option, none, some, [], ◌∷◌, arith}
use repodb.Base.Int.{negsuc}
use repodb.Bytes.{Bytes}
use repodb.Prolly.Varint.{append_groups, uvarint_from}
use repodb.Engine.RowCodec.Values.{
  w32, s32, signed, datetime, text, decimal, Decimal, int_value, decimal_value, string_value, done,
  failed, trailing_bytes, from_little_endian, coeff_rounds,
}
use repodb.Engine.RowCodec.Cell.{
  append_cell, append_decimal_cell, append_rounded, append_bytes_cell, cell, skip, read_uvarint,
  read_varint, read_fixed, read_span, read_decimal,
}
use repodb.Engine.RowCodec.Cell.Skip.{skip-cell}
use repodb.Engine.RowCodec.Cell.RoundTrip.{IsDecimal, signed_cell, text_cell, decimal_cell}
use repodb.Engine.RowCodec.Row.{
  Schema, Row, encode_row, append_cells, decode_row, read_cells, set_bit, set_bit_at, test_bit,
  byte_at, zeros,
}
use repodb.Engine.RowCodec.Row.RoundTrip.{decode_row-encode_row}
use repodb.Engine.RowCodec.Projection.{new_row_projection, project, decode_row_projected}
use repodb.Engine.RowCodec.Projection.Equal.{decode_row_projected-project}

abbrev schema : Schema
schema = signed s32 ∷ datetime ∷ text ∷ decimal 2 ∷ []

abbrev price : Decimal
price = record { finite = true; negative = true; exponent = negsuc 1; coeff = 150 }

abbrev row : Row Bytes
row =
    some (int_value w32 (negsuc 4))
    ∷ none
    ∷ some (string_value (b'a' ∷ b'b' ∷ []))
    ∷ some (decimal_value price)
    ∷ []

abbrev same_bits : ℕ → ℕ
same_bits v = v

abbrev unrounded : Decimal → ℕ → Option Decimal
unrounded d scale = none

abbrev text_of : Bytes → Option Bytes
text_of s = some s

abbrev row_bytes : Bytes
row_bytes = 4 ∷ 2 ∷ 9 ∷ 2 ∷ b'a' ∷ b'b' ∷ 0 ∷ 171 ∷ 2 ∷ []

encode_row_test : encode_row same_bits same_bits unrounded text_of schema row ≡ done row_bytes
unfolding encode_row append_cells append_cell append_decimal_cell append_rounded append_bytes_cell
    append_groups set_bit set_bit_at zeros
encode_row_test = refl

decode_row_test : decode_row text_of schema row_bytes ≡ done row
unfolding decode_row read_cells cell read_uvarint read_varint read_fixed read_span read_decimal
    uvarint_from test_bit byte_at from_little_endian
decode_row_test = refl

-- One byte too many.
longer_row : decode_row text_of (text ∷ []) (1 ∷ 0 ∷ 1 ∷ b'a' ∷ b'b' ∷ []) ≡ failed trailing_bytes
unfolding decode_row read_cells cell read_uvarint read_span uvarint_from test_bit byte_at
longer_row = refl

price-IsDecimal : IsDecimal 2 price
unfolding coeff_rounds
price-IsDecimal = record {
  is_finite = refl;
  at_scale = refl;
  one_zero = refl;
  countable = omega arith;
}

decode_row-encode_row_example :
    (bytes : Bytes) × (encode_row same_bits same_bits unrounded text_of schema row ≡ done bytes)
    × (decode_row text_of schema bytes ≡ done row)
decode_row-encode_row_example =
    decode_row-encode_row same_bits same_bits unrounded text_of text_of schema row
      (
        signed_cell s32 (negsuc 4) (omega arith),
        (text_cell (b'a' ∷ b'b' ∷ []) (omega arith), (decimal_cell 2 price price-IsDecimal, tt)),
      )
      (omega arith)

decimal_read : cell text_of (decimal 2) (0 ∷ 171 ∷ 2 ∷ 9 ∷ []) ≡ done (decimal_value price, 9 ∷ [])
unfolding cell read_uvarint read_varint read_fixed read_decimal uvarint_from from_little_endian
decimal_read = refl

skip-cell_example : skip (decimal 2) (0 ∷ 171 ∷ 2 ∷ 9 ∷ []) ≡ done (9 ∷ [])
skip-cell_example =
    skip-cell text_of (decimal 2) (0 ∷ 171 ∷ 2 ∷ 9 ∷ []) (decimal_value price) (9 ∷ []) decimal_read

decode_row_projected-project_example :
    decode_row_projected text_of schema row_bytes (new_row_projection 4 (2 ∷ 1 ∷ 2 ∷ []))
    ≡ done (project (new_row_projection 4 (2 ∷ 1 ∷ 2 ∷ [])) row)
decode_row_projected-project_example =
    decode_row_projected-project text_of schema row_bytes row (2 ∷ 1 ∷ 2 ∷ []) decode_row_test
      (omega arith)
