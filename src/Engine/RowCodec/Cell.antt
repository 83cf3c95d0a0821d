-- ===== src/Engine/RowCodec/Cell.antt =====
-- The cells of engine/rowcodec.go. A decoder keeps what it has not read, `data[pos:]`, in place of the
-- data and the position. Errors leave out the column's name.
pub mod Readers
pub mod RoundTrip
pub mod Skip
use repodb.Base.{
  ℕ, zero, suc, ◌+◌, ◌-◌, ◌^◌, Bool, true, false, Option, none, some, [], ◌∷◌, ◌++◌, ◌&&◌, not,
  ◌==◌, ltb, if◌then◌else◌, length, take, drop,
}
use repodb.Base.Int.{ℤ, pos, negsuc, signed64}
use repodb.Bytes.{Bytes}
use repodb.Bytes.BigEndian.{from_big_endian}
use repodb.Prolly.Varint.{append_uvarint, uvarint}
use repodb.Engine.RowCodec.Values.{
  Width, w16, go_width, CellType, signed, unsigned, enum, float32, float64, datetime, time, json,
  binary, text, decimal, Decimal, CellValue, int_value, uint_value, float32_value, float64_value,
  time_value, timespan_value, decimal_value, json_value, bytes_value, string_value, Result, failed,
  done, and_then, wrong_type, not_finite, not_rounded, invalid_json, truncated, enum_out_of_range,
  unknown_decimal_form, append_varint, unzigzag, little_endian, from_little_endian, word_of,
  to_signed, to_unsigned, coeff_bytes, exponent_of, same_int,
}

-- `appendBytesCell`
unfoldable pub append_bytes_cell : Bytes → Bytes → Bytes
append_bytes_cell dst b = dst ++ (append_uvarint (length b) ++ b)

-- The unscaled value of a decimal, for a coefficient that fits.
abbrev pub unscaled : Bool → ℕ → ℤ
unscaled negative zero = pos 0
unscaled true (suc n) = negsuc n
unscaled false (suc n) = pos (suc n)

abbrev pub sign_byte : Bool → ℕ
sign_byte negative = if negative then 1 else 0

-- The end of `appendDecimalCell`, for a decimal at the scale of its column.
unfoldable pub append_rounded : Bytes → Decimal → Bytes
append_rounded dst d =
    let negative = d.negative && not (d.coeff == 0) in
    if ltb d.coeff (2 ^ 63)
    then dst ++ 0 ∷ append_varint (unscaled negative d.coeff)
    else append_bytes_cell (dst ++ (1 ∷ sign_byte negative ∷ [])) (coeff_bytes d.coeff)

module _ (round : Decimal → ℕ → Option Decimal) where
  -- `appendDecimalCell`; `round` is `sql.DecimalRound`.
  unfoldable pub append_decimal_cell : Bytes → Decimal → ℕ → Result Bytes
  append_decimal_cell dst d scale =
      if d.finite
      then (if same_int d.exponent (exponent_of scale)
          then done (append_rounded dst d)
          else elim (round d scale) [
            | none ↦ failed not_rounded
            | some d' ↦ done (append_rounded dst d')
          ])
      else failed not_finite

module _ {J : Type 0} (narrow widen : ℕ → ℕ) (round : Decimal → ℕ → Option Decimal)
    (json_text : J → Option Bytes) where
  abbrev pub append_json_text : Bytes → Option Bytes → Result Bytes
  append_json_text dst none = failed invalid_json
  append_json_text dst (some s) = done (append_bytes_cell dst s)

  -- `appendCell`; `narrow` and `widen` convert the bits of a float to those of the other type.
  unfoldable pub append_cell : Bytes → CellType → CellValue J → Result Bytes
  append_cell dst (signed w) (int_value v z) = done (dst ++ append_varint z)
  append_cell dst (unsigned w) (uint_value v n) = done (dst ++ append_uvarint n)
  append_cell dst enum (uint_value w16 n) = done (dst ++ append_uvarint n)
  append_cell dst float32 (float32_value v) = done (dst ++ little_endian 4 v)
  append_cell dst float32 (float64_value v) = done (dst ++ little_endian 4 (narrow v))
  append_cell dst float64 (float64_value v) = done (dst ++ little_endian 8 v)
  append_cell dst float64 (float32_value v) = done (dst ++ little_endian 8 (widen v))
  append_cell dst datetime (time_value z) = done (dst ++ little_endian 8 (word_of z))
  append_cell dst time (timespan_value z) = done (dst ++ append_varint z)
  append_cell dst (decimal scale) (decimal_value d) = append_decimal_cell round dst d scale
  append_cell dst json (json_value j) = append_json_text dst (json_text j)
  append_cell dst binary (bytes_value b) = done (append_bytes_cell dst b)
  append_cell dst binary (string_value b) = done (append_bytes_cell dst b)
  append_cell dst text (string_value b) = done (append_bytes_cell dst b)
  append_cell dst type value = failed wrong_type

-- `rowDecoder.uvarint` and `rowDecoder.varint`
unfoldable pub read_uvarint : Bytes → Result (ℕ × Bytes)
read_uvarint input = elim (uvarint input) [ none ↦ failed truncated | some r ↦ done r ]

unfoldable pub read_varint : Bytes → Result (ℤ × Bytes)
read_varint input = and_then (read_uvarint input) (λ (u, rest). done (unzigzag u, rest))

-- `rowDecoder.fixed`
unfoldable pub read_fixed : ℕ → Bytes → Result (Bytes × Bytes)
read_fixed size input =
    if ltb (length input) size then failed truncated else done (take size input, drop size input)

-- `rowDecoder.span`: a length and as many bytes; `rowDecoder.string` is the same on these.
unfoldable pub read_span : Bytes → Result (Bytes × Bytes)
read_span input =
    and_then (read_uvarint input) (λ (n, rest).
      if ltb (length rest) n then failed truncated else done (take n rest, drop n rest))

-- The decimal of a value at a scale.
abbrev pub small_decimal : ℕ → ℤ → Decimal
small_decimal scale (pos n) = record {
  finite = true;
  negative = false;
  exponent = exponent_of scale;
  coeff = n;
}
small_decimal scale (negsuc n) = record {
  finite = true;
  negative = true;
  exponent = exponent_of scale;
  coeff = suc n;
}

abbrev pub big_decimal : ℕ → Bytes → Bytes → Decimal
big_decimal scale sign magnitude = record {
  finite = true;
  negative = not (from_little_endian sign == 0);
  exponent = exponent_of scale;
  coeff = from_big_endian 0 magnitude;
}

-- `rowDecoder.decimal`; the tag and the sign are single bytes.
unfoldable pub read_decimal : ℕ → Bytes → Result (Decimal × Bytes)
read_decimal scale input = and_then (read_fixed 1 input) (λ (tag, rest).
    if from_little_endian tag == 0
    then and_then (read_varint rest) (λ (v, rest'). done (small_decimal scale v, rest'))
    else if from_little_endian tag == 1
    then and_then (read_fixed 1 rest) (λ (sign, rest').
      and_then (read_span rest')
        (λ (magnitude, rest''). done (big_decimal scale sign magnitude, rest'')))
    else failed unknown_decimal_form)

module _ {J : Type 0} (parse_json : Bytes → Option J) where
  abbrev pub parsed : Bytes → Option J → Result (CellValue J × Bytes)
  parsed rest none = failed invalid_json
  parsed rest (some j) = done (json_value j, rest)

  -- `rowDecoder.cell`; `parse_json` is `types.JSON.Convert`.
  unfoldable pub cell : CellType → Bytes → Result (CellValue J × Bytes)
  cell (signed w) input =
      and_then (read_varint input)
        (λ (v, rest). done (int_value (go_width w) (to_signed (go_width w) v), rest))
  cell (unsigned w) input =
      and_then (read_uvarint input)
        (λ (v, rest). done (uint_value (go_width w) (to_unsigned (go_width w) v), rest))
  cell enum input = and_then (read_uvarint input) (λ (v, rest).
      if ltb (2 ^ 16 - 1) v then failed enum_out_of_range else done (uint_value w16 v, rest))
  cell float32 input =
      and_then (read_fixed 4 input) (λ (b, rest). done (float32_value (from_little_endian b), rest))
  cell float64 input =
      and_then (read_fixed 8 input) (λ (b, rest). done (float64_value (from_little_endian b), rest))
  cell datetime input =
      and_then (read_fixed 8 input)
        (λ (b, rest). done (time_value (signed64 (from_little_endian b)), rest))
  cell time input = and_then (read_varint input) (λ (v, rest). done (timespan_value v, rest))
  cell (decimal scale) input =
      and_then (read_decimal scale input) (λ (d, rest). done (decimal_value d, rest))
  cell json input = and_then (read_span input) (λ (s, rest). parsed rest (parse_json s))
  cell binary input = and_then (read_span input) (λ (b, rest). done (bytes_value b, rest))
  cell text input = and_then (read_span input) (λ (s, rest). done (string_value s, rest))

-- What a read leaves.
abbrev pub left : {A : Type 0} → Result (A × Bytes) → Result Bytes
left r = and_then r (λ (a, rest). done rest)

-- `rowDecoder.skip`
unfoldable pub skip : CellType → Bytes → Result Bytes
skip (signed w) input = left (read_varint input)
skip time input = left (read_varint input)
skip (unsigned w) input = left (read_uvarint input)
skip enum input = left (read_uvarint input)
skip float32 input = left (read_fixed 4 input)
skip float64 input = left (read_fixed 8 input)
skip datetime input = left (read_fixed 8 input)
skip (decimal scale) input = and_then (read_fixed 1 input) (λ (tag, rest).
    if from_little_endian tag == 0
    then left (read_varint rest)
    else if from_little_endian tag == 1
    then and_then (read_fixed 1 rest) (λ (sign, rest'). left (read_span rest'))
    else failed unknown_decimal_form)
skip json input = left (read_span input)
skip binary input = left (read_span input)
skip text input = left (read_span input)
