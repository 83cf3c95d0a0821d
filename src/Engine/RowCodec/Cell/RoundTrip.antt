-- ===== src/Engine/RowCodec/Cell/RoundTrip.antt =====
-- A cell of its column's type is written, and read back from in front of any bytes.
use repodb.Base.{
  ℕ, zero, suc, ◌*◌, ◌^◌, ◌<◌, ◌≡◌, refl, ap, ◌∙◌, Bool, true, false, Option, some, [], ◌∷◌, ◌++◌,
  append_assoc, ◌&&◌, not, ◌==◌, ltb, arith, length, Bool-cases, inl, inr,
}
use repodb.Base.Int.{ℤ, pos, negsuc}
use repodb.Bytes.{Bytes}
use repodb.Prolly.Varint.{append_uvarint}
use repodb.Engine.RowCodec.Values.{
  w16, w64, half_range, SqlWidth, go_width, CellType, signed, unsigned, enum, float32, float64,
  datetime, time, json, binary, text, decimal, Decimal, CellValue, int_value, uint_value,
  float32_value, float64_value, time_value, timespan_value, decimal_value, json_value, bytes_value,
  string_value, done, and_then, append_varint, little_endian, from_little_endian, word_of,
  coeff_bytes, exponent_of, same_int,
}
use repodb.Engine.RowCodec.Values.Laws.{
  InRange, to_signed_lem, to_unsigned_lem, unsigned_bound, from_little_endian-little_endian,
  signed64-word_of, word_of_bound, from_big_endian-coeff_bytes,
}
use repodb.Engine.RowCodec.Cell.{
  append_bytes_cell, unscaled, sign_byte, append_rounded, append_decimal_cell, append_cell,
  read_varint, read_fixed, read_span, small_decimal, big_decimal, read_decimal, cell,
}
use repodb.Engine.RowCodec.Cell.Readers.{
  read_uvarint-append, read_varint-append, read_fixed-append, read_span-append,
  read_fixed-little_endian,
}

-- A decimal that a column of a scale holds: it is finite and at the scale, there is no negative zero,
-- and its bytes can be counted.
pub record IsDecimal (scale : ℕ) (d : Decimal) : Type 0 where
  pub is_finite : d.finite ≡ true
  pub at_scale : d.exponent ≡ exponent_of scale
  pub one_zero : (d.negative && (d.coeff == 0)) ≡ false
  pub countable : length (coeff_bytes d.coeff) < 2 ^ 64

module _ {J : Type 0} (json_text : J → Option Bytes) (parse_json : Bytes → Option J) where
  -- The values that a column's type has, once converted to it.
  pub data IsCell : CellType → CellValue J → Type 0 where
    signed_cell :
        (w : SqlWidth) (z : ℤ)
        → InRange (go_width w) z
        → IsCell (signed w) (int_value (go_width w) z)
    unsigned_cell :
        (w : SqlWidth) (n : ℕ)
        → n < 2 * half_range (go_width w)
        → IsCell (unsigned w) (uint_value (go_width w) n)
    enum_cell : (n : ℕ) → n < 2 ^ 16 → IsCell enum (uint_value w16 n)
    float32_cell : (n : ℕ) → n < 2 ^ 32 → IsCell float32 (float32_value n)
    float64_cell : (n : ℕ) → n < 2 ^ 64 → IsCell float64 (float64_value n)
    datetime_cell : (z : ℤ) → InRange w64 z → IsCell datetime (time_value z)
    time_cell : (z : ℤ) → InRange w64 z → IsCell time (timespan_value z)
    decimal_cell :
        (scale : ℕ) (d : Decimal) → IsDecimal scale d → IsCell (decimal scale) (decimal_value d)
    json_cell :
        (j : J) (s : Bytes)
        → json_text j ≡ some s
        → parse_json s ≡ some j
        → length s < 2 ^ 64
        → IsCell json (json_value j)
    binary_cell : (b : Bytes) → length b < 2 ^ 64 → IsCell binary (bytes_value b)
    text_cell : (s : Bytes) → length s < 2 ^ 64 → IsCell text (string_value s)

read_one : (b : ℕ) (rest : Bytes) → read_fixed 1 (b ∷ rest) ≡ done (b ∷ [], rest)
read_one b rest = read_fixed-append 1 (b ∷ []) rest refl

read_small :
    (scale : ℕ) (rest : Bytes)
    → read_decimal scale (0 ∷ rest)
      ≡ and_then {B = Decimal × Bytes}
          (read_varint rest)
          (λ (v, r). done (small_decimal scale v, r))
unfolding read_decimal from_little_endian
read_small scale rest = rw (read_one 0 rest) refl

read_big :
    (scale s : ℕ) (rest : Bytes)
    → read_decimal scale (1 ∷ s ∷ rest)
      ≡ and_then {B = Decimal × Bytes}
          (read_span rest)
          (λ (b, r). done (big_decimal scale (s ∷ []) b, r))
unfolding read_decimal from_little_endian
read_big scale s rest = rw (read_one 1 (s ∷ rest)) (rw (read_one s rest) refl)

unscaled_bound :
    (negative : Bool) (n : ℕ) → ltb n (2 ^ 63) ≡ true → InRange w64 (unscaled negative n)
unscaled_bound negative zero h = omega arith
unscaled_bound true (suc n) h = ground arith
unscaled_bound false (suc n) h = ground arith

module _ (scale : ℕ) (d : Decimal) (ok : IsDecimal scale d) where
  -- The sign as it is written.
  written_sign : d.negative && not (d.coeff == 0) ≡ d.negative
  written_sign = ground (arith, ok.one_zero)

  small_decimal-unscaled : small_decimal scale (unscaled d.negative d.coeff) ≡ d
  small_decimal-unscaled = ground (arith, ok.one_zero, ok.is_finite, ok.at_scale)

  big_decimal-coeff_bytes : big_decimal scale (sign_byte d.negative ∷ []) (coeff_bytes d.coeff) ≡ d
  big_decimal-coeff_bytes =
      unfold from_little_endian in
      ground (arith, ok.one_zero, ok.is_finite, ok.at_scale, from_big_endian-coeff_bytes d.coeff)

  read_decimal-append_rounded :
      (bytes : Bytes) × ((dst : Bytes) → append_rounded dst d ≡ dst ++ bytes)
      × ((rest : Bytes) → read_decimal scale (bytes ++ rest) ≡ done (d, rest))
  read_decimal-append_rounded = elim (Bool-cases (ltb d.coeff (2 ^ 63))) [
    | inl small ↦ (
      0 ∷ append_varint (unscaled d.negative d.coeff),
      λ dst. unfold append_rounded in rw (written_sign, small) refl,
      λ rest.
          rw
            (
              read_small scale (append_varint (unscaled d.negative d.coeff) ++ rest),
              read_varint-append w64 (unscaled d.negative d.coeff) rest
                  (unscaled_bound d.negative d.coeff small),
              small_decimal-unscaled,
            )
            refl,
    )
    | inr big ↦ (
      (1 ∷ sign_byte d.negative ∷ [])
          ++ (append_uvarint (length (coeff_bytes d.coeff)) ++ coeff_bytes d.coeff),
      λ dst.
          unfold append_rounded append_bytes_cell in
          rw (written_sign, big)
            (append_assoc dst (1 ∷ sign_byte d.negative ∷ [])
              (append_uvarint (length (coeff_bytes d.coeff)) ++ coeff_bytes d.coeff)),
      λ rest.
          rw
            (
              read_big scale (sign_byte d.negative)
                  ((append_uvarint (length (coeff_bytes d.coeff)) ++ coeff_bytes d.coeff) ++ rest),
              read_span-append (coeff_bytes d.coeff) rest ok.countable,
              big_decimal-coeff_bytes,
            )
            refl,
    )
  ]

same_int_refl : (z : ℤ) → same_int z z ≡ true
same_int_refl (pos n) = ground arith
same_int_refl (negsuc n) = ground arith

append_decimal_cell-at_scale :
    (round : Decimal → ℕ → Option Decimal) (scale : ℕ) (d : Decimal)
    → IsDecimal scale d
    → (dst : Bytes) → append_decimal_cell round dst d scale ≡ done (append_rounded dst d)
unfolding append_decimal_cell
append_decimal_cell-at_scale round scale d ok dst =
    let same : same_int d.exponent (exponent_of scale) ≡ true =
      ap (λ z. same_int z (exponent_of scale)) ok.at_scale ∙ same_int_refl (exponent_of scale) in
    rw ok.is_finite (rw same refl)

module _ {J : Type 0} (narrow widen : ℕ → ℕ) (round : Decimal → ℕ → Option Decimal)
    (json_text : J → Option Bytes) (parse_json : Bytes → Option J) where
  -- The bytes that a cell is written as.
  abbrev pub Written : CellType → CellValue J → Type 0
  Written type v =
      (bytes : Bytes) × ((dst : Bytes)
        → append_cell narrow widen round json_text dst type v ≡ done (dst ++ bytes))
      × ((rest : Bytes) → cell parse_json type (bytes ++ rest) ≡ done (v, rest))

  words :
      (n v : ℕ) (rest : Bytes)
      → v < 256 ^ n
      → and_then {B = ℕ × Bytes}
          (read_fixed n (little_endian n v ++ rest))
          (λ (b, r). done (from_little_endian b, r))
        ≡ done (v, rest)
  words n v rest h =
      rw (read_fixed-little_endian n v rest) (rw (from_little_endian-little_endian n v h) refl)

  pub Written_lem :
      (type : CellType) (v : CellValue J) → IsCell json_text parse_json type v → Written type v
  unfolding append_cell cell
  Written_lem type v (signed_cell w z h) = (
    append_varint z,
    λ dst. refl,
    λ rest.
        rw (read_varint-append (go_width w) z rest h) (rw (to_signed_lem (go_width w) z h) refl),
  )
  Written_lem type v (unsigned_cell w n h) = (
    append_uvarint n,
    λ dst. refl,
    λ rest.
        rw (read_uvarint-append n rest (unsigned_bound (go_width w) n h))
          (rw (to_unsigned_lem (go_width w) n h) refl),
  )
  Written_lem type v (enum_cell n h) = (
    append_uvarint n,
    λ dst. refl,
    λ rest. rw (read_uvarint-append n rest (omega arith)) (ground arith),
  )
  Written_lem type v (float32_cell n h) = (
    little_endian 4 n,
    λ dst. refl,
    λ rest.
        rw (read_fixed-little_endian 4 n rest) (rw (from_little_endian-little_endian 4 n h) refl),
  )
  Written_lem type v (float64_cell n h) = (
    little_endian 8 n,
    λ dst. refl,
    λ rest.
        rw (read_fixed-little_endian 8 n rest) (rw (from_little_endian-little_endian 8 n h) refl),
  )
  Written_lem type v (datetime_cell z h) = (
    little_endian 8 (word_of z),
    λ dst. refl,
    λ rest. rw (read_fixed-little_endian 8 (word_of z) rest) (
        rw (from_little_endian-little_endian 8 (word_of z) (word_of_bound z h))
          (rw (signed64-word_of z h) refl)),
  )
  Written_lem type v (time_cell z h) =
      (append_varint z, λ dst. refl, λ rest. rw (read_varint-append w64 z rest h) refl)
  Written_lem type v (decimal_cell scale d ok) =
      let (bytes, wrote, reads) = read_decimal-append_rounded scale d ok in
      (
        bytes,
        λ dst. append_decimal_cell-at_scale round scale d ok dst ∙ ap done (wrote dst),
        λ rest. rw (reads rest) refl,
      )
  Written_lem type v (json_cell j s t p h) = (
    append_uvarint (length s) ++ s,
    λ dst. rw t (unfold append_bytes_cell in refl),
    λ rest. rw (read_span-append s rest h) (rw p refl),
  )
  Written_lem type v (binary_cell b h) = (
    append_uvarint (length b) ++ b,
    λ dst. unfold append_bytes_cell in refl,
    λ rest. rw (read_span-append b rest h) refl,
  )
  Written_lem type v (text_cell s h) = (
    append_uvarint (length s) ++ s,
    λ dst. unfold append_bytes_cell in refl,
    λ rest. rw (read_span-append s rest h) refl,
  )
