-- ===== src/Engine/RowCodec/Cell/Skip.antt =====
-- `skip` passes over what `cell` reads.
use repodb.Base.{
  ◌^◌, ◌-◌, ◌≡◌, refl, ◌∙◌, ℕ, Option, ◌==◌, ltb, if◌then◌else◌, arith, Bool-cases, Option-cases,
  inl, inr,
}
use repodb.Bytes.{Bytes}
use repodb.Engine.RowCodec.Values.{
  CellType, enum_out_of_range, uint_value, w16, signed, unsigned, enum, float32, float64, datetime,
  time, json, binary, text, decimal, Decimal, decimal_value, unknown_decimal_form, CellValue,
  Result, failed, done, and_then, from_little_endian,
}
use repodb.Engine.RowCodec.Cell.{
  read_uvarint, read_varint, read_fixed, read_span, small_decimal, big_decimal, read_decimal, cell,
  skip, parsed, left,
}

-- Inversion of a successful step.
pub and_then-done :
    {A B : Type 0} (m : Result A) (f : A → Result B) (b : B)
    → and_then m f ≡ done b
    → (a : A) × (m ≡ done a) × (f a ≡ done b)
and_then-done (done a) f b h = (a, refl, h)
and_then-done (failed e) f b h = absurd (ground arith)

-- Whatever is done with the value, what is left is the same.
left_lem :
    {A V : Type 0} (m : Result (A × Bytes)) (f : A → V) (v : V) (rest : Bytes)
    → and_then {B = V × Bytes} m (λ (a, r). done (f a, r)) ≡ done (v, rest)
    → left m ≡ done rest
left_lem (done (a, r)) f v rest h = cc
left_lem (failed e) f v rest h = absurd (ground arith)

-- A value may be built before the rest is kept.
left_after :
    {A B : Type 0} (m : Result (A × Bytes)) (f : A → B)
    → left m ≡ left (and_then {B = B × Bytes} m (λ (a, r). done (f a, r)))
left_after (done (a, r)) f = refl
left_after (failed e) f = refl

skip_big :
    (scale : ℕ) (m : Result (Bytes × Bytes))
    → and_then m (λ (sign, r). left (read_span r))
      ≡ left (
          and_then {B = Decimal × Bytes} m (λ (sign, r).
            and_then {B = Decimal × Bytes}
              (read_span r)
              (λ (b, r'). done (big_decimal scale sign b, r'))))
skip_big scale (failed e) = refl
skip_big scale (done (sign, r)) = left_after (read_span r) (big_decimal scale sign)

skip_tagged :
    (scale : ℕ) (m : Result (Bytes × Bytes))
    → and_then m (λ (tag, r).
      if from_little_endian tag == 0
      then left (read_varint r)
      else if from_little_endian tag == 1
      then and_then (read_fixed 1 r) (λ (sign, r'). left (read_span r'))
      else failed unknown_decimal_form)
      ≡ left (
          and_then {B = Decimal × Bytes} m (λ (tag, r).
            if from_little_endian tag == 0
            then and_then {B = Decimal × Bytes}
                (read_varint r)
                (λ (v, r'). done (small_decimal scale v, r'))
            else if from_little_endian tag == 1
            then and_then {B = Decimal × Bytes} (read_fixed 1 r) (λ (sign, r').
              and_then {B = Decimal × Bytes}
                (read_span r')
                (λ (b, r''). done (big_decimal scale sign b, r'')))
            else failed unknown_decimal_form))
skip_tagged scale (failed e) = refl
skip_tagged scale (done (tag, r)) = elim (Bool-cases (from_little_endian tag == 0)) [
  | inl small ↦ rw small (left_after (read_varint r) (small_decimal scale))
  | inr other ↦ elim (Bool-cases (from_little_endian tag == 1)) [
    | inl big ↦ rw (other, big) (skip_big scale (read_fixed 1 r))
    | inr bad ↦ rw (other, bad) refl
  ]
]

skip_decimal :
    (scale : ℕ) (input : Bytes) → skip (decimal scale) input ≡ left (read_decimal scale input)
unfolding skip read_decimal
skip_decimal scale input = skip_tagged scale (read_fixed 1 input)

module _ {J : Type 0} (parse_json : Bytes → Option J) where
  enum_left :
      (m : Result (ℕ × Bytes)) (v : CellValue J) (rest : Bytes)
      → and_then {B = CellValue J × Bytes} m (λ (n, r).
        if ltb (2 ^ 16 - 1) n then failed enum_out_of_range else done (uint_value w16 n, r))
        ≡ done (v, rest)
      → left m ≡ done rest
  enum_left (done (n, r)) v rest h = ground arith
  enum_left (failed e) v rest h = absurd (ground arith)

  json_left :
      (m : Result (Bytes × Bytes)) (v : CellValue J) (rest : Bytes)
      → and_then m (λ (s, r). parsed parse_json r (parse_json s)) ≡ done (v, rest)
      → left m ≡ done rest
  json_left (done (s, r)) v rest h = ground (arith, Option-cases (parse_json s))
  json_left (failed e) v rest h = absurd (ground arith)

  decimal_left :
      (scale : ℕ) (input : Bytes) (v : CellValue J) (rest : Bytes)
      → cell parse_json (decimal scale) input ≡ done (v, rest)
      → skip (decimal scale) input ≡ done rest
  unfolding cell
  decimal_left scale input v rest h =
      skip_decimal scale input ∙ left_lem (read_decimal scale input) decimal_value v rest h

  -- Let `cell` read a value from the front of some bytes. Then `skip` gives no error there, and leaves
  -- the same bytes.
  pub skip-cell :
      (type : CellType) (input : Bytes) (v : CellValue J) (rest : Bytes)
      → cell parse_json type input ≡ done (v, rest)
      → skip type input ≡ done rest
  unfolding cell skip
  skip-cell (signed w) input v rest h = left_lem (read_varint input) _ v rest h
  skip-cell (unsigned w) input v rest h = left_lem (read_uvarint input) _ v rest h
  skip-cell enum input v rest h = enum_left (read_uvarint input) v rest h
  skip-cell float32 input v rest h = left_lem (read_fixed 4 input) _ v rest h
  skip-cell float64 input v rest h = left_lem (read_fixed 8 input) _ v rest h
  skip-cell datetime input v rest h = left_lem (read_fixed 8 input) _ v rest h
  skip-cell time input v rest h = left_lem (read_varint input) _ v rest h
  skip-cell (decimal scale) input v rest h = decimal_left scale input v rest h
  skip-cell json input v rest h = json_left (read_span input) v rest h
  skip-cell binary input v rest h = left_lem (read_span input) _ v rest h
  skip-cell text input v rest h = left_lem (read_span input) _ v rest h
