-- ===== src/Engine/RowCodec/Values.antt =====
-- The values and column types of engine/rowcodec.go, and the number formats of Go's encoding/binary
-- that it uses besides the unsigned varint.
pub mod Laws
use repodb.Base.{
  ℕ, zero, suc, ◌+◌, ◌-◌, ◌*◌, ◌/◌, ◌%◌, ◌^◌, Ordering, Bool, true, false, Option, none, some, [],
  ◌∷◌, ◌++◌, ◌==◌, ltb, if◌then◌else◌,
}
use repodb.Base.Int.{ℤ, pos, negsuc, compare_ints}
use repodb.Bytes.{Bytes}
use repodb.Prolly.Varint.{append_uvarint, uvarint}

-- Go's integer types by their size; `word` is `int` and `uint`.
pub data Width : Type 0 where
  w8 w16 w32 w64 word : Width

-- The integer types of SQL by their size.
pub data SqlWidth : Type 0 where
  s8 s16 s24 s32 s64 : SqlWidth

-- The Go type of a column's integers.
abbrev pub go_width : SqlWidth → Width
go_width s8 = w8
go_width s16 = w16
go_width s24 = w32
go_width s32 = w32
go_width s64 = w64

-- The types that the switches of `appendCell` and `cell` tell apart; a decimal has its scale.
pub data CellType : Type 0 where
  signed unsigned : SqlWidth → CellType
  enum float32 float64 datetime time json binary text : CellType
  decimal : ℕ → CellType

-- `apd.Decimal`: whether its form is `Finite`, the sign, the exponent and the coefficient.
pub record Decimal : Type 0 where
  pub finite : Bool
  pub negative : Bool
  pub exponent : ℤ
  pub coeff : ℕ

-- The dynamic types of a value that is not nil. Floats are bit patterns, a time is its microseconds in
-- UTC, `J` is the type of JSON documents, and `other_value` stands for all other types.
pub data CellValue (J : Type 0) : Type 0 where
  int_value : Width → ℤ → CellValue J
  uint_value : Width → ℕ → CellValue J
  float32_value float64_value : ℕ → CellValue J
  time_value timespan_value : ℤ → CellValue J
  decimal_value : Decimal → CellValue J
  json_value : J → CellValue J
  bytes_value string_value : Bytes → CellValue J
  other_value : CellValue J

pub data RowError : Type 0 where
  wrong_type not_finite not_rounded invalid_json wrong_width : RowError
  truncated enum_out_of_range unknown_decimal_form trailing_bytes : RowError
  -- Go's panic for an index out of range.
  out_of_range : RowError

pub data Result (A : Type 0) : Type 0 where
  failed : RowError → Result A
  done : A → Result A

-- `if err != nil { return ..., err }`
abbrev pub and_then : {A B : Type 0} → Result A → (A → Result B) → Result B
and_then (failed e) f = failed e
and_then (done a) f = f a

-- `binary.AppendVarint` and `binary.Varint`: the sign in the lowest bit.
abbrev pub zigzag : ℤ → ℕ
zigzag (pos n) = 2 * n
zigzag (negsuc n) = 2 * n + 1

abbrev pub unzigzag : ℕ → ℤ
unzigzag u = if u % 2 == 0 then pos (u / 2) else negsuc (u / 2)

abbrev pub append_varint : ℤ → Bytes
append_varint v = append_uvarint (zigzag v)

-- `binary.LittleEndian`, for numbers of `n` bytes.
unfoldable pub little_endian : ℕ → ℕ → Bytes
little_endian zero v = []
little_endian (suc n) v = (v % 256) ∷ little_endian n (v / 256)

unfoldable pub from_little_endian : Bytes → ℕ
from_little_endian [] = 0
from_little_endian (b ∷ bytes) = b + 256 * from_little_endian bytes

-- `uint64(v)` of an `int64`.
abbrev pub word_of : ℤ → ℕ
word_of (pos n) = n
word_of (negsuc n) = 2 ^ 64 - 1 - n

-- Half the number of values of a type.
abbrev pub half_range : Width → ℕ
half_range w8 = 2 ^ 7
half_range w16 = 2 ^ 15
half_range w32 = 2 ^ 31
half_range w64 = 2 ^ 63
half_range word = 2 ^ 63

-- The conversions of an `int64` and a `uint64` to a narrower type.
abbrev pub to_signed : Width → ℤ → ℤ
to_signed w (pos n) =
    let m = n % (2 * half_range w) in
    if ltb m (half_range w) then pos m else negsuc (2 * half_range w - 1 - m)
to_signed w (negsuc n) =
    let m = n % (2 * half_range w) in
    if ltb m (half_range w) then negsuc m else pos (2 * half_range w - 1 - m)

abbrev pub to_unsigned : Width → ℕ → ℕ
to_unsigned w n = n % (2 * half_range w)

-- `big.Int.Bytes` and `SetBytes`: big-endian, with no zero byte in front; a number needs no more
-- rounds than it says.
unfoldable pub coeff_rounds : ℕ → ℕ → Bytes
coeff_rounds zero v = []
coeff_rounds (suc n) v =
    let more = coeff_rounds n (v / 256) ++ (v % 256) ∷ [] in if v == 0 then [] else more

abbrev pub coeff_bytes : ℕ → Bytes
coeff_bytes v = coeff_rounds v v

-- `-scale`
abbrev pub exponent_of : ℕ → ℤ
exponent_of zero = pos 0
exponent_of (suc n) = negsuc n

abbrev pub same_int : ℤ → ℤ → Bool
same_int a b = elim (compare_ints a b) [ Ordering.eq ↦ true | _ ↦ false ]
