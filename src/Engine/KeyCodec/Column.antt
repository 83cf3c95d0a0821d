-- ===== src/Engine/KeyCodec/Column.antt =====
-- `appendKeyColumn` of engine/keycodec.go, without decimals and with the default and the binary
-- collation only. An integer or a float is its bit pattern.
pub mod Meaning
pub mod Order
pub mod Extends
mod Examples
use repodb.Base.{
  ℕ, zero, suc, ◌+◌, ◌-◌, ◌%◌, ◌^◌, Bool, true, false, Option, none, some, List, [], ◌∷◌, ◌++◌,
  ◌==◌, ltb, leb, if◌then◌else◌,
}
use repodb.Bytes.{Bytes}
use repodb.Bytes.BigEndian.{big_endian}
use repodb.Engine.KeyCodec.{append_escaped}
use repodb.Engine.RowCodec.Values.{Width, w8, w16, w32, w64, word}

-- The column types of the switch: a text is a CHAR or not.
pub data ColumnType : Type 0 where
  signed unsigned float datetime time enum binary unsupported : ColumnType
  text : Bool → ColumnType

-- The dynamic types of a value: integers by the pattern of their width, a float as a float64, a time
-- by its microseconds, and `other_value` for the types that no case takes.
pub data KeyValue : Type 0 where
  int_value uint_value : Width → ℕ → KeyValue
  float_value time_value timespan_value : ℕ → KeyValue
  bytes_value string_value : Bytes → KeyValue
  other_value : KeyValue

abbrev pub bits : Width → ℕ
bits w8 = 8
bits w16 = 16
bits w32 = 32
bits w64 = 64
bits word = 64

-- `int64(v)` of a signed integer: the sign bit is repeated.
abbrev pub sign_extend : Width → ℕ → ℕ
sign_extend width v = if ltb v (2 ^ (bits width - 1)) then v else v + (2 ^ 64 - 2 ^ bits width)

-- `signedValue` and `unsignedValue`: 64-bit patterns.
unfoldable pub signed_value : KeyValue → Option ℕ
signed_value (int_value width v) = some (sign_extend width v)
signed_value _ = none

unfoldable pub unsigned_value : KeyValue → Option ℕ
unsigned_value (uint_value width v) = some v
unsigned_value _ = none

-- The type assertions of the other cases.
abbrev pub float_bits : KeyValue → Option ℕ
float_bits (float_value v) = some v
float_bits _ = none

abbrev pub time_micros : KeyValue → Option ℕ
time_micros (time_value v) = some v
time_micros _ = none

abbrev pub timespan : KeyValue → Option ℕ
timespan (timespan_value v) = some v
timespan _ = none

abbrev pub enum_index : KeyValue → Option ℕ
enum_index (uint_value w16 v) = some v
enum_index _ = none

abbrev pub binary_bytes : KeyValue → Option Bytes
binary_bytes (bytes_value v) = some v
binary_bytes (string_value v) = some v
binary_bytes _ = none

abbrev pub string_bytes : KeyValue → Option Bytes
string_bytes (string_value v) = some v
string_bytes _ = none

-- `^ (1 << 63)`
abbrev pub flip_sign : ℕ → ℕ
flip_sign w = (w + 2 ^ 63) % 2 ^ 64

-- The bits of a float that is no number: the exponent is full and the fraction not zero.
abbrev pub is_nan : ℕ → Bool
is_nan w = ltb 0x7FF0000000000000 (w % 2 ^ 63)

-- Both zeros are +0; then all bits are flipped if negative, else the sign bit is set.
abbrev pub normalize_zero : ℕ → ℕ
normalize_zero w = if w % 2 ^ 63 == 0 then 0 else w

abbrev pub order_bits : ℕ → ℕ
order_bits w = if leb (2 ^ 63) w then 2 ^ 64 - 1 - w else w + 2 ^ 63

abbrev pub float_key : ℕ → Option ℕ
float_key w = if is_nan w then none else some (order_bits (normalize_zero w))

-- `strings.TrimRight(s, " ")`
abbrev pub trim_cons : ℕ → Bytes → Bytes
trim_cons c [] = if c == b' ' then [] else c ∷ []
trim_cons c (d ∷ s) = c ∷ d ∷ s

pub trim_right : Bytes → Bytes
trim_right [] = []
trim_right (c ∷ s) = trim_cons c (trim_right s)

-- `appendStringKey` for the default and the binary collation.
abbrev pub string_key : Bool → Bytes → Bytes
string_key is_char s = if is_char then trim_right s else s

abbrev pub append_word : Bytes → ℕ → Option ℕ → Option Bytes
append_word dst n none = none
append_word dst n (some w) = some (dst ++ big_endian n w)

abbrev pub append_string : Bytes → Option Bytes → Option Bytes
append_string dst none = none
append_string dst (some s) = some (append_escaped dst s)

-- A conversion of the value that was found.
abbrev pub after {ℓ} : {A B : Type ℓ} → (A → B) → Option A → Option B
after f none = none
after f (some a) = some (f a)

abbrev pub after_float : Option ℕ → Option ℕ
after_float none = none
after_float (some w) = float_key w

-- `appendKeyColumn`: `none` for its errors.
unfoldable pub append_key_column : Bytes → ColumnType → KeyValue → Option Bytes
append_key_column dst signed v = append_word dst 8 (after flip_sign (signed_value v))
append_key_column dst unsigned v = append_word dst 8 (unsigned_value v)
append_key_column dst float v = append_word dst 8 (after_float (float_bits v))
append_key_column dst datetime v = append_word dst 8 (after flip_sign (time_micros v))
append_key_column dst time v = append_word dst 8 (after flip_sign (timespan v))
append_key_column dst enum v = append_word dst 2 (enum_index v)
append_key_column dst binary v = append_string dst (binary_bytes v)
append_key_column dst (text is_char) v =
    append_string dst (after (string_key is_char) (string_bytes v))
append_key_column dst unsupported v = none
