-- ===== src/Engine/KeyCodec/Column/Meaning.antt =====
-- How the values of a column compare, and what their conversions make of them.
use repodb.Base.{
  ℕ, ◌-◌, ◌^◌, ◌<◌, ◌≡◌, refl, ap, ◌∙◌, compare, Ordering, Bool, true, false, [], ◌∷◌, ◌&&◌, ◌==◌,
  Option, none, some, ltb, if◌then◌else◌, arith,
}
use repodb.Base.Int.{ℤ, pos, negsuc, compare_ints, signed64}
use repodb.Bytes.{Bytes, compare_bytes}
use repodb.Engine.RowCodec.Values.{w8, w16, w32, w64, word}
use repodb.Engine.KeyCodec.Column.{
  ColumnType, signed, unsigned, float, datetime, time, enum, binary, text, unsupported, KeyValue,
  int_value, uint_value, float_value, time_value, timespan_value, bytes_value, string_value,
  other_value, bits, trim_cons, trim_right, signed_value, unsigned_value, float_bits, time_micros,
  timespan, enum_index, binary_bytes, string_bytes, string_key,
}

-- The number of a float's place among the floats: its magnitude's bits, with its sign.
abbrev pub float_rank : ℕ → ℤ
float_rank w =
    if ltb w (2 ^ 63) then pos w else if ltb (2 ^ 63) w then negsuc (w - 2 ^ 63 - 1) else pos 0

abbrev pub compare_found : {A : Type 0} → (A → A → Ordering) → Option A → Option A → Ordering
compare_found cmp (some a) (some b) = cmp a b
compare_found cmp (some a) none = Ordering.eq
compare_found cmp none o = Ordering.eq

abbrev pub compare_by : {A : Type 0} → (A → ℤ) → A → A → Ordering
compare_by f a b = compare_ints (f a) (f b)

-- The number of a signed integer: two's complement of its width.
abbrev pub int_number : KeyValue → Option ℤ
int_number (int_value width v) =
    some (if ltb v (2 ^ (bits width - 1)) then pos v else negsuc (2 ^ bits width - v - 1))
int_number _ = none

abbrev pub all_spaces : Bytes → Bool
all_spaces [] = true
all_spaces (c ∷ s) = (c == b' ') && all_spaces s

-- A string up to where only spaces are left.
abbrev pub without_padding : Bytes → Bytes
without_padding [] = []
without_padding (c ∷ s) = if all_spaces (c ∷ s) then [] else c ∷ without_padding s

-- Only a CHAR ignores its trailing spaces.
abbrev pub text_rank : Bool → Bytes → Bytes
text_rank true s = without_padding s
text_rank false s = s

-- How two values of a column compare: integers and times as signed numbers, floats by their rank,
-- strings by their bytes, a CHAR without its trailing spaces.
abbrev pub compare_values : ColumnType → KeyValue → KeyValue → Ordering
compare_values signed v w = compare_found compare_ints (int_number v) (int_number w)
compare_values unsigned v w = compare_found compare (unsigned_value v) (unsigned_value w)
compare_values float v w = compare_found (compare_by float_rank) (float_bits v) (float_bits w)
compare_values datetime v w = compare_found (compare_by signed64) (time_micros v) (time_micros w)
compare_values time v w = compare_found (compare_by signed64) (timespan v) (timespan w)
compare_values enum v w = compare_found compare (enum_index v) (enum_index w)
compare_values binary v w = compare_found compare_bytes (binary_bytes v) (binary_bytes w)
compare_values (text is_char) v w =
    compare_found (λ a b. compare_bytes (text_rank is_char a) (text_rank is_char b))
      (string_bytes v) (string_bytes w)
compare_values unsupported v w = Ordering.eq

abbrev pub Fits : ℕ → Option ℕ → Type 0
Fits bound none = Unit
Fits bound (some v) = v < bound

-- The bit patterns have their width.
abbrev pub IsWord : KeyValue → Type 0
IsWord (int_value width n) = n < 2 ^ bits width
IsWord (uint_value width n) = n < 2 ^ bits width
IsWord (float_value n) = n < 2 ^ 64
IsWord (time_value n) = n < 2 ^ 64
IsWord (timespan_value n) = n < 2 ^ 64
IsWord (bytes_value s) = Unit
IsWord (string_value s) = Unit
IsWord other_value = Unit

pub signed_value-Fits : (v : KeyValue) → IsWord v → Fits (2 ^ 64) (signed_value v)
unfolding signed_value
signed_value-Fits (int_value w8 n) h = ground arith
signed_value-Fits (int_value w16 n) h = ground arith
signed_value-Fits (int_value w32 n) h = ground arith
signed_value-Fits (int_value w64 n) h = ground arith
signed_value-Fits (int_value word n) h = ground arith
signed_value-Fits _ h = tt

pub unsigned_value-Fits : (v : KeyValue) → IsWord v → Fits (2 ^ 64) (unsigned_value v)
unfolding unsigned_value
unsigned_value-Fits (uint_value w8 n) h = omega arith
unsigned_value-Fits (uint_value w16 n) h = omega arith
unsigned_value-Fits (uint_value w32 n) h = omega arith
unsigned_value-Fits (uint_value w64 n) h = omega arith
unsigned_value-Fits (uint_value word n) h = omega arith
unsigned_value-Fits _ h = tt

pub float_bits-Fits : (v : KeyValue) → IsWord v → Fits (2 ^ 64) (float_bits v)
float_bits-Fits (float_value n) h = h
float_bits-Fits _ h = tt

pub time_micros-Fits : (v : KeyValue) → IsWord v → Fits (2 ^ 64) (time_micros v)
time_micros-Fits (time_value n) h = h
time_micros-Fits _ h = tt

pub timespan-Fits : (v : KeyValue) → IsWord v → Fits (2 ^ 64) (timespan v)
timespan-Fits (timespan_value n) h = h
timespan-Fits _ h = tt

pub enum_index-Fits : (v : KeyValue) → IsWord v → Fits (2 ^ 16) (enum_index v)
enum_index-Fits (uint_value w16 n) h = h
enum_index-Fits _ h = tt

-- Sign extension keeps the number.
abbrev pub as_number : Option ℕ → Option ℤ
as_number none = none
as_number (some w) = some (signed64 w)

pub int_number_lem : (v : KeyValue) → IsWord v → int_number v ≡ as_number (signed_value v)
unfolding signed_value
int_number_lem (int_value w8 n) h = ground arith
int_number_lem (int_value w16 n) h = ground arith
int_number_lem (int_value w32 n) h = ground arith
int_number_lem (int_value w64 n) h = ground arith
int_number_lem (int_value word n) h = ground arith
int_number_lem _ h = refl

pub compare_numbers :
    (o p : Option ℕ)
    → compare_found (compare_by signed64) o p
      ≡ compare_found compare_ints (as_number o) (as_number p)
compare_numbers none p = refl
compare_numbers (some v) none = refl
compare_numbers (some v) (some w) = refl

no_padding : (s : Bytes) → all_spaces s ≡ true → without_padding s ≡ []
no_padding [] h = refl
no_padding (c ∷ s) h = rw h refl

trim_cons_lem : (c : ℕ) (s : Bytes) → trim_cons c (without_padding s) ≡ without_padding (c ∷ s)
trim_cons_lem c [] = ground arith
trim_cons_lem c (d ∷ s) = ground arith

trim_right_lem : (s : Bytes) → trim_right s ≡ without_padding s
unfolding trim_right
trim_right_lem [] = refl
trim_right_lem (c ∷ s) = ap (trim_cons c) (trim_right_lem s) ∙ trim_cons_lem c s

pub string_key_lem : (is_char : Bool) (s : Bytes) → string_key is_char s ≡ text_rank is_char s
string_key_lem true s = trim_right_lem s
string_key_lem false s = refl
