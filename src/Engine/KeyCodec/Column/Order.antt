-- ===== src/Engine/KeyCodec/Column/Order.antt =====
-- The order of key columns.
use repodb.Base.{
  some_injective, ℕ, ◌^◌, ◌<◌, ◌≡◌, refl, sym, ap, ap₂, ◌∙◌, compare, Ordering, Bool, Option, none,
  some, ◌++◌, append_assoc, arith, Bool-cases, inl, inr,
}
use repodb.Base.Int.{compare_ints, signed64}
use repodb.Bytes.{Bytes, compare_bytes}
use repodb.Bytes.Order.{compare_bytes-append}
use repodb.Bytes.Compare.{then_compare, compare-append_same_length}
use repodb.Bytes.BigEndian.{big_endian, length-big_endian, compare-big_endian}
use repodb.Engine.KeyCodec.Escape.{compare-append_escaped}
use repodb.Engine.KeyCodec.Column.{
  ColumnType, signed, unsigned, float, datetime, time, enum, binary, text, unsupported, KeyValue,
  signed_value, unsigned_value, float_bits, time_micros, timespan, enum_index, binary_bytes,
  string_bytes, flip_sign, float_key, is_nan, order_bits, normalize_zero, string_key, append_word,
  append_string, after, after_float, append_key_column,
}
use repodb.Engine.KeyCodec.Column.Meaning.{
  float_rank, compare_found, compare_by, text_rank, compare_values, Fits, IsWord, signed_value-Fits,
  unsigned_value-Fits, float_bits-Fits, time_micros-Fits, timespan-Fits, enum_index-Fits,
  int_number_lem, compare_numbers, string_key_lem,
}

flip_sign-order :
    (v w : ℕ)
    → v < 2 ^ 64
    → w < 2 ^ 64
    → compare (flip_sign v) (flip_sign w) ≡ compare_ints (signed64 v) (signed64 w)
flip_sign-order v w h k = ground arith

order_bits-order :
    (v w : ℕ)
    → v < 2 ^ 64
    → w < 2 ^ 64
    → compare (order_bits (normalize_zero v)) (order_bits (normalize_zero w))
      ≡ compare_ints (float_rank v) (float_rank w)
order_bits-order v w h k = ground arith

-- Behind common columns, words of one width compare like their numbers, then what follows.
word_order :
    (dst x y : Bytes) (n v w : ℕ)
    → v < 256 ^ n
    → w < 256 ^ n
    → compare_bytes ((dst ++ big_endian n v) ++ x) ((dst ++ big_endian n w) ++ y)
      ≡ then_compare (compare v w) (compare_bytes x y)
word_order dst x y n v w h k =
    rw
      (
        append_assoc dst (big_endian n v) x,
        append_assoc dst (big_endian n w) y,
        compare_bytes-append dst (big_endian n v ++ x) (big_endian n w ++ y),
        compare-append_same_length (big_endian n v) (big_endian n w) x y
            (omega (arith, length-big_endian n v, length-big_endian n w)),
        compare-big_endian n v w h k,
      )
      refl

-- How the keys `a` and `b` compare, whatever follows them.
abbrev Compares : Ordering → Bytes → Bytes → Type 0
Compares order a b =
    (x y : Bytes) → compare_bytes (a ++ x) (b ++ y) ≡ then_compare order (compare_bytes x y)

word_keys :
    (dst a b : Bytes) (n : ℕ) (o p : Option ℕ)
    → Fits (256 ^ n) o
    → Fits (256 ^ n) p
    → append_word dst n o ≡ some a
    → append_word dst n p ≡ some b
    → Compares (compare_found compare o p) a b
word_keys dst a b n none p h k ea eb = cc
word_keys dst a b n (some v) none h k ea eb = cc
word_keys dst a b n (some v) (some w) h k ea eb =
    λ x y. rw (sym (some_injective ea), sym (some_injective eb)) (word_order dst x y n v w h k)

string_keys :
    (dst a b : Bytes) (o p : Option Bytes)
    → append_string dst o ≡ some a
    → append_string dst p ≡ some b
    → Compares (compare_found compare_bytes o p) a b
string_keys dst a b none p ea eb = cc
string_keys dst a b (some v) none ea eb = cc
string_keys dst a b (some v) (some w) ea eb = λ x y.
    rw (sym (some_injective ea), sym (some_injective eb)) (compare-append_escaped dst v w x y)

flipped_found :
    (o p : Option ℕ)
    → Fits (2 ^ 64) o
    → Fits (2 ^ 64) p
    → compare_found compare (after flip_sign o) (after flip_sign p)
      ≡ compare_found (compare_by signed64) o p
flipped_found none p h k = refl
flipped_found (some v) none h k = refl
flipped_found (some v) (some w) h k = flip_sign-order v w h k

flipped-Fits : (o : Option ℕ) → Fits (256 ^ 8) (after flip_sign o)
flipped-Fits none = tt
flipped-Fits (some v) = omega arith

signed_keys :
    (dst a b : Bytes) (o p : Option ℕ)
    → Fits (2 ^ 64) o
    → Fits (2 ^ 64) p
    → append_word dst 8 (after flip_sign o) ≡ some a
    → append_word dst 8 (after flip_sign p) ≡ some b
    → Compares (compare_found (compare_by signed64) o p) a b
signed_keys dst a b o p h k ea eb = rw (sym (flipped_found o p h k)) (
    word_keys dst a b 8 (after flip_sign o) (after flip_sign p) (flipped-Fits o) (flipped-Fits p) ea
      eb)

order_bits-bound : (v : ℕ) → v < 2 ^ 64 → order_bits (normalize_zero v) < 256 ^ 8
order_bits-bound v h = ground arith

-- A float that has a key is a number.
float_key-some :
    (v : ℕ) (dst a : Bytes)
    → append_word dst 8 (float_key v) ≡ some a
    → float_key v ≡ some (order_bits (normalize_zero v))
float_key-some v dst a e = elim (Bool-cases (is_nan v)) [
  | inl t ↦ absurd (none_has_no_key (rw t at e))
  | inr f ↦ rw f refl
]
  where
    none_has_no_key : append_word dst 8 none ≡ some a → ⊥
    none_has_no_key e = cc

float_keys :
    (dst a b : Bytes) (o p : Option ℕ)
    → Fits (2 ^ 64) o
    → Fits (2 ^ 64) p
    → append_word dst 8 (after_float o) ≡ some a
    → append_word dst 8 (after_float p) ≡ some b
    → Compares (compare_found (compare_by float_rank) o p) a b
float_keys dst a b none p h k ea eb = cc
float_keys dst a b (some v) none h k ea eb = cc
float_keys dst a b (some v) (some w) h k ea eb = rw (sym (order_bits-order v w h k)) (
    word_keys dst a b 8 (some (order_bits (normalize_zero v)))
      (some (order_bits (normalize_zero w))) (order_bits-bound v h) (order_bits-bound w k)
      (ap (append_word dst 8) (sym (float_key-some v dst a ea)) ∙ ea)
      (ap (append_word dst 8) (sym (float_key-some w dst b eb)) ∙ eb))

trimmed_found :
    (is_char : Bool) (o p : Option Bytes)
    → compare_found compare_bytes (after (string_key is_char) o) (after (string_key is_char) p)
      ≡ compare_found (λ a b. compare_bytes (text_rank is_char a) (text_rank is_char b)) o p
trimmed_found is_char none p = refl
trimmed_found is_char (some v) none = refl
trimmed_found is_char (some v) (some w) =
    ap₂ compare_bytes (string_key_lem is_char v) (string_key_lem is_char w)

-- Let two values of words of their width both have a key in a column, appended to the same columns.
-- Then the keys compare like the values, and if these are equal like whatever follows the keys.
pub append_key_column-order :
    (typ : ColumnType) (v w : KeyValue) (dst a b x y : Bytes)
    → IsWord v
    → IsWord w
    → append_key_column dst typ v ≡ some a
    → append_key_column dst typ w ≡ some b
    → compare_bytes (a ++ x) (b ++ y) ≡ then_compare (compare_values typ v w) (compare_bytes x y)
unfolding append_key_column
append_key_column-order signed v w dst a b x y h k ea eb =
    signed_keys dst a b (signed_value v) (signed_value w) (signed_value-Fits v h)
      (signed_value-Fits w k) ea eb x y
    ∙ ap (λ o. then_compare o (compare_bytes x y))
        (compare_numbers (signed_value v) (signed_value w)
          ∙ sym (ap₂ (compare_found compare_ints) (int_number_lem v h) (int_number_lem w k)))
append_key_column-order unsigned v w dst a b x y h k ea eb =
    word_keys dst a b 8 (unsigned_value v) (unsigned_value w) (unsigned_value-Fits v h)
      (unsigned_value-Fits w k) ea eb x y
append_key_column-order float v w dst a b x y h k ea eb =
    float_keys dst a b (float_bits v) (float_bits w) (float_bits-Fits v h) (float_bits-Fits w k) ea
      eb x y
append_key_column-order datetime v w dst a b x y h k ea eb =
    signed_keys dst a b (time_micros v) (time_micros w) (time_micros-Fits v h)
      (time_micros-Fits w k) ea eb x y
append_key_column-order time v w dst a b x y h k ea eb =
    signed_keys dst a b (timespan v) (timespan w) (timespan-Fits v h) (timespan-Fits w k) ea eb x y
append_key_column-order enum v w dst a b x y h k ea eb =
    word_keys dst a b 2 (enum_index v) (enum_index w) (enum_index-Fits v h) (enum_index-Fits w k) ea
      eb x y
append_key_column-order binary v w dst a b x y h k ea eb =
    string_keys dst a b (binary_bytes v) (binary_bytes w) ea eb x y
append_key_column-order (text is_char) v w dst a b x y h k ea eb =
    rw (sym (trimmed_found is_char (string_bytes v) (string_bytes w))) (
      string_keys dst a b (after (string_key is_char) (string_bytes v))
        (after (string_key is_char) (string_bytes w)) ea eb x y)
append_key_column-order unsupported v w dst a b x y h k ea eb = cc
