-- ===== src/Engine/KeyCodec/Column/Extends.antt =====
-- A column is appended: its key starts with what was there, and consists of bytes.
use repodb.Base.{
  ℕ, zero, suc, ◌/◌, ◌%◌, ◌≡◌, ◌∙◌, Bool, true, false, Option, none, some, [], ◌∷◌, ◌++◌,
  append_assoc, ◌==◌, arith, All, Bool-cases, inl, inr,
}
use repodb.Bytes.{Bytes}
use repodb.Bytes.BigEndian.{big_endian}
use repodb.Engine.KeyCodec.{append_escaped, escape}
use repodb.Engine.KeyCodec.Escape.{IsByte}
use repodb.Engine.KeyCodec.Column.{
  ColumnType, signed, unsigned, float, datetime, time, enum, binary, text, unsupported, KeyValue,
  signed_value, unsigned_value, float_bits, time_micros, timespan, enum_index, binary_bytes,
  string_bytes, flip_sign, string_key, trim_right, trim_cons, append_word, append_string, after,
  after_float, append_key_column,
}

-- `a` is `dst` and bytes behind it, where its own bytes are bytes.
abbrev pub Extends : Bytes → Bytes → Type 0
Extends dst a = (e : Bytes) × (a ≡ dst ++ e) × All IsByte e

pub All-append : (xs ys : Bytes) → All IsByte xs → All IsByte ys → All IsByte (xs ++ ys)
All-append [] ys h k = k
All-append (x ∷ xs) ys h k = (h.0, All-append xs ys h.1 k)

big_endian-IsByte : (n v : ℕ) → All IsByte (big_endian n v)
unfolding big_endian
big_endian-IsByte zero v = tt
big_endian-IsByte (suc n) v =
    All-append (big_endian n (v / 256)) ((v % 256) ∷ []) (big_endian-IsByte n (v / 256))
      (omega arith, tt)

escape-IsByte : (b : Bytes) → All IsByte b → All IsByte (escape b)
unfolding escape
escape-IsByte [] h = tt
escape-IsByte (c ∷ b) h = elim (Bool-cases (c == 0)) [
  | inl z ↦ rw z (omega arith, (omega arith, escape-IsByte b h.1))
  | inr p ↦ rw p (h.0, escape-IsByte b h.1)
]

trim_right-IsByte : (b : Bytes) → All IsByte b → All IsByte (trim_right b)
unfolding trim_right
trim_right-IsByte [] h = tt
trim_right-IsByte (c ∷ b) h = trimmed (trim_right b) (trim_right-IsByte b h.1)
  where
    trimmed : (s : Bytes) → All IsByte s → All IsByte (trim_cons c s)
    trimmed [] k = elim (Bool-cases (c == b' ')) [ inl e ↦ rw e tt | inr e ↦ rw e (h.0, tt) ]
    trimmed (d ∷ s) k = (h.0, k)

abbrev BytesOf : Option Bytes → Type 0
BytesOf none = Unit {0}
BytesOf (some b) = All IsByte b

-- The strings of a value consist of bytes.
pub record HasBytes (v : KeyValue) : Type 0 where
  pub binary_all : BytesOf (binary_bytes v)
  pub string_all : BytesOf (string_bytes v)

append_word-Extends :
    (dst a : Bytes) (n : ℕ) (o : Option ℕ) → append_word dst n o ≡ some a → Extends dst a
append_word-Extends dst a n none h = absurd (ground (arith, h))
append_word-Extends dst a n (some w) h = (big_endian n w, cc, big_endian-IsByte n w)

append_string-Extends :
    (dst a : Bytes) (o : Option Bytes) → BytesOf o → append_string dst o ≡ some a → Extends dst a
unfolding append_escaped
append_string-Extends dst a none b h = absurd (ground (arith, h))
append_string-Extends dst a (some s) b h = (
  escape s ++ 0 ∷ 1 ∷ [],
  some_bytes h ∙ append_assoc dst (escape s) (0 ∷ 1 ∷ []),
  All-append (escape s) (0 ∷ 1 ∷ []) (escape-IsByte s b) (omega arith),
)
  where
    some_bytes : {c : Bytes} → some c ≡ some a → a ≡ c
    some_bytes h = cc

string_key-BytesOf :
    (is_char : Bool) (o : Option Bytes) → BytesOf o → BytesOf (after (string_key is_char) o)
string_key-BytesOf is_char none h = tt
string_key-BytesOf true (some s) h = trim_right-IsByte s h
string_key-BytesOf false (some s) h = h

pub append_key_column-Extends :
    (dst a : Bytes) (type : ColumnType) (v : KeyValue)
    → HasBytes v
    → append_key_column dst type v ≡ some a
    → Extends dst a
unfolding append_key_column
append_key_column-Extends dst a signed v b h =
    append_word-Extends dst a 8 (after flip_sign (signed_value v)) h
append_key_column-Extends dst a unsigned v b h = append_word-Extends dst a 8 (unsigned_value v) h
append_key_column-Extends dst a float v b h =
    append_word-Extends dst a 8 (after_float (float_bits v)) h
append_key_column-Extends dst a datetime v b h =
    append_word-Extends dst a 8 (after flip_sign (time_micros v)) h
append_key_column-Extends dst a time v b h =
    append_word-Extends dst a 8 (after flip_sign (timespan v)) h
append_key_column-Extends dst a enum v b h = append_word-Extends dst a 2 (enum_index v) h
append_key_column-Extends dst a binary v b h =
    append_string-Extends dst a (binary_bytes v) b.binary_all h
append_key_column-Extends dst a (text is_char) v b h =
    append_string-Extends dst a (after (string_key is_char) (string_bytes v))
      (string_key-BytesOf is_char (string_bytes v) b.string_all) h
append_key_column-Extends dst a unsupported v b h = absurd (ground (arith, h))
