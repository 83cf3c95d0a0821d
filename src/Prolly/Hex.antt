-- ===== src/Prolly/Hex.antt =====
-- `hex.EncodeToString` and `hex.DecodeString` of Go's standard library, between raw hashes and texts.
use repodb.Base.{
  ℕ, zero, suc, ◌+◌, ◌-◌, ◌*◌, ◌/◌, ◌%◌, ◌<◌, ◌≡◌, refl, true, Option, none, some, [], ◌∷◌, ◌&&◌,
  ◌||◌, leb, if◌then◌else◌, arith, length, All, Bool-cases, inl, inr,
}
use repodb.Bytes.{Bytes}

abbrev pub hex_digit : ℕ → ℕ
hex_digit n = if leb n 9 then b'0' + n else b'a' + (n - 10)

pub encode_hex : Bytes → Bytes
encode_hex [] = []
encode_hex (b ∷ raw) = hex_digit (b / 16) ∷ hex_digit (b % 16) ∷ encode_hex raw

abbrev pub hex_value : ℕ → Option ℕ
hex_value c =
    if leb b'0' c && leb c b'9'
    then some (c - b'0')
    else if leb b'a' c && leb c b'f'
    then some (c - b'a' + 10)
    else if leb b'A' c && leb c b'F'
    then some (c - b'A' + 10)
    else none

abbrev pub join_digits : Option ℕ → Option ℕ → Option Bytes → Option Bytes
join_digits (some high) (some low) (some raw) = some ((16 * high + low) ∷ raw)
join_digits (some high) (some low) none = none
join_digits (some high) none raw = none
join_digits none low raw = none

-- `none` for a character that is no digit and for an odd length.
pub decode_hex : Bytes → Option Bytes
decode_hex [] = some []
decode_hex (c ∷ []) = none
decode_hex (c ∷ d ∷ text) = join_digits (hex_value c) (hex_value d) (decode_hex text)

-- A digit as `EncodeToString` writes it.
abbrev pub IsLowerHex : ℕ → Type 0
IsLowerHex c = ((leb b'0' c && leb c b'9') || (leb b'a' c && leb c b'f')) ≡ true

digit_lem : (c : ℕ) → IsLowerHex c → (v : ℕ) × (hex_value c ≡ some v) × (v < 16) × (hex_digit v ≡ c)
digit_lem c h = elim (Bool-cases (leb b'0' c && leb c b'9')) [
  | inl t ↦ (c - b'0', ground (arith, t), ground (arith, t), ground (arith, t))
  | inr f ↦ (c - b'a' + 10, ground (arith, f, h), ground (arith, f, h), ground (arith, f, h))
]

join_digit : (v w : ℕ) → w < 16 → ((16 * v + w) / 16 ≡ v) × ((16 * v + w) % 16 ≡ w)
join_digit v w h = (omega arith, omega arith)

-- A lower-case text of even length is the text of the raw bytes that it is read as.
pub encode_hex-decode_hex :
    (n : ℕ) (text : Bytes)
    → length text ≡ 2 * n
    → All IsLowerHex text
    → (raw : Bytes) × (decode_hex text ≡ some raw) × (length raw ≡ n) × (encode_hex raw ≡ text)
unfolding decode_hex encode_hex
encode_hex-decode_hex zero [] e h = ([], refl, refl, refl)
encode_hex-decode_hex (suc n) [] e h = absurd (omega arith)
encode_hex-decode_hex zero (c ∷ text) e h = absurd (omega arith)
encode_hex-decode_hex (suc n) (c ∷ []) e h = absurd (omega arith)
encode_hex-decode_hex (suc n) (c ∷ d ∷ text) e h =
    let (raw, er, l, back) = encode_hex-decode_hex n text (omega arith) h.1.1 in
    let (v, ev, bv, dv) = digit_lem c h.0 in
    let (w, ew, bw, dw) = digit_lem d h.1.0 in
    (
      (16 * v + w) ∷ raw,
      rw (ev, ew, er),
      omega arith,
      rw (encode_hex, (join_digit v w bw).0, (join_digit v w bw).1, dv, dw, back),
    )
