-- ===== src/Engine/Base64.antt =====
-- `encoding/base64`, without padding: how conflicts name row keys.
use repodb.Base.{ℕ, ◌+◌, ◌-◌, ◌*◌, ◌/◌, ◌%◌, [], ◌∷◌, ltb, ◌==◌, if◌then◌else◌}
use repodb.Bytes.{Bytes}

-- The digit of six bits; the last two differ between the alphabets.
pub digit : ℕ → ℕ → ℕ → ℕ
digit c62 c63 n =
    if ltb n 26
    then b'A' + n
    else if ltb n 52
    then b'a' + (n - 26)
    else if ltb n 62
    then b'0' + (n - 52)
    else if n == 62
    then c62
    else c63

module _ (c62 c63 : ℕ) where
  pub encode_raw : Bytes → Bytes
  encode_raw [] = []
  encode_raw (a ∷ []) = digit c62 c63 (a / 4) ∷ digit c62 c63 (a % 4 * 16) ∷ []
  encode_raw (a ∷ b ∷ []) =
      digit c62 c63 (a / 4) ∷ digit c62 c63 (a % 4 * 16 + b / 16) ∷ digit c62 c63 (b % 16 * 4) ∷ []
  encode_raw (a ∷ b ∷ c ∷ rest) =
      digit c62 c63 (a / 4)
      ∷ digit c62 c63 (a % 4 * 16 + b / 16)
      ∷ digit c62 c63 (b % 16 * 4 + c / 64)
      ∷ digit c62 c63 (c % 64)
      ∷ encode_raw rest

-- `base64.RawURLEncoding.EncodeToString`
pub raw_url : Bytes → Bytes
raw_url = encode_raw b'-' b'_'

-- `base64.RawStdEncoding.EncodeToString`
pub raw_std : Bytes → Bytes
raw_std = encode_raw b'+' b'/'
