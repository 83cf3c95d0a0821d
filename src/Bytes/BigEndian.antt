-- ===== src/Bytes/BigEndian.antt =====
-- `binary.BigEndian.AppendUint64` and its narrower forms.
use repodb.Base.{
  ℕ, zero, suc, ◌+◌, ◌*◌, ◌/◌, ◌%◌, ◌^◌, ◌<◌, ◌≡◌, refl, ◌∙◌, compare, [], ◌∷◌, ◌++◌, arith, length,
  length-append,
}
use native.Mathlib.Nat.{pow-suc}
use repodb.Bytes.{Bytes, compare_bytes}
use repodb.Bytes.Compare.{then_compare, compare-append_same_length}

-- The `n` low bytes of `v`, the highest first.
unfoldable pub big_endian : ℕ → ℕ → Bytes
big_endian zero v = []
big_endian (suc n) v = big_endian n (v / 256) ++ (v % 256) ∷ []

pub length-big_endian : (n v : ℕ) → length (big_endian n v) ≡ n
unfolding big_endian
length-big_endian zero v = refl
length-big_endian (suc n) v =
    omega (
      arith,
      length-append (big_endian n (v / 256)) ((v % 256) ∷ []),
      length-big_endian n (v / 256),
    )

compare-last : (x y : ℕ) → compare_bytes (x ∷ []) (y ∷ []) ≡ compare x y
unfolding compare_bytes
compare-last x y = ground arith

compare-div_mod :
    (a b : ℕ)
    → then_compare (compare (a / 256) (b / 256)) (compare (a % 256) (b % 256)) ≡ compare a b
compare-div_mod a b = ground arith

-- Big-endian bytes are ordered like the numbers.
pub compare-big_endian :
    (n a b : ℕ)
    → a < 256 ^ n
    → b < 256 ^ n
    → compare_bytes (big_endian n a) (big_endian n b) ≡ compare a b
unfolding big_endian
compare-big_endian zero a b h k = unfold compare_bytes in ground arith
compare-big_endian (suc n) a b h k =
    compare-append_same_length (big_endian n (a / 256)) (big_endian n (b / 256)) _ _
      (omega (arith, length-big_endian n (a / 256), length-big_endian n (b / 256)))
    ∙ rw
        (
          compare-big_endian n (a / 256) (b / 256) (omega (arith, pow-suc 256 n))
              (omega (arith, pow-suc 256 n)),
          compare-last,
        )
        (compare-div_mod a b)

-- `binary.BigEndian.Uint32` and its wider forms, from what was read before.
unfoldable pub from_big_endian : ℕ → Bytes → ℕ
from_big_endian acc [] = acc
from_big_endian acc (b ∷ bytes) = from_big_endian (256 * acc + b) bytes

pub from_big_endian-last :
    (acc : ℕ) (bytes : Bytes) (b : ℕ)
    → from_big_endian acc (bytes ++ b ∷ []) ≡ 256 * from_big_endian acc bytes + b
unfolding from_big_endian
from_big_endian-last acc [] b = refl
from_big_endian-last acc (c ∷ bytes) b = from_big_endian-last (256 * acc + c) bytes b

pub from_big_endian-big_endian : (n v : ℕ) → v < 256 ^ n → from_big_endian 0 (big_endian n v) ≡ v
unfolding big_endian from_big_endian
from_big_endian-big_endian zero v h = omega arith
from_big_endian-big_endian (suc n) v h = omega (
  arith,
  from_big_endian-last 0 (big_endian n (v / 256)) (v % 256),
  from_big_endian-big_endian n (v / 256) (omega (arith, pow-suc 256 n)),
)
