-- ===== src/Engine/RowCodec/Values/Laws.antt =====
-- Numbers come back from the formats of engine/rowcodec.go.
use repodb.Base.{
  ℕ, zero, suc, ◌*◌, ◌/◌, ◌%◌, ◌^◌, ◌≤◌, ◌<◌, ◌≡◌, refl, ap, ◌==◌, arith, length, Bool-cases, inl,
  inr,
}
use repodb.Base.Int.{ℤ, pos, negsuc, signed64}
use native.Mathlib.Nat.{pow-suc}
use repodb.Bytes.BigEndian.{from_big_endian, from_big_endian-last}
use repodb.Engine.RowCodec.Values.{
  Width, w8, w16, w32, w64, word, zigzag, unzigzag, little_endian, from_little_endian, word_of,
  half_range, to_signed, to_unsigned, coeff_rounds, coeff_bytes,
}

-- The values of a signed type.
abbrev pub InRange : Width → ℤ → Type 0
InRange w (pos n) = n < half_range w
InRange w (negsuc n) = n < half_range w

pub unzigzag-zigzag : (z : ℤ) → unzigzag (zigzag z) ≡ z
unzigzag-zigzag (pos n) = ground arith
unzigzag-zigzag (negsuc n) = ground arith

pub zigzag_bound : (w : Width) (z : ℤ) → InRange w z → zigzag z < 2 ^ 64
zigzag_bound w8 (pos n) h = omega arith
zigzag_bound w16 (pos n) h = omega arith
zigzag_bound w32 (pos n) h = omega arith
zigzag_bound w64 (pos n) h = omega arith
zigzag_bound word (pos n) h = omega arith
zigzag_bound w8 (negsuc n) h = omega arith
zigzag_bound w16 (negsuc n) h = omega arith
zigzag_bound w32 (negsuc n) h = omega arith
zigzag_bound w64 (negsuc n) h = omega arith
zigzag_bound word (negsuc n) h = omega arith

pub to_signed_lem : (w : Width) (z : ℤ) → InRange w z → to_signed w z ≡ z
to_signed_lem w8 (pos n) h = ground arith
to_signed_lem w16 (pos n) h = ground arith
to_signed_lem w32 (pos n) h = ground arith
to_signed_lem w64 (pos n) h = ground arith
to_signed_lem word (pos n) h = ground arith
to_signed_lem w8 (negsuc n) h = ground arith
to_signed_lem w16 (negsuc n) h = ground arith
to_signed_lem w32 (negsuc n) h = ground arith
to_signed_lem w64 (negsuc n) h = ground arith
to_signed_lem word (negsuc n) h = ground arith

pub to_unsigned_lem : (w : Width) (n : ℕ) → n < 2 * half_range w → to_unsigned w n ≡ n
to_unsigned_lem w8 n h = omega arith
to_unsigned_lem w16 n h = omega arith
to_unsigned_lem w32 n h = omega arith
to_unsigned_lem w64 n h = omega arith
to_unsigned_lem word n h = omega arith

pub unsigned_bound : (w : Width) (n : ℕ) → n < 2 * half_range w → n < 2 ^ 64
unsigned_bound w8 n h = omega arith
unsigned_bound w16 n h = omega arith
unsigned_bound w32 n h = omega arith
unsigned_bound w64 n h = omega arith
unsigned_bound word n h = omega arith

pub length-little_endian : (n v : ℕ) → length (little_endian n v) ≡ n
unfolding little_endian
length-little_endian zero v = refl
length-little_endian (suc n) v = ap suc (length-little_endian n (v / 256))

pub from_little_endian-little_endian :
    (n v : ℕ) → v < 256 ^ n → from_little_endian (little_endian n v) ≡ v
unfolding little_endian from_little_endian
from_little_endian-little_endian zero v h = omega arith
from_little_endian-little_endian (suc n) v h =
    omega (arith, from_little_endian-little_endian n (v / 256) (omega (arith, pow-suc 256 n)))

pub signed64-word_of : (z : ℤ) → InRange w64 z → signed64 (word_of z) ≡ z
signed64-word_of (pos n) h = ground arith
signed64-word_of (negsuc n) h = ground arith

pub word_of_bound : (z : ℤ) → InRange w64 z → word_of z < 2 ^ 64
word_of_bound (pos n) h = omega arith
word_of_bound (negsuc n) h = omega arith

coeff_rounds_lem : (n v : ℕ) → v ≤ n → from_big_endian 0 (coeff_rounds n v) ≡ v
unfolding coeff_rounds from_big_endian
coeff_rounds_lem zero v h = omega arith
coeff_rounds_lem (suc n) v h = elim (Bool-cases (v == 0)) [
  | inl z ↦ rw z (ground arith)
  | inr p ↦
      rw (p, from_big_endian-last 0 (coeff_rounds n (v / 256)) (v % 256))
        (omega (arith, coeff_rounds_lem n (v / 256) (ground arith)))
]

pub from_big_endian-coeff_bytes : (v : ℕ) → from_big_endian 0 (coeff_bytes v) ≡ v
from_big_endian-coeff_bytes v = coeff_rounds_lem v v (omega arith)
