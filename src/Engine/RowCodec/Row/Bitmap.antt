-- ===== src/Engine/RowCodec/Row/Bitmap.antt =====
-- The NULL bitmap holds the columns that were set in it.
use repodb.Base.{
  ℕ, zero, suc, ◌/◌, ◌%◌, ◌<◌, ◌≡◌, refl, ap, ◌∙◌, false, [], ◌∷◌, ◌||◌, ◌==◌, if◌then◌else◌, arith,
  length,
}
use repodb.Bytes.{Bytes}
use repodb.Engine.RowCodec.Row.{set_bit, test_bit, byte_at, set_bit_at, set_null, is_null, zeros}

half_set : (b : ℕ) → set_bit 0 b / 2 ≡ b / 2
unfolding set_bit
half_set b = ground arith

half_set_suc : (k b : ℕ) → set_bit (suc k) b / 2 ≡ set_bit k (b / 2)
unfolding set_bit
half_set_suc k b = omega arith

test_bit-set_bit : (k m b : ℕ) → test_bit m (set_bit k b) ≡ ((k == m) || test_bit m b)
unfolding test_bit
test_bit-set_bit zero zero b = unfold set_bit in ground arith
test_bit-set_bit (suc k) zero b = unfold set_bit in ground arith
test_bit-set_bit zero (suc m) b = ground (arith, ap (test_bit m) (half_set b))
test_bit-set_bit (suc k) (suc m) b =
    ground (arith, ap (test_bit m) (half_set_suc k b), test_bit-set_bit k m (b / 2))

byte_at-set_bit_at :
    (nulls : Bytes) (n k m : ℕ)
    → n < length nulls
    → byte_at (set_bit_at nulls n k) m
      ≡ (if n == m then set_bit k (byte_at nulls m) else byte_at nulls m)
unfolding byte_at set_bit_at
byte_at-set_bit_at [] n k m h = absurd (omega arith)
byte_at-set_bit_at (b ∷ nulls) zero k zero h = refl
byte_at-set_bit_at (b ∷ nulls) zero k (suc m) h = ground arith
byte_at-set_bit_at (b ∷ nulls) (suc n) k zero h = ground arith
byte_at-set_bit_at (b ∷ nulls) (suc n) k (suc m) h = ground (arith, byte_at-set_bit_at nulls n k m)

pub length-set_bit_at : (nulls : Bytes) (n k : ℕ) → length (set_bit_at nulls n k) ≡ length nulls
unfolding set_bit_at
length-set_bit_at [] n k = refl
length-set_bit_at (b ∷ nulls) zero k = refl
length-set_bit_at (b ∷ nulls) (suc n) k = ap suc (length-set_bit_at nulls n k)

pub is_null-set_null :
    (nulls : Bytes) (i j : ℕ)
    → i / 8 < length nulls
    → is_null (set_null nulls i) j ≡ ((i == j) || is_null nulls j)
is_null-set_null nulls i j h =
    ap (test_bit (j % 8)) (byte_at-set_bit_at nulls (i / 8) (i % 8) (j / 8) h)
    ∙ ground (arith, test_bit-set_bit (i % 8) (j % 8) (byte_at nulls (j / 8)))

pub length-zeros : (n : ℕ) → length (zeros n) ≡ n
unfolding zeros
length-zeros zero = refl
length-zeros (suc n) = ap suc (length-zeros n)

byte_at-zeros : (n m : ℕ) → byte_at (zeros n) m ≡ 0
unfolding zeros byte_at
byte_at-zeros zero m = refl
byte_at-zeros (suc n) zero = refl
byte_at-zeros (suc n) (suc m) = byte_at-zeros n m

test_bit-zero : (k : ℕ) → test_bit k 0 ≡ false
unfolding test_bit
test_bit-zero zero = refl
test_bit-zero (suc k) = test_bit-zero k

pub is_null-zeros : (n i : ℕ) → is_null (zeros n) i ≡ false
is_null-zeros n i = ap (test_bit (i % 8)) (byte_at-zeros n (i / 8)) ∙ test_bit-zero (i % 8)
