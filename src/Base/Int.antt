-- ===== src/Base/Int.antt =====
-- Signed integers over the native numbers: what an `int64` bit pattern stands for.
use repodb.Base.{ℕ, ◌-◌, ◌^◌, compare, Ordering, ltb, if◌then◌else◌}

-- `negsuc n` is -(n + 1).
pub data ℤ : Type 0 where
  pos : ℕ → ℤ
  negsuc : ℕ → ℤ

abbrev pub compare_ints : ℤ → ℤ → Ordering
compare_ints (pos a) (pos b) = compare a b
compare_ints (pos a) (negsuc b) = Ordering.gt
compare_ints (negsuc a) (pos b) = Ordering.lt
compare_ints (negsuc a) (negsuc b) = compare b a

-- The integer of a 64-bit two's complement pattern.
abbrev pub signed64 : ℕ → ℤ
signed64 w = if ltb w (2 ^ 63) then pos w else negsuc (2 ^ 64 - w - 1)
