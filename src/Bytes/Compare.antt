-- ===== src/Bytes/Compare.antt =====
-- Comparison of concatenations: the first difference decides.
use repodb.Base.{◌≡◌, refl, Ordering, [], ◌∷◌, ◌++◌, arith, length}
use repodb.Bytes.{Bytes, compare_bytes}

-- The first comparison decides unless it is equal.
abbrev pub then_compare : Ordering → Ordering → Ordering
then_compare Ordering.lt o = Ordering.lt
then_compare Ordering.eq o = o
then_compare Ordering.gt o = Ordering.gt

pub compare-append_same_length :
    (a b x y : Bytes)
    → length a ≡ length b
    → compare_bytes (a ++ x) (b ++ y) ≡ then_compare (compare_bytes a b) (compare_bytes x y)
unfolding compare_bytes
compare-append_same_length [] [] x y h = refl
compare-append_same_length [] (c ∷ b) x y h = absurd (omega (arith, h))
compare-append_same_length (c ∷ a) [] x y h = absurd (omega (arith, h))
compare-append_same_length (c ∷ a) (d ∷ b) x y h =
    ground (arith, compare-append_same_length a b x y)
