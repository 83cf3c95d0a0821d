-- ===== src/Bytes.antt =====
-- Byte strings of Go: a `[]byte` is a list of numbers, `bytes.Compare` is the lexicographic order.
pub mod Order
pub mod Sorted
pub mod Extensional
pub mod Assoc
pub mod BigEndian
pub mod Compare
use repodb.Base.{ℕ, compare, Ordering, List, [], ◌∷◌, Bool, true, false}

abbrev pub Bytes : Type 0
Bytes = List ℕ

-- `bytes.Compare`: -1, 0 and +1 are `lt`, `eq` and `gt`.
unfoldable pub compare_bytes : Bytes → Bytes → Ordering
compare_bytes [] [] = Ordering.eq
compare_bytes [] (y ∷ ys) = Ordering.lt
compare_bytes (x ∷ xs) [] = Ordering.gt
compare_bytes (x ∷ xs) (y ∷ ys) = elim (compare x y) [
  | Ordering.lt ↦ Ordering.lt
  | Ordering.eq ↦ compare_bytes xs ys
  | Ordering.gt ↦ Ordering.gt
]

-- `bytes.Equal(a, b)`
abbrev pub equal_bytes : Bytes → Bytes → Bool
equal_bytes a b = elim (compare_bytes a b) [ Ordering.eq ↦ true | _ ↦ false ]

-- `bytes.Compare(a, b) < 0`
abbrev pub below : Bytes → Bytes → Bool
below a b = elim (compare_bytes a b) [ Ordering.lt ↦ true | _ ↦ false ]

-- `bytes.Compare(a, b) >= 0`
abbrev pub at_least : Bytes → Bytes → Bool
at_least a b = elim (compare_bytes a b) [ Ordering.lt ↦ false | _ ↦ true ]
