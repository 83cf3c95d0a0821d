-- ===== src/Engine/MergeRows/Symmetry.antt =====
-- Two clones that merge with their roles of local and remote exchanged decide alike.
use repodb.Base.{◌≡◌, refl, ◌≢◌, ◌↔◌, true, Option, none, some, arith}
use repodb.Bytes.Order.{compare_bytes_refl, eq_of_compare}
use repodb.Engine.MergeRows.{
  Resolution, take_base, take_local, take_remote, take_delete, other, Cell, conflict, decide,
  same_value, resolve,
}

-- The same choice, seen from the other clone.
abbrev pub mirrored : Option Resolution → Option Resolution
mirrored none = none
mirrored (some take_base) = some take_base
mirrored (some take_local) = some take_remote
mirrored (some take_remote) = some take_local
mirrored (some take_delete) = some take_delete
mirrored (some (other text)) = some (other text)

pub eq_of_same : (a b : Cell) → same_value a b ≡ true → a ≡ b
unfolding same_value
eq_of_same none none h = refl
eq_of_same none (some b) h = cc
eq_of_same (some a) none h = cc
eq_of_same (some a) (some b) h = ground (arith, h, eq_of_compare a b)

same_refl : (a : Cell) → same_value a a ≡ true
unfolding same_value
same_refl none = refl
same_refl (some a) = ground (arith, compare_bytes_refl a)

pub same_of_eq : (a b : Cell) → a ≡ b → same_value a b ≡ true
same_of_eq a b e = rw e (same_refl b)

same_value_comm : (a b : Cell) → same_value a b ≡ same_value b a
unfolding same_value
same_value_comm none none = refl
same_value_comm none (some b) = refl
same_value_comm (some a) none = refl
same_value_comm (some a) (some b) =
    ground (arith, eq_of_compare a b, eq_of_compare b a, compare_bytes_refl a, compare_bytes_refl b)

resolve-mirrored :
    (o : Option Resolution) (b l r : Cell) → resolve (mirrored o) b r l ≡ resolve o b l r
resolve-mirrored none b l r = refl
resolve-mirrored (some take_base) b l r = refl
resolve-mirrored (some take_local) b l r = refl
resolve-mirrored (some take_remote) b l r = refl
resolve-mirrored (some take_delete) b l r = refl
resolve-mirrored (some (other text)) b l r = refl

-- With local and remote exchanged, and the resolution mirrored, every decision is the same: the two
-- clones take the same cell, or both report a conflict.
pub decide-mirrored :
    (o : Option Resolution) (b l r : Cell) → decide (mirrored o) b r l ≡ decide o b l r
unfolding decide
decide-mirrored o b l r = ground (
  arith,
  same_value_comm l r,
  eq_of_same l r,
  eq_of_same l b,
  eq_of_same r b,
  resolve-mirrored o b l r,
)

-- A key without a resolution is a conflict exactly when the two versions differ from each other and
-- both from the base.
pub decide-conflict :
    (b l r : Cell) → (decide none b l r ≡ conflict) ↔ ((l ≢ r) × (l ≢ b) × (r ≢ b))
unfolding decide
decide-conflict b l r = (differ, conflicts)
  where
    differ : decide none b l r ≡ conflict → (l ≢ r) × (l ≢ b) × (r ≢ b)
    differ h = (
      λ e. ground (arith, h, e, same_of_eq l r e),
      λ e. ground (arith, h, e, same_of_eq l b e),
      λ e. ground (arith, h, e, same_of_eq r b e),
    )

    conflicts : (l ≢ r) × (l ≢ b) × (r ≢ b) → decide none b l r ≡ conflict
    conflicts h = ground (arith, h.0, h.1, h.2, eq_of_same l r, eq_of_same l b, eq_of_same r b)
