-- ===== src/Engine/RowCodec/Projection/Positions.antt =====
-- Positions of a slice whose values may be absent.
use repodb.Base.{
  ℕ, zero, suc, ◌<◌, ◌≡◌, refl, ap, false, Option, none, some, List, [], ◌∷◌, ◌==◌, arith, length,
  Bool-cases, ◌⊎◌, inl, inr,
}
use repodb.Engine.RowCodec.Projection.{value_at, set_value, blanks}

module _ {A : Type 0} where
  pub length-set_value :
      (xs : List (Option A)) (n : ℕ) (v : Option A) → length (set_value xs n v) ≡ length xs
  unfolding set_value
  length-set_value [] n v = refl
  length-set_value (x ∷ xs) zero v = refl
  length-set_value (x ∷ xs) (suc n) v = ap suc (length-set_value xs n v)

  pub value_at-set_value_self :
      (xs : List (Option A)) (n : ℕ) (v : Option A)
      → n < length xs
      → value_at (set_value xs n v) n ≡ v
  unfolding set_value value_at
  value_at-set_value_self [] n v h = absurd (omega arith)
  value_at-set_value_self (x ∷ xs) zero v h = refl
  value_at-set_value_self (x ∷ xs) (suc n) v h = value_at-set_value_self xs n v (omega arith)

  pub value_at-set_value_other :
      (xs : List (Option A)) (n m : ℕ) (v : Option A)
      → (n == m) ≡ false
      → value_at (set_value xs n v) m ≡ value_at xs m
  unfolding set_value value_at
  value_at-set_value_other [] n m v h = refl
  value_at-set_value_other (x ∷ xs) zero zero v h = absurd (ground arith)
  value_at-set_value_other (x ∷ xs) zero (suc m) v h = refl
  value_at-set_value_other (x ∷ xs) (suc n) zero v h = refl
  value_at-set_value_other (x ∷ xs) (suc n) (suc m) v h =
      value_at-set_value_other xs n m v (ground arith)

  pub value_at-blanks : (n m : ℕ) → value_at (blanks {A = A} n) m ≡ none
  unfolding blanks value_at
  value_at-blanks zero m = refl
  value_at-blanks (suc n) zero = refl
  value_at-blanks (suc n) (suc m) = value_at-blanks n m

pub length-blanks : (A : Type 0) (n : ℕ) → length (blanks {A = A} n) ≡ n
unfolding blanks
length-blanks A zero = refl
length-blanks A (suc n) = ap suc (length-blanks A n)

pub same_or_not : (a b : ℕ) → (a ≡ b) ⊎ ((a == b) ≡ false)
same_or_not a b = elim (Bool-cases (a == b)) [ inl e ↦ inl (ground arith) | inr e ↦ inr e ]

pub none-ne-some : {A : Type 0} {a : A} → none ≡ some a → ⊥
none-ne-some h = absurd (ground (arith, h))

pub some_eq : {a b : ℕ} → some a ≡ some b → a ≡ b
some_eq h = cc
