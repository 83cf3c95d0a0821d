-- ===== src/Bytes/Extensional.antt =====
-- Sorted slices are determined by what is found in them.
use repodb.Base.{
  ◌≡◌, ◌≢◌, refl, sym, ap₂, ◌∙◌, some_injective, Ordering, false, some, none, List, [], ◌∷◌, arith,
  Bool-cases, inl, inr,
}
use repodb.Bytes.{Bytes, compare_bytes, equal_bytes}
use repodb.Bytes.Order.{compare_bytes_refl, equal_bytes_refl, eq_of_compare, lt_of_gt}
use repodb.Bytes.Sorted.{Above, Sorted, find, find-Above, Above-weaken}

module _ {ℓ} {A : Type ℓ} (key : A → Bytes) where
  find-first : (x : A) (xs : List A) → find key (key x) (x ∷ xs) ≡ some x
  unfolding find
  find-first x xs = rw (equal_bytes_refl (key x)) refl

  find-none : (k : Bytes) (xs : List A) → Above key k xs → find key k xs ≡ none
  find-none k xs a = find-Above key k k xs a (λ h. cc (h, compare_bytes_refl k))

  -- The first key of a list is not below that of another in which the same is found.
  first_not_below :
      (x y : A) (xs ys : List A)
      → Sorted key (y ∷ ys)
      → find key (key x) (x ∷ xs) ≡ find key (key x) (y ∷ ys)
      → compare_bytes (key x) (key y) ≢ Ordering.lt
  first_not_below x y xs ys s e lt = cc (
    find-first x xs,
    e,
    find-none (key x) (y ∷ ys) (lt, Above-weaken key (key x) (key y) ys (λ h. cc (h, lt)) s.0),
  )

  module _ (x y : A) (xs ys : List A) (s : Sorted key (x ∷ xs)) (t : Sorted key (y ∷ ys))
      (h : (k : Bytes) → find key k (x ∷ xs) ≡ find key k (y ∷ ys)) where
    same_key : key x ≡ key y
    same_key = eq_of_compare (key x) (key y) (
        ground (
          arith,
          first_not_below x y xs ys t (h (key x)),
          first_not_below y x ys xs s (sym (h (key y))),
          lt_of_gt (key x) (key y),
        ))

    same_first : x ≡ y
    same_first = some_injective (sym (find-first x xs) ∙ h (key x) ∙ rw same_key (find-first y ys))

    same_later : (k : Bytes) → find key k xs ≡ find key k ys
    unfolding find
    same_later k = elim (Bool-cases (equal_bytes (key x) k)) [
      | inl e ↦
          let q : key x ≡ k = eq_of_compare (key x) k (ground (arith, e)) in
          rw q at (find-none (key x) xs s.0)
          ∙ sym (rw (sym same_key, q) at (find-none (key y) ys t.0))
      | inr e ↦ let f : equal_bytes (key y) k ≡ false = rw (sym same_key) e in rw (e, f) at (h k)
    ]

  pub find_injective :
      (xs ys : List A)
      → Sorted key xs
      → Sorted key ys
      → ((k : Bytes) → find key k xs ≡ find key k ys)
      → xs ≡ ys
  unfolding find
  find_injective [] [] s t h = refl
  find_injective [] (y ∷ ys) s t h = absurd (cc (h (key y), find-first y ys))
  find_injective (x ∷ xs) [] s t h = absurd (cc (h (key x), find-first x xs))
  find_injective (x ∷ xs) (y ∷ ys) s t h =
      ap₂ (λ z zs. z ∷ zs) (same_first x y xs ys s t h)
        (find_injective xs ys s.1 t.1 (same_later x y xs ys s t h))
