-- ===== src/Bytes/Sorted.antt =====
-- Slices of items in strictly increasing key order, and the lookup in them by `sort.Search`, as the
-- program does it in pending runs, in tree leaves and in child links.
use repodb.Base.{
  ℕ, zero, suc, ◌≡◌, ◌≢◌, refl, Ordering, true, Option, none, some, List, [], ◌∷◌, arith,
  if◌then◌else◌, All,
}
use repodb.Base.Search.{search_list, first_index, Upward, search_list-first_index}
use repodb.Bytes.{Bytes, compare_bytes, equal_bytes, at_least}
use repodb.Bytes.Order.{eq_of_compare, lt_trans, gt_of_lt, lt_of_gt}

module _ {ℓ} {A : Type ℓ} (key : A → Bytes) where
  -- Every key is greater than `k`.
  abbrev pub Above : Bytes → List A → Type ℓ
  Above k [] = Unit
  Above k (x ∷ xs) = (compare_bytes k (key x) ≡ Ordering.lt) × Above k xs

  abbrev pub Sorted : List A → Type ℓ
  Sorted [] = Unit
  Sorted (x ∷ xs) = Above (key x) xs × Sorted xs

  -- The reference lookup: the first item with the key.
  unfoldable pub find : Bytes → List A → Option A
  find k [] = none
  find k (x ∷ xs) = if equal_bytes (key x) k then some x else find k xs

  -- `if i < len(xs) && bytes.Equal(xs[i].Key, k)`
  unfoldable pub check_at : Bytes → List A → ℕ → Option A
  check_at k [] i = none
  check_at k (x ∷ xs) zero = if equal_bytes (key x) k then some x else none
  check_at k (x ∷ xs) (suc i) = check_at k xs i

  -- `sort.Search(len(xs), func(i int) bool { return bytes.Compare(xs[i].Key, k) >= 0 })`
  abbrev pub lower_bound : Bytes → List A → ℕ
  lower_bound k xs = search_list (λ x. at_least (key x) k) xs

  pub Above-weaken :
      (k l : Bytes) (xs : List A) → compare_bytes k l ≢ Ordering.gt → Above l xs → Above k xs
  Above-weaken k l [] h a = tt
  Above-weaken k l (x ∷ xs) h a =
      (ground (arith, lt_trans k l (key x), eq_of_compare k l, a.0), Above-weaken k l xs h a.1)

  pub find-Above :
      (k l : Bytes) (xs : List A) → Above k xs → compare_bytes l k ≢ Ordering.gt → find l xs ≡ none
  unfolding find
  find-Above k l [] a h = refl
  find-Above k l (x ∷ xs) a h =
      ground (arith, find-Above k l xs, eq_of_compare (key x) l, gt_of_lt k l)

  -- On a sorted slice, the items from the lower bound on are those that are not below the key.
  at_least-All :
      (k l : Bytes) (xs : List A)
      → at_least l k ≡ true
      → Above l xs
      → All (λ y. at_least (key y) k ≡ true) xs
  at_least-All k l [] h a = tt
  at_least-All k l (x ∷ xs) h a =
      (ground (arith, lt_trans l (key x) k, a.0, h), at_least-All k l xs h a.1)

  at_least-Upward : (k : Bytes) (xs : List A) → Sorted xs → Upward (λ y. at_least (key y) k) xs
  at_least-Upward k [] s = tt
  at_least-Upward k (x ∷ xs) s = (λ e. at_least-All k (key x) xs e s.0, at_least-Upward k xs s.1)

  pub lower_bound-first_index :
      (k : Bytes) (xs : List A)
      → Sorted xs
      → lower_bound k xs ≡ first_index (λ x. at_least (key x) k) xs
  lower_bound-first_index k xs s = search_list-first_index _ xs (at_least-Upward k xs s)

  check_at-first_index :
      (k : Bytes) (xs : List A)
      → Sorted xs
      → check_at k xs (first_index (λ x. at_least (key x) k) xs) ≡ find k xs
  unfolding check_at find first_index
  check_at-first_index k [] s = refl
  check_at-first_index k (x ∷ xs) s =
      ground (arith, check_at-first_index k xs s.1, find-Above (key x) k xs s.0, lt_of_gt (key x) k)

  -- The binary search in a sorted slice finds what the linear scan finds.
  pub check_at-lower_bound :
      (k : Bytes) (xs : List A) → Sorted xs → check_at k xs (lower_bound k xs) ≡ find k xs
  check_at-lower_bound k xs s = rw (lower_bound-first_index k xs s) (check_at-first_index k xs s)
