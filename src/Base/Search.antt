-- ===== src/Base/Search.antt =====
-- Go's `sort.Search`: the binary search that the program uses on sorted slices, with the linear
-- scan that it agrees with.
use repodb.Base.{
  ℕ, zero, suc, ◌+◌, ◌/◌, ◌≤◌, ◌<◌, ◌≡◌, refl, ap, Bool, true, false, List, [], ◌∷◌, arith, ltb,
  ltb→lt, if◌then◌else◌, length, All, Bool-cases, inl, inr,
}

-- `for i < j { h := (i + j) / 2; if !f(h) { i = h + 1 } else { j = h } }`; the interval shrinks in
-- each round, so its length is enough fuel.
search_loop : ℕ → (ℕ → Bool) → ℕ → ℕ → ℕ
search_loop zero f i j = i
search_loop (suc fuel) f i j =
    let h = (i + j) / 2 in
    elim (ltb i j) [
      | true ↦ elim (f h) [ true ↦ search_loop fuel f i h | false ↦ search_loop fuel f (suc h) j ]
      | false ↦ i
    ]

unfoldable pub search : ℕ → (ℕ → Bool) → ℕ
unfolding search_loop
search n f = search_loop n f 0 n

-- `r` splits the indices below `n` into those that fail `f` and those that pass.
record Splits (n : ℕ) (f : ℕ → Bool) (r : ℕ) : Type 0 where
  bound : r ≤ n
  fails : (k : ℕ) → k < r → f k ≡ false
  passes : (k : ℕ) → r ≤ k → k < n → f k ≡ true

module _ (n : ℕ) (f : ℕ → Bool) (up : (i j : ℕ) → i ≤ j → j < n → f i ≡ true → f j ≡ true) where
  low_fails : (h k : ℕ) → h < n → f h ≡ false → k < suc h → f k ≡ false
  low_fails h k hn e lt = elim (Bool-cases (f k)) [
    | inl t ↦ ground (arith, up k h (omega arith) hn t)
    | inr e' ↦ e'
  ]

  search_loop-Splits :
      (fuel i j : ℕ)
      → i ≤ j
      → j ≤ n
      → j ≤ i + fuel
      → ((k : ℕ) → k < i → f k ≡ false)
      → ((k : ℕ) → j ≤ k → k < n → f k ≡ true)
      → Splits n f (search_loop fuel f i j)
  unfolding search_loop
  search_loop-Splits zero i j ij jn jf lo hi = record {
    bound = omega arith;
    fails = lo;
    passes = λ k h. hi k (omega arith);
  }
  search_loop-Splits (suc fuel) i j ij jn jf lo hi = elim (Bool-cases (ltb i j)) [
    | inl t ↦ elim (Bool-cases (f ((i + j) / 2))) [
      | inl p ↦
          rw (t, p, search_loop)
            (search_loop-Splits fuel i ((i + j) / 2) (omega arith) (mid_le t) (mid_fuel t) lo
              (λ k h kn. up ((i + j) / 2) k h kn p))
      | inr p ↦
          rw (t, p, search_loop)
            (search_loop-Splits fuel (suc ((i + j) / 2)) j (mid_lt t) jn (omega arith)
              (λ k h. low_fails ((i + j) / 2) k (mid_in t) p h) hi)
    ]
    | inr e ↦
        rw (e, search_loop)
          (record { bound = omega arith; fails = lo; passes = λ k h. hi k (ground arith) })
  ]
    where
      mid_lt : ltb i j ≡ true → (i + j) / 2 < j
      mid_lt t = let lt = ltb→lt i j t in omega arith

      mid_le : ltb i j ≡ true → (i + j) / 2 ≤ n
      mid_le t = omega (arith, mid_lt t)

      mid_in : ltb i j ≡ true → (i + j) / 2 < n
      mid_in t = omega (arith, mid_lt t)

      mid_fuel : ltb i j ≡ true → (i + j) / 2 ≤ i + fuel
      mid_fuel t = omega (arith, mid_lt t)

  search-Splits : Splits n f (search n f)
  unfolding search
  search-Splits =
      search_loop-Splits n 0 n (omega arith) (omega arith) (omega arith) (λ k h. elim h [ ])
        (λ k h kn. absurd (omega arith))

module _ {ℓ} {A : Type ℓ} where
  -- `f` of `sort.Search` at an index of a slice; an index out of range is never asked for.
  abbrev pub at_index : (A → Bool) → List A → ℕ → Bool
  at_index p [] i = true
  at_index p (x ∷ xs) zero = p x
  at_index p (x ∷ xs) (suc i) = at_index p xs i

  -- `sort.Search(len(xs), func(i int) bool { return p(xs[i]) })`
  unfoldable pub search_list : (A → Bool) → List A → ℕ
  search_list p xs = search (length xs) (at_index p xs)

  -- The first index whose element passes, by a linear scan.
  unfoldable pub first_index : (A → Bool) → List A → ℕ
  first_index p [] = 0
  first_index p (x ∷ xs) = if p x then 0 else suc (first_index p xs)

  -- What passes is followed only by what passes.
  abbrev pub Upward : (A → Bool) → List A → Type ℓ
  Upward p [] = Unit
  Upward p (x ∷ xs) = (p x ≡ true → All (λ y. p y ≡ true) xs) × Upward p xs

module _ {ℓ} {A : Type ℓ} where
  at_index-All :
      (p : A → Bool) (xs : List A) (i : ℕ) → All (λ y. p y ≡ true) xs → at_index p xs i ≡ true
  at_index-All p [] i h = refl
  at_index-All p (x ∷ xs) zero h = h.0
  at_index-All p (x ∷ xs) (suc i) h = at_index-All p xs i h.1

  at_index-Upward :
      (p : A → Bool) (xs : List A)
      → Upward p xs
      → (i j : ℕ) → i ≤ j
      → j < length xs
      → at_index p xs i ≡ true
      → at_index p xs j ≡ true
  at_index-Upward p [] u i j h k e = refl
  at_index-Upward p (x ∷ xs) u zero zero h k e = e
  at_index-Upward p (x ∷ xs) u zero (suc j) h k e = at_index-All p xs j (u.0 e)
  at_index-Upward p (x ∷ xs) u (suc i) zero h k e = absurd (omega arith)
  at_index-Upward p (x ∷ xs) u (suc i) (suc j) h k e =
      at_index-Upward p xs u.1 i j (omega arith) (omega arith) e

  -- The first index is the only one that splits.
  Splits-first_index :
      (p : A → Bool) (xs : List A) (r : ℕ)
      → Splits (length xs) (at_index p xs) r
      → r ≡ first_index p xs
  unfolding first_index
  Splits-first_index p [] r s = omega (arith, s.bound)
  Splits-first_index p (x ∷ xs) zero s = rw (s.passes 0 (omega arith) (omega arith))
  Splits-first_index p (x ∷ xs) (suc r) s = rw (s.fails 0 (omega arith)) (
      ap suc (
        Splits-first_index p xs r (record {
          bound = omega (arith, s.bound);
          fails = λ k h. s.fails (suc k) (omega arith);
          passes = λ k h l. s.passes (suc k) (omega arith) (omega arith);
        })))

  -- On a list that passes upward, the binary search finds the first index that passes.
  pub search_list-first_index :
      (p : A → Bool) (xs : List A) → Upward p xs → search_list p xs ≡ first_index p xs
  unfolding search_list
  search_list-first_index p xs u =
      Splits-first_index p xs _ (search-Splits (length xs) (at_index p xs) (at_index-Upward p xs u))
