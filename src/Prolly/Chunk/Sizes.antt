-- ===== src/Prolly/Chunk/Sizes.antt =====
-- The sizes of the groups, and how many there are.
use repodb.Base.{
  ℕ, ◌+◌, ◌*◌, ◌≤◌, ◌<◌, ◌≡◌, ap, true, false, List, [], ◌∷◌, ◌++◌, arith, length, length-append,
  Bool-cases, inl, inr,
}
use repodb.Prolly.Chunk.{Options, validate, should_cut, chunk_from, chunk}
use repodb.Prolly.Chunk.Groups.{concat, concat-chunk_from}

-- Every group has an item and at most the maximum; only the last may have less than the minimum.
abbrev pub IsSized : {A : Type 0} → Options → List (List A) → Type 0
IsSized o [] = Unit
IsSized o (g ∷ []) = (1 ≤ length g) × (length g ≤ o.max_chunk_entries)
IsSized o (g ∷ h ∷ groups) =
    ((o.min_chunk_entries ≤ length g) × (length g ≤ o.max_chunk_entries)) × IsSized o (h ∷ groups)

module _ {A : Type 0} (o : Options) (hash : A → ℕ) (valid : validate o ≡ true) where
  cut_bound : (n h : ℕ) → should_cut n h o ≡ true → o.min_chunk_entries ≤ n
  unfolding should_cut validate
  cut_bound n h t = ground (arith, valid)

  uncut_bound : (n h : ℕ) → should_cut n h o ≡ false → n < o.max_chunk_entries
  unfolding should_cut
  uncut_bound n h f = ground arith

  bounds : (1 ≤ o.min_chunk_entries) × (2 ≤ o.max_chunk_entries)
  unfolding validate
  bounds = ground (arith, valid)

  cons-IsSized :
      (g : List A) (groups : List (List A))
      → (o.min_chunk_entries ≤ length g) × (length g ≤ o.max_chunk_entries)
      → IsSized o groups
      → IsSized o (g ∷ groups)
  cons-IsSized g [] h s = (omega (arith, h.0, bounds.0), h.1)
  cons-IsSized g (g' ∷ groups) h s = (h, s)

  chunk_from-IsSized :
      (group xs : List A)
      → length group < o.max_chunk_entries
      → IsSized o (chunk_from o hash group xs)
  unfolding chunk_from
  chunk_from-IsSized [] [] h = tt
  chunk_from-IsSized (x ∷ group) [] h = (omega arith, omega arith)
  chunk_from-IsSized group (x ∷ xs) h =
      elim (Bool-cases (should_cut (length (group ++ x ∷ [])) (hash x) o)) [
        | inl t ↦
            rw (chunk_from, t)
              (cons-IsSized (group ++ x ∷ []) _
                (cut_bound _ _ t, omega (arith, length-append group (x ∷ [])))
                (chunk_from-IsSized [] xs (omega (arith, bounds.1))))
        | inr f ↦ rw (chunk_from, f) (chunk_from-IsSized (group ++ x ∷ []) xs (uncut_bound _ _ f))
      ]

  few_groups :
      (groups : List (List A))
      → 2 ≤ o.min_chunk_entries
      → IsSized o groups
      → 2 * length groups ≤ length (concat groups) + 1
  few_groups [] m s = omega arith
  few_groups (g ∷ []) m s = omega (arith, length-append g [], s.0)
  few_groups (g ∷ h ∷ groups) m s =
      omega (arith, few_groups (h ∷ groups) m s.1, length-append g (concat (h ∷ groups)), s.0.0)

  -- With a minimum of two, chunking two items or more leaves fewer groups than items.
  pub chunk-fewer :
      (xs : List A) → 2 ≤ o.min_chunk_entries → 2 ≤ length xs → length (chunk o hash xs) < length xs
  chunk-fewer xs m l = omega (
    arith,
    few_groups (chunk o hash xs) m (chunk_from-IsSized [] xs (omega (arith, bounds.1))),
    ap length (concat-chunk_from o hash [] xs),
  )

  -- For valid options, the groups of a chunking make up the items in order; every group has between
  -- one and `max_chunk_entries` items, and all but the last have `min_chunk_entries` at least.
  pub chunk_lem : (xs : List A) → (concat (chunk o hash xs) ≡ xs) × IsSized o (chunk o hash xs)
  chunk_lem xs =
      (concat-chunk_from o hash [] xs, chunk_from-IsSized [] xs (omega (arith, bounds.1)))
