-- ===== src/Prolly/Tree/Upper.antt =====
-- The levels above the leaves: each has fewer links, so the loop of `Build` ends.
use repodb.Base.{
  ℕ, zero, suc, ◌+◌, ◌%◌, ◌≤◌, ◌<◌, ◌≡◌, ◌≢◌, refl, ap, true, Option, none, some, List, [], ◌∷◌,
  arith, length, Bool-cases, inl, inr,
}
use repodb.Bytes.{Bytes}
use repodb.Prolly.{Entry}
use repodb.Prolly.Codec.{Link}
use repodb.Prolly.Chunk.{Options, validate, chunk}
use repodb.Prolly.Chunk.Sizes.{chunk-fewer}
use repodb.Prolly.Tree.{
  Outcome, success, failure, stuck, write_failed, TreeError, bind, write_node, put_bytes,
  write_leaf, write_inner, write_all, build_levels, build_from_leaf_links, build_sorted, build,
  sort_entries, has_duplicate, link_boundary_hash, entry_boundary_hash, leaf_node,
}

-- It does not run out of fuel, and what it returns has the property.
data Ends {A : Type 0} (P : A → Type 0) : Outcome A → Type 0 where
  fails : {e : TreeError} → e ≢ stuck → Ends P (failure e)
  returns : {a : A} → P a → Ends P (success a)

Ends-bind :
    {A B : Type 0} (P : A → Type 0) (Q : B → Type 0) (m : Outcome A) (f : A → Outcome B)
    → Ends P m
    → ((a : A) → P a → Ends Q (f a))
    → Ends Q (bind m f)
Ends-bind P Q (failure e) f (fails h) k = fails h
Ends-bind P Q (success a) f (returns h) k = k a h

abbrev Any : {A : Type 0} → A → Type 0
Any a = Unit

failure_injective :
    {A : Type 0} (e e' : TreeError) → ◌≡◌ {A = Outcome A} (failure e) (failure e') → e ≡ e'
failure_injective e e' q = cc

not_stuck : {A : Type 0} (P : A → Type 0) (m : Outcome A) → Ends P m → m ≢ failure stuck
not_stuck P (failure e) (fails h) q = h (failure_injective e stuck q)
not_stuck P (success a) h q = cc

module _ (put : Bytes → Option Bytes) where
  put_bytes-Ends : (b : Option Bytes) → Ends Any (put_bytes put b)
  put_bytes-Ends none = fails (λ q. cc)
  put_bytes-Ends (some b) = by_answer (put b)
    where
      by_answer :
          (a : Option Bytes)
          → Ends Any
              (elim a as (λ _. Outcome Bytes) [ none ↦ failure write_failed | some h ↦ success h ])
      by_answer none = fails (λ q. cc)
      by_answer (some h) = returns tt

  write_all-Ends :
      {A : Type 0} (write : List A → Outcome Link) (groups : List (List A))
      → ((g : List A) → Ends Any (write g))
      → Ends (λ links. length links ≡ length groups) (write_all put write groups)
  unfolding write_all
  write_all-Ends write [] h = returns refl
  write_all-Ends write (g ∷ groups) h = Ends-bind Any _ (write g) _ (h g) (λ l u.
      Ends-bind _ _ (write_all put write groups) _ (write_all-Ends write groups h)
        (λ links e. returns (ap suc e)))

  write_inner-Ends : (level : ℕ) (g : List Link) → Ends Any (write_inner put level g)
  unfolding write_inner write_node
  write_inner-Ends level g =
      Ends-bind Any Any (write_node put (record { level = level; entries = []; children = g })) _
        (put_bytes-Ends _) (λ h u. returns tt)

  write_leaf-Ends : (g : List Entry) → Ends Any (write_leaf put g)
  unfolding write_leaf write_node
  write_leaf-Ends g =
      Ends-bind Any Any (write_node put (leaf_node g)) _ (put_bytes-Ends _) (λ h u. returns tt)

  module _ (o : Options) (valid : validate o ≡ true) (two : 2 ≤ o.min_chunk_entries) where
    build_levels-Ends :
        (fuel level : ℕ) (links : List Link)
        → length links < fuel
        → Ends Any (build_levels put o fuel level links)
    unfolding build_levels
    build_levels-Ends zero level links h = absurd (omega arith)
    build_levels-Ends (suc fuel) level [] h = fails (λ q. cc)
    build_levels-Ends (suc fuel) level (l ∷ []) h = returns tt
    build_levels-Ends (suc fuel) level (l ∷ l' ∷ links) h =
        Ends-bind _ Any
          (write_all put (write_inner put level) (chunk o link_boundary_hash (l ∷ l' ∷ links))) _
          (write_all-Ends (write_inner put level) _ (write_inner-Ends level))
          (λ next e. build_levels-Ends fuel ((level + 1) % 256) next (
            omega (
              arith,
              e,
              chunk-fewer o link_boundary_hash valid (l ∷ l' ∷ links) two (omega arith),
            )))

    build_sorted-Ends : (items : List Entry) → Ends Any (build_sorted put o items)
    unfolding build_sorted write_node build_from_leaf_links
    build_sorted-Ends [] = put_bytes-Ends _
    build_sorted-Ends (e ∷ items) =
        Ends-bind _ Any (write_all put (write_leaf put) (chunk o entry_boundary_hash (e ∷ items))) _
          (write_all-Ends (write_leaf put) _ write_leaf-Ends)
          (λ leaves h. build_levels-Ends (suc (length leaves)) 1 leaves (omega arith))

    -- For valid options with a minimum of at least two entries, `Build` ends on every list of entries:
    -- its loop over the levels does not run out of fuel, whatever the store answers.
    pub build-ends : (entries : List Entry) → build put o entries ≢ failure stuck
    unfolding build
    build-ends entries = not_stuck Any _ ends
      where
        ends : Ends Any (build put o entries)
        ends = elim (Bool-cases (has_duplicate (sort_entries entries))) [
          | inl t ↦ rw (build, valid, t) (fails (λ q. cc))
          | inr f ↦ rw (build, valid, f) (build_sorted-Ends (sort_entries entries))
        ]
