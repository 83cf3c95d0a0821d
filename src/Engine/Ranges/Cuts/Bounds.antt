-- ===== src/Engine/Ranges/Cuts/Bounds.antt =====
-- Where a key stands to the keys that a cut is made of, and to the end of a prefix.
use repodb.Base.{
  ◌≡◌, ◌≢◌, refl, sym, ap, ◌∙◌, Ordering, Bool, true, false, some, [], ◌∷◌, ◌++◌, append-nil, not,
  arith, All, Bool-cases, Option-cases, inl, inr,
}
use repodb.Bytes.{Bytes, compare_bytes, below, at_least}
use repodb.Bytes.Order.{compare_bytes_refl, eq_of_compare, lt_trans, Ordering-cases}
use repodb.Bytes.Compare.{then_compare}
use repodb.Engine.KeyCodec.{key_prefix_end}
use repodb.Engine.KeyCodec.Escape.{has_prefix, IsByte, before_end, key_prefix_end_lem}

abbrev pub is_lt : Ordering → Bool
is_lt Ordering.lt = true
is_lt Ordering.eq = false
is_lt Ordering.gt = false

abbrev pub is_gt : Ordering → Bool
is_gt Ordering.lt = false
is_gt Ordering.eq = false
is_gt Ordering.gt = true

pub has_prefix-append : (p x : Bytes) → has_prefix p (p ++ x) ≡ true
has_prefix-append [] x = refl
has_prefix-append (c ∷ p) x = ground (arith, has_prefix-append p x)

-- What starts with a longer prefix starts with its front.
pub has_prefix-front : (p e k : Bytes) → has_prefix (p ++ e) k ≡ true → has_prefix p k ≡ true
has_prefix-front [] e k h = refl
has_prefix-front (c ∷ p) e [] h = absurd (ground (arith, h))
has_prefix-front (c ∷ p) e (d ∷ k) h = ground (arith, has_prefix-front p e k)

pub rest_of_prefix : (p k : Bytes) → has_prefix p k ≡ true → (z : Bytes) × (k ≡ p ++ z)
rest_of_prefix [] k h = (k, refl)
rest_of_prefix (c ∷ p) [] h = absurd (ground (arith, h))
rest_of_prefix (c ∷ p) (d ∷ k) h =
    let (z, e) = rest_of_prefix p k (ground (arith, h)) in
    let same : d ≡ c = ground (arith, h) in (z, rw (same, e) refl)

-- No key is below its own front.
pub compare-append_front : (p x : Bytes) → compare_bytes (p ++ x) p ≢ Ordering.lt
unfolding compare_bytes
compare-append_front [] [] h = absurd (ground (arith, h))
compare-append_front [] (c ∷ x) h = absurd (ground (arith, h))
compare-append_front (c ∷ p) x h = compare-append_front p x (ground (arith, h))

-- A prefix of bytes is before its end.
pub before_end-prefix :
    (p k : Bytes)
    → All IsByte p
    → All IsByte k
    → has_prefix p k ≡ true
    → before_end (key_prefix_end p) k ≡ true
before_end-prefix p k hp hk h = ground (arith, key_prefix_end_lem p k hp hk)

at_least_of_prefix :
    (p k : Bytes) → All IsByte p → All IsByte k → has_prefix p k ≡ true → at_least k p ≡ true
at_least_of_prefix p k hp hk h = ground (arith, key_prefix_end_lem p k hp hk)

below_trans : (a b c : Bytes) → below a b ≡ true → below b c ≡ true → below a c ≡ true
below_trans a b c h k = ground (arith, lt_trans a b c)

-- So is what is below it.
pub before_end-below :
    (p k : Bytes) → All IsByte p → below k p ≡ true → before_end (key_prefix_end p) k ≡ true
before_end-below p k hp h = elim (Option-cases (key_prefix_end p)) [
  | inl e ↦ rw e refl
  | inr (end, e) ↦ rw e (
      below_trans k p end h (
        rw e at (
          before_end-prefix p p hp hp
            (ap (has_prefix p) (sym (append-nil p)) ∙ has_prefix-append p []))))
]

-- Let the keys that start with `a` compare to those that start with `b` by `o`, and then by the rest.
module _ (a b : Bytes) (o : Ordering)
    (order : (x y : Bytes)
      → compare_bytes (a ++ x) (b ++ y) ≡ then_compare o (compare_bytes x y)) where
  compare_key : (x : Bytes) → compare_bytes (a ++ x) b ≡ then_compare o (compare_bytes x [])
  compare_key x = ap (compare_bytes (a ++ x)) (sym (append-nil b)) ∙ order x []

  not_below_nil : (x : Bytes) → compare_bytes x [] ≢ Ordering.lt
  not_below_nil x h = compare-append_front [] x h

  pub at_least-key : (x : Bytes) → at_least (a ++ x) b ≡ not (is_lt o)
  at_least-key x = ground (arith, compare_key x, not_below_nil x)

  pub below-key : (x : Bytes) → below (a ++ x) b ≡ is_lt o
  below-key x = ground (arith, compare_key x, not_below_nil x)

  pub same_keys : o ≡ Ordering.eq → a ≡ b
  same_keys e = eq_of_compare a b (
      ap (λ c. compare_bytes c b) (sym (append-nil a))
      ∙ compare_key []
      ∙ rw e (unfold compare_bytes in refl))

  pub prefix-key : (x : Bytes) → o ≢ Ordering.eq → has_prefix b (a ++ x) ≡ false
  prefix-key x h = elim (Bool-cases (has_prefix b (a ++ x))) [
    | inr f ↦ f
    | inl t ↦
        let (z, e) = rest_of_prefix b (a ++ x) t in
        let same : then_compare o (compare_bytes x z) ≡ Ordering.eq =
          sym (order x z) ∙ ap (λ c. compare_bytes c (b ++ z)) e ∙ compare_bytes_refl (b ++ z) in
        absurd (differs o (compare_bytes x z) h same)
  ]
    where
      differs : (p q : Ordering) → p ≢ Ordering.eq → then_compare p q ≡ Ordering.eq → ⊥
      differs Ordering.lt q h e = absurd (ground (arith, e))
      differs Ordering.eq q h e = h refl
      differs Ordering.gt q h e = absurd (ground (arith, e))

  pub before_end-key :
      (x : Bytes)
      → All IsByte b
      → All IsByte (a ++ x)
      → before_end (key_prefix_end b) (a ++ x) ≡ not (is_gt o)
  before_end-key x hb hx = elim (Ordering-cases o) [
    | inl lt ↦ rw lt (before_end-below b (a ++ x) hb (below-key x ∙ rw lt refl))
    | inr (inl eq) ↦
        rw eq (before_end-prefix b (a ++ x) hb hx (rw (same_keys eq) (has_prefix-append b x)))
    | inr (inr gt) ↦
        rw gt (
          outside (at_least-key x ∙ rw gt refl)
            (prefix-key x (λ e. absurd (ground (arith, gt, e)))))
  ]
    where
      outside :
          at_least (a ++ x) b ≡ true
          → has_prefix b (a ++ x) ≡ false
          → before_end (key_prefix_end b) (a ++ x) ≡ false
      outside h k = ground (arith, key_prefix_end_lem b (a ++ x) hb hx)

  pub at_least-end :
      (x s : Bytes)
      → All IsByte b
      → All IsByte (a ++ x)
      → key_prefix_end b ≡ some s
      → at_least (a ++ x) s ≡ is_gt o
  at_least-end x s hb hx e =
      let h : below (a ++ x) s ≡ not (is_gt o) =
        ap (λ end. before_end end (a ++ x)) (sym e) ∙ before_end-key x hb hx in
      ground (arith, h)
