-- ===== src/Engine/KeyCodec/Escape.antt =====
-- Escaped strings are ordered like the strings and delimit themselves; the end of a prefix.
use repodb.Base.{
  ℕ, ◌+◌, ◌<◌, ◌≡◌, refl, Bool, true, false, Option, none, some, [], ◌∷◌, ◌++◌, append_assoc, arith,
  All, Option-cases, Bool-cases, inl, inr, ◌&&◌, ◌==◌,
}
use repodb.Bytes.{Bytes, compare_bytes, at_least, below}
use repodb.Bytes.Order.{compare_bytes-append}
use repodb.Bytes.Compare.{then_compare}
use repodb.Engine.KeyCodec.{escape, append_escaped, key_prefix_end}

abbrev terminated : Bytes → Bytes → Bytes
terminated b x = escape b ++ (0x00 ∷ 0x01 ∷ x)

compare-terminated :
    (a b x y : Bytes)
    → compare_bytes (terminated a x) (terminated b y)
      ≡ then_compare (compare_bytes a b) (compare_bytes x y)
unfolding escape compare_bytes
compare-terminated [] [] x y = refl
compare-terminated [] (d ∷ b) x y = ground arith
compare-terminated (c ∷ a) [] x y = ground arith
compare-terminated (c ∷ a) (d ∷ b) x y = ground (arith, compare-terminated a b x y)

append_escaped-terminated : (dst b x : Bytes) → append_escaped dst b ++ x ≡ dst ++ terminated b x
unfolding append_escaped
append_escaped-terminated dst b x = simp append_assoc

-- Behind any common key columns, two escaped strings compare like the strings, and if these are
-- equal like whatever follows: the encoding keeps the order and delimits itself.
pub compare-append_escaped :
    (dst a b x y : Bytes)
    → compare_bytes (append_escaped dst a ++ x) (append_escaped dst b ++ y)
      ≡ then_compare (compare_bytes a b) (compare_bytes x y)
compare-append_escaped dst a b x y =
    rw
      (
        append_escaped-terminated dst a x,
        append_escaped-terminated dst b y,
        compare_bytes-append dst (terminated a x) (terminated b y),
      )
      (compare-terminated a b x y)

abbrev pub has_prefix : Bytes → Bytes → Bool
has_prefix [] k = true
has_prefix (x ∷ prefix) [] = false
has_prefix (x ∷ prefix) (y ∷ k) = (x == y) && has_prefix prefix k

abbrev pub IsByte : ℕ → Type 0
IsByte c = c < 256

-- The keys before the end, or all where there is no end.
abbrev pub before_end : Option Bytes → Bytes → Bool
before_end none k = true
before_end (some end) k = below k end

at_least_nil : (k : Bytes) → at_least k [] ≡ true
unfolding compare_bytes
at_least_nil [] = refl
at_least_nil (y ∷ k) = refl

not_below_nil : (k : Bytes) → below k [] ≡ false
unfolding compare_bytes
not_below_nil [] = refl
not_below_nil (y ∷ k) = refl

-- One byte more in front, in the three cases of `keyPrefixEnd`.
module _ (x y : ℕ) (prefix k : Bytes) where
  cons_some :
      (end : Bytes)
      → (at_least k prefix && below k end) ≡ has_prefix prefix k
      → (at_least (y ∷ k) (x ∷ prefix) && below (y ∷ k) (x ∷ end)) ≡ has_prefix (x ∷ prefix) (y ∷ k)
  unfolding compare_bytes
  cons_some end h = ground arith

  cons_raised :
      (at_least k prefix && true) ≡ has_prefix prefix k
      → (at_least (y ∷ k) (x ∷ prefix) && below (y ∷ k) ((x + 1) ∷ []))
        ≡ has_prefix (x ∷ prefix) (y ∷ k)
  unfolding compare_bytes
  cons_raised h = ground (arith, not_below_nil k)

  cons_none :
      y < 256
      → x ≡ 255
      → (at_least k prefix && true) ≡ has_prefix prefix k
      → (at_least (y ∷ k) (x ∷ prefix) && true) ≡ has_prefix (x ∷ prefix) (y ∷ k)
  unfolding compare_bytes
  cons_none h e r = ground arith

-- For byte strings, the keys from a prefix on and before `keyPrefixEnd` of it are exactly the keys
-- that start with it; where `keyPrefixEnd` is nil, there is no upper bound.
pub key_prefix_end_lem :
    (prefix k : Bytes)
    → All IsByte prefix
    → All IsByte k
    → (at_least k prefix && before_end (key_prefix_end prefix) k) ≡ has_prefix prefix k
unfolding key_prefix_end
key_prefix_end_lem [] k hp hk = rw (at_least_nil k)
key_prefix_end_lem (x ∷ prefix) [] hp hk = unfold compare_bytes in refl
key_prefix_end_lem (x ∷ prefix) (y ∷ k) hp hk = elim (Option-cases (key_prefix_end prefix)) [
  | inr (end, e) ↦
      rw (key_prefix_end, e)
        (cons_some x y prefix k end (rw e at (key_prefix_end_lem prefix k hp.1 hk.1)))
  | inl e ↦ elim (Bool-cases (x == 0xFF)) [
    | inl t ↦
        rw (key_prefix_end, e, t)
          (cons_none x y prefix k hk.0 (ground arith)
            (rw e at (key_prefix_end_lem prefix k hp.1 hk.1)))
    | inr t ↦
        rw (key_prefix_end, e, t)
          (cons_raised x y prefix k (rw e at (key_prefix_end_lem prefix k hp.1 hk.1)))
  ]
]
