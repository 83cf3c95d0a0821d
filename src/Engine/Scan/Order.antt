-- ===== src/Engine/Scan/Order.antt =====
-- The order of a scan's direction, and lists with keys in that order.
use repodb.Base.{
  some_ne_none, some, sym, ◌∙◌, Bool-cases, inl, inr, ◌≡◌, refl, Bool, true, false, none, [], ◌∷◌,
  arith, All,
}
use repodb.Bytes.{Bytes, equal_bytes}
use repodb.Bytes.Order.{compare_bytes_refl, eq_of_compare, lt_trans, gt_of_lt, lt_of_gt}
use repodb.Bytes.Assoc.{Assoc, lookup}
use repodb.Engine.Ranges.{before}

pub before_trans :
    (backwards : Bool) (a b c : Bytes)
    → before a b backwards ≡ true
    → before b c backwards ≡ true
    → before a c backwards ≡ true
before_trans true a b c h k = ground (arith, lt_trans c b a)
before_trans false a b c h k = ground (arith, lt_trans a b c)

pub before_differs :
    (backwards : Bool) (a b : Bytes) → before a b backwards ≡ true → equal_bytes a b ≡ false
before_differs true a b h = ground (arith, gt_of_lt b a)
before_differs false a b h = ground (arith)

pub before_swap :
    (backwards : Bool) (a b : Bytes)
    → before a b backwards ≡ false
    → equal_bytes a b ≡ false
    → before b a backwards ≡ true
before_swap true a b h k = ground (arith, lt_of_gt b a, eq_of_compare b a, compare_bytes_refl a)
before_swap false a b h k = ground (arith, lt_of_gt a b)

pub equal_bytes_sym : (a b : Bytes) → equal_bytes a b ≡ equal_bytes b a
equal_bytes_sym a b = ground (arith, eq_of_compare a b, eq_of_compare b a, compare_bytes_refl a)

pub same_key : (j k : Bytes) → equal_bytes j k ≡ true → j ≡ k
same_key j k h = ground (arith, eq_of_compare j k)

module _ {V : Type 0} (backwards : Bool) where
  -- All keys come later.
  abbrev pub AllLater : Bytes → Assoc V → Type 0
  AllLater k m = All (λ (x : Bytes × V). before k x.0 backwards ≡ true) m

  abbrev pub InOrder : Assoc V → Type 0
  InOrder [] = Unit {0}
  InOrder ((k, v) ∷ m) = AllLater k m × InOrder m

  pub AllLater-earlier :
      (j k : Bytes) (m : Assoc V) → before j k backwards ≡ true → AllLater k m → AllLater j m
  AllLater-earlier j k [] h t = tt
  AllLater-earlier j k ((i, v) ∷ m) h t =
      (before_trans backwards j k i h t.0, AllLater-earlier j k m h t.1)

  pub lookup-AllLater : (k : Bytes) (m : Assoc V) → AllLater k m → lookup k m ≡ none
  unfolding lookup
  lookup-AllLater k [] t = refl
  lookup-AllLater k ((i, v) ∷ m) t =
      ground (arith, before_differs backwards k i t.0, equal_bytes_sym i k, lookup-AllLater k m t.1)

pub lookup-same :
    {V : Type 0} (j k : Bytes) (v : V) (m : Assoc V)
    → equal_bytes j k ≡ true
    → lookup k ((j, v) ∷ m) ≡ some v
unfolding lookup
lookup-same j k v m h = rw h refl

pub lookup-other :
    {V : Type 0} (j k : Bytes) (v : V) (m : Assoc V)
    → equal_bytes j k ≡ false
    → lookup k ((j, v) ∷ m) ≡ lookup k m
unfolding lookup
lookup-other j k v m h = rw h refl

-- A key that is not there is not the first and not behind it.
pub lookup-none :
    {V : Type 0} (j k : Bytes) (v : V) (m : Assoc V)
    → lookup k ((j, v) ∷ m) ≡ none
    → (equal_bytes j k ≡ false) × (lookup k m ≡ none)
lookup-none j k v m h = elim (Bool-cases (equal_bytes j k)) [
  | inl same ↦ absurd (some_ne_none (sym (lookup-same j k v m same) ∙ h))
  | inr differ ↦ (differ, sym (lookup-other j k v m differ) ∙ h)
]
