-- ===== src/Engine/Scan/Keys/Reverse.antt =====
-- The sorted keys of a map in the order of a scan.
use repodb.Base.{
  ◌≡◌, refl, sym, ap, ◌∙◌, Bool, true, false, Option, none, some, [], ◌∷◌, All, Bool-cases, inl,
  inr,
}
use mathlib.Core.List.{reverse_aux}
use repodb.Bytes.{Bytes, equal_bytes}
use repodb.Bytes.Assoc.{Assoc, lookup}
use repodb.Engine.Ranges.{KeyInterval}
use repodb.Engine.Scan.{sorted_keys, sorted_overlay_keys}
use repodb.Engine.Scan.Order.{same_key, AllLater, InOrder, lookup-AllLater}
use repodb.Engine.Scan.Overlay.{or_else}
use repodb.Engine.Scan.Order.{lookup-same, lookup-other}
use repodb.Engine.Scan.Keys.{
  IsMap, only_in, found_as, keyed, lookup-sorted_keys, sorted_keys-InOrder, keyed-reverse_aux,
}

module _ {W : Type 0} where
  lookup-reverse_aux :
      (k : Bytes) (xs ys : Assoc W)
      → InOrder false xs
      → lookup k (reverse_aux xs ys) ≡ or_else (lookup k xs) (lookup k ys)
  lookup-reverse_aux k [] ys t = unfold lookup in refl
  lookup-reverse_aux k ((i, v) ∷ xs) ys t =
      lookup-reverse_aux k xs ((i, v) ∷ ys) t.1 ∙ elim (Bool-cases (equal_bytes i k)) [
        | inl same ↦
            rw
              (
                lookup-same i k v xs same,
                lookup-same i k v ys same,
                ap (λ a. lookup a xs) (sym (same_key i k same)) ∙ lookup-AllLater false i xs t.0,
              )
              refl
        | inr differ ↦ rw (lookup-other i k v xs differ, lookup-other i k v ys differ) refl
      ]

  -- What comes first comes last the other way around.
  reverse_aux-InOrder :
      (xs ys : Assoc W)
      → InOrder false xs
      → All (λ (x : Bytes × W). AllLater true x.0 ys) xs
      → InOrder true ys
      → InOrder true (reverse_aux xs ys)
  reverse_aux-InOrder [] ys t u s = s
  reverse_aux-InOrder ((i, v) ∷ xs) ys t u s =
      reverse_aux-InOrder xs ((i, v) ∷ ys) t.1 (behind xs t.0 u.1) (u.0, s)
    where
      behind :
          (zs : Assoc W)
          → AllLater false i zs
          → All (λ (x : Bytes × W). AllLater true x.0 ys) zs
          → All (λ (x : Bytes × W). AllLater true x.0 ((i, v) ∷ ys)) zs
      behind [] p q = tt
      behind ((j, w) ∷ zs) p q = ((p.0, q.0), behind zs p.1 q.1)

  nothing_behind : (xs : Assoc W) → All (λ (x : Bytes × W). AllLater {V = W} true x.0 []) xs
  nothing_behind [] = tt
  nothing_behind (x ∷ xs) = (tt, nothing_behind xs)

module _ {V W : Type 0} (f : Bytes → W) (m : Assoc V) (iv : KeyInterval) (distinct : IsMap m) where
  pub sorted_overlay_keys-InOrder :
      (backwards : Bool) → InOrder backwards (keyed f (sorted_overlay_keys m iv backwards))
  sorted_overlay_keys-InOrder false = sorted_keys-InOrder f m iv distinct
  sorted_overlay_keys-InOrder true = rw (keyed-reverse_aux f (sorted_keys m iv) []) (
      reverse_aux-InOrder (keyed f (sorted_keys m iv)) [] (sorted_keys-InOrder f m iv distinct)
        (nothing_behind (keyed f (sorted_keys m iv))) tt)

  pub lookup-sorted_overlay_keys :
      (backwards : Bool) (k : Bytes)
      → lookup k (keyed f (sorted_overlay_keys m iv backwards))
        ≡ only_in iv k (found_as (f k) (lookup k m))
  lookup-sorted_overlay_keys false k = lookup-sorted_keys f m iv k
  lookup-sorted_overlay_keys true k =
      ap (lookup k) (keyed-reverse_aux f (sorted_keys m iv) [])
      ∙ lookup-reverse_aux k (keyed f (sorted_keys m iv)) [] (sorted_keys-InOrder f m iv distinct)
      ∙ or_none (lookup k (keyed f (sorted_keys m iv)))
      ∙ lookup-sorted_keys f m iv k
    where
      or_none : (o : Option W) → or_else o (lookup k []) ≡ o
      or_none none = unfold lookup in refl
      or_none (some w) = refl
