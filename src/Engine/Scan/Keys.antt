-- ===== src/Engine/Scan/Keys.antt =====
-- The sorted keys of a map in an interval.
pub mod Reverse
use repodb.Base.{
  some_ne_none, ◌≡◌, refl, sym, ap, ◌∙◌, Bool, true, false, Option, none, some, List, [], ◌∷◌,
  arith, All, if◌then◌else◌, Bool-cases, inl, inr, map,
}
use mathlib.Core.List.{reverse_aux}
use repodb.Bytes.{Bytes, equal_bytes, below}
use repodb.Bytes.Assoc.{Assoc, lookup}
use repodb.Engine.Ranges.{KeyInterval, contains}
use repodb.Engine.Scan.{insert_key, sorted_keys, sorted_overlay_keys}
use repodb.Engine.Scan.Order.{
  before_swap, same_key, AllLater, InOrder, AllLater-earlier, lookup-AllLater,
}
use repodb.Engine.Scan.Order.{lookup-same, lookup-other, lookup-none}
use repodb.Engine.Scan.Overlay.{or_else}

-- A Go map has a key once.
abbrev pub IsMap : {V : Type 0} → Assoc V → Type 0
IsMap [] = Unit {0}
IsMap ((k, v) ∷ m) = (lookup k m ≡ none) × IsMap m

abbrev pub only_in : {V : Type 0} → KeyInterval → Bytes → Option V → Option V
only_in iv k o = if contains iv k then o else none

abbrev pub found_as : {A B : Type 0} → B → Option A → Option B
found_as b none = none
found_as b (some a) = some b

module _ {W : Type 0} (f : Bytes → W) where
  abbrev pub keyed : List Bytes → Assoc W
  keyed keys = map (λ k. (k, f k)) keys

  lookup-insert_key :
      (j k : Bytes) (keys : List Bytes)
      → lookup k (keyed (insert_key j keys))
        ≡ (if equal_bytes j k then some (f k) else lookup k (keyed keys))
  unfolding insert_key lookup
  lookup-insert_key j k [] = elim (Bool-cases (equal_bytes j k)) [
    | inl same ↦ rw (same, same_key j k same) refl
    | inr differ ↦ rw differ refl
  ]
  lookup-insert_key j k (i ∷ keys) = elim (Bool-cases (below i j)) [
    | inl later ↦
        rw (later, insert_key)
          (ap (λ o. if equal_bytes i k then some (f i) else o) (lookup-insert_key j k keys)
            ∙ swap (lookup k (keyed keys)))
    | inr first ↦ rw (first, insert_key) (own (lookup k (keyed (i ∷ keys))))
  ]
    where
      own :
          (o : Option W)
          → (if equal_bytes j k then some (f j) else o)
            ≡ (if equal_bytes j k then some (f k) else o)
      own o = elim (Bool-cases (equal_bytes j k)) [
        | inl same ↦ rw same (ap (λ a. some (f a)) (same_key j k same))
        | inr differ ↦ rw differ refl
      ]

      swap :
          (o : Option W)
          → (if equal_bytes i k then some (f i) else (if equal_bytes j k then some (f k) else o))
            ≡ (if equal_bytes j k then some (f k) else (if equal_bytes i k then some (f i) else o))
      swap o = elim (Bool-cases (equal_bytes i k)) [
        | inl same ↦ rw same (elim (Bool-cases (equal_bytes j k)) [
          | inl both ↦ rw both (ap (λ a. some (f a)) (same_key i k same))
          | inr one ↦ rw one refl
        ])
        | inr differ ↦ rw differ refl
      ]

  sorted_keys_step :
      {V : Type 0} (j k : Bytes) (v : V) (m : Assoc V) (iv : KeyInterval)
      → lookup k (keyed (sorted_keys ((j, v) ∷ m) iv)) ≡ (
          if contains iv j
          then (if equal_bytes j k then some (f k) else lookup k (keyed (sorted_keys m iv)))
          else lookup k (keyed (sorted_keys m iv)))
  unfolding sorted_keys
  sorted_keys_step j k v m iv = elim (Bool-cases (contains iv j)) [
    | inl inside ↦ rw (inside, sorted_keys) (lookup-insert_key j k (sorted_keys m iv))
    | inr outside ↦ rw (outside, sorted_keys) refl
  ]

  -- The keys in the interval that the map has.
  pub lookup-sorted_keys :
      {V : Type 0} (m : Assoc V) (iv : KeyInterval) (k : Bytes)
      → lookup k (keyed (sorted_keys m iv)) ≡ only_in iv k (found_as (f k) (lookup k m))
  unfolding sorted_keys
  lookup-sorted_keys [] iv k = unfold lookup in nothing (contains iv k)
    where
      nothing : (b : Bool) → ◌≡◌ {A = Option W} none (if b then none else none)
      nothing true = refl
      nothing false = refl
  lookup-sorted_keys ((j, v) ∷ m) iv k =
      sorted_keys_step j k v m iv ∙ elim (Bool-cases (equal_bytes j k)) [
        | inl same ↦
            rw
              (
                same,
                lookup-same j k v m same,
                lookup-sorted_keys m iv k,
                ap (contains iv) (same_key j k same),
              )
              (first (contains iv k) (found_as (f k) (lookup k m)))
        | inr differ ↦
            rw (differ, lookup-other j k v m differ, lookup-sorted_keys m iv k)
              (either (contains iv j) (only_in iv k (found_as (f k) (lookup k m))))
      ]
    where
      first :
          (b : Bool) (o : Option W)
          → (if b then some (f k) else (if b then o else none)) ≡ (if b then some (f k) else none)
      first true o = refl
      first false o = refl

      either : (b : Bool) (o : Option W) → (if b then o else o) ≡ o
      either true o = refl
      either false o = refl

  insert_key-AllLater :
      (i j : Bytes) (keys : List Bytes)
      → below i j ≡ true
      → AllLater false i (keyed keys)
      → AllLater false i (keyed (insert_key j keys))
  unfolding insert_key
  insert_key-AllLater i j [] h t = (h, tt)
  insert_key-AllLater i j (k ∷ keys) h t = elim (Bool-cases (below k j)) [
    | inl later ↦ rw (later, insert_key) (t.0, insert_key-AllLater i j keys h t.1)
    | inr first ↦ rw (first, insert_key) (h, t)
  ]

  insert_key-InOrder :
      (j : Bytes) (keys : List Bytes)
      → lookup j (keyed keys) ≡ none
      → InOrder false (keyed keys)
      → InOrder false (keyed (insert_key j keys))
  unfolding insert_key
  insert_key-InOrder j [] h t = (tt, tt)
  insert_key-InOrder j (k ∷ keys) h t = elim (Bool-cases (below k j)) [
    | inl later ↦
        rw (later, insert_key)
          (insert_key-AllLater k j keys later t.0, insert_key-InOrder j keys (behind_none h) t.1)
    | inr first ↦
        let order = before_swap false k j first (differs h) in
        rw (first, insert_key) ((order, AllLater-earlier false j k (keyed keys) order t.0), t)
  ]
    where
      behind_none : lookup j (keyed (k ∷ keys)) ≡ none → lookup j (keyed keys) ≡ none
      behind_none h = (lookup-none k j (f k) (keyed keys) h).1

      differs : lookup j (keyed (k ∷ keys)) ≡ none → equal_bytes k j ≡ false
      differs h = (lookup-none k j (f k) (keyed keys) h).0

  pub sorted_keys-InOrder :
      {V : Type 0} (m : Assoc V) (iv : KeyInterval)
      → IsMap m
      → InOrder false (keyed (sorted_keys m iv))
  unfolding sorted_keys
  sorted_keys-InOrder [] iv h = tt
  sorted_keys-InOrder ((j, v) ∷ m) iv (new, h) = elim (Bool-cases (contains iv j)) [
    | inl inside ↦
        rw (inside, sorted_keys)
          (insert_key-InOrder j (sorted_keys m iv)
            (lookup-sorted_keys m iv j ∙ rw (new, inside) refl) (sorted_keys-InOrder m iv h))
    | inr outside ↦ rw (outside, sorted_keys) (sorted_keys-InOrder m iv h)
  ]

  pub keyed-reverse_aux :
      (keys done : List Bytes)
      → keyed (reverse_aux keys done) ≡ reverse_aux (keyed keys) (keyed done)
  keyed-reverse_aux [] done = refl
  keyed-reverse_aux (k ∷ keys) done = keyed-reverse_aux keys (k ∷ done)
