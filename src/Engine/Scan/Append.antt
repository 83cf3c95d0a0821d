-- ===== src/Engine/Scan/Append.antt =====
-- Lists with keys in the order of a scan, one behind the other.
use repodb.Base.{
  some_ne_none, refl, ◌≡◌, sym, ◌∙◌, Bool, true, false, none, [], ◌∷◌, ◌++◌, All, Bool-cases, inl,
  inr,
}
use repodb.Bytes.{Bytes, equal_bytes}
use repodb.Bytes.Order.{equal_bytes_refl}
use repodb.Bytes.Assoc.{Assoc, lookup}
use repodb.Engine.Scan.Order.{AllLater, InOrder, lookup-same, lookup-other, lookup-none}
use repodb.Engine.Scan.Overlay.{or_else}

pub AllLater-append :
    {V : Type 0} (backwards : Bool) (a : Bytes) (xs ys : Assoc V)
    → AllLater backwards a xs
    → AllLater backwards a ys
    → AllLater backwards a (xs ++ ys)
AllLater-append backwards a [] ys t u = u
AllLater-append backwards a (x ∷ xs) ys t u = (t.0, AllLater-append backwards a xs ys t.1 u)

pub lookup-append :
    {V : Type 0} (k : Bytes) (xs ys : Assoc V)
    → lookup k (xs ++ ys) ≡ or_else (lookup k xs) (lookup k ys)
lookup-append k [] ys = unfold lookup in refl
lookup-append k ((j, v) ∷ xs) ys = elim (Bool-cases (equal_bytes j k)) [
  | inl same ↦ rw (lookup-same j k v xs same) (lookup-same j k v (xs ++ ys) same)
  | inr differ ↦
      rw (lookup-other j k v xs differ)
        (lookup-other j k v (xs ++ ys) differ ∙ lookup-append k xs ys)
]

pub InOrder-append :
    {V : Type 0} (backwards : Bool) (xs ys : Assoc V)
    → InOrder backwards xs
    → All (λ (x : Bytes × V). AllLater backwards x.0 ys) xs
    → InOrder backwards ys
    → InOrder backwards (xs ++ ys)
InOrder-append backwards [] ys s h t = t
InOrder-append backwards ((j, v) ∷ xs) ys s h t =
    (AllLater-append backwards j xs ys s.0 h.0, InOrder-append backwards xs ys s.1 h.1 t)

-- The keys of a list pass a test if no other key is found.
pub All-keys :
    {V : Type 0} (test : Bytes → Bool) (m : Assoc V)
    → ((k : Bytes) → test k ≡ false → lookup k m ≡ none)
    → All (λ (x : Bytes × V). test x.0 ≡ true) m
All-keys test [] h = tt
All-keys {V} test ((j, v) ∷ m) h = (
  elim (Bool-cases (test j)) [
    | inl passes ↦ passes
    | inr fails ↦ absurd (some_ne_none (sym (lookup-same j j v m (equal_bytes_refl j)) ∙ h j fails))
  ],
  All-keys test m (λ k fails. (lookup-none j k v m (h k fails)).1),
)
