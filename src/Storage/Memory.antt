-- ===== src/Storage/Memory.antt =====
-- common/storage/memory.go: the store in memory, and that what it finds is what was named.
mod Examples
use repodb.Base.{
  ◌≡◌, ◌≢◌, refl, sym, ap, ◌∙◌, Bool, true, false, Option, none, some, List, [], ◌∷◌, if◌then◌else◌,
  arith, Option-cases, Bool-cases, inl, inr, ◌⊎◌,
}
use repodb.Bytes.{Bytes, equal_bytes, compare_bytes}
use repodb.Bytes.Order.{equal_bytes_refl, eq_of_compare}
use repodb.Bytes.Assoc.{Assoc, lookup, insert, lookup-insert}

-- `Memory`; locks and contexts are left out.
pub record Memory : Type 0 where
  pub objects : Assoc Bytes

-- `NewMemory`
abbrev pub new_memory : Memory
new_memory = record { objects = [] }

-- `Memory.Get`: `none` is `ErrNotFound`.
pub get : Memory → Bytes → Option Bytes
get m hash = lookup hash m.objects

abbrev pub insert_absent : Bytes → Bytes → Assoc Bytes → Option Bytes → Assoc Bytes
insert_absent hash bytes objects none = insert hash bytes objects
insert_absent hash bytes objects (some old) = objects

-- What stands at a hash once bytes were put under `name`.
abbrev pub or_put : Bytes → Bytes → Bytes → Option Bytes → Option Bytes
or_put name bytes hash none = if equal_bytes name hash then some bytes else none
or_put name bytes hash (some old) = some old

same_name : (a b : Bytes) → equal_bytes a b ≡ true → a ≡ b
same_name a b t = ground (arith, t, eq_of_compare a b)

or_put-kept :
    (name bytes hash : Bytes) (o : Option Bytes)
    → (equal_bytes name hash ≡ true → o ≢ none)
    → o ≡ or_put name bytes hash o
or_put-kept name bytes hash none h = elim (Bool-cases (equal_bytes name hash)) [
  | inl t ↦ absurd (h t refl)
  | inr f ↦ rw f refl
]
or_put-kept name bytes hash (some old) h = refl

or_put-new :
    (name bytes hash : Bytes) (o : Option Bytes)
    → equal_bytes name hash ≡ true
    → o ≡ none
    → some bytes ≡ or_put name bytes hash o
or_put-new name bytes hash o t e = rw (e, t) refl

module _ (sum : Bytes → Bytes) where
  -- `Memory.Put`: what is there already stays.
  pub put : Memory → Bytes → Bytes × Memory
  put m bytes = (
    sum bytes,
    record { objects = insert_absent (sum bytes) bytes m.objects (lookup (sum bytes) m.objects) },
  )

  -- Every object stands under its hash.
  abbrev pub IsNamed : Memory → Type 0
  IsNamed m = (hash bytes : Bytes) → get m hash ≡ some bytes → sum bytes ≡ hash

  get-put :
      (m : Memory) (bytes hash : Bytes)
      → get (put m bytes).1 hash ≡ or_put (sum bytes) bytes hash (get m hash)
  unfolding get put
  get-put m bytes hash = elim (Option-cases (lookup (sum bytes) m.objects)) [
    | inl e ↦
        rw (e, lookup-insert (sum bytes) hash bytes m.objects)
          (elim (Bool-cases (equal_bytes (sum bytes) hash)) [
            | inl t ↦ rw t (
                or_put-new (sum bytes) bytes hash (lookup hash m.objects) t
                  (ap (λ h. lookup h m.objects) (sym (same_name (sum bytes) hash t)) ∙ e))
            | inr f ↦ rw f (
                or_put-kept (sum bytes) bytes hash (lookup hash m.objects)
                  (λ t. ground (arith, f, t)))
          ])
    | inr (old, e) ↦ rw e (
        or_put-kept (sum bytes) bytes hash (lookup hash m.objects) (λ t q.
          none_is_not_some old
            (sym q ∙ ap (λ h. lookup h m.objects) (sym (same_name (sum bytes) hash t)) ∙ e)))
  ]
    where
      none_is_not_some : (old : Bytes) → none ≡ some old → ⊥
      none_is_not_some old q = cc

  named :
      (name bytes hash found : Bytes) (o : Option Bytes)
      → sum bytes ≡ name
      → ((b : Bytes) → o ≡ some b → sum b ≡ hash)
      → or_put name bytes hash o ≡ some found
      → sum found ≡ hash
  named name bytes hash found none e h q = elim (Bool-cases (equal_bytes name hash)) [
    | inl t ↦ sym (ap sum (some_injective bytes found (rw t at q))) ∙ e ∙ same_name name hash t
    | inr f ↦ absurd (none_is_not_some found (rw f at q))
  ]
    where
      some_injective : (a b : Bytes) → some a ≡ some b → a ≡ b
      some_injective a b q = cc

      none_is_not_some : (b : Bytes) → none ≡ some b → ⊥
      none_is_not_some b q = cc
  named name bytes hash found (some old) e h q = h found q

  -- In a store whose objects all stand under their hash, a `Put` answers the hash of its bytes, keeps
  -- every object that was there, adds nothing but its bytes under their hash, and leaves all objects
  -- under their hash.
  pub put_lem :
      (m : Memory) (bytes : Bytes)
      → IsNamed m
      → ((put m bytes).0 ≡ sum bytes)
        × ((hash : Bytes) → get (put m bytes).1 hash ≡ or_put (sum bytes) bytes hash (get m hash))
        × IsNamed (put m bytes).1
  put_lem m bytes h = (
    unfold put in refl,
    get-put m bytes,
    λ hash found q.
        named (sum bytes) bytes hash found (get m hash) refl (h hash)
          (sym (get-put m bytes hash) ∙ q),
  )
