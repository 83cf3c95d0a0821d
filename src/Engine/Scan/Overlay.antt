-- ===== src/Engine/Scan/Overlay.antt =====
-- Two lists in the order of a scan, the first over the second.
use repodb.Base.{
  ◌≡◌, refl, sym, ap, ◌∙◌, Bool, true, Option, none, some, [], ◌∷◌, if◌then◌else◌, Bool-cases, inl,
  inr,
}
use repodb.Bytes.{Bytes, equal_bytes}
use repodb.Bytes.Assoc.{Assoc, lookup}
use repodb.Engine.Ranges.{before}
use repodb.Engine.Scan.Order.{
  before_swap, equal_bytes_sym, same_key, AllLater, InOrder, AllLater-earlier, lookup-AllLater,
}

abbrev pub or_else : {V : Type 0} → Option V → Option V → Option V
or_else none o = o
or_else (some v) o = some v

module _ {V : Type 0} (backwards : Bool) where
  -- On equal keys the first list wins.
  unfoldable pub overlaid : Assoc V → Assoc V → Assoc V
  overlaid [] ys = ys
  overlaid (x ∷ xs) [] = x ∷ xs
  overlaid (x ∷ xs) (y ∷ ys) =
      let second = overlaid (x ∷ xs) ys in
      let first = overlaid xs (if equal_bytes x.0 y.0 then ys else y ∷ ys) in
      if before y.0 x.0 backwards then y ∷ second else x ∷ first

  pub overlaid-nil : (xs : Assoc V) → overlaid xs [] ≡ xs
  unfolding overlaid
  overlaid-nil [] = refl
  overlaid-nil (x ∷ xs) = refl

  AllLater-same :
      (j k : Bytes) (m : Assoc V)
      → equal_bytes j k ≡ true
      → AllLater backwards k m
      → AllLater backwards j m
  AllLater-same j k m h t = rw (same_key j k h) t

  overlaid-AllLater :
      (k : Bytes) (xs ys : Assoc V)
      → AllLater backwards k xs
      → AllLater backwards k ys
      → AllLater backwards k (overlaid xs ys)
  unfolding overlaid
  overlaid-AllLater k [] ys t u = u
  overlaid-AllLater k (x ∷ xs) [] t u = t
  overlaid-AllLater k ((i, v) ∷ xs) ((j, w) ∷ ys) t u = elim (Bool-cases (before j i backwards)) [
    | inl second ↦ rw (second, overlaid) (u.0, overlaid-AllLater k ((i, v) ∷ xs) ys t u.1)
    | inr first ↦ elim (Bool-cases (equal_bytes i j)) [
      | inl same ↦ rw (first, same, overlaid) (t.0, overlaid-AllLater k xs ys t.1 u.1)
      | inr differ ↦ rw (first, differ, overlaid) (t.0, overlaid-AllLater k xs ((j, w) ∷ ys) t.1 u)
    ]
  ]

  -- The result is in order too.
  pub overlaid-InOrder :
      (xs ys : Assoc V)
      → InOrder backwards xs
      → InOrder backwards ys
      → InOrder backwards (overlaid xs ys)
  unfolding overlaid
  overlaid-InOrder [] ys s t = t
  overlaid-InOrder (x ∷ xs) [] s t = s
  overlaid-InOrder ((i, v) ∷ xs) ((j, w) ∷ ys) s t = elim (Bool-cases (before j i backwards)) [
    | inl second ↦
        rw (second, overlaid)
          (
            overlaid-AllLater j ((i, v) ∷ xs) ys
                (second, AllLater-earlier backwards j i xs second s.0) t.0,
            overlaid-InOrder ((i, v) ∷ xs) ys s t.1,
          )
    | inr first ↦ elim (Bool-cases (equal_bytes i j)) [
      | inl same ↦
          rw (first, same, overlaid)
            (
              overlaid-AllLater i xs ys s.0 (AllLater-same i j ys same t.0),
              overlaid-InOrder xs ys s.1 t.1,
            )
      | inr differ ↦
          let order = before_swap backwards j i first (equal_bytes_sym j i ∙ differ) in
          rw (first, differ, overlaid)
            (
              overlaid-AllLater i xs ((j, w) ∷ ys) s.0
                  (order, AllLater-earlier backwards i j ys order t.0),
              overlaid-InOrder xs ((j, w) ∷ ys) s.1 t,
            )
    ]
  ]

  found_first :
      (i k : Bytes) (v : V) (o p : Option V)
      → (if equal_bytes i k then some v else or_else o p)
        ≡ or_else (if equal_bytes i k then some v else o) p
  found_first i k v o p = elim (Bool-cases (equal_bytes i k)) [
    | inl h ↦ rw h refl
    | inr h ↦ rw h refl
  ]

  found_second :
      (j k : Bytes) (w : V) (o p : Option V)
      → (equal_bytes j k ≡ true → o ≡ none)
      → (if equal_bytes j k then some w else or_else o p)
        ≡ or_else o (if equal_bytes j k then some w else p)
  found_second j k w o p h = elim (Bool-cases (equal_bytes j k)) [
    | inl same ↦ rw (same, h same) refl
    | inr differ ↦ rw differ refl
  ]

  found_same :
      (i j k : Bytes) (v w : V) (o p : Option V)
      → equal_bytes i j ≡ true
      → or_else (if equal_bytes i k then some v else o) p
        ≡ or_else (if equal_bytes i k then some v else o) (if equal_bytes j k then some w else p)
  found_same i j k v w o p h = rw (sym (same_key i j h)) (elim (Bool-cases (equal_bytes i k)) [
    | inl same ↦ rw same refl
    | inr differ ↦ rw differ refl
  ])

  -- A key has the first list's value, or else the second's.
  pub lookup-overlaid :
      (k : Bytes) (xs ys : Assoc V)
      → InOrder backwards xs
      → InOrder backwards ys
      → lookup k (overlaid xs ys) ≡ or_else (lookup k xs) (lookup k ys)
  unfolding overlaid lookup
  lookup-overlaid k [] ys s t = refl
  lookup-overlaid k ((i, v) ∷ xs) [] s t = or_none (lookup k ((i, v) ∷ xs))
    where
      or_none : (o : Option V) → o ≡ or_else o none
      or_none none = refl
      or_none (some v) = refl
  lookup-overlaid k ((i, v) ∷ xs) ((j, w) ∷ ys) s t = elim (Bool-cases (before j i backwards)) [
    | inl second ↦
        rw (second, overlaid)
          (ap (λ o. if equal_bytes j k then some w else o)
              (lookup-overlaid k ((i, v) ∷ xs) ys s t.1)
            ∙ found_second j k w (lookup k ((i, v) ∷ xs)) (lookup k ys) (λ same.
              ap (λ a. lookup a ((i, v) ∷ xs)) (sym (same_key j k same))
              ∙ lookup-AllLater backwards j ((i, v) ∷ xs)
                  (second, AllLater-earlier backwards j i xs second s.0)))
    | inr first ↦ elim (Bool-cases (equal_bytes i j)) [
      | inl same ↦
          rw (first, same, overlaid)
            (ap (λ o. if equal_bytes i k then some v else o) (lookup-overlaid k xs ys s.1 t.1)
              ∙ found_first i k v (lookup k xs) (lookup k ys)
              ∙ found_same i j k v w (lookup k xs) (lookup k ys) same)
      | inr differ ↦
          rw (first, differ, overlaid)
            (ap (λ o. if equal_bytes i k then some v else o)
                (lookup-overlaid k xs ((j, w) ∷ ys) s.1 t)
              ∙ found_first i k v (lookup k xs) (lookup k ((j, w) ∷ ys)))
    ]
  ]
