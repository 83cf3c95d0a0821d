-- ===== src/Prolly/Chunk/Groups.antt =====
-- The groups of a chunking: they make up the items, and are chunkings again from every group on.
use repodb.Base.{
  ℕ, zero, suc, ◌≤◌, ◌<◌, ◌≡◌, refl, ap, ◌∙◌, Bool, List, [], ◌∷◌, ◌++◌, append_assoc, arith,
  length, length-append, take, drop, All, Bool-cases, inl, inr,
}
use repodb.Prolly.Chunk.{Options, should_cut, chunk_from}

abbrev pub concat {ℓ} : {A : Type ℓ} → List (List A) → List A
concat [] = []
concat (g ∷ groups) = g ++ concat groups

-- A list with a head is not `g ∷ groups` unless both parts are equal.
cons_parts : {A : Type 0} (x y : A) (xs ys : List A) → x ∷ xs ≡ y ∷ ys → (y ≡ x) × (ys ≡ xs)
cons_parts x y xs ys e = (cc, cc)

module _ {A : Type 0} (o : Options) (hash : A → ℕ) where
  abbrev cuts : List A → A → Bool
  cuts group x = should_cut (length (group ++ x ∷ [])) (hash x) o

  -- Nothing is lost, added or moved.
  pub concat-chunk_from : (group xs : List A) → concat (chunk_from o hash group xs) ≡ group ++ xs
  unfolding chunk_from
  concat-chunk_from [] [] = refl
  concat-chunk_from (y ∷ group) [] = refl
  concat-chunk_from group (x ∷ xs) = elim (Bool-cases (cuts group x)) [
    | inl t ↦ rw (chunk_from, t, concat-chunk_from [] xs, append_assoc)
    | inr f ↦ rw (chunk_from, f, concat-chunk_from (group ++ x ∷ []) xs, append_assoc)
  ]

  -- What follows the first group is a chunking on its own.
  pub chunk_from-tail :
      (group xs g : List A) (groups : List (List A))
      → chunk_from o hash group xs ≡ g ∷ groups
      → chunk_from o hash [] (concat groups) ≡ groups
  unfolding chunk_from
  chunk_from-tail [] [] g groups e = cc
  chunk_from-tail (y ∷ group) [] g groups e = rw (cons_parts _ _ _ _ e).1 refl
  chunk_from-tail group (x ∷ xs) g groups e = elim (Bool-cases (cuts group x)) [
    | inl t ↦
        let (_, e') =
          cons_parts (group ++ x ∷ []) g (chunk_from o hash [] xs) groups
            (rw (chunk_from, t) at e) in
        rw (e', concat-chunk_from [] xs) refl
    | inr f ↦ chunk_from-tail (group ++ x ∷ []) xs g groups (rw (chunk_from, f) at e)
  ]

  -- A group that another follows is closed: whatever items follow it, it stays a group, and these
  -- are chunked on their own.
  pub chunk_from-closed :
      (group xs g h : List A) (groups : List (List A)) (later : List A)
      → chunk_from o hash group xs ≡ g ∷ h ∷ groups
      → (d : List A) × (g ≡ group ++ d)
        × (chunk_from o hash group (d ++ later) ≡ g ∷ chunk_from o hash [] later)
  unfolding chunk_from
  chunk_from-closed [] [] g h groups later e = cc
  chunk_from-closed (y ∷ group) [] g h groups later e = cc
  chunk_from-closed group (x ∷ xs) g h groups later e = elim (Bool-cases (cuts group x)) [
    | inl t ↦
        let (e', _) = cons_parts (group ++ x ∷ []) g _ (h ∷ groups) (rw (chunk_from, t) at e) in
        (x ∷ [], e', rw (chunk_from, t, e') refl)
    | inr f ↦
        let (d, eg, closed) =
          chunk_from-closed (group ++ x ∷ []) xs g h groups later (rw (chunk_from, f) at e) in
        (x ∷ d, eg ∙ append_assoc group (x ∷ []) d, rw (chunk_from, f) closed)
  ]

  -- No group is empty.
  pub chunk_from-NonEmpty :
      (group xs : List A) → All (λ g. 1 ≤ length g) (chunk_from o hash group xs)
  unfolding chunk_from
  chunk_from-NonEmpty [] [] = tt
  chunk_from-NonEmpty (y ∷ group) [] = (omega arith, tt)
  chunk_from-NonEmpty group (x ∷ xs) = elim (Bool-cases (cuts group x)) [
    | inl t ↦
        rw (chunk_from, t) (omega (arith, length-append group (x ∷ [])), chunk_from-NonEmpty [] xs)
    | inr f ↦ rw (chunk_from, f) (chunk_from-NonEmpty (group ++ x ∷ []) xs)
  ]

  abbrev pub IsChunked : List (List A) → Type 0
  IsChunked groups = chunk_from o hash [] (concat groups) ≡ groups

  pub IsChunked-drop :
      (i : ℕ) (groups : List (List A)) → IsChunked groups → IsChunked (drop i groups)
  IsChunked-drop zero groups h = h
  IsChunked-drop (suc i) [] h = h
  IsChunked-drop (suc i) (g ∷ groups) h =
      IsChunked-drop i groups (chunk_from-tail [] (concat (g ∷ groups)) g groups h)

  -- The groups before the last stay what they are, whatever follows them.
  pub chunk-take :
      (i : ℕ) (groups : List (List A)) (later : List A)
      → IsChunked groups
      → i < length groups
      → chunk_from o hash [] (concat (take i groups) ++ later)
        ≡ take i groups ++ chunk_from o hash [] later
  chunk-take zero groups later h l = refl
  chunk-take (suc i) [] later h l = absurd (omega arith)
  chunk-take (suc i) (g ∷ []) later h l = absurd (omega arith)
  chunk-take (suc i) (g ∷ h' ∷ groups) later h l =
      let behind = concat (take i (h' ∷ groups)) ++ later in
      let (d, eg, closed) = chunk_from-closed [] (concat (g ∷ h' ∷ groups)) g h' groups behind h in
      let rest =
        chunk-take i (h' ∷ groups) later
          (chunk_from-tail [] (concat (g ∷ h' ∷ groups)) g (h' ∷ groups) h) (omega arith) in
      ap (chunk_from o hash []) (append_assoc g (concat (take i (h' ∷ groups))) later)
      ∙ ap (λ x. chunk_from o hash [] (x ++ behind)) eg
      ∙ closed
      ∙ ap (λ x. g ∷ x) rest
