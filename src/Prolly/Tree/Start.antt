-- ===== src/Prolly/Tree/Start.antt =====
-- Where `Apply` starts: edits that passed the checks, and the entries before the first of them.
use repodb.Base.{
  ℕ, zero, suc, ◌≤◌, ◌<◌, ◌≡◌, refl, ap, ◌∙◌, Ordering, Bool, false, Option, none, some, List, [],
  ◌∷◌, ◌++◌, append_assoc, if◌then◌else◌, arith, length, take, drop, All, Bool-cases, inl, inr,
}
use repodb.Base.Search.{first_index}
use repodb.Bytes.{Bytes, compare_bytes, at_least}
use repodb.Bytes.Sorted.{Above, Sorted, Above-weaken}
use repodb.Prolly.{Entry, Edit}
use repodb.Prolly.Codec.{Link}
use repodb.Prolly.Chunk.Groups.{concat}
use repodb.Prolly.Tree.{edit_key_required, not_ordered, TreeError, start_of, check_edits}
use repodb.Prolly.Tree.Merge.{merge_edits, edit_key}

pub merge_edits-before :
    (before later : List Entry) (e : Edit) (edits : List Edit)
    → All (λ x. compare_bytes e.key x.key ≡ Ordering.gt) before
    → merge_edits (before ++ later) (e ∷ edits) ≡ before ++ merge_edits later (e ∷ edits)
unfolding merge_edits
merge_edits-before [] later e edits h = refl
merge_edits-before (x ∷ before) later e edits h =
    rw (merge_edits, h.0, merge_edits-before before later e edits h.1) refl

pub take-first_index :
    {A : Type 0} (p : A → Bool) (xs : List A) (i : ℕ)
    → i ≤ first_index p xs
    → All (λ x. p x ≡ false) (take i xs)
unfolding first_index
take-first_index p xs zero h = tt
take-first_index p [] (suc i) h = tt
take-first_index p (x ∷ xs) (suc i) h = elim (Bool-cases (p x)) [
  | inl t ↦ absurd (ground (arith, t, h))
  | inr f ↦ (f, take-first_index p xs i (ground (arith, f, h)))
]

pub first_index-length : {A : Type 0} (p : A → Bool) (xs : List A) → first_index p xs ≤ length xs
unfolding first_index
first_index-length p [] = omega arith
first_index-length p (x ∷ xs) = ground (arith, first_index-length p xs)

pub start_bounds :
    (leaves : List Link) (i : ℕ)
    → 1 ≤ length leaves
    → i ≤ length leaves
    → (start_of leaves i ≤ i) × (start_of leaves i < length leaves)
start_bounds leaves i n h = ground arith

pub concat-take-drop :
    {A : Type 0} (i : ℕ) (groups : List (List A))
    → concat (take i groups) ++ concat (drop i groups) ≡ concat groups
concat-take-drop zero groups = refl
concat-take-drop (suc i) [] = refl
concat-take-drop (suc i) (g ∷ groups) =
    append_assoc g (concat (take i groups)) (concat (drop i groups))
    ∙ ap (λ x. g ++ x) (concat-take-drop i groups)

pub key_required :
    (key : Bytes) (r : Option TreeError)
    → elim key as (λ _. Option TreeError) [ [] ↦ some edit_key_required | b ∷ key ↦ r ] ≡ none
    → r ≡ none
key_required [] r h = cc
key_required (b ∷ key) r h = h

pub ordered :
    (p k : Bytes) (r : Option TreeError)
    → (if at_least p k then some not_ordered else r) ≡ none
    → (compare_bytes p k ≡ Ordering.lt) × (r ≡ none)
ordered p k r h = ground (arith, h)

-- Edits that pass the checks are sorted.
pub check_edits-Above :
    (p : Bytes) (edits : List Edit)
    → check_edits (some p) edits ≡ none
    → Above edit_key p edits × Sorted edit_key edits
unfolding check_edits
check_edits-Above p [] h = (tt, tt)
check_edits-Above p (e ∷ edits) h =
    let (lt, later) = ordered p e.key _ (key_required e.key _ h) in
    let (a, s) = check_edits-Above e.key edits later in
    ((lt, Above-weaken edit_key p e.key edits (ground (arith, lt)) a), (a, s))

pub check_edits-Sorted :
    (e : Edit) (edits : List Edit)
    → check_edits none (e ∷ edits) ≡ none
    → Sorted edit_key (e ∷ edits)
unfolding check_edits
check_edits-Sorted e edits h = check_edits-Above e.key edits (key_required e.key _ h)

pub All-drop : {A : Type 0} (P : A → Type 0) (i : ℕ) (xs : List A) → All P xs → All P (drop i xs)
All-drop P zero xs h = h
All-drop P (suc i) [] h = tt
All-drop P (suc i) (x ∷ xs) h = All-drop P i xs h.1
