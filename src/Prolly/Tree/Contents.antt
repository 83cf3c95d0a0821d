-- ===== src/Prolly/Tree/Contents.antt =====
-- `Build` sees only what its entries contain, and `Apply` gives the tree that it builds.
use repodb.Base.{
  ℕ, ◌<◌, ◌^◌, ◌≡◌, ◌≢◌, refl, sym, ap, ◌∙◌, ◌⊎◌, inl, inr, true, false, Option, none, some, List,
  [], ◌∷◌, arith, if◌then◌else◌, length, All, Ordering,
}
use repodb.Bytes.{Bytes, compare_bytes, equal_bytes}
use repodb.Bytes.Order.{
  compare_bytes_refl, equal_bytes_refl, eq_of_compare, lt_of_gt, Ordering-cases,
}
use repodb.Bytes.Sorted.{Above, Sorted, find, Above-weaken}
use repodb.Bytes.Extensional.{find_injective}
use repodb.Prolly.{Entry, Edit, entry_key}
use repodb.Prolly.Codec.{Link}
use repodb.Prolly.Codec.RoundTrip.{IsEntry}
use repodb.Prolly.Chunk.{Options, validate, chunk}
use repodb.Prolly.Tree.{
  success, failure, out_of_range, sort_entries, insert_entry, has_duplicate, build_sorted, build,
  apply, write_all, write_leaf, entry_boundary_hash, leaf_links, check_edits,
}
use repodb.Prolly.Tree.Merge.{edited, edit_key}
use repodb.Prolly.Tree.Leaves.{Keeps}
use repodb.Prolly.Tree.Canonical.{apply_lem}

-- No two entries have the same key.
abbrev pub Distinct : List Entry → Type 0
Distinct [] = Unit
Distinct (x ∷ xs) = (find entry_key x.key xs ≡ none) × Distinct xs

find-insert_entry :
    (k : Bytes) (e : Entry) (xs : List Entry)
    → find entry_key k (insert_entry e xs)
      ≡ (if equal_bytes e.key k then some e else find entry_key k xs)
unfolding find
find-insert_entry k e [] = refl
find-insert_entry k e (x ∷ xs) = ground (
  arith,
  find-insert_entry k e xs,
  eq_of_compare x.key k,
  eq_of_compare e.key k,
  compare_bytes_refl k,
)

find-sort_entries :
    (k : Bytes) (xs : List Entry) → find entry_key k (sort_entries xs) ≡ find entry_key k xs
unfolding find sort_entries
find-sort_entries k [] = refl
find-sort_entries k (x ∷ xs) =
    find-insert_entry k x (sort_entries xs)
    ∙ ap (λ r. if equal_bytes x.key k then some x else r) (find-sort_entries k xs)

insert_entry-Above :
    (k : Bytes) (e : Entry) (xs : List Entry)
    → compare_bytes k e.key ≡ Ordering.lt
    → Above entry_key k xs
    → Above entry_key k (insert_entry e xs)
insert_entry-Above k e [] h a = (h, tt)
insert_entry-Above k e (x ∷ xs) h a = ground (arith, h, a.0, a.1, insert_entry-Above k e xs h a.1)

insert_entry-later :
    (e x : Entry) (xs : List Entry)
    → compare_bytes x.key e.key ≡ Ordering.lt
    → insert_entry e (x ∷ xs) ≡ x ∷ insert_entry e xs
insert_entry-later e x xs h = ground (arith, h)

insert_entry-here :
    (e x : Entry) (xs : List Entry)
    → compare_bytes x.key e.key ≡ Ordering.gt
    → insert_entry e (x ∷ xs) ≡ e ∷ x ∷ xs
insert_entry-here e x xs h = ground (arith, h)

insert_entry-Sorted :
    (e : Entry) (xs : List Entry)
    → find entry_key e.key xs ≡ none
    → Sorted entry_key xs
    → Sorted entry_key (insert_entry e xs)
unfolding find
insert_entry-Sorted e [] n s = (tt, tt)
insert_entry-Sorted e (x ∷ xs) n s = elim (Ordering-cases (compare_bytes x.key e.key)) [
  | inl lt ↦
      rw (insert_entry-later e x xs lt)
        (insert_entry-Above x.key e xs lt s.0, insert_entry-Sorted e xs (ground (arith, n, lt)) s.1)
  | inr (inl eq) ↦ absurd (ground (arith, n, eq))
  | inr (inr gt) ↦
      let lt : compare_bytes e.key x.key ≡ Ordering.lt = lt_of_gt x.key e.key gt in
      rw (insert_entry-here e x xs gt)
        ((lt, Above-weaken entry_key e.key x.key xs (λ h. cc (h, lt)) s.0), s)
]

sort_entries-Sorted : (xs : List Entry) → Distinct xs → Sorted entry_key (sort_entries xs)
unfolding sort_entries
sort_entries-Sorted [] d = tt
sort_entries-Sorted (x ∷ xs) d =
    insert_entry-Sorted x (sort_entries xs) (find-sort_entries x.key xs ∙ d.0)
      (sort_entries-Sorted xs d.1)

Sorted-has_duplicate : (xs : List Entry) → Sorted entry_key xs → has_duplicate xs ≡ false
unfolding has_duplicate
Sorted-has_duplicate [] s = refl
Sorted-has_duplicate (x ∷ []) s = refl
Sorted-has_duplicate (x ∷ y ∷ xs) s = ground (arith, s.0.0, Sorted-has_duplicate (y ∷ xs) s.1)

nothing_found : (xs : List Entry) → ((k : Bytes) → find entry_key k xs ≡ none) → xs ≡ []
unfolding find
nothing_found [] h = refl
nothing_found (x ∷ xs) h = absurd (ground (arith, h x.key, equal_bytes_refl x.key))

module _ (put : Bytes → Option Bytes) (o : Options) where
  -- Distinct entries that contain what a sorted list contains are built like that list.
  pub build_lem :
      (items m : List Entry)
      → validate o ≡ true
      → Distinct items
      → Sorted entry_key m
      → ((k : Bytes) → find entry_key k items ≡ find entry_key k m)
      → build put o items ≡ build_sorted put o m
  unfolding build
  build_lem items m valid d s h =
      let sorted = sort_entries-Sorted items d in
      rw (valid, Sorted-has_duplicate (sort_entries items) sorted)
        (ap (build_sorted put o) (
          find_injective entry_key (sort_entries items) m sorted s
            (λ k. find-sort_entries k items ∙ h k)))

module _ (put get : Bytes → Option Bytes) (keeps : Keeps put get) (o : Options) where
  -- Let a store keep what it was given, let the leaves under a root be the written chunks of some
  -- sorted entries that the codec can hold, and let at least one edit pass the checks of `Apply`. Let
  -- further entries with distinct keys, in any order, have at every key what the key's edit says, and
  -- without an edit what the tree's entries had. Then, for valid options, `Apply` has the same outcome
  -- as `Build` on those entries, down to the root's hash, unless there are none, where it may instead
  -- panic for an index out of range. So the root rests on the contents, not on how they came about.
  pub apply-build :
      (fuel : ℕ) (root : Bytes) (entries : List Entry) (leaves : List Link) (e : Edit)
      (edits : List Edit) (items : List Entry)
      → validate o ≡ true
      → entries ≢ []
      → Sorted entry_key entries
      → All IsEntry entries
      → length entries < 2 ^ 64
      → write_all put (write_leaf put) (chunk o entry_boundary_hash entries) ≡ success leaves
      → leaf_links get fuel root ≡ success leaves
      → check_edits none (e ∷ edits) ≡ none
      → Distinct items
      → ((k : Bytes)
          → find entry_key k items
            ≡ edited (find edit_key k (e ∷ edits)) (find entry_key k entries))
      → (apply put o get fuel root (e ∷ edits) ≡ build put o items)
        ⊎ ((items ≡ []) × (apply put o get fuel root (e ∷ edits) ≡ failure out_of_range))
  apply-build fuel root entries leaves e edits items valid n s fit l written read checked d h =
      let (m, sm, found, outcome) =
        apply_lem put get keeps o fuel root entries leaves e edits n s fit l written read checked in
      let same : (k : Bytes) → find entry_key k items ≡ find entry_key k m =
        λ k. h k ∙ sym (found k) in
      elim outcome [
        | inl r ↦ inl (r ∙ sym (build_lem put o items m valid d sm same))
        | inr (empty, r) ↦
            inr (nothing_found items (λ k. same k ∙ rw empty (unfold find in refl)), r)
      ]
