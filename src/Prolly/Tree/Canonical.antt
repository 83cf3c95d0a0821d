-- ===== src/Prolly/Tree/Canonical.antt =====
-- `Apply` gives the tree that `Build` gives for the edited entries.
use repodb.Base.{
  ℕ, ◌≤◌, ◌<◌, ◌^◌, ◌≡◌, ◌≢◌, refl, sym, ap, ◌∙◌, Ordering, Option, none, List, [], ◌∷◌, ◌++◌,
  arith, length, take, drop, All, ◌⊎◌, inl, inr,
}
use repodb.Base.Search.{first_index}
use repodb.Bytes.{Bytes, compare_bytes, at_least}
use repodb.Bytes.Sorted.{Sorted, find, lower_bound, lower_bound-first_index}
use repodb.Prolly.{Entry, Edit, entry_key}
use repodb.Prolly.Codec.{Link}
use repodb.Prolly.Codec.RoundTrip.{IsEntry}
use repodb.Prolly.Chunk.{Options, chunk, chunk_from}
use repodb.Prolly.Chunk.Groups.{
  concat, concat-chunk_from, chunk_from-NonEmpty, IsChunked, IsChunked-drop, chunk-take,
}
use repodb.Prolly.Tree.{
  Outcome, success, failure, out_of_range, bind, leaf_node, link_key, entry_boundary_hash,
  write_node, write_leaf, write_all, build_from_leaf_links, build_levels, build_or_empty,
  build_sorted, start_of, apply_leaves, apply_from, apply, leaf_links, check_edits,
}
use repodb.Prolly.Tree.Merge.{merge_edits, edited, edit_key, merge_edits-Sorted, find-merge_edits}
use repodb.Prolly.Tree.Walk.{bind_assoc}
use repodb.Prolly.Tree.Leaves.{
  Keeps, IsLeaf, leaves-Sorted, entries_before, write-take, write-append, bind-success,
  IsLeaf-groups,
}
use repodb.Prolly.Tree.Loop.{Either, built, or_empty, apply_leaves_lem}
use repodb.Prolly.Tree.Start.{
  merge_edits-before, take-first_index, first_index-length, start_bounds, concat-take-drop,
  check_edits-Sorted, All-drop,
}

module _ (put get : Bytes → Option Bytes) (keeps : Keeps put get) (o : Options) where
  abbrev groups_of : List Entry → List (List Entry)
  groups_of = chunk o entry_boundary_hash

  abbrev write_groups : List (List Entry) → Outcome (List Link)
  write_groups = write_all put (write_leaf put)

  -- Writing everything, with a way to go on, is the start that is kept and the rest of the walk.
  abbrev TwoWays : Outcome Bytes → List Entry → Type 0
  TwoWays r m =
      (r ≡ bind (write_groups (groups_of m)) (built put get keeps o))
      ⊎ (r ≡ bind (write_groups (groups_of m)) (or_empty put get keeps o))

  whole :
      (i : ℕ) (groups : List (List Entry)) (leaves : List Link) (later : List Entry)
      (go_on : List Link → Outcome Bytes)
      → write_groups groups ≡ success leaves
      → IsChunked o entry_boundary_hash groups
      → i < length groups
      → bind (write_groups (groups_of (concat (take i groups) ++ later))) go_on
        ≡ bind (write_groups (groups_of later)) (λ links. go_on (take i leaves ++ links))
  whole i groups leaves later go_on written chunked h =
      rw
        (
          chunk-take o entry_boundary_hash i groups later chunked h,
          write-append put (take i groups) (groups_of later) (take i leaves)
              (write-take put i groups leaves written).0,
        )
        (bind_assoc (write_groups (groups_of later)) _ _)

  some_group : (entries : List Entry) → entries ≢ [] → 1 ≤ length (groups_of entries)
  some_group entries n =
      by_groups (groups_of entries) (concat-chunk_from o entry_boundary_hash [] entries)
    where
      by_groups : (groups : List (List Entry)) → concat groups ≡ entries → 1 ≤ length groups
      by_groups [] h = absurd (n (sym h))
      by_groups (g ∷ groups) h = omega arith

  -- The walk from a leaf before which every entry is below the first edit.
  from_start :
      (start : ℕ) (entries : List Entry) (leaves : List Link) (e : Edit) (edits : List Edit)
      → All IsLeaf (groups_of entries)
      → write_groups (groups_of entries) ≡ success leaves
      → start < length leaves
      → All (λ x. compare_bytes e.key x.key ≡ Ordering.gt) (concat (take start (groups_of entries)))
      → TwoWays
          (apply_leaves put o get
            (record { entries = []; links = take start leaves })
            (drop start leaves)
            (e ∷ edits))
          (merge_edits entries (e ∷ edits))
  from_start start entries leaves e edits fit written h before = elim walked [
    | inl w ↦ inl (w ∙ sym (whole_from (built put get keeps o)))
    | inr w ↦ inr (w ∙ sym (whole_from (or_empty put get keeps o)))
  ]
    where
      groups : List (List Entry)
      groups = groups_of entries

      later : List Entry
      later = merge_edits (concat (drop start groups)) (e ∷ edits)

      all : concat groups ≡ entries
      all = concat-chunk_from o entry_boundary_hash [] entries

      chunked : IsChunked o entry_boundary_hash groups
      chunked = ap groups_of all

      parts : merge_edits entries (e ∷ edits) ≡ concat (take start groups) ++ later
      parts =
          ap (λ x. merge_edits x (e ∷ edits)) (sym (concat-take-drop start groups ∙ all))
          ∙ merge_edits-before (concat (take start groups)) (concat (drop start groups)) e edits
              before

      walked :
          Either put get keeps o
            (apply_leaves put o get
              (record { entries = []; links = take start leaves })
              (drop start leaves)
              (e ∷ edits))
            (record { entries = []; links = take start leaves })
            later
      walked =
          apply_leaves_lem put get keeps o (drop start groups) (drop start leaves) _ (e ∷ edits)
            (IsChunked-drop o entry_boundary_hash start groups chunked)
            (All-drop IsLeaf start groups fit) (write-take put start groups leaves written).1

      whole_from :
          (go_on : List Link → Outcome Bytes)
          → bind (write_groups (groups_of (merge_edits entries (e ∷ edits)))) go_on
            ≡ bind (write_groups (groups_of later)) (λ links. go_on (take start leaves ++ links))
      whole_from go_on =
          ap (λ x. bind (write_groups (groups_of x)) go_on) parts
          ∙ whole start groups leaves later go_on written chunked
              (omega (arith, (write-take put 0 groups leaves written).2))

  apply_from_lem :
      (entries : List Entry) (leaves : List Link) (e : Edit) (edits : List Edit)
      → entries ≢ []
      → Sorted entry_key entries
      → All IsEntry entries
      → length entries < 2 ^ 64
      → write_groups (groups_of entries) ≡ success leaves
      → TwoWays (apply_from put o get leaves e.key (e ∷ edits)) (merge_edits entries (e ∷ edits))
  unfolding apply_from
  apply_from_lem entries [] e edits n s fit l written =
      absurd
        (omega (arith, some_group entries n, (write-take put 0 (groups_of entries) [] written).2))
  apply_from_lem entries (leaf ∷ leaves) e edits n s fit l written =
      from_start start entries (leaf ∷ leaves) e edits fit_groups written bounds.1 (
        entries_before put e.key start groups (leaf ∷ leaves) sorted written (
          take-first_index (λ x. at_least x.max_key e.key) (leaf ∷ leaves) start
            (omega (arith, first, bounds.0))))
    where
      groups : List (List Entry)
      groups = groups_of entries

      all : concat groups ≡ entries
      all = concat-chunk_from o entry_boundary_hash [] entries

      sorted : Sorted entry_key (concat groups)
      sorted = rw all s

      fit_groups : All IsLeaf groups
      fit_groups = IsLeaf-groups groups (rw all fit) (rw all l)

      found : ℕ
      found = lower_bound link_key e.key (leaf ∷ leaves)

      first : found ≡ first_index (λ x. at_least x.max_key e.key) (leaf ∷ leaves)
      first = lower_bound-first_index link_key e.key (leaf ∷ leaves) (
          leaves-Sorted put groups (leaf ∷ leaves)
            (chunk_from-NonEmpty o entry_boundary_hash [] entries) sorted written)

      start : ℕ
      start = start_of (leaf ∷ leaves) found

      bounds : (start ≤ found) × (start < length (leaf ∷ leaves))
      bounds =
          start_bounds (leaf ∷ leaves) found (omega arith) (
            omega
              (arith, first, first_index-length (λ x. at_least x.max_key e.key) (leaf ∷ leaves)))

  ends_alike :
      (groups : List (List Entry))
      → groups ≢ []
      → bind (write_groups groups) (or_empty put get keeps o)
        ≡ bind (write_groups groups) (built put get keeps o)
  unfolding write_all build_or_empty
  ends_alike [] n = absurd (n refl)
  ends_alike (g ∷ groups) n = alike (write_leaf put g) (write_groups groups)
    where
      alike :
          (w : Outcome Link) (m : Outcome (List Link))
          → bind (bind w (λ l. bind m (λ links. success (l ∷ links)))) (or_empty put get keeps o)
            ≡ bind (bind w (λ l. bind m (λ links. success (l ∷ links)))) (built put get keeps o)
      alike (failure x) m = refl
      alike (success l) (failure x) = refl
      alike (success l) (success links) = refl

  -- The two ways are `Build`, but where nothing is left: then the early end has no root.
  two_ways_lem :
      (r : Outcome Bytes) (m : List Entry)
      → TwoWays r m
      → (r ≡ build_sorted put o m) ⊎ ((m ≡ []) × (r ≡ failure out_of_range))
  unfolding build_sorted build_or_empty build_from_leaf_links build_levels write_all chunk_from
  two_ways_lem r [] (inl h) = inr (refl, h)
  two_ways_lem r [] (inr h) = inl (h ∙ sym (bind-success (write_node put (leaf_node []))))
  two_ways_lem r (x ∷ m) (inl h) = inl h
  two_ways_lem r (x ∷ m) (inr h) = inl (
      h
      ∙ ends_alike (groups_of (x ∷ m))
          (λ none_left. absurd (omega (arith, ap length none_left, some_group (x ∷ m) (λ q. cc)))))

  -- Let a store keep what it was given, let the leaves under a root be the written chunks of some
  -- sorted entries that the codec can hold, and let at least one edit pass the checks of `Apply`. Then
  -- there is a sorted list that has at every key what the key's edit says, and without an edit what
  -- the entries had. `Apply` has the same outcome as `Build` on that list, down to the root's hash,
  -- unless the list is empty, where it may instead panic for an index out of range.
  pub apply_lem :
      (fuel : ℕ) (root : Bytes) (entries : List Entry) (leaves : List Link) (e : Edit)
      (edits : List Edit)
      → entries ≢ []
      → Sorted entry_key entries
      → All IsEntry entries
      → length entries < 2 ^ 64
      → write_all put (write_leaf put) (chunk o entry_boundary_hash entries) ≡ success leaves
      → leaf_links get fuel root ≡ success leaves
      → check_edits none (e ∷ edits) ≡ none
      → (m : List Entry) × Sorted entry_key m
        × ((k : Bytes)
            → find entry_key k m ≡ edited (find edit_key k (e ∷ edits)) (find entry_key k entries))
        × ((apply put o get fuel root (e ∷ edits) ≡ build_sorted put o m)
            ⊎ ((m ≡ []) × (apply put o get fuel root (e ∷ edits) ≡ failure out_of_range)))
  unfolding apply
  apply_lem fuel root entries leaves e edits n s fit l written read checked =
      let sorted_edits = check_edits-Sorted e edits checked in
      (
        merge_edits entries (e ∷ edits),
        merge_edits-Sorted entries (e ∷ edits) s sorted_edits,
        (λ k. find-merge_edits k entries (e ∷ edits) s sorted_edits),
        rw (apply, checked, read)
            (two_ways_lem _ (merge_edits entries (e ∷ edits))
              (apply_from_lem entries leaves e edits n s fit l written)),
      )
