-- ===== src/Prolly/Tree/AllDeleted.antt =====
-- `Apply` with edits that delete every entry of the tree.
use repodb.Base.{
  ℕ, ◌<◌, ◌^◌, ◌≡◌, ◌≢◌, refl, sym, ◌∙◌, true, Option, none, List, [], ◌∷◌, ◌++◌, arith, length,
  All, map,
}
use repodb.Base.Search.{first_index}
use repodb.Bytes.{Bytes, at_least}
use repodb.Bytes.Order.{compare_bytes_refl, gt_of_lt}
use repodb.Bytes.Sorted.{Sorted, lower_bound, lower_bound-first_index}
use repodb.Prolly.{Entry, Edit, entry_key}
use repodb.Prolly.Codec.{Link}
use repodb.Prolly.Codec.RoundTrip.{IsEntry}
use repodb.Prolly.Chunk.{Options, chunk}
use repodb.Prolly.Chunk.Groups.{concat, concat-chunk_from, chunk_from-NonEmpty}
use repodb.Prolly.Tree.{
  success, failure, out_of_range, LeafChunker, entry_boundary_hash, write_leaf, write_all, last_key,
  build_from_leaf_links, build_levels, add_entries, add_entry, after_leaf, apply_leaves, apply_from,
  apply, leaf_links, check_edits, start_of, link_key,
}
use repodb.Prolly.Tree.Leaves.{
  Keeps, IsLeaf, NonEmpty, cons_written, success_injective, write_leaf_lem, read_node-write_leaf,
  last_key-Above, Above-left, leaves-Sorted, IsLeaf-groups,
}

abbrev pub deletion : Entry → Edit
deletion x = record { key = x.key; value = []; delete = true }

abbrev fresh : LeafChunker
fresh = record { entries = []; links = [] }

module _ (put get : Bytes → Option Bytes) (keeps : Keeps put get) (o : Options) where
  add_entries-deletions :
      (g later : List Entry)
      → add_entries put o fresh g (map deletion (g ++ later)) ≡ success (fresh, map deletion later)
  unfolding add_entries add_entry
  add_entries-deletions [] later = refl
  add_entries-deletions (x ∷ g) later =
      rw (add_entries, add_entry, compare_bytes_refl x.key) (add_entries-deletions g later)

  -- Behind a leaf that is deleted, the walk goes on with the deletions of the next.
  deleted_leaf :
      (g : List Entry) (groups : List (List Entry)) (l : Link) (behind : List Link)
      → IsLeaf g
      → write_leaf put g ≡ success l
      → apply_leaves put o get fresh (l ∷ behind) (map deletion (g ++ concat groups))
        ≡ after_leaf put o fresh behind
            (map deletion (concat groups))
            (apply_leaves put o get fresh behind (map deletion (concat groups)))
  unfolding apply_leaves
  deleted_leaf g groups l behind fit el =
      rw
        (
          apply_leaves,
          read_node-write_leaf put get keeps g l fit el,
          add_entries-deletions g (concat groups),
        )
        refl

  apply_leaves-deletions :
      (g : List Entry) (groups : List (List Entry)) (leaves : List Link)
      → NonEmpty groups
      → All IsLeaf (g ∷ groups)
      → write_all put (write_leaf put) (g ∷ groups) ≡ success leaves
      → apply_leaves put o get fresh leaves (map deletion (concat (g ∷ groups)))
        ≡ failure out_of_range
  unfolding after_leaf build_from_leaf_links build_levels write_all
  apply_leaves-deletions g [] leaves n fit written =
      let (l, behind, el, eb, same) = cons_written put (write_leaf put) g [] leaves written in
      rw (sym same, sym (success_injective [] behind eb)) (deleted_leaf g [] l [] fit.0 el)
  apply_leaves-deletions g ([] ∷ groups) leaves n fit written = absurd (omega (arith, n.0))
  apply_leaves-deletions g ((x ∷ g') ∷ groups) leaves n fit written =
      let (l, behind, el, eb, same) =
        cons_written put (write_leaf put) g ((x ∷ g') ∷ groups) leaves written in
      rw (sym same) (
        deleted_leaf g ((x ∷ g') ∷ groups) l behind fit.0 el
        ∙ apply_leaves-deletions (x ∷ g') groups behind n.1 fit.1 eb)

  first_leaf :
      (x : Entry) (g later : List Entry)
      → Sorted entry_key (x ∷ (g ++ later))
      → at_least (last_key entry_key (x ∷ g)) x.key ≡ true
  first_leaf x [] later s = ground (arith, compare_bytes_refl x.key)
  first_leaf x (y ∷ g) later s =
      let above =
        last_key-Above x.key (y ∷ g) (omega arith) (Above-left x.key (y ∷ g) later s.0).0 in
      ground (arith, above, gt_of_lt x.key (last_key entry_key (y ∷ g)))

  start_zero : (l : Link) (behind : List Link) → start_of (l ∷ behind) 0 ≡ 0
  start_zero l behind = ground arith

  apply_from-deletions :
      (x : Entry) (g : List Entry) (groups : List (List Entry)) (leaves : List Link)
      → Sorted entry_key (concat ((x ∷ g) ∷ groups))
      → NonEmpty groups
      → All IsLeaf ((x ∷ g) ∷ groups)
      → write_all put (write_leaf put) ((x ∷ g) ∷ groups) ≡ success leaves
      → apply_from put o get leaves x.key (map deletion (concat ((x ∷ g) ∷ groups)))
        ≡ failure out_of_range
  unfolding apply_from first_index
  apply_from-deletions x g groups leaves s n fit written =
      let (l, behind, el, eb, same) =
        cons_written put (write_leaf put) (x ∷ g) groups leaves written in
      let sorted = leaves-Sorted put ((x ∷ g) ∷ groups) leaves (omega arith, n) s written in
      let at_first : at_least l.max_key x.key ≡ true =
        rw (write_leaf_lem put (x ∷ g) l el).1 (first_leaf x g (concat groups) s) in
      let first : lower_bound link_key x.key (l ∷ behind) ≡ 0 =
        lower_bound-first_index link_key x.key (l ∷ behind) (rw (sym same) at sorted)
        ∙ rw at_first refl in
      rw (sym same, apply_from, first, start_zero l behind)
        (apply_leaves-deletions (x ∷ g) groups (l ∷ behind) n fit (rw (sym same) at written))

  apply-concat :
      (fuel : ℕ) (root : Bytes) (groups : List (List Entry)) (leaves : List Link)
      → concat groups ≢ []
      → Sorted entry_key (concat groups)
      → NonEmpty groups
      → All IsLeaf groups
      → write_all put (write_leaf put) groups ≡ success leaves
      → leaf_links get fuel root ≡ success leaves
      → check_edits none (map deletion (concat groups)) ≡ none
      → apply put o get fuel root (map deletion (concat groups)) ≡ failure out_of_range
  unfolding apply
  apply-concat fuel root [] leaves some_entry s n fit written read checked =
      absurd (some_entry refl)
  apply-concat fuel root ([] ∷ groups) leaves some_entry s n fit written read checked =
      absurd (omega (arith, n.0))
  apply-concat fuel root ((x ∷ g) ∷ groups) leaves some_entry s n fit written read checked =
      rw (apply, checked, read) (apply_from-deletions x g groups leaves s n.1 fit written)

  -- Let a store keep what it was given, and let the leaves under a root be the written chunks of some
  -- sorted entries, at least one, that the codec can hold. Then `Apply` with the edits that delete
  -- exactly these entries, if their keys pass its checks, returns no tree: it panics for an index out
  -- of range.
  pub apply-all_deleted :
      (fuel : ℕ) (root : Bytes) (entries : List Entry) (leaves : List Link)
      → entries ≢ []
      → Sorted entry_key entries
      → All IsEntry entries
      → length entries < 2 ^ 64
      → write_all put (write_leaf put) (chunk o entry_boundary_hash entries) ≡ success leaves
      → leaf_links get fuel root ≡ success leaves
      → check_edits none (map deletion entries) ≡ none
      → apply put o get fuel root (map deletion entries) ≡ failure out_of_range
  apply-all_deleted fuel root entries leaves n s fit l written read checked =
      by_groups (chunk o entry_boundary_hash entries)
        (concat-chunk_from o entry_boundary_hash [] entries)
        (chunk_from-NonEmpty o entry_boundary_hash [] entries) written
    where
      by_groups :
          (groups : List (List Entry))
          → concat groups ≡ entries
          → NonEmpty groups
          → write_all put (write_leaf put) groups ≡ success leaves
          → apply put o get fuel root (map deletion entries) ≡ failure out_of_range
      by_groups groups all full written' = rw (sym all) (
          apply-concat fuel root groups leaves (rw all n) (rw all s) full
            (IsLeaf-groups groups (rw all fit) (rw all l)) written' read (rw all checked))
