-- ===== src/Prolly/Tree/Examples.antt =====
-- A small tree, edited, in a store whose hashes are the stored bytes.
use repodb.Base.{
  ℕ, ◌≡◌, ◌≢◌, ◌≤◌, refl, sym, true, false, Option, some, none, List, [], ◌∷◌, arith, All, ◌⊎◌, map,
  inl, inr, Bool-cases,
}
use mathlib.Core.List.Perm
use repodb.Bytes.{Bytes, compare_bytes, equal_bytes}
use repodb.Bytes.Order.{eq_of_compare}
use repodb.Base.Search.{search, search_list}
use repodb.Bytes.Sorted.{Sorted, find}
use repodb.Prolly.{Entry, Edit, entry_key}
use repodb.Prolly.Varint.{append_groups, uvarint_from}
use repodb.Prolly.Codec.{
  Link, encode_node, encode_entries, decode_node, decode, read_items, read_uvarint, field,
  next_entry,
}
use repodb.Prolly.Codec.RoundTrip.{IsEntry}
use repodb.Prolly.Chunk.{default_options, chunk, chunk_from, should_cut, validate}
use repodb.Prolly.Chunk.Groups.{concat}
use repodb.Prolly.Chunk.Sizes.{IsSized, chunk_lem}
use repodb.Prolly.Tree.{
  success, failure, stuck, build, out_of_range, entry_boundary_hash, write_node, write_leaf,
  write_all, build_sorted, build_levels, build_from_leaf_links, apply, apply_from, apply_leaves,
  add_entries, add_entry, add, flush, finish_apply, add_edits, after_leaf, build_or_empty,
  read_node, leaf_links, check_edits, sort_entries, has_duplicate,
}
use repodb.Prolly.Tree.Upper.{build-ends}
use repodb.Prolly.Tree.Merge.{edited, edit_key}
use repodb.Prolly.Tree.Leaves.{Keeps}
use repodb.Prolly.Tree.Canonical.{apply_lem}
use repodb.Prolly.Tree.AnyOrder.{build-Perm}
use repodb.Prolly.Tree.Contents.{Distinct, apply-build}
use repodb.Prolly.Tree.AllDeleted.{deletion, apply-all_deleted}

abbrev keep : Bytes → Option Bytes
keep bytes = some bytes

keep-Keeps : Keeps keep keep
keep-Keeps bytes hash e = sym e

abbrev entry : ℕ → ℕ → Entry
entry k v = record { key = k ∷ []; value = v ∷ [] }

abbrev two : List Entry
two = entry 1 7 ∷ entry 3 7 ∷ []

abbrev two_bytes : Bytes
two_bytes = b'P' ∷ 1 ∷ 0 ∷ 2 ∷ 1 ∷ 1 ∷ 1 ∷ 7 ∷ 1 ∷ 3 ∷ 1 ∷ 7 ∷ []

abbrev two_leaves : List Link
two_leaves = record { max_key = 3 ∷ []; count = 2; hash = two_bytes } ∷ []

abbrev insertion : Edit
insertion = record { key = 2 ∷ []; value = 9 ∷ []; delete = false }

written :
    write_all keep (write_leaf keep) (chunk default_options entry_boundary_hash two)
    ≡ success two_leaves
unfolding write_all write_leaf write_node chunk_from should_cut encode_node encode_entries
    append_groups
written = refl

read : leaf_links keep 1 two_bytes ≡ success two_leaves
unfolding leaf_links read_node decode_node decode read_items read_uvarint field next_entry
    uvarint_from
read = refl

three_bytes : Bytes
three_bytes = b'P' ∷ 1 ∷ 0 ∷ 3 ∷ 1 ∷ 1 ∷ 1 ∷ 7 ∷ 1 ∷ 2 ∷ 1 ∷ 9 ∷ 1 ∷ 3 ∷ 1 ∷ 7 ∷ []

inserted_entry : apply keep default_options keep 1 two_bytes (insertion ∷ []) ≡ success three_bytes
unfolding three_bytes apply apply_from apply_leaves add_entries add_entry add flush finish_apply
    add_edits after_leaf build_or_empty check_edits build_from_leaf_links build_levels search_list
    search compare_bytes write_all write_leaf write_node chunk_from should_cut encode_node
    encode_entries append_groups leaf_links read_node decode_node decode read_items read_uvarint
    field next_entry uvarint_from
inserted_entry = refl

two-Sorted : Sorted entry_key two
unfolding compare_bytes
two-Sorted = ground arith

two-IsEntry : All IsEntry two
two-IsEntry = omega arith

checked_insertion : check_edits none (insertion ∷ []) ≡ none
unfolding check_edits
checked_insertion = refl

checked_deletions : check_edits none (map deletion two) ≡ none
unfolding check_edits compare_bytes
checked_deletions = refl

apply_lem_example :
    (m : List Entry) × Sorted entry_key m
    × ((k : Bytes)
        → find entry_key k m ≡ edited (find edit_key k (insertion ∷ [])) (find entry_key k two))
    × ((apply keep default_options keep 1 two_bytes (insertion ∷ [])
          ≡ build_sorted keep default_options m)
        ⊎ ((m ≡ [])
            × (apply keep default_options keep 1 two_bytes (insertion ∷ [])
                ≡ failure out_of_range)))
apply_lem_example =
    apply_lem keep keep keep-Keeps default_options 1 two_bytes two two_leaves insertion [] (λ e. cc)
      two-Sorted two-IsEntry (omega arith) written read checked_insertion

apply-all_deleted_example :
    apply keep default_options keep 1 two_bytes (map deletion two) ≡ failure out_of_range
apply-all_deleted_example =
    apply-all_deleted keep keep keep-Keeps default_options 1 two_bytes two two_leaves (λ e. cc)
      two-Sorted two-IsEntry (omega arith) written read checked_deletions

default_valid : validate default_options ≡ true
unfolding validate
default_valid = refl

chunk_lem_example :
    (concat (chunk default_options entry_boundary_hash two) ≡ two)
    × IsSized default_options (chunk default_options entry_boundary_hash two)
chunk_lem_example = chunk_lem default_options entry_boundary_hash default_valid two

default_minimum : 2 ≤ default_options.min_chunk_entries
default_minimum = omega arith

build-ends_example : build keep default_options two ≢ failure stuck
build-ends_example = build-ends keep default_options default_valid default_minimum two

-- The contents after the insertion, in another order.
abbrev three_unsorted : List Entry
three_unsorted = entry 3 7 ∷ entry 2 9 ∷ entry 1 7 ∷ []

built_unsorted : build keep default_options three_unsorted ≡ success three_bytes
unfolding three_bytes build validate sort_entries has_duplicate build_sorted build_from_leaf_links
    build_levels compare_bytes write_all write_leaf write_node chunk_from should_cut encode_node
    encode_entries append_groups
built_unsorted = refl

build-Perm_example :
    build keep default_options three_unsorted
    ≡ build keep default_options (entry 2 9 ∷ entry 3 7 ∷ entry 1 7 ∷ [])
build-Perm_example =
    build-Perm keep default_options _ _ (Perm.swap (entry 2 9) (entry 3 7) (entry 1 7 ∷ []))

three-Distinct : Distinct three_unsorted
unfolding find compare_bytes
three-Distinct = (refl, (refl, (refl, tt)))

three_found :
    (k : Bytes)
    → find entry_key k three_unsorted
      ≡ edited (find edit_key k (insertion ∷ [])) (find entry_key k two)
unfolding find
three_found k = elim (Bool-cases (equal_bytes (2 ∷ []) k)) [
  | inl t ↦ rw (← eq_of_compare (2 ∷ []) k (ground (arith, t))) (unfold compare_bytes in refl)
  | inr f ↦ elim (Bool-cases (equal_bytes (1 ∷ []) k)) [
    | inl t ↦ rw (← eq_of_compare (1 ∷ []) k (ground (arith, t))) (unfold compare_bytes in refl)
    | inr g ↦ rw (f, g) refl
  ]
]

apply-build_example :
    (apply keep default_options keep 1 two_bytes (insertion ∷ [])
      ≡ build keep default_options three_unsorted)
    ⊎ ((three_unsorted ≡ [])
        × (apply keep default_options keep 1 two_bytes (insertion ∷ []) ≡ failure out_of_range))
apply-build_example =
    apply-build keep keep keep-Keeps default_options 1 two_bytes two two_leaves insertion []
      three_unsorted default_valid (λ e. cc) two-Sorted two-IsEntry (omega arith) written read
      checked_insertion three-Distinct three_found
