-- ===== src/Engine/MergeRows/FastForward.antt =====
-- `mergeRows` where one of the two clones has not changed the table.
use repodb.Base.{
  ℕ, ◌+◌, ◌<◌, ◌≡◌, refl, sym, ap, ◌∙◌, Option, none, some, List, [], ◌∷◌, arith, length, inl, inr,
}
use repodb.Bytes.{Bytes}
use repodb.Bytes.Order.{eq_of_compare}
use repodb.Bytes.Sorted.{Sorted, find}
use repodb.Bytes.Extensional.{find_injective}
use repodb.Bytes.Assoc.{Assoc}
use repodb.Prolly.{Entry, entry_key}
use repodb.Engine.MergeRows.{Resolution, Cell, merged, merge_loop}
use repodb.Engine.MergeRows.Cursors.{cell}
use repodb.Engine.MergeRows.Spec.{collect}
use repodb.Engine.MergeRows.Disjoint.{merge_loop-disjoint}

-- The entry of a key, from its cell.
abbrev entry_of : Bytes → Cell → Option Entry
entry_of k none = none
entry_of k (some v) = some (record { key = k; value = v })

find-cell : (k : Bytes) (xs : List Entry) → find entry_key k xs ≡ entry_of k (cell k xs)
unfolding find
find-cell k [] = refl
find-cell k (x ∷ xs) = ground (arith, find-cell k xs, eq_of_compare x.key k)

-- Sorted lists with the same cells are the same.
cells_injective :
    (xs ys : List Entry)
    → Sorted entry_key xs
    → Sorted entry_key ys
    → ((k : Bytes) → cell k xs ≡ cell k ys)
    → xs ≡ ys
cells_injective xs ys s t h =
    find_injective entry_key xs ys s t
      (λ k. find-cell k xs ∙ ap (entry_of k) (h k) ∙ sym (find-cell k ys))

module _ (table : Bytes) (resolutions : Assoc Resolution) (fuel : ℕ) (b c : List Entry)
    (sb : Sorted entry_key b) (sc : Sorted entry_key c)
    (h : length b + length b + length c < fuel) where
  -- Let the base and another version be sorted by key. Where only the remote clone has changed the
  -- table, the merge is the remote version, and where only the local one has, the local version: for
  -- every fuel above the number of entries, without a conflict, whatever the resolutions.
  pub merge_loop-fast_forward :
      (merge_loop collect table resolutions fuel b b c [] [] ≡ merged [] c)
      × (merge_loop collect table resolutions fuel b c b [] [] ≡ merged [] c)
  merge_loop-fast_forward =
      let (rows, ran, s, remote, _) =
        merge_loop-disjoint table resolutions fuel b b c sb sb sc (λ k. inl refl) h in
      let (rows', ran', s', _, local) =
        merge_loop-disjoint table resolutions fuel b c b sb sc sb (λ k. inr refl)
          (omega (arith, h)) in
      (
        ran ∙ ap (merged []) (cells_injective rows c s sc (λ k. remote k refl)),
        ran' ∙ ap (merged []) (cells_injective rows' c s' sc (λ k. local k refl)),
      )
