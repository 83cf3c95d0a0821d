-- ===== src/Engine/MergeRows/Disjoint.antt =====
-- `mergeRows` where no row is changed in both clones.
use repodb.Base.{
  ℕ, ◌+◌, ◌<◌, ◌≡◌, refl, ap, ◌∙◌, false, none, List, [], ◌∷◌, arith, length, map, inl, inr, ◌⊎◌,
  Option,
}
use repodb.Bytes.{Bytes}
use repodb.Bytes.Order.{equal_bytes_refl}
use repodb.Bytes.Sorted.{Sorted, find}
use repodb.Bytes.Assoc.{Assoc, lookup}
use repodb.Prolly.{Entry, entry_key}
use repodb.Engine.MergeRows.{Resolution, Cell, Decision, take, decide, row_id, merged, merge_loop}
use repodb.Engine.MergeRows.Cursors.{cell}
use repodb.Engine.MergeRows.Symmetry.{eq_of_same, same_of_eq}
use repodb.Engine.MergeRows.Spec.{chosen, is_conflict, collect, itself, decision, conflict_at}
use repodb.Engine.MergeRows.Pointwise.{IsValid, merge_loop_lem}

decide-local_kept : (o : Option Resolution) (b l r : Cell) → l ≡ b → decide o b l r ≡ take r
unfolding decide
decide-local_kept o b l r e = ground (arith, eq_of_same l r, same_of_eq l b e)

decide-remote_kept : (o : Option Resolution) (b l r : Cell) → r ≡ b → decide o b l r ≡ take l
unfolding decide
decide-remote_kept o b l r e = ground (arith, eq_of_same l b, same_of_eq r b e, e)

IsValid-take : (d : Decision) (c : Cell) → d ≡ take c → IsValid d
IsValid-take d c e = rw e tt

nothing_found : (keys : List Bytes) → ((k : Bytes) → find itself k keys ≡ none) → keys ≡ []
unfolding find
nothing_found [] h = refl
nothing_found (k ∷ keys) h = absurd (ground (arith, h k, equal_bytes_refl k))

module _ (table : Bytes) (resolutions : Assoc Resolution) (fuel : ℕ) (b l r : List Entry)
    (sb : Sorted entry_key b) (sl : Sorted entry_key l) (sr : Sorted entry_key r)
    (disjoint : (k : Bytes) → (cell k l ≡ cell k b) ⊎ (cell k r ≡ cell k b))
    (h : length b + length l + length r < fuel) where
  abbrev here : Bytes → Decision
  here k = decision table resolutions k b l r

  local_kept : (k : Bytes) → cell k l ≡ cell k b → here k ≡ take (cell k r)
  local_kept k e = decide-local_kept (lookup (row_id table k) resolutions) _ _ _ e

  remote_kept : (k : Bytes) → cell k r ≡ cell k b → here k ≡ take (cell k l)
  remote_kept k e = decide-remote_kept (lookup (row_id table k) resolutions) _ _ _ e

  here-IsValid : (k : Bytes) → IsValid (here k)
  here-IsValid k = elim (disjoint k) [
    | inl e ↦ IsValid-take (here k) (cell k r) (local_kept k e)
    | inr e ↦ IsValid-take (here k) (cell k l) (remote_kept k e)
  ]

  no_conflict : (k : Bytes) → is_conflict (here k) ≡ false
  no_conflict k = elim (disjoint k) [
    | inl e ↦ rw (local_kept k e) refl
    | inr e ↦ rw (remote_kept k e) refl
  ]

  -- Let the three versions be sorted by key, and let each key have its base cell in the local or in
  -- the remote version. Then the loop ends, for every fuel above the number of entries, whatever the
  -- resolutions, without a conflict or an error, and emits rows in strictly increasing key order. A
  -- key that the local version did not change has its remote cell in them, and one that the remote
  -- version did not change its local cell: added, changed and deleted rows of both are kept.
  pub merge_loop-disjoint :
      (rows : List Entry) × (merge_loop collect table resolutions fuel b l r [] [] ≡ merged [] rows)
      × Sorted entry_key rows
      × ((k : Bytes) → cell k l ≡ cell k b → cell k rows ≡ cell k r)
      × ((k : Bytes) → cell k r ≡ cell k b → cell k rows ≡ cell k l)
  merge_loop-disjoint =
      let (keys, rows, ran, is_merge) =
        merge_loop_lem table resolutions fuel b l r sb sl sr here-IsValid h in
      let empty : keys ≡ [] =
        nothing_found keys (λ k. is_merge.keys_conflict k ∙ rw (no_conflict k) refl) in
      (
        rows,
        ran ∙ ap (λ js. merged (map (conflict_at table resolutions b l r) js) rows) empty,
        is_merge.rows_sorted,
        (λ k e. is_merge.rows_cells k ∙ ap chosen (local_kept k e)),
        (λ k e. is_merge.rows_cells k ∙ ap chosen (remote_kept k e)),
      )
