-- ===== src/Repository/Pending/Examples.antt =====
-- Runs of the pending rows on small inputs, and the theorems at them.
use repodb.Base.{ℕ, ◌^◌, ◌≤◌, ◌≡◌, refl, false, some, List, [], ◌∷◌, arith, length}
use repodb.Base.Search.{search, search_list}
use repodb.Bytes.{compare_bytes}
use repodb.Bytes.Sorted.{check_at}
use repodb.Repository.Pending.{
  TypedRowEdit, PendingRows, empty_rows, compact_runs, with_generation, unique_edits, get, get_runs,
  len,
}
use repodb.Repository.Pending.Merge.{or_else}
use repodb.Repository.Pending.Unique.{last_edit, stamp}
use repodb.Repository.Pending.Lookup.{SortedRuns, with_generation-Sorted, get-with_generation}
use repodb.Repository.Pending.Tiers.{
  IsTiered, with_generation-IsTiered, History, with_all, with_all-bounds,
}

abbrev put : ℕ → ℕ → TypedRowEdit
put k v = record { key = k ∷ []; value = v ∷ []; delete = false; generation = 0 }

abbrev first_edits : List TypedRowEdit
first_edits = put 3 1 ∷ put 1 1 ∷ put 3 2 ∷ put 2 1 ∷ put 5 1 ∷ []

-- A run of three edits and an older one of seven.
abbrev two_runs : PendingRows
two_runs = record {
  runs =
      (put 2 9 ∷ put 4 9 ∷ put 6 9 ∷ [])
      ∷ (put 1 1 ∷ put 2 1 ∷ put 3 1 ∷ put 5 1 ∷ put 7 1 ∷ put 8 1 ∷ put 9 1 ∷ [])
      ∷ [];
}

sorts_and_drops :
    (with_generation empty_rows first_edits 4).runs
    ≡ (record (put 1 1) { generation = 4 }
        ∷ record (put 2 1) { generation = 4 }
        ∷ record (put 3 2) { generation = 4 }
        ∷ record (put 5 1) { generation = 4 }
        ∷ [])
      ∷ []
unfolding with_generation unique_edits compact_runs compare_bytes
sorts_and_drops = refl

newest_wins : get two_runs (2 ∷ []) ≡ some (put 2 9)
unfolding get get_runs check_at search_list search compare_bytes
newest_wins = refl

two_runs-Sorted : SortedRuns two_runs.runs
unfolding compare_bytes
two_runs-Sorted = ground arith

two_runs-IsTiered : IsTiered two_runs
two_runs-IsTiered = omega arith

with_generation-Sorted_example : SortedRuns (with_generation two_runs first_edits 4).runs
with_generation-Sorted_example = with_generation-Sorted two_runs first_edits 4 two_runs-Sorted

get-with_generation_example :
    get (with_generation two_runs first_edits 4) (3 ∷ [])
    ≡ or_else (stamp 4 (last_edit (3 ∷ []) first_edits)) (get two_runs (3 ∷ []))
get-with_generation_example = get-with_generation two_runs first_edits 4 (3 ∷ []) two_runs-Sorted

with_generation-IsTiered_example : IsTiered (with_generation two_runs first_edits 4)
with_generation-IsTiered_example = with_generation-IsTiered two_runs first_edits 4 two_runs-IsTiered

-- A batch of five edits of four keys, then one of two edits of one key.
abbrev two_batches : History
two_batches = (put 3 7 ∷ put 3 8 ∷ [], 2) ∷ (first_edits, 1) ∷ []

two_batches_runs :
    ((with_all two_batches).runs
      ≡ (record (put 3 8) { generation = 2 } ∷ [])
        ∷ (record (put 1 1) { generation = 1 }
            ∷ record (put 2 1) { generation = 1 }
            ∷ record (put 3 2) { generation = 1 }
            ∷ record (put 5 1) { generation = 1 }
            ∷ [])
        ∷ [])
unfolding with_generation unique_edits compact_runs compare_bytes
two_batches_runs = refl

with_all-bounds_example :
    (len (with_all two_batches) ≤ 7) × (2 ^ length (with_all two_batches).runs ≤ 8)
with_all-bounds_example = with_all-bounds two_batches
