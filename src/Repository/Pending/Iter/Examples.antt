-- ===== src/Repository/Pending/Iter/Examples.antt =====
-- An ascending iteration over a part of two runs.
use repodb.Base.{ℕ, ◌≡◌, refl, false, some, [], ◌∷◌, arith}
use repodb.Base.Search.{search, search_list}
use repodb.Bytes.{Bytes, compare_bytes}
use repodb.Bytes.Sorted.{Sorted, find}
use repodb.Repository.Pending.{
  TypedRowEdit, PendingRun, PendingRows, edit_key, get, len, total_length,
}
use repodb.Repository.Pending.Lookup.{SortedRuns}
use repodb.Repository.Pending.Iter.{iter, drain, next, best_of}
use repodb.Repository.Pending.Iter.Range.{iter_lem, in_range, only_if}

abbrev put : ℕ → ℕ → TypedRowEdit
put k v = record { key = k ∷ []; value = v ∷ []; delete = false; generation = 0 }

abbrev two_runs : PendingRows
two_runs = record {
  runs =
      (put 2 9 ∷ put 4 9 ∷ put 6 9 ∷ [])
      ∷ (put 1 1 ∷ put 2 1 ∷ put 3 1 ∷ put 5 1 ∷ put 7 1 ∷ put 8 1 ∷ put 9 1 ∷ [])
      ∷ [];
}

two_runs-Sorted : SortedRuns two_runs.runs
unfolding compare_bytes
two_runs-Sorted = ground arith

scan :
    drain 11 (iter two_runs (3 ∷ []) (some (8 ∷ [])))
    ≡ some (put 3 1 ∷ put 4 9 ∷ put 5 1 ∷ put 6 9 ∷ put 7 1 ∷ [])
unfolding drain iter next best_of search_list search compare_bytes
scan = refl

iter_lem_example :
    (edits : PendingRun) × (drain 11 (iter two_runs (3 ∷ []) (some (8 ∷ []))) ≡ some edits)
    × Sorted edit_key edits
    × ((k : Bytes)
        → find edit_key k edits ≡ only_if (in_range (3 ∷ []) (some (8 ∷ [])) k) (get two_runs k))
unfolding len total_length
iter_lem_example = iter_lem two_runs (3 ∷ []) (some (8 ∷ [])) two_runs-Sorted 11 (omega arith)
