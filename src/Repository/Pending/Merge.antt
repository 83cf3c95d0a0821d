-- ===== src/Repository/Pending/Merge.antt =====
-- `mergeRuns`: the merged run is sorted, and the newer run wins.
use repodb.Base.{◌+◌, ◌≤◌, ◌≡◌, refl, Option, none, some, [], ◌∷◌, arith, length}
use repodb.Bytes.{Bytes}
use repodb.Bytes.Order.{eq_of_compare, gt_of_lt, lt_of_gt}
use repodb.Bytes.Sorted.{Above, Sorted, find, Above-weaken, find-Above}
use repodb.Repository.Pending.{TypedRowEdit, PendingRun, edit_key, merge_runs}

abbrev pub or_else : Option TypedRowEdit → Option TypedRowEdit → Option TypedRowEdit
or_else none o = o
or_else (some e) o = some e

abbrev find_edit : Bytes → PendingRun → Option TypedRowEdit
find_edit = find edit_key

pub merge_runs-Above :
    (k : Bytes) (newer older : PendingRun)
    → Above edit_key k newer
    → Above edit_key k older
    → Above edit_key k (merge_runs newer older)
unfolding merge_runs
merge_runs-Above k [] older a b = b
merge_runs-Above k (x ∷ newer) [] a b = a
merge_runs-Above k (x ∷ newer) (y ∷ older) a b = ground (
  arith,
  merge_runs-Above k newer (y ∷ older) a.1 b,
  merge_runs-Above k newer older a.1 b.1,
  merge_runs-Above k (x ∷ newer) older a b.1,
)

pub merge_runs-Sorted :
    (newer older : PendingRun)
    → Sorted edit_key newer
    → Sorted edit_key older
    → Sorted edit_key (merge_runs newer older)
unfolding merge_runs
merge_runs-Sorted [] older s t = t
merge_runs-Sorted (x ∷ newer) [] s t = s
merge_runs-Sorted (x ∷ newer) (y ∷ older) s t = ground (
  arith,
  merge_runs-Sorted newer (y ∷ older) s.1 t,
  merge_runs-Sorted newer older s.1 t.1,
  merge_runs-Sorted (x ∷ newer) older s t.1,
  merge_runs-Above x.key newer (y ∷ older) s.0,
  merge_runs-Above x.key newer older s.0,
  merge_runs-Above y.key (x ∷ newer) older,
  Above-weaken edit_key x.key y.key older,
  Above-weaken edit_key y.key x.key newer,
  lt_of_gt x.key y.key,
  t.0,
  s.0,
)

pub find-merge_runs :
    (k : Bytes) (newer older : PendingRun)
    → Sorted edit_key newer
    → Sorted edit_key older
    → find_edit k (merge_runs newer older) ≡ or_else (find_edit k newer) (find_edit k older)
unfolding merge_runs find
find-merge_runs k [] older s t = refl
find-merge_runs k (x ∷ newer) [] s t = ground arith
find-merge_runs k (x ∷ newer) (y ∷ older) s t = ground (
  arith,
  find-merge_runs k newer (y ∷ older) s.1 t,
  find-merge_runs k newer older s.1 t.1,
  find-merge_runs k (x ∷ newer) older s t.1,
  find-Above edit_key x.key k newer s.0,
  eq_of_compare x.key y.key,
  eq_of_compare y.key k,
  lt_of_gt x.key k,
  gt_of_lt k x.key,
)

pub length-merge_runs :
    (newer older : PendingRun)
    → (length newer ≤ length (merge_runs newer older))
      × (length (merge_runs newer older) ≤ length newer + length older)
unfolding merge_runs
length-merge_runs [] older = omega arith
length-merge_runs (x ∷ newer) [] = omega arith
length-merge_runs (x ∷ newer) (y ∷ older) = ground (
  arith,
  length-merge_runs newer (y ∷ older),
  length-merge_runs newer older,
  length-merge_runs (x ∷ newer) older,
)
