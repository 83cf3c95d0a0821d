-- ===== src/Repository/Pending/Iter/Range.antt =====
-- The iterator over [start, end) yields, in key order, the newest edit of each key in the range.
use repodb.Base.{
  ℕ, ◌≤◌, ◌<◌, ◌≡◌, refl, Bool, true, false, Option, none, some, List, [], ◌∷◌, arith, length,
  length-drop, map, drop, ap, sym, inl, inr, Bool-cases, ◌&&◌,
}
use repodb.Bytes.{Bytes, at_least, below}
use repodb.Bytes.Order.{eq_of_compare, lt_trans, gt_of_lt, lt_of_gt}
use repodb.Bytes.Sorted.{Above, Sorted, find, find-Above, lower_bound, lower_bound-first_index}
use repodb.Base.Search.{first_index}
use repodb.Repository.Pending.{
  TypedRowEdit, PendingRun, PendingRows, edit_key, total_length, len, get, get_runs,
}
use repodb.Repository.Pending.Merge.{or_else, merge_runs-Sorted, find-merge_runs, length-merge_runs}
use repodb.Repository.Pending.Lookup.{SortedRuns, get_runs-cons}
use repodb.Repository.Pending.Iter.{iter, drain}
use repodb.Repository.Pending.Iter.Drain.{merge_all, remainders, cut, drain-merge_all}

-- A key lies in [start, end).
abbrev pub in_range : Bytes → Option Bytes → Bytes → Bool
in_range start none k = at_least k start
in_range start (some end) k = at_least k start && below k end

abbrev pub only_if : Bool → Option TypedRowEdit → Option TypedRowEdit
only_if true o = o
only_if false o = none

abbrev from_start : Bytes → PendingRun → PendingRun
from_start start run = drop (lower_bound edit_key start run) run

abbrev drop_first : Bytes → PendingRun → PendingRun
drop_first start run = drop (first_index (λ x. at_least (edit_key x) start) run) run

drop_first-Sorted :
    (start : Bytes) (run : PendingRun)
    → Sorted edit_key run
    → Sorted edit_key (drop_first start run)
unfolding first_index
drop_first-Sorted start [] s = tt
drop_first-Sorted start (x ∷ run) s = elim (Bool-cases (at_least x.key start)) [
  | inl e ↦ rw e s
  | inr e ↦ rw e (drop_first-Sorted start run s.1)
]

find-drop_first :
    (start k : Bytes) (run : PendingRun)
    → Sorted edit_key run
    → find edit_key k (drop_first start run) ≡ only_if (at_least k start) (find edit_key k run)
unfolding first_index find
find-drop_first start k [] s = ground arith
find-drop_first start k (x ∷ run) s = elim (Bool-cases (at_least x.key start)) [
  | inl e ↦ rw e (
      ground (
        arith,
        e,
        find-Above edit_key x.key k run s.0,
        eq_of_compare x.key k,
        lt_trans k start x.key,
        gt_of_lt k x.key,
        lt_of_gt x.key start,
        eq_of_compare x.key start,
        lt_of_gt x.key k,
      ))
  | inr e ↦ rw e (ground (arith, e, find-drop_first start k run s.1, eq_of_compare x.key k))
]

merge_all-Sorted : (runs : List PendingRun) → SortedRuns runs → Sorted edit_key (merge_all runs)
unfolding merge_all
merge_all-Sorted [] s = tt
merge_all-Sorted (run ∷ runs) s =
    merge_runs-Sorted run (merge_all runs) s.0 (merge_all-Sorted runs s.1)

starts-Sorted :
    (start : Bytes) (runs : List PendingRun)
    → SortedRuns runs
    → SortedRuns (map (drop_first start) runs)
starts-Sorted start [] s = tt
starts-Sorted start (run ∷ runs) s = (drop_first-Sorted start run s.0, starts-Sorted start runs s.1)

only_if-or_else :
    (b : Bool) (o p : Option TypedRowEdit)
    → or_else (only_if b o) (only_if b p) ≡ only_if b (or_else o p)
only_if-or_else true o p = refl
only_if-or_else false o p = refl

only_if-none : (b : Bool) → only_if b none ≡ none
only_if-none true = refl
only_if-none false = refl

find-starts :
    (start k : Bytes) (runs : List PendingRun)
    → SortedRuns runs
    → find edit_key k (merge_all (map (drop_first start) runs))
      ≡ only_if (at_least k start) (get_runs runs k)
unfolding merge_all
find-starts start k [] s = unfold find get_runs in sym (only_if-none (at_least k start))
find-starts start k (run ∷ runs) s =
    rw
      (
        merge_all,
        find-merge_runs k (drop_first start run) (merge_all (map (drop_first start) runs))
            (drop_first-Sorted start run s.0) (merge_all-Sorted _ (starts-Sorted start runs s.1)),
        find-drop_first start k run s.0,
        find-starts start k runs s.1,
        get_runs-cons k run runs s.0,
      )
      (only_if-or_else (at_least k start) (find edit_key k run) (get_runs runs k))

-- The cursors of `iter` stand at the first edits that are not below the start.
remainders-iter :
    (start : Bytes) (runs : List PendingRun)
    → SortedRuns runs
    → remainders (map (λ run. (run, lower_bound edit_key start run)) runs)
      ≡ map (drop_first start) runs
remainders-iter start [] s = refl
remainders-iter start (run ∷ runs) s =
    rw (lower_bound-first_index edit_key start run s.0, remainders-iter start runs s.1)

abbrev before_end : Option Bytes → Bytes → Bool
before_end none k = true
before_end (some end) k = below k end

cut-Above :
    (k : Bytes) (end : Option Bytes) (m : PendingRun)
    → Above edit_key k m
    → Above edit_key k (cut end m)
unfolding cut
cut-Above k end [] a = tt
cut-Above k end (x ∷ m) a = ground (arith, cut-Above k end m a.1, a.0)

cut-Sorted : (end : Option Bytes) (m : PendingRun) → Sorted edit_key m → Sorted edit_key (cut end m)
unfolding cut
cut-Sorted end [] s = tt
cut-Sorted end (x ∷ m) s = ground (arith, cut-Sorted end m s.1, cut-Above x.key end m s.0)

find-cut :
    (end : Option Bytes) (k : Bytes) (m : PendingRun)
    → Sorted edit_key m
    → find edit_key k (cut end m) ≡ only_if (before_end end k) (find edit_key k m)
unfolding cut find
find-cut none k [] s = refl
find-cut none k (x ∷ m) s = ground (arith, find-cut none k m s.1)
find-cut (some end) k [] s = ground arith
find-cut (some end) k (x ∷ m) s = ground (
  arith,
  find-cut (some end) k m s.1,
  find-Above edit_key x.key k m s.0,
  eq_of_compare x.key k,
  eq_of_compare x.key end,
  lt_of_gt x.key end,
  lt_of_gt x.key k,
  lt_trans k end x.key,
  gt_of_lt k x.key,
)

length-starts :
    (start : Bytes) (runs : List PendingRun)
    → length (merge_all (map (drop_first start) runs)) ≤ total_length runs
unfolding merge_all total_length
length-starts start [] = omega arith
length-starts start (run ∷ runs) = omega (
  arith,
  length-merge_runs (drop_first start run) (merge_all (map (drop_first start) runs)),
  length-starts start runs,
  length-drop (first_index (λ x. at_least (edit_key x) start) run) run,
)

in_range-split :
    (start : Bytes) (end : Option Bytes) (k : Bytes) (o : Option TypedRowEdit)
    → only_if (before_end end k) (only_if (at_least k start) o) ≡ only_if (in_range start end k) o
in_range-split start none k o = refl
in_range-split start (some end) k o = ground arith

module _ (p : PendingRows) (start : Bytes) (end : Option Bytes) (sorted : SortedRuns p.runs) where
  abbrev scanned : PendingRun
  scanned = cut end (merge_all (map (drop_first start) p.runs))

  drain-iter : (fuel : ℕ) → len p < fuel → drain fuel (iter p start end) ≡ some scanned
  unfolding len iter
  drain-iter fuel h =
      drain-merge_all fuel (iter p start end) (merge_all (map (drop_first start) p.runs))
        (ap merge_all (remainders-iter start p.runs sorted))
        (omega (arith, length-starts start p.runs))

  find-scanned : (k : Bytes) → find edit_key k scanned ≡ only_if (in_range start end k) (get p k)
  unfolding get
  find-scanned k =
      rw
        (
          find-cut end k (merge_all (map (drop_first start) p.runs))
              (merge_all-Sorted _ (starts-Sorted start p.runs sorted)),
          find-starts start k p.runs sorted,
        )
        (in_range-split start end k (get_runs p.runs k))

  -- If the runs are sorted, a client that calls `Next` often enough (more than `Len` times) collects
  -- edits in strictly increasing key order, and they are for each key the edit that `Get` returns if
  -- the key lies in [start, end), and no edit otherwise.
  pub iter_lem :
      (fuel : ℕ)
      → len p < fuel
      → (edits : PendingRun) × (drain fuel (iter p start end) ≡ some edits)
        × Sorted edit_key edits
        × ((k : Bytes) → find edit_key k edits ≡ only_if (in_range start end k) (get p k))
  iter_lem fuel h = (
    scanned,
    drain-iter fuel h,
    cut-Sorted end _ (merge_all-Sorted _ (starts-Sorted start p.runs sorted)),
    find-scanned,
  )
