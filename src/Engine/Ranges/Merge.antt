-- ===== src/Engine/Ranges/Merge.antt =====
-- `mergeIntervals` of engine/ranges.go, and `rangeIntervals` for a collection of ranges.
pub mod Cover
pub mod Apart
pub mod Rows
use repodb.Base.{
  Bool, true, false, Option, none, some, List, [], ◌∷◌, ◌&&◌, ◌||◌, not, if◌then◌else◌, length, ltb,
}
use repodb.Bytes.{Bytes, below}
use repodb.Engine.KeyCodec.Column.{ColumnType, KeyValue}
use repodb.Engine.Ranges.{KeyInterval, is_empty_interval}
use repodb.Engine.Ranges.Cuts.{RangeColumn, Found, range_error, no_key, found, range_interval}

-- `sort.Slice` by start. Go's sort is not stable, and neither is any of what follows sensitive to it.
pub insert_interval : KeyInterval → List KeyInterval → List KeyInterval
insert_interval iv [] = iv ∷ []
insert_interval iv (j ∷ intervals) =
    let rest = insert_interval iv intervals in
    if below j.start iv.start then j ∷ rest else iv ∷ j ∷ intervals

pub sort_intervals : List KeyInterval → List KeyInterval
sort_intervals [] = []
sort_intervals (iv ∷ intervals) = insert_interval iv (sort_intervals intervals)

-- `last.end != nil && bytes.Compare(start, last.end) > 0`
abbrev pub is_past : Option Bytes → Bytes → Bool
is_past none start = false
is_past (some end) start = below end start

-- `last.end != nil && (end == nil || bytes.Compare(end, last.end) > 0)`, and then the end is the new one.
abbrev pub later_end : Option Bytes → Option Bytes → Option Bytes
later_end none end = none
later_end (some last) none = none
later_end (some last) (some end) = if below last end then some end else some last

-- The loop of `mergeIntervals`, with the last interval of `out` apart.
pub merge_from : KeyInterval → List KeyInterval → List KeyInterval
merge_from last [] = last ∷ []
merge_from last (iv ∷ intervals) =
    let apart = merge_from iv intervals in
    let joined =
      merge_from (record { start = last.start; end = later_end last.end iv.end }) intervals in
    if is_past last.end iv.start then last ∷ apart else joined

abbrev pub merge_sorted : List KeyInterval → List KeyInterval
merge_sorted [] = []
merge_sorted (iv ∷ intervals) = merge_from iv intervals

-- `mergeIntervals`; sorting and merging leave fewer than two intervals as they are.
pub merge_intervals : List KeyInterval → List KeyInterval
merge_intervals intervals = merge_sorted (sort_intervals intervals)

module _ {K : Type 0} (convert : ColumnType → K → Option KeyValue) (deep_equal : K → K → Bool)
    (nullable : Bool) (types : List ColumnType) where
  -- One range in the loop of `rangeIntervals`: what it adds.
  abbrev pub added : Found KeyInterval → List KeyInterval → Option (List KeyInterval)
  added range_error out = none
  added no_key out = some out
  added (found iv) out = some (if is_empty_interval iv then out else iv ∷ out)

  -- The loop of `rangeIntervals`, which appends to what the ranges before have added.
  pub collect_intervals : List (List (RangeColumn K)) → Option (List KeyInterval)
  collect_intervals [] = some []
  collect_intervals (range ∷ ranges) =
      if ltb (length types) (length range) then none else (elim (collect_intervals ranges) [
        | none ↦ none
        | some out ↦ added (range_interval convert deep_equal nullable types range) out
      ])

  -- `rangeIntervals`: `none` for its errors.
  pub range_intervals : List (List (RangeColumn K)) → Option (List KeyInterval)
  range_intervals ranges = elim (collect_intervals ranges) [
    | none ↦ none
    | some out ↦ some (merge_intervals out)
  ]
