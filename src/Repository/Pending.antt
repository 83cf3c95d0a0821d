-- ===== src/Repository/Pending.antt =====
-- common/repository/pending.go: the pending row edits of one table, as sorted runs, newest first.
pub mod Merge
pub mod Unique
pub mod Lookup
pub mod Tiers
pub mod Iter
mod Examples
use repodb.Base.{
  ℕ, zero, suc, ◌+◌, ◌*◌, compare, Ordering, Bool, true, false, Option, none, some, List, [], ◌∷◌,
  ◌++◌, leb, if◌then◌else◌, length, map,
}
use repodb.Bytes.{Bytes, compare_bytes, equal_bytes, below}
use repodb.Bytes.Sorted.{check_at, lower_bound}

-- `TypedRowEdit` of common/repository/working.go.
pub record TypedRowEdit : Type 0 where
  pub key : Bytes
  pub value : Bytes
  pub delete : Bool
  pub generation : ℕ

abbrev pub edit_key : TypedRowEdit → Bytes
edit_key e = e.key

abbrev pub PendingRun : Type 0
PendingRun = List TypedRowEdit

pub record PendingRows : Type 0 where
  pub runs : List PendingRun

abbrev pub empty_rows : PendingRows
empty_rows = record { runs = [] }

unfoldable pub is_empty : PendingRows → Bool
is_empty p = elim p.runs [ [] ↦ true | _ ↦ false ]

unfoldable pub total_length : List PendingRun → ℕ
total_length [] = 0
total_length (run ∷ runs) = length run + total_length runs

unfoldable pub len : PendingRows → ℕ
len p = total_length p.runs

-- A position of `order` with the edit that stands there.
abbrev pub Positioned : Type 0
Positioned = ℕ × TypedRowEdit

-- The comparison that `with` hands to `slices.SortFunc`.
abbrev pub compare_positions : Positioned → Positioned → Ordering
compare_positions (a, x) (b, y) = elim (compare_bytes x.key y.key) [
  | Ordering.lt ↦ Ordering.lt
  | Ordering.eq ↦ compare a b
  | Ordering.gt ↦ Ordering.gt
]

-- `for i := range order { order[i] = int32(i) }`
abbrev pub positions : ℕ → List TypedRowEdit → List Positioned
positions i [] = []
positions i (x ∷ xs) = (i, x) ∷ positions (i + 1) xs

-- `slices.SortFunc`. No two positions compare equal, so every sort has the result of this one.
abbrev pub insert_sorted : Positioned → List Positioned → List Positioned
insert_sorted p [] = p ∷ []
insert_sorted p (q ∷ qs) = elim (compare_positions p q) [
  | Ordering.lt ↦ p ∷ q ∷ qs
  | Ordering.eq ↦ p ∷ q ∷ qs
  | Ordering.gt ↦ q ∷ insert_sorted p qs
]

abbrev pub sort_positions : List Positioned → List Positioned
sort_positions [] = []
sort_positions (p ∷ ps) = insert_sorted p (sort_positions ps)

-- A later edit of the same key stands next.
abbrev pub superseded : TypedRowEdit → List Positioned → Bool
superseded x [] = false
superseded x ((j, y) ∷ rest) = equal_bytes x.key y.key

-- The loop over `order` that fills `unique`.
unfoldable pub unique_edits : ℕ → List Positioned → PendingRun
unique_edits generation [] = []
unique_edits generation ((i, x) ∷ rest) =
    if superseded x rest
    then unique_edits generation rest
    else record x { generation = generation } ∷ unique_edits generation rest

-- `mergeRuns`; its slices are what `i` and `j` have not passed.
unfoldable pub merge_runs : PendingRun → PendingRun → PendingRun
merge_runs [] older = older
merge_runs (x ∷ newer) [] = x ∷ newer
merge_runs (x ∷ newer) (y ∷ older) = elim (compare_bytes x.key y.key) [
  | Ordering.lt ↦ x ∷ merge_runs newer (y ∷ older)
  | Ordering.eq ↦ x ∷ merge_runs newer older
  | Ordering.gt ↦ y ∷ merge_runs (x ∷ newer) older
]

-- `for len(runs) > 1 && 2*len(runs[0]) >= len(runs[1])`: the newest run and the older ones.
unfoldable pub compact_runs : PendingRun → List PendingRun → List PendingRun
compact_runs run [] = run ∷ []
compact_runs run (older ∷ runs) =
    let merged = compact_runs (merge_runs run older) runs in
    if leb (length older) (2 * length run) then merged else run ∷ older ∷ runs

-- `PendingRows.with`
unfoldable pub with_generation : PendingRows → List TypedRowEdit → ℕ → PendingRows
with_generation p [] generation = p
with_generation p (x ∷ edits) generation = record {
  runs = compact_runs (unique_edits generation (sort_positions (positions 0 (x ∷ edits)))) p.runs;
}

-- `PendingRows.With`
pub with_edits : PendingRows → List TypedRowEdit → PendingRows
with_edits p edits = with_generation p edits 0

-- `PendingRows.Get`: the first run, newest first, that holds the key.
unfoldable pub get_runs : List PendingRun → Bytes → Option TypedRowEdit
get_runs [] k = none
get_runs (run ∷ runs) k = elim (check_at edit_key k run (lower_bound edit_key k run)) [
  | some e ↦ some e
  | none ↦ get_runs runs k
]

unfoldable pub get : PendingRows → Bytes → Option TypedRowEdit
get p k = get_runs p.runs k
