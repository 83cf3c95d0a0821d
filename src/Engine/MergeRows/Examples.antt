-- ===== src/Engine/MergeRows/Examples.antt =====
-- The merge of a few rows: one changed on each side, one in conflict, one deleted.
use repodb.Base.{
  ℕ, ◌≡◌, ◌≢◌, ◌↔◌, refl, Bool, true, false, some, none, List, [], ◌∷◌, arith, map, if◌then◌else◌,
  Bool-cases, inl, inr, ◌⊎◌,
}
use repodb.Bytes.{Bytes, compare_bytes, equal_bytes}
use repodb.Bytes.Assoc.{lookup}
use repodb.Bytes.Sorted.{Sorted, find}
use repodb.Prolly.{Entry, entry_key}
use repodb.Engine.MergeRows.{
  take_local, Cell, decide, conflict, same_value, merged, merge_loop, take, Decision,
}
use repodb.Engine.MergeRows.Cursors.{cell}
use repodb.Engine.MergeRows.Disjoint.{merge_loop-disjoint}
use repodb.Engine.MergeRows.FastForward.{merge_loop-fast_forward}
use repodb.Engine.MergeRows.Symmetry.{decide-mirrored, decide-conflict, mirrored}
use repodb.Engine.MergeRows.Spec.{collect, conflict_at, decision, IsMerge}
use repodb.Engine.MergeRows.Pointwise.{IsValid, merge_loop_lem}

abbrev entry : ℕ → ℕ → Entry
entry k v = record { key = k ∷ []; value = v ∷ [] }

abbrev base_rows : List Entry
base_rows = entry 1 1 ∷ entry 2 1 ∷ entry 3 1 ∷ []

-- Row 1 is changed, row 2 changed too, row 3 kept.
abbrev local_rows : List Entry
local_rows = entry 1 5 ∷ entry 2 5 ∷ entry 3 1 ∷ []

-- Row 2 is changed in another way, row 3 deleted, row 4 added.
abbrev remote_rows : List Entry
remote_rows = entry 1 1 ∷ entry 2 6 ∷ entry 4 1 ∷ []

three_versions :
    merge_loop collect (b't' ∷ []) [] 10 base_rows local_rows remote_rows [] []
    ≡ merged
        (map (conflict_at (b't' ∷ []) [] base_rows local_rows remote_rows) ((2 ∷ []) ∷ []))
        (entry 1 5 ∷ entry 4 1 ∷ [])
unfolding merge_loop decide same_value lookup find compare_bytes
three_versions = refl

IsValid-of : (b l r : Cell) → IsValid (decide none b l r)
unfolding decide
IsValid-of b l r =
    either (same_value l r) (take l) _ tt
      (either (same_value l b) (take r) _ tt (either (same_value r b) (take l) _ tt tt))
  where
    either : (c : Bool) (d e : Decision) → IsValid d → IsValid e → IsValid (if c then d else e)
    either true d e v w = v
    either false d e v w = w

rows-IsValid : (k : Bytes) → IsValid (decision (b't' ∷ []) [] k base_rows local_rows remote_rows)
rows-IsValid k = unfold lookup in IsValid-of _ _ _

base-Sorted : Sorted entry_key base_rows
unfolding compare_bytes
base-Sorted = ground arith

local-Sorted : Sorted entry_key local_rows
unfolding compare_bytes
local-Sorted = ground arith

remote-Sorted : Sorted entry_key remote_rows
unfolding compare_bytes
remote-Sorted = ground arith

merge_loop_lem_example :
    (keys : List Bytes) × (rows : List Entry) × (merge_loop collect
        (b't' ∷ [])
        []
        10
        base_rows
        local_rows
        remote_rows
        []
        []
      ≡ merged (map (conflict_at (b't' ∷ []) [] base_rows local_rows remote_rows) keys) rows)
    × IsMerge (b't' ∷ []) [] base_rows local_rows remote_rows keys rows
merge_loop_lem_example =
    merge_loop_lem (b't' ∷ []) [] 10 base_rows local_rows remote_rows base-Sorted local-Sorted
      remote-Sorted rows-IsValid (omega arith)

-- Row 1 is changed here, row 3 deleted and row 4 added there.
abbrev one_changed : List Entry
one_changed = entry 1 5 ∷ entry 2 1 ∷ entry 3 1 ∷ []

abbrev two_changed : List Entry
two_changed = entry 1 1 ∷ entry 2 1 ∷ entry 4 1 ∷ []

both_kept :
    merge_loop collect (b't' ∷ []) [] 10 base_rows one_changed two_changed [] []
    ≡ merged [] (entry 1 5 ∷ entry 2 1 ∷ entry 4 1 ∷ [])
unfolding merge_loop decide same_value lookup find compare_bytes
both_kept = refl

one_changed-Sorted : Sorted entry_key one_changed
unfolding compare_bytes
one_changed-Sorted = ground arith

two_changed-Sorted : Sorted entry_key two_changed
unfolding compare_bytes
two_changed-Sorted = ground arith

changes_disjoint :
    (k : Bytes) → (cell k one_changed ≡ cell k base_rows) ⊎ (cell k two_changed ≡ cell k base_rows)
unfolding find
changes_disjoint k = elim (Bool-cases (equal_bytes (1 ∷ []) k)) [
  | inl e ↦ inr (rw e refl)
  | inr e ↦ inl (rw e refl)
]

merge_loop-disjoint_example :
    (rows : List Entry) × (merge_loop collect
        (b't' ∷ [])
        []
        10
        base_rows
        one_changed
        two_changed
        []
        []
      ≡ merged [] rows)
    × Sorted entry_key rows
    × ((k : Bytes) → cell k one_changed ≡ cell k base_rows → cell k rows ≡ cell k two_changed)
    × ((k : Bytes) → cell k two_changed ≡ cell k base_rows → cell k rows ≡ cell k one_changed)
merge_loop-disjoint_example =
    merge_loop-disjoint (b't' ∷ []) [] 10 base_rows one_changed two_changed base-Sorted
      one_changed-Sorted two_changed-Sorted changes_disjoint (omega arith)

merge_loop-fast_forward_example :
    (merge_loop collect (b't' ∷ []) [] 10 base_rows base_rows two_changed [] []
      ≡ merged [] two_changed)
    × (merge_loop collect (b't' ∷ []) [] 10 base_rows two_changed base_rows [] []
        ≡ merged [] two_changed)
merge_loop-fast_forward_example =
    merge_loop-fast_forward (b't' ∷ []) [] 10 base_rows two_changed base-Sorted two_changed-Sorted
      (omega arith)

decide-mirrored_example :
    decide (mirrored (some take_local)) (some (1 ∷ [])) (some (3 ∷ [])) (some (2 ∷ []))
    ≡ decide (some take_local) (some (1 ∷ [])) (some (2 ∷ [])) (some (3 ∷ []))
decide-mirrored_example =
    decide-mirrored (some take_local) (some (1 ∷ [])) (some (2 ∷ [])) (some (3 ∷ []))

-- The local clone deleted what the remote clone changed.
abbrev gone : Cell
gone = none

abbrev one : Cell
one = some (1 ∷ [])

abbrev two : Cell
two = some (2 ∷ [])

decide-conflict_example :
    (decide none one gone two ≡ conflict) ↔ ((gone ≢ two) × (gone ≢ one) × (two ≢ one))
decide-conflict_example = decide-conflict one gone two
