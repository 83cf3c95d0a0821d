-- ===== src/Repository/Pending/Iter.antt =====
-- `PendingIter` of common/repository/pending.go, ascending: a merge of the runs by cursors.
pub mod Drain
pub mod Range
mod Examples
use repodb.Base.{
  ℕ, zero, suc, ◌+◌, Bool, true, false, Option, none, some, List, [], ◌∷◌, if◌then◌else◌, length,
  map, get_elem?,
}
use repodb.Bytes.{Bytes, equal_bytes, below, at_least}
use repodb.Bytes.Sorted.{lower_bound}
use repodb.Repository.Pending.{TypedRowEdit, PendingRun, PendingRows, edit_key}

-- A run with the next index in it: `it.runs[r]` and `it.pos[r]`.
abbrev pub Cursor : Type 0
Cursor = PendingRun × ℕ

pub record PendingIter : Type 0 where
  pub cursors : List Cursor
  -- `none` is Go's nil: no upper bound.
  pub end : Option Bytes

-- `PendingRows.Iter`
pub iter : PendingRows → Bytes → Option Bytes → PendingIter
iter p start end = record {
  cursors = map (λ run. (run, lower_bound edit_key start run)) p.runs;
  end = end;
}

-- The edit at a cursor; `none` when the run is exhausted.
abbrev pub current : Cursor → Option TypedRowEdit
current (run, pos) = get_elem? run pos

-- On equal keys the earlier run, which is newer, keeps its place as the best.
abbrev pub better : Option TypedRowEdit → Option TypedRowEdit → Option TypedRowEdit
better best none = best
better none (some e) = some e
better (some b) (some e) = if below e.key b.key then some e else some b

-- The loop that finds `best`, as the edit that stands there.
pub best_of : Option TypedRowEdit → List Cursor → Option TypedRowEdit
best_of best [] = best
best_of best (c ∷ cursors) = best_of (better best (current c)) cursors

abbrev pub past_end : Option Bytes → TypedRowEdit → Bool
past_end none e = false
past_end (some end) e = at_least e.key end

-- Every cursor that stands at the key moves on.
abbrev pub step_if : Bytes → Option TypedRowEdit → ℕ → ℕ
step_if k none pos = pos
step_if k (some e) pos = if equal_bytes e.key k then pos + 1 else pos

abbrev pub step_cursor : Bytes → Cursor → Cursor
step_cursor k (run, pos) = (run, step_if k (get_elem? run pos) pos)

-- `PendingIter.Next`
pub next : PendingIter → Option TypedRowEdit × PendingIter
next it = elim (best_of none it.cursors) [
  | none ↦ (none, it)
  | some e ↦
      if past_end it.end e
      then (none, record it { cursors = map (λ c. (c.0, length c.0)) it.cursors })
      else (some e, record it { cursors = map (step_cursor e.key) it.cursors })
]

-- What a client collects that calls `Next` until it answers `ok=false`; `none` without enough fuel.
abbrev pub prepend : TypedRowEdit → Option (List TypedRowEdit) → Option (List TypedRowEdit)
prepend e none = none
prepend e (some edits) = some (e ∷ edits)

pub drain : ℕ → PendingIter → Option (List TypedRowEdit)
drain zero it = none
drain (suc fuel) it =
    let (answer, rest) = next it in
    elim answer [ none ↦ some [] | some e ↦ prepend e (drain fuel rest) ]
