-- ===== src/Repository/Pending/Lookup.antt =====
-- `Get` after `With`: the last edit of the transaction wins over the pending ones.
use repodb.Base.{
  ℕ, ◌≡◌, refl, Option, none, some, List, [], ◌∷◌, arith, All, ap, ◌∙◌, Bool-cases, inl, inr, leb,
  ◌*◌, length,
}
use repodb.Bytes.{Bytes}
use repodb.Bytes.Sorted.{Sorted, find, check_at-lower_bound}
use repodb.Repository.Pending.{
  TypedRowEdit, PendingRun, PendingRows, edit_key, compact_runs, with_generation, get_runs, get,
  merge_runs, empty_rows,
}
use repodb.Repository.Pending.Merge.{or_else, find-merge_runs, merge_runs-Sorted}
use repodb.Repository.Pending.Unique.{last_edit, stamp, new_run, new_run-Sorted, find-new_run}

abbrev pub SortedRuns : List PendingRun → Type 0
SortedRuns = All (λ run. Sorted edit_key run)

or_else_assoc : (a b c : Option TypedRowEdit) → or_else (or_else a b) c ≡ or_else a (or_else b c)
or_else_assoc none b c = refl
or_else_assoc (some x) b c = refl

pub get_runs-cons :
    (k : Bytes) (run : PendingRun) (runs : List PendingRun)
    → Sorted edit_key run
    → get_runs (run ∷ runs) k ≡ or_else (find edit_key k run) (get_runs runs k)
unfolding get_runs
get_runs-cons k run runs s = rw (get_runs, check_at-lower_bound edit_key k run s) (ground arith)

-- Compacting the runs changes no lookup.
get-compact_runs :
    (k : Bytes) (run : PendingRun) (runs : List PendingRun)
    → Sorted edit_key run
    → SortedRuns runs
    → get_runs (compact_runs run runs) k ≡ or_else (find edit_key k run) (get_runs runs k)
unfolding compact_runs
get-compact_runs k run [] s t = get_runs-cons k run [] s
get-compact_runs k run (older ∷ runs) s t =
    elim (Bool-cases (leb (length older) (2 * length run))) [
      | inl e ↦
          rw
            (
              e,
              get-compact_runs k (merge_runs run older) runs (merge_runs-Sorted run older s t.0)
                  t.1,
              find-merge_runs k run older s t.0,
              get_runs-cons k older runs t.0,
            )
            (or_else_assoc (find edit_key k run) (find edit_key k older) (get_runs runs k))
      | inr e ↦ rw e (get_runs-cons k run (older ∷ runs) s)
    ]

compact_runs-Sorted :
    (run : PendingRun) (runs : List PendingRun)
    → Sorted edit_key run
    → SortedRuns runs
    → SortedRuns (compact_runs run runs)
unfolding compact_runs
compact_runs-Sorted run [] s t = (s, tt)
compact_runs-Sorted run (older ∷ runs) s t = ground (
  arith,
  compact_runs-Sorted (merge_runs run older) runs (merge_runs-Sorted run older s t.0) t.1,
  t.0,
  t.1,
)

-- If every run of a set is sorted by key with unique keys, so is every run after `with`.
pub with_generation-Sorted :
    (p : PendingRows) (edits : List TypedRowEdit) (g : ℕ)
    → SortedRuns p.runs
    → SortedRuns (with_generation p edits g).runs
unfolding with_generation
with_generation-Sorted p [] g s = s
with_generation-Sorted p (x ∷ edits) g s =
    compact_runs-Sorted (new_run g (x ∷ edits)) p.runs (new_run-Sorted g (x ∷ edits)) s

-- On sorted runs, after `with` a lookup of any key returns the last of the new edits of that key,
-- with the new generation, and if there is none what the lookup returned before.
pub get-with_generation :
    (p : PendingRows) (edits : List TypedRowEdit) (g : ℕ) (k : Bytes)
    → SortedRuns p.runs
    → get (with_generation p edits g) k ≡ or_else (stamp g (last_edit k edits)) (get p k)
unfolding with_generation get last_edit
get-with_generation p [] g k s = refl
get-with_generation p (x ∷ edits) g k s =
    get-compact_runs k (new_run g (x ∷ edits)) p.runs (new_run-Sorted g (x ∷ edits)) s
    ∙ ap (λ o. or_else o (get_runs p.runs k)) (find-new_run g (x ∷ edits) k)

pub get-empty_rows : (k : Bytes) → get empty_rows k ≡ none
unfolding get get_runs
get-empty_rows k = refl
