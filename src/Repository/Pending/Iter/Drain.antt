-- ===== src/Repository/Pending/Iter/Drain.antt =====
-- The iterator yields the merge of its runs, up to its end.
use repodb.Base.{
  ℕ, zero, suc, ◌<◌, ◌≡◌, ◌≢◌, refl, Ordering, true, false, Option, none, some, List, [], ◌∷◌,
  arith, if◌then◌else◌, length, map, get_elem?, drop, ◌∙◌, inl, inr, Bool-cases,
}
use repodb.Bytes.{Bytes, compare_bytes, equal_bytes}
use repodb.Bytes.Order.{compare_bytes_refl, eq_of_compare, lt_trans, gt_of_lt, lt_of_gt}
use repodb.Repository.Pending.{TypedRowEdit, PendingRun, merge_runs}
use repodb.Repository.Pending.Iter.{
  Cursor, PendingIter, current, better, best_of, past_end, step_if, step_cursor, next, drain,
}

-- All runs merged into one, the newest first.
unfoldable pub merge_all : List PendingRun → PendingRun
merge_all [] = []
merge_all (run ∷ runs) = merge_runs run (merge_all runs)

-- What a cursor has not passed.
abbrev pub remaining : Cursor → PendingRun
remaining (run, pos) = drop pos run

abbrev pub remainders : List Cursor → List PendingRun
remainders cursors = map remaining cursors

abbrev first_edit : PendingRun → Option TypedRowEdit
first_edit [] = none
first_edit (x ∷ xs) = some x

-- The rest of a run behind an edit of the key.
abbrev drop_key : Bytes → PendingRun → PendingRun
drop_key k [] = []
drop_key k (x ∷ xs) = if equal_bytes x.key k then xs else x ∷ xs

-- The first key of the run is not below `k`.
abbrev StartsFrom : Bytes → PendingRun → Type 0
StartsFrom k [] = Unit
StartsFrom k (x ∷ xs) = compare_bytes x.key k ≢ Ordering.lt

current-first_edit : (c : Cursor) → current c ≡ first_edit (remaining c)
current-first_edit ([], zero) = refl
current-first_edit ([], suc pos) = refl
current-first_edit (x ∷ run, zero) = refl
current-first_edit (x ∷ run, suc pos) = current-first_edit (run, pos)

step_if-suc :
    (k : Bytes) (o : Option TypedRowEdit) (pos : ℕ) → step_if k o (suc pos) ≡ suc (step_if k o pos)
step_if-suc k none pos = refl
step_if-suc k (some e) pos = ground arith

drop-step_if :
    (k : Bytes) (run : PendingRun) (pos : ℕ)
    → drop (step_if k (get_elem? run pos) pos) run ≡ drop_key k (drop pos run)
drop-step_if k [] zero = refl
drop-step_if k [] (suc pos) = refl
drop-step_if k (x ∷ run) zero = elim (Bool-cases (equal_bytes x.key k)) [
  | inl e ↦ rw e
  | inr e ↦ rw e
]
drop-step_if k (x ∷ run) (suc pos) =
    rw (step_if-suc k (get_elem? run pos) pos) (drop-step_if k run pos)

better-first_edit :
    (r m : PendingRun) → first_edit (merge_runs r m) ≡ better (first_edit r) (first_edit m)
unfolding merge_runs
better-first_edit [] [] = refl
better-first_edit [] (y ∷ m) = refl
better-first_edit (x ∷ r) [] = refl
better-first_edit (x ∷ r) (y ∷ m) = ground (
  arith,
  gt_of_lt x.key y.key,
  lt_of_gt x.key y.key,
  eq_of_compare x.key y.key,
  compare_bytes_refl y.key,
)

better_assoc : (a b c : Option TypedRowEdit) → better (better a b) c ≡ better a (better b c)
better_assoc a b none = refl
better_assoc a none (some z) = refl
better_assoc none (some y) (some z) = ground arith
better_assoc (some x) (some y) (some z) = ground (
  arith,
  lt_trans z.key y.key x.key,
  lt_trans z.key x.key y.key,
  lt_of_gt y.key x.key,
  lt_of_gt z.key y.key,
  lt_trans y.key x.key z.key,
  eq_of_compare y.key x.key,
  eq_of_compare z.key y.key,
  gt_of_lt z.key x.key,
)

-- The best edit is the first of the merged remainders.
best_of-first_edit :
    (best : Option TypedRowEdit) (cursors : List Cursor)
    → best_of best cursors ≡ better best (first_edit (merge_all (remainders cursors)))
unfolding best_of merge_all
best_of-first_edit best [] = refl
best_of-first_edit best (c ∷ cursors) =
    rw
      (
        best_of-first_edit (better best (current c)) cursors,
        better-first_edit,
        current-first_edit c,
      )
      (better_assoc best (first_edit (remaining c)) (first_edit (merge_all (remainders cursors))))

merge_runs-nil : (r : PendingRun) → merge_runs r [] ≡ r
unfolding merge_runs
merge_runs-nil [] = refl
merge_runs-nil (x ∷ r) = refl

merge-drop_key :
    (k : Bytes) (r m : PendingRun)
    → StartsFrom k r
    → StartsFrom k m
    → merge_runs (drop_key k r) (drop_key k m) ≡ drop_key k (merge_runs r m)
unfolding merge_runs
merge-drop_key k [] m a b = refl
merge-drop_key k (x ∷ r) [] a b = elim (Bool-cases (equal_bytes x.key k)) [
  | inl e ↦ rw e (merge_runs-nil r)
  | inr e ↦ rw e
]
merge-drop_key k (x ∷ r) (y ∷ m) a b = ground (
  arith,
  eq_of_compare x.key k,
  eq_of_compare y.key k,
  eq_of_compare x.key y.key,
  compare_bytes_refl k,
  compare_bytes_refl x.key,
  gt_of_lt x.key y.key,
  lt_of_gt x.key y.key,
  lt_of_gt x.key k,
  lt_of_gt y.key k,
)

StartsFrom-merge_runs :
    (k : Bytes) (r m : PendingRun) → StartsFrom k (merge_runs r m) → StartsFrom k r × StartsFrom k m
unfolding merge_runs
StartsFrom-merge_runs k [] m a = (tt, a)
StartsFrom-merge_runs k (x ∷ r) [] a = (a, tt)
StartsFrom-merge_runs k (x ∷ r) (y ∷ m) a = ground (
  arith,
  eq_of_compare x.key y.key,
  lt_trans x.key y.key k,
  lt_of_gt x.key y.key,
  lt_trans y.key x.key k,
)

-- One step of every cursor takes the key off the merged remainders.
merge_all-step :
    (k : Bytes) (cursors : List Cursor)
    → StartsFrom k (merge_all (remainders cursors))
    → merge_all (remainders (map (step_cursor k) cursors))
      ≡ drop_key k (merge_all (remainders cursors))
unfolding merge_all
merge_all-step k [] a = refl
merge_all-step k ((run, pos) ∷ cursors) a =
    let (b, c) = StartsFrom-merge_runs k (drop pos run) (merge_all (remainders cursors)) a in
    rw (drop-step_if k run pos, merge_all-step k cursors c)
      (merge-drop_key k (drop pos run) (merge_all (remainders cursors)) b c)

-- The edits before the iterator's end.
unfoldable pub cut : Option Bytes → PendingRun → PendingRun
cut end [] = []
cut end (x ∷ xs) = if past_end end x then [] else x ∷ cut end xs

better-none : (o : Option TypedRowEdit) → better none o ≡ o
better-none none = refl
better-none (some e) = refl

best-merge_all :
    (cursors : List Cursor) → best_of none cursors ≡ first_edit (merge_all (remainders cursors))
best-merge_all cursors = best_of-first_edit none cursors ∙ better-none _

next_nil : (it : PendingIter) → merge_all (remainders it.cursors) ≡ [] → next it ≡ (none, it)
unfolding next
next_nil it h = rw (next, best-merge_all it.cursors, h)

next_end :
    (it : PendingIter) (x : TypedRowEdit) (xs : PendingRun)
    → merge_all (remainders it.cursors) ≡ x ∷ xs
    → past_end it.end x ≡ true
    → (next it).0 ≡ none
unfolding next
next_end it x xs h e = rw (next, best-merge_all it.cursors, h, e)

next_cons :
    (it : PendingIter) (x : TypedRowEdit) (xs : PendingRun)
    → merge_all (remainders it.cursors) ≡ x ∷ xs
    → past_end it.end x ≡ false
    → next it ≡ (some x, record it { cursors = map (step_cursor x.key) it.cursors })
unfolding next
next_cons it x xs h e = rw (next, best-merge_all it.cursors, h, e)

next_state :
    (it : PendingIter) (x : TypedRowEdit) (xs : PendingRun)
    → merge_all (remainders it.cursors) ≡ x ∷ xs
    → past_end it.end x ≡ false
    → (next it).1 ≡ record it { cursors = map (step_cursor x.key) it.cursors }
next_state it x xs h e = rw (next_cons it x xs h e)

rest_of_step :
    (cursors : List Cursor) (x : TypedRowEdit) (xs : PendingRun)
    → merge_all (remainders cursors) ≡ x ∷ xs
    → merge_all (remainders (map (step_cursor x.key) cursors)) ≡ xs
rest_of_step cursors x xs h =
    merge_all-step x.key cursors (rw h (λ e. cc (compare_bytes_refl x.key)))
    ∙ rw h (ground (arith, compare_bytes_refl x.key))

pub drain-merge_all :
    (fuel : ℕ) (it : PendingIter) (m : PendingRun)
    → merge_all (remainders it.cursors) ≡ m
    → length m < fuel
    → drain fuel it ≡ some (cut it.end m)
unfolding drain cut
drain-merge_all zero it m e h = absurd (omega arith)
drain-merge_all (suc fuel) it [] e h = rw (drain, next_nil it e)
drain-merge_all (suc fuel) it (x ∷ m) e h = elim (Bool-cases (past_end it.end x)) [
  | inl p ↦ rw (drain, next_end it x m e p, p)
  | inr p ↦ rw (
    drain,
    next_cons it x m e p,
    next_state it x m e p,
    p,
    drain-merge_all fuel (record it { cursors = map (step_cursor x.key) it.cursors }) m
        (rest_of_step it.cursors x m e) (omega arith),
  )
]
