-- ===== src/Repository/Pending/Tiers.antt =====
-- The size tiers of the pending runs, and how many there are of them.
use repodb.Base.{ℕ, zero, suc, ◌+◌, ◌*◌, ◌^◌, ◌≤◌, ◌<◌, ◌≡◌, refl, ap, List, [], ◌∷◌, arith, length}
use native.Mathlib.Nat.{pow-suc}
use repodb.Repository.Pending.{
  TypedRowEdit, PendingRun, PendingRows, empty_rows, total_length, len, compact_runs,
  with_generation, merge_runs, positions, sort_positions, insert_sorted, unique_edits, Positioned,
}
use repodb.Repository.Pending.Merge.{length-merge_runs}

-- The newest run has more than `n` edits, and each run more than twice those of the newer one.
abbrev Tiered : ℕ → List PendingRun → Type 0
Tiered n [] = Unit
Tiered n (run ∷ runs) = (n < length run) × Tiered (2 * length run) runs

abbrev pub IsTiered : PendingRows → Type 0
IsTiered p = Tiered 0 p.runs

Tiered-weaken : (m n : ℕ) (runs : List PendingRun) → m ≤ n → Tiered n runs → Tiered m runs
Tiered-weaken m n [] h t = tt
Tiered-weaken m n (run ∷ runs) h t = (omega arith, t.1)

compact_runs-Tiered :
    (run : PendingRun) (runs : List PendingRun)
    → 0 < length run
    → Tiered 0 runs
    → Tiered 0 (compact_runs run runs)
unfolding compact_runs
compact_runs-Tiered run [] h t = (h, tt)
compact_runs-Tiered run (older ∷ runs) h t = ground (
  arith,
  length-merge_runs run older,
  compact_runs-Tiered (merge_runs run older) runs (omega (arith, length-merge_runs run older))
      (Tiered-weaken 0 (2 * length older) runs (omega arith) t.1),
  t.1,
)

length-insert_sorted :
    (p : Positioned) (ps : List Positioned) → length (insert_sorted p ps) ≡ suc (length ps)
length-insert_sorted p [] = refl
length-insert_sorted (i, x) ((j, y) ∷ ps) = ground (arith, length-insert_sorted (i, x) ps)

unique_edits-pos : (g : ℕ) (ps : List Positioned) → 0 < length ps → 0 < length (unique_edits g ps)
unfolding unique_edits
unique_edits-pos g [] h = h
unique_edits-pos g ((i, x) ∷ []) h = omega arith
unique_edits-pos g ((i, x) ∷ (j, y) ∷ ps) h =
    ground (arith, unique_edits-pos g ((j, y) ∷ ps) (omega arith))

-- `with` keeps the tiers: every run holds an edit, and more than twice as many as the next newer run.
pub with_generation-IsTiered :
    (p : PendingRows) (edits : List TypedRowEdit) (g : ℕ)
    → IsTiered p
    → IsTiered (with_generation p edits g)
unfolding with_generation
with_generation-IsTiered p [] g t = t
with_generation-IsTiered p (x ∷ edits) g t =
    compact_runs-Tiered _ p.runs
      (unique_edits-pos g (sort_positions (positions 0 (x ∷ edits)))
        (omega (arith, length-insert_sorted (0, x) (sort_positions (positions 1 edits)))))
      t

gap_mul : (a b p : ℕ) → a ≤ b → 0 < p → a * p + b ≤ b * p + a
gap_mul a b zero h k = absurd (omega arith)
gap_mul a b (suc p) h k = grind arith

pow_pos : (m : ℕ) → 0 < 2 ^ m
pow_pos zero = omega arith
pow_pos (suc m) = omega (arith, pow_pos m)

pow_double : (m : ℕ) → 2 ^ suc m ≡ 2 * 2 ^ m
pow_double m = omega (arith, pow-suc 2 m)

runs-pow :
    (n : ℕ) (runs : List PendingRun)
    → Tiered n runs
    → (n + 1) * 2 ^ length runs ≤ total_length runs + n + 1
unfolding total_length
runs-pow n [] t = omega arith
runs-pow n (run ∷ runs) t = omega (
  arith,
  runs-pow (2 * length run) runs t.1,
  ap (λ (t : ℕ). (n + 1) * t) (pow_double (length runs)),
  gap_mul (n + 1) (length run) (2 ^ length runs) (omega arith) (pow_pos (length runs)),
  pow_pos (length runs),
  t.0,
)

-- A tiered set of n runs has at least 2 ^ n - 1 edits.
runs-log : (p : PendingRows) → IsTiered p → 2 ^ length p.runs ≤ len p + 1
unfolding len
runs-log p t = omega (arith, runs-pow 0 p.runs t)

length-sort_positions :
    (i : ℕ) (xs : List TypedRowEdit) → length (sort_positions (positions i xs)) ≡ length xs
length-sort_positions i [] = refl
length-sort_positions i (x ∷ xs) = omega (
  arith,
  length-insert_sorted (i, x) (sort_positions (positions (i + 1) xs)),
  length-sort_positions (i + 1) xs,
)

length-unique_edits : (g : ℕ) (ps : List Positioned) → length (unique_edits g ps) ≤ length ps
unfolding unique_edits
length-unique_edits g [] = omega arith
length-unique_edits g ((i, x) ∷ rest) = ground (arith, length-unique_edits g rest)

-- Compaction drops edits that a newer run supersedes, and adds none.
total_length-compact_runs :
    (run : PendingRun) (runs : List PendingRun)
    → total_length (compact_runs run runs) ≤ length run + total_length runs
unfolding compact_runs total_length
total_length-compact_runs run [] = omega arith
total_length-compact_runs run (older ∷ runs) =
    ground
      (arith, length-merge_runs run older, total_length-compact_runs (merge_runs run older) runs)

len-with_generation :
    (p : PendingRows) (edits : List TypedRowEdit) (g : ℕ)
    → len (with_generation p edits g) ≤ len p + length edits
unfolding len with_generation
len-with_generation p [] g = omega arith
len-with_generation p (x ∷ edits) g = omega (
  arith,
  total_length-compact_runs (unique_edits g (sort_positions (positions 0 (x ∷ edits)))) p.runs,
  length-unique_edits g (sort_positions (positions 0 (x ∷ edits))),
  length-sort_positions 0 (x ∷ edits),
)

-- A history of `with` from the empty rows, newest first: the edits of each with their generation.
abbrev pub History : Type 0
History = List (List TypedRowEdit × ℕ)

abbrev pub with_all : History → PendingRows
with_all [] = empty_rows
with_all ((edits, g) ∷ history) = with_generation (with_all history) edits g

abbrev pub total_edits : History → ℕ
total_edits [] = 0
total_edits ((edits, g) ∷ history) = length edits + total_edits history

with_all-IsTiered : (history : History) → IsTiered (with_all history)
with_all-IsTiered [] = tt
with_all-IsTiered ((edits, g) ∷ history) =
    with_generation-IsTiered (with_all history) edits g (with_all-IsTiered history)

len-with_all : (history : History) → len (with_all history) ≤ total_edits history
unfolding len total_length
len-with_all [] = omega arith
len-with_all ((edits, g) ∷ history) =
    omega (arith, len-with_generation (with_all history) edits g, len-with_all history)

-- However many batches of however many edits are added to the empty rows, repeats included, the rows
-- that result hold no more edits than were added, and `n` runs of them only after at least 2 ^ n - 1.
pub with_all-bounds :
    (history : History)
    → (len (with_all history) ≤ total_edits history)
      × (2 ^ length (with_all history).runs ≤ total_edits history + 1)
with_all-bounds history = (
  len-with_all history,
  omega (arith, runs-log (with_all history) (with_all-IsTiered history), len-with_all history),
)
