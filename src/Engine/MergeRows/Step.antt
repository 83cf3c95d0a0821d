-- ===== src/Engine/MergeRows/Step.antt =====
-- One round of the merge, in terms of the specification.
use repodb.Base.{
  ◌≡◌, ◌≢◌, refl, ap, ◌∙◌, Ordering, Bool, true, false, none, some, List, [], ◌∷◌, ◌++◌, arith,
  if◌then◌else◌, Bool-cases, inl, inr, map,
}
use repodb.Bytes.{Bytes, compare_bytes, equal_bytes}
use repodb.Bytes.Order.{compare_bytes_refl, equal_bytes_refl, eq_of_compare}
use repodb.Bytes.Sorted.{Above, Sorted, find, find-Above}
use repodb.Bytes.Assoc.{Assoc, lookup}
use repodb.Prolly.{Entry, entry_key}
use repodb.Engine.MergeRows.{Resolution, Cell, Decision, take, decide, cell_at, behind, row_id}
use repodb.Engine.MergeRows.Cursors.{cell, cell-behind, behind-Above, behind-Above_of, Round}
use repodb.Engine.MergeRows.Spec.{
  chosen, is_conflict, only_key, row_of, itself, decision, conflict_at, IsMerge, Bounded, no_cells,
}

cell-row_of :
    (k j : Bytes) (c : Cell) (rows : List Entry)
    → cell k rows ≡ none
    → cell j (row_of k c ++ rows) ≡ (if equal_bytes k j then c else cell j rows)
unfolding find
cell-row_of k j none rows h = ground (arith, eq_of_compare k j, h)
cell-row_of k j (some v) rows h = ground arith

row_of-Sorted :
    (k : Bytes) (c : Cell) (rows : List Entry)
    → Above entry_key k rows
    → Sorted entry_key rows
    → Sorted entry_key (row_of k c ++ rows)
row_of-Sorted k none rows a s = s
row_of-Sorted k (some v) rows a s = (a, s)

row_of-Above :
    (j k : Bytes) (c : Cell) (rows : List Entry)
    → (c ≢ none → compare_bytes j k ≡ Ordering.lt)
    → Above entry_key j rows
    → Above entry_key j (row_of k c ++ rows)
row_of-Above j k none rows h a = a
row_of-Above j k (some v) rows h a = (h (λ e. cc e), a)

abbrev pub add_key : Bool → Bytes → List Bytes → List Bytes
add_key true k keys = k ∷ keys
add_key false k keys = keys

find-add_key :
    (c : Bool) (k j : Bytes) (keys : List Bytes)
    → find itself k keys ≡ none
    → find itself j (add_key c k keys)
      ≡ (if equal_bytes k j then only_key c j else find itself j keys)
unfolding find
find-add_key true k j keys h = ground (arith, eq_of_compare k j)
find-add_key false k j keys h = ground (arith, eq_of_compare k j, h)

add_key-Sorted :
    (c : Bool) (k : Bytes) (keys : List Bytes)
    → Above itself k keys
    → Sorted itself keys
    → Sorted itself (add_key c k keys)
add_key-Sorted true k keys a s = (a, s)
add_key-Sorted false k keys a s = s

cell-none : (k : Bytes) (xs : List Entry) → Above entry_key k xs → cell k xs ≡ none
cell-none k xs a = rw (find-Above entry_key k k xs a (λ e. cc (compare_bytes_refl k)))

find-none : (k : Bytes) (keys : List Bytes) → Above itself k keys → find itself k keys ≡ none
find-none k keys a = find-Above itself k k keys a (λ e. cc (compare_bytes_refl k))

add_key-Above :
    (c : Bool) (j k : Bytes) (keys : List Bytes)
    → compare_bytes j k ≡ Ordering.lt
    → Above itself j keys
    → Above itself j (add_key c k keys)
add_key-Above true j k keys h a = (h, a)
add_key-Above false j k keys h a = a

module _ (table : Bytes) (resolutions : Assoc Resolution) (k : Bytes) (b l r : List Entry)
    (round : Round k b l r) (sb : Sorted entry_key b) (sl : Sorted entry_key l)
    (sr : Sorted entry_key r) where
  pub decision-at :
      decision table resolutions k b l r
      ≡ decide (lookup (row_id table k) resolutions) (cell_at k b) (cell_at k l) (cell_at k r)
  decision-at = rw (
    cell-behind k k b sb round.base,
    cell-behind k k l sl round.local,
    cell-behind k k r sr round.remote,
    equal_bytes_refl k,
  )

  abbrev pub later : Bytes → Decision
  later j = decision table resolutions j (behind k b) (behind k l) (behind k r)

  pub decision-behind :
      (j : Bytes)
      → later j ≡ (if equal_bytes k j then take none else decision table resolutions j b l r)
  decision-behind j = elim (Bool-cases (equal_bytes k j)) [
    | inl t ↦
        let e : k ≡ j = eq_of_compare k j (ground (arith, t)) in
        rw
          (
            t,
            ← e,
            cell-none k (behind k b) (behind-Above k b sb round.base),
            cell-none k (behind k l) (behind-Above k l sl round.local),
            cell-none k (behind k r) (behind-Above k r sr round.remote),
          )
          (no_cells table resolutions (lookup (row_id table k) resolutions))
    | inr f ↦ rw (
      f,
      cell-behind k j b sb round.base,
      cell-behind k j l sl round.local,
      cell-behind k j r sr round.remote,
      f,
    )
  ]

  abbrev D : Decision
  D = decision table resolutions k b l r

  module _ (keys : List Bytes) (rows : List Entry)
      (ih : IsMerge table resolutions (behind k b) (behind k l) (behind k r) keys rows)
      (bounded : Bounded table resolutions (behind k b) (behind k l) (behind k r) keys rows) where
    rows-Above_k : Above entry_key k rows
    rows-Above_k =
        bounded.rows_above k (behind-Above k b sb round.base) (behind-Above k l sl round.local)
          (behind-Above k r sr round.remote)

    pub keys-Above_k : Above itself k keys
    keys-Above_k =
        bounded.keys_above k (behind-Above k b sb round.base) (behind-Above k l sl round.local)
          (behind-Above k r sr round.remote)

    step-cells :
        (j : Bytes)
        → cell j (row_of k (chosen D) ++ rows) ≡ chosen (decision table resolutions j b l r)
    step-cells j = elim (Bool-cases (equal_bytes k j)) [
      | inl t ↦
          let e : k ≡ j = eq_of_compare k j (ground (arith, t)) in
          rw (cell-row_of k j (chosen D) rows (cell-none k rows rows-Above_k), t, e)
      | inr f ↦
          rw (cell-row_of k j (chosen D) rows (cell-none k rows rows-Above_k), f)
            (ih.rows_cells j ∙ ap chosen (rw f at (decision-behind j)))
    ]

    step-keys :
        (j : Bytes)
        → find itself j (add_key (is_conflict D) k keys)
          ≡ only_key (is_conflict (decision table resolutions j b l r)) j
    step-keys j = elim (Bool-cases (equal_bytes k j)) [
      | inl t ↦
          let e : k ≡ j = eq_of_compare k j (ground (arith, t)) in
          rw (find-add_key (is_conflict D) k j keys (find-none k keys keys-Above_k), t, e)
      | inr f ↦
          rw (find-add_key (is_conflict D) k j keys (find-none k keys keys-Above_k), f)
            (ih.keys_conflict j
              ∙ ap (λ d. only_key (is_conflict d) j) (rw f at (decision-behind j)))
    ]

    pub step-IsMerge :
        IsMerge table resolutions b l r
          (add_key (is_conflict D) k keys)
          (row_of k (chosen D) ++ rows)
    step-IsMerge = record {
      rows_sorted = row_of-Sorted k (chosen D) rows rows-Above_k ih.rows_sorted;
      rows_cells = step-cells;
      keys_sorted = add_key-Sorted (is_conflict D) k keys keys-Above_k ih.keys_sorted;
      keys_conflict = step-keys;
    }

    Above-step :
        (j : Bytes)
        → Above entry_key j b
        → Above entry_key j l
        → Above entry_key j r
        → Above entry_key j (row_of k (chosen D) ++ rows)
    Above-step j ab al ar =
        row_of-Above j k (chosen D) rows (λ _. round.lower j ab al ar)
          (bounded.rows_above j (behind-Above_of j k b ab) (behind-Above_of j k l al)
            (behind-Above_of j k r ar))

    keys_step :
        (j : Bytes)
        → Above entry_key j b
        → Above entry_key j l
        → Above entry_key j r
        → Above itself j (add_key (is_conflict D) k keys)
    keys_step j ab al ar = add_key-Above (is_conflict D) j k keys (round.lower j ab al ar) (
        bounded.keys_above j (behind-Above_of j k b ab) (behind-Above_of j k l al)
          (behind-Above_of j k r ar))

    pub step-Bounded :
        Bounded table resolutions b l r
          (add_key (is_conflict D) k keys)
          (row_of k (chosen D) ++ rows)
    step-Bounded = record { rows_above = Above-step; keys_above = keys_step }

    same_cells :
        (j : Bytes)
        → compare_bytes k j ≡ Ordering.lt
        → conflict_at table resolutions b l r j
          ≡ conflict_at table resolutions (behind k b) (behind k l) (behind k r) j
    same_cells j h =
        let f : equal_bytes k j ≡ false = ground (arith, h) in
        rw (
          cell-behind k j b sb round.base,
          cell-behind k j l sl round.local,
          cell-behind k j r sr round.remote,
          f,
        )

    pub map-conflict_at :
        (js : List Bytes)
        → Above itself k js
        → map (conflict_at table resolutions b l r) js
          ≡ map (conflict_at table resolutions (behind k b) (behind k l) (behind k r)) js
    map-conflict_at [] a = refl
    map-conflict_at (j ∷ js) a = rw (same_cells j a.0, map-conflict_at js a.1)
