-- ===== src/Engine/MergeRows/Pointwise.antt =====
-- `mergeRows` decides each key on its own: the theorem about the whole loop.
use repodb.Base.{
  ℕ, zero, suc, ◌+◌, ◌<◌, ◌≡◌, ap, ap₂, sym, ◌∙◌, Bool, true, false, none, some, List, [], ◌∷◌,
  ◌++◌, append_assoc, append-nil, arith, length, map, Option-cases, inl, inr, if◌then◌else◌,
}
use repodb.Bytes.{Bytes, equal_bytes}
use repodb.Bytes.Order.{equal_bytes_refl}
use repodb.Bytes.Sorted.{Sorted}
use repodb.Bytes.Assoc.{Assoc, lookup}
use repodb.Prolly.{Entry, entry_key}
use repodb.Engine.MergeRows.{
  Resolution, RowConflict, row_id, Decision, take, conflict, invalid, decide, least_key, cell_at,
  behind, Merged, merged, merge_loop, row_conflict,
}
use repodb.Engine.MergeRows.Cursors.{cell-behind, behind-Sorted, Round, least_key-Round, least_none}
use repodb.Engine.MergeRows.Spec.{
  chosen, is_conflict, collect, row_of, decision, conflict_at, IsMerge, Bounded, empty-IsMerge,
}
use repodb.Engine.MergeRows.Step.{
  decision-at, decision-behind, add_key, step-IsMerge, step-Bounded, map-conflict_at, keys-Above_k,
}

-- The decision rests on no resolution that is none of the four.
abbrev pub IsValid : Decision → Type 0
IsValid (take c) = Unit
IsValid conflict = Unit
IsValid (invalid text) = ⊥

IsValid-if : (c : Bool) (d : Decision) → IsValid d → IsValid (if c then take none else d)
IsValid-if true d v = tt
IsValid-if false d v = v

abbrev if_conflict : Bool → RowConflict → List RowConflict
if_conflict true c = c ∷ []
if_conflict false c = []

module _ (table : Bytes) (resolutions : Assoc Resolution) where
  abbrev loop :
      ℕ → List Entry → List Entry → List Entry → List RowConflict → List Entry → Merged (List Entry)
  loop = merge_loop collect table resolutions

  abbrev cells_conflict : Bytes → List Entry → List Entry → List Entry → RowConflict
  cells_conflict k b l r =
      row_conflict collect table resolutions k (cell_at k b) (cell_at k l) (cell_at k r)

  loop_step :
      (fuel : ℕ) (k : Bytes) (b l r : List Entry) (conflicts : List RowConflict) (out : List Entry)
      (d : Decision)
      → least_key (least_key (least_key none b) l) r ≡ some k
      → decide (lookup (row_id table k) resolutions) (cell_at k b) (cell_at k l) (cell_at k r) ≡ d
      → IsValid d
      → loop (suc fuel) b l r conflicts out
        ≡ loop fuel
            (behind k b)
            (behind k l)
            (behind k r)
            (conflicts ++ if_conflict (is_conflict d) (cells_conflict k b l r))
            (out ++ row_of k (chosen d))
  unfolding merge_loop
  loop_step fuel k b l r conflicts out (take none) h e v =
      rw (merge_loop, h, e, append-nil, append-nil)
  loop_step fuel k b l r conflicts out (take (some c)) h e v = rw (merge_loop, h, e, append-nil)
  loop_step fuel k b l r conflicts out conflict h e v = rw (merge_loop, h, e, append-nil)
  loop_step fuel k b l r conflicts out (invalid text) h e v = absurd v

  -- The result of the loop, with what it appends to the conflicts and rows so far.
  abbrev pub LoopMerges :
      ℕ → List Entry → List Entry → List Entry → List RowConflict → List Entry → Type 0
  LoopMerges fuel b l r conflicts out =
      (keys : List Bytes) × (rows : List Entry) × (loop fuel b l r conflicts out
        ≡ merged (conflicts ++ map (conflict_at table resolutions b l r) keys) (out ++ rows))
      × IsMerge table resolutions b l r keys rows
      × Bounded table resolutions b l r keys rows

  all_passed :
      (fuel : ℕ) (b l r : List Entry) (conflicts : List RowConflict) (out : List Entry)
      → least_key (least_key (least_key none b) l) r ≡ none
      → LoopMerges (suc fuel) b l r conflicts out
  unfolding merge_loop
  all_passed fuel b l r conflicts out h =
      let (hl, er) = least_none (least_key (least_key none b) l) r h in
      let (hb, el) = least_none (least_key none b) l hl in
      let (_, eb) = least_none none b hb in
      rw (eb, el, er)
        (
          [],
          [],
          rw (append-nil, append-nil),
          empty-IsMerge table resolutions,
          record { rows_above = λ k x y z. tt; keys_above = λ k x y z. tt },
        )

  cells_conflict-at :
      (k : Bytes) (b l r : List Entry)
      → Sorted entry_key b
      → Sorted entry_key l
      → Sorted entry_key r
      → Round k b l r
      → cells_conflict k b l r ≡ conflict_at table resolutions b l r k
  cells_conflict-at k b l r sb sl sr round = rw (
    cell-behind k k b sb round.base,
    cell-behind k k l sl round.local,
    cell-behind k k r sr round.remote,
    equal_bytes_refl k,
  )

  conflicts_step :
      (c : Bool) (conflicts : List RowConflict) (k : Bytes) (b l r b' l' r' : List Entry)
      (keys : List Bytes)
      → map (conflict_at table resolutions b l r) keys
        ≡ map (conflict_at table resolutions b' l' r') keys
      → (conflicts ++ if_conflict c (conflict_at table resolutions b l r k))
          ++ map (conflict_at table resolutions b' l' r') keys
        ≡ conflicts ++ map (conflict_at table resolutions b l r) (add_key c k keys)
  conflicts_step true conflicts k b l r b' l' r' keys e = rw (append_assoc, e)
  conflicts_step false conflicts k b l r b' l' r' keys e = rw (append-nil, e)

  module _ (k : Bytes) (b l r : List Entry) (sb : Sorted entry_key b) (sl : Sorted entry_key l)
      (sr : Sorted entry_key r) (valid : (j : Bytes) → IsValid (decision table resolutions j b l r))
      (e : least_key (least_key (least_key none b) l) r ≡ some k) where
    abbrev round : Round k b l r
    round = least_key-Round b l r k e

    abbrev now : Decision
    now = decision table resolutions k b l r

    later-IsValid :
        (j : Bytes) → IsValid (decision table resolutions j (behind k b) (behind k l) (behind k r))
    later-IsValid j =
        rw (decision-behind table resolutions k b l r round sb sl sr j)
          (IsValid-if (equal_bytes k j) _ (valid j))

    -- The round and the rest of the loop.
    combine :
        (fuel : ℕ) (conflicts : List RowConflict) (out : List Entry)
        → LoopMerges fuel
            (behind k b)
            (behind k l)
            (behind k r)
            (conflicts ++ if_conflict (is_conflict now) (cells_conflict k b l r))
            (out ++ row_of k (chosen now))
        → LoopMerges (suc fuel) b l r conflicts out
    combine fuel conflicts out (keys, rows, ran, ih, bounded) = (
      add_key (is_conflict now) k keys,
      row_of k (chosen now) ++ rows,
      loop_step fuel k b l r conflicts out now e
            (sym (decision-at table resolutions k b l r round sb sl sr)) (valid k)
          ∙ ran
          ∙ ap₂ merged
              (ap
                  (λ c.
                    (conflicts ++ if_conflict (is_conflict now) c)
                    ++ map (conflict_at table resolutions (behind k b) (behind k l) (behind k r))
                        keys)
                  (cells_conflict-at k b l r sb sl sr round)
                ∙ conflicts_step (is_conflict now) conflicts k b l r (behind k b) (behind k l)
                    (behind k r) keys
                    (map-conflict_at table resolutions k b l r round sb sl sr keys rows ih bounded
                      keys
                      (keys-Above_k table resolutions k b l r round sb sl sr keys rows ih bounded)))
              (append_assoc out (row_of k (chosen now)) rows),
      step-IsMerge table resolutions k b l r round sb sl sr keys rows ih bounded,
      step-Bounded table resolutions k b l r round sb sl sr keys rows ih bounded,
    )

  merge_loop-IsMerge :
      (fuel : ℕ) (b l r : List Entry) (conflicts : List RowConflict) (out : List Entry)
      → Sorted entry_key b
      → Sorted entry_key l
      → Sorted entry_key r
      → ((k : Bytes) → IsValid (decision table resolutions k b l r))
      → length b + length l + length r < fuel
      → LoopMerges fuel b l r conflicts out
  merge_loop-IsMerge zero b l r conflicts out sb sl sr valid h = absurd (omega arith)
  merge_loop-IsMerge (suc fuel) b l r conflicts out sb sl sr valid h =
      elim (Option-cases (least_key (least_key (least_key none b) l) r)) [
        | inl e ↦ all_passed fuel b l r conflicts out e
        | inr (k, e) ↦ combine k b l r sb sl sr valid e fuel conflicts out (
            merge_loop-IsMerge fuel (behind k b) (behind k l) (behind k r) _ _
              (behind-Sorted k b sb) (behind-Sorted k l sl) (behind-Sorted k r sr)
              (later-IsValid k b l r sb sl sr valid e)
              (omega (arith, (least_key-Round b l r k e).progress)))
      ]

  -- Let the three versions be sorted by key, and let no decision rest on an invalid resolution. Then
  -- the loop ends, for every fuel above the number of entries, without an error. It emits the merged
  -- rows in strictly increasing key order: for each key the cell that the decision for that key
  -- alone takes, and no row where it takes none or is a conflict. It reports, in key order, exactly
  -- the keys whose decision is a conflict, each once, with its cells in the three versions.
  pub merge_loop_lem :
      (fuel : ℕ) (b l r : List Entry)
      → Sorted entry_key b
      → Sorted entry_key l
      → Sorted entry_key r
      → ((k : Bytes) → IsValid (decision table resolutions k b l r))
      → length b + length l + length r < fuel
      → (keys : List Bytes) × (rows : List Entry) × (merge_loop collect table resolutions fuel b l r
            [] []
          ≡ merged (map (conflict_at table resolutions b l r) keys) rows)
        × IsMerge table resolutions b l r keys rows
  merge_loop_lem fuel b l r sb sl sr valid h =
      let (keys, rows, ran, is_merge, _) = merge_loop-IsMerge fuel b l r [] [] sb sl sr valid h in
      (keys, rows, ran, is_merge)
