-- ===== src/Engine/Ranges/Merge/Rows.antt =====
-- The intervals of a collection of ranges select the rows that one of the ranges selects.
use repodb.Base.{
  ℕ, ◌≤◌, ◌≡◌, refl, sym, ap, ap₂, ◌∙◌, Bool, true, false, Option, none, some, List, [], ◌∷◌, ◌&&◌,
  ◌||◌, arith, All, Bool-cases, length, ltb, map, inl, inr,
}
use repodb.Bytes.{Bytes, at_least}
use repodb.Engine.KeyCodec.Escape.{IsByte, before_end}
use repodb.Engine.KeyCodec.Column.{ColumnType, KeyValue}
use repodb.Engine.IndexKeys.{Column, column_at, encode_index_key}
use repodb.Engine.IndexKeys.Columns.{IsKeyValue, IsColumns, types_of}
use repodb.Engine.Ranges.{KeyInterval, is_empty_interval, contains}
use repodb.Engine.Ranges.Cuts.{
  RangeColumn, Found, range_error, no_key, found, range_shape_supported, range_interval,
}
use repodb.Engine.Ranges.Cuts.Meaning.{Selects, in_range}
use repodb.Engine.Ranges.Cuts.Total.{HasKeys, HasKeys-length}
use repodb.Engine.Ranges.Keys.{range_interval-encode_index_key}
use repodb.Engine.Ranges.Merge.{merge_intervals, added, collect_intervals, range_intervals}
use repodb.Engine.Ranges.Merge.Cover.{contains_any, at_least_trans, merge_intervals-contains_any}
use repodb.Engine.Ranges.Merge.Apart.{IsFilled, AreApart, merge_intervals-AreApart}

-- One of the ranges holds the columns of a row.
abbrev pub in_any :
    {K : Type 0}
    → (ColumnType → K → Option KeyValue)
    → List Column
    → List (List (RangeColumn K))
    → Bool
in_any convert columns [] = false
in_any convert columns (range ∷ ranges) =
    in_range convert columns range || in_any convert columns ranges

empty-contains :
    (iv : KeyInterval) (key : Bytes) → is_empty_interval iv ≡ true → contains iv key ≡ false
empty-contains iv key h = empty_ends iv.start iv.end h
  where
    empty_ends :
        (start : Bytes) (end : Option Bytes)
        → is_empty_interval (record { start = start; end = end }) ≡ true
        → (at_least key start && before_end end key) ≡ false
    empty_ends start none h = absurd (ground (arith, h))
    empty_ends start (some end) h = ground (arith, h, at_least_trans key start end)

-- What the loop over the ranges has collected for a key.
abbrev IsCollected : Bytes → Bool → Option (List KeyInterval) → Type 0
IsCollected key passes none = ⊥
IsCollected key passes (some out) = All IsFilled out × (contains_any out key ≡ passes)

-- The intervals are found, apart, and right about a key.
abbrev pub AreRight : Bytes → Bool → Option (List KeyInterval) → Type 0
AreRight key passes none = ⊥
AreRight key passes (some intervals) = AreApart intervals × (contains_any intervals key ≡ passes)

module _ {K : Type 0} (convert : ColumnType → K → Option KeyValue) (deep_equal : K → K → Bool)
    (nullable : Bool) (types : List ColumnType) where
  added-IsCollected :
      (key : Bytes) (p q : Bool) (m : Found KeyInterval) (out : List KeyInterval)
      → Selects (λ iv. contains iv key) p m
      → IsCollected key q (some out)
      → IsCollected key (p || q) (added convert deep_equal nullable types m out)
  added-IsCollected key p q range_error out s t = s
  added-IsCollected key p q no_key out s t = (t.0, t.1 ∙ ap (λ b. b || q) (sym s))
  added-IsCollected key p q (found iv) out s t = elim (Bool-cases (is_empty_interval iv)) [
    | inl empty ↦ rw empty (t.0, t.1 ∙ ap (λ b. b || q) (sym (empty-contains iv key empty) ∙ s))
    | inr filled ↦ rw filled ((filled, t.0), ap₂ (λ a b. a || b) s t.1)
  ]

  -- What is known of each range, for one row's columns and key.
  abbrev pub SelectsAll : Bytes → List Column → List (List (RangeColumn K)) → Type 0
  SelectsAll key columns ranges =
      All
        (λ (range : List (RangeColumn K)).
          (length range ≤ length types)
          × Selects (λ iv. contains iv key) (in_range convert columns range)
              (range_interval convert deep_equal nullable types range))
        ranges

  collect_intervals-IsCollected :
      (key : Bytes) (columns : List Column) (ranges : List (List (RangeColumn K)))
      → SelectsAll key columns ranges
      → IsCollected key
          (in_any convert columns ranges)
          (collect_intervals convert deep_equal nullable types ranges)
  unfolding collect_intervals
  collect_intervals-IsCollected key columns [] t = (tt, refl)
  collect_intervals-IsCollected key columns (range ∷ ranges) t =
      rw (fits, collect_intervals)
        (one (collect_intervals convert deep_equal nullable types ranges)
          (collect_intervals-IsCollected key columns ranges t.1))
    where
      fits : ltb (length types) (length range) ≡ false
      fits = let n = t.0.0 in ground arith

      one :
          (m : Option (List KeyInterval))
          → IsCollected key (in_any convert columns ranges) m
          → IsCollected key
              (in_range convert columns range || in_any convert columns ranges)
              (elim m [
                | none ↦ none
                | some out ↦
                    added convert deep_equal nullable types
                      (range_interval convert deep_equal nullable types range)
                      out
              ])
      one none u = u
      one (some out) u =
          added-IsCollected key (in_range convert columns range) (in_any convert columns ranges)
            (range_interval convert deep_equal nullable types range) out t.0.1 u

  pub range_intervals-AreRight :
      (key : Bytes) (columns : List Column) (ranges : List (List (RangeColumn K)))
      → SelectsAll key columns ranges
      → AreRight key
          (in_any convert columns ranges)
          (range_intervals convert deep_equal nullable types ranges)
  unfolding range_intervals
  range_intervals-AreRight key columns ranges t =
      merged (collect_intervals convert deep_equal nullable types ranges)
        (collect_intervals-IsCollected key columns ranges t)
    where
      merged :
          (m : Option (List KeyInterval))
          → IsCollected key (in_any convert columns ranges) m
          → AreRight key
              (in_any convert columns ranges)
              (elim m [ none ↦ none | some out ↦ some (merge_intervals out) ])
      merged none u = u
      merged (some out) u =
          (merge_intervals-AreApart out u.0, merge_intervals-contains_any out key ∙ u.1)

module _ {K : Type 0} (convert : ColumnType → K → Option KeyValue) (deep_equal : K → K → Bool)
    (converts : (type : ColumnType) (k : K) (w : KeyValue) → convert type k ≡ some w → IsKeyValue w)
    (equal : (k k' : K) → deep_equal k k' ≡ true → k ≡ k') where
  -- For a row that an index gives a key to, and ranges of a shape that index scans support, whose values
  -- convert and have keys, rangeIntervals finds no error. Its intervals are not empty and each starts behind
  -- the end of the one before, and the row's key lies in one of them exactly if one of the ranges holds the
  -- row's values. `Convert` gives values that fit their type, and values that DeepEqual takes for equal are.
  pub range_intervals-encode_index_key :
      (schema : List ColumnType) (row : List (Option KeyValue)) (ordinals : List ℕ) (pk_key : Bytes)
      (unique : Bool) (key : Bytes) (null : Bool) (ranges : List (List (RangeColumn K)))
      → IsColumns (map (column_at schema row) ordinals)
      → All IsByte pk_key
      → encode_index_key schema row ordinals pk_key unique ≡ some (key, null)
      → All (HasKeys convert true (types_of (map (column_at schema row) ordinals))) ranges
      → All (λ range. range_shape_supported deep_equal true range ≡ true) ranges
      → AreRight key (in_any convert (map (column_at schema row) ordinals) ranges) (
          range_intervals convert deep_equal true
            (types_of (map (column_at schema row) ordinals))
            ranges)
  range_intervals-encode_index_key schema row ordinals pk_key unique key null ranges ok hp h keys
        shapes =
      range_intervals-AreRight convert deep_equal true types key columns ranges
        (all ranges keys shapes)
    where
      columns : List Column
      columns = map (column_at schema row) ordinals

      types : List ColumnType
      types = types_of columns

      all :
          (ranges : List (List (RangeColumn K)))
          → All (HasKeys convert true types) ranges
          → All (λ range. range_shape_supported deep_equal true range ≡ true) ranges
          → SelectsAll convert deep_equal true types key columns ranges
      all [] keys shapes = tt
      all (range ∷ ranges) keys shapes = (
        (
          HasKeys-length convert true types range keys.0,
          range_interval-encode_index_key convert deep_equal converts equal schema row ordinals
              pk_key unique key null range ok hp h keys.0 shapes.0,
        ),
        all ranges keys.1 shapes.1,
      )
