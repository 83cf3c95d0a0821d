-- ===== src/Engine/Ranges/Cuts.antt =====
-- The SQL ranges of engine/ranges.go and the interval of keys for one. `K` is the type of the values in
-- cuts, `convert` is `Type.Convert` of the SQL engine and `deep_equal` is `reflect.DeepEqual`.
pub mod Bounds
pub mod Meaning
pub mod Sides
pub mod Ends
pub mod Inside
pub mod Points
pub mod Exact
pub mod Total
use repodb.Base.{
  ℕ, Bool, true, false, Option, none, some, List, [], ◌∷◌, ◌++◌, ◌&&◌, not, if◌then◌else◌,
}
use repodb.Bytes.{Bytes}
use repodb.Engine.KeyCodec.{key_prefix_end}
use repodb.Engine.KeyCodec.Column.{ColumnType, KeyValue}
use repodb.Engine.IndexKeys.{null_marker, append_value}
use repodb.Engine.Ranges.{KeyInterval}

-- `sql.MySQLRangeCut`: a place between values, with NULL before them all.
pub data Cut (K : Type 0) : Type 0 where
  below_null above_null above_all other_cut : Cut K
  below_key above_key : K → Cut K

pub record RangeColumn (K : Type 0) : Type 0 where
  pub lower : Cut K
  pub upper : Cut K

-- What an interval is asked for: an error, no key at all, or an answer.
pub data Found (A : Type 0) : Type 0 where
  range_error no_key : Found A
  found : A → Found A

abbrev pub of_option : {A : Type 0} → Option A → Found A
of_option none = range_error
of_option (some a) = found a

abbrev pub and_then : {A B : Type 0} → Found A → (A → Found B) → Found B
and_then range_error f = range_error
and_then no_key f = no_key
and_then (found a) f = f a

-- `exclusiveStart`
abbrev pub start_or_none : Option Bytes → Found Bytes
start_or_none none = no_key
start_or_none (some start) = found start

abbrev pub exclusive_start : Bytes → Found Bytes
exclusive_start prefix = start_or_none (key_prefix_end prefix)

-- An empty slice that was appended to nil is nil, which means that there is no end.
abbrev pub end_at : Bytes → Option Bytes
end_at [] = none
end_at (b ∷ key) = some (b ∷ key)

module _ {K : Type 0} where
  abbrev pub is_null_cut : Cut K → Bool
  is_null_cut below_null = true
  is_null_cut above_null = true
  is_null_cut _ = false

  abbrev pub all_above : Bool → Cut K → Bool
  all_above nullable below_null = true
  all_above nullable above_null = not nullable
  all_above nullable _ = false

  abbrev pub is_all : Bool → Cut K → Cut K → Bool
  is_all nullable lower above_all = all_above nullable lower
  is_all nullable lower _ = false

  -- `isAllColumn`
  abbrev pub is_all_column : Bool → RangeColumn K → Bool
  is_all_column nullable col = is_all nullable col.lower col.upper

module _ {K : Type 0} (deep_equal : K → K → Bool) where
  abbrev pub is_point : Cut K → Cut K → Bool
  is_point below_null above_null = true
  is_point (below_key k) (above_key k') = deep_equal k k'
  is_point _ _ = false

  -- `isPointColumn`
  abbrev pub is_point_column : RangeColumn K → Bool
  is_point_column col = is_point col.lower col.upper

  -- The loop of `rangeShapeSupported`.
  unfoldable pub shape_supported : Bool → Bool → List (RangeColumn K) → Bool
  shape_supported nullable ranged [] = true
  shape_supported nullable ranged (col ∷ range) = elim (is_all_column nullable col) [
    | true ↦ shape_supported nullable true range
    | false ↦ elim ranged [
      | true ↦ false
      | false ↦ shape_supported nullable (not (is_point_column col)) range
    ]
  ]

  abbrev pub range_shape_supported : Bool → List (RangeColumn K) → Bool
  range_shape_supported nullable range = shape_supported nullable false range

abbrev pub prefix_interval : Bytes → KeyInterval
prefix_interval prefix = record { start = prefix; end = key_prefix_end prefix }

module _ {K : Type 0} (convert : ColumnType → K → Option KeyValue) where
  -- `appendBoundValue`
  unfoldable pub append_bound_value : Bool → Bytes → ColumnType → K → Option Bytes
  append_bound_value nullable prefix type key = elim (convert type key) [
    | none ↦ none
    | some v ↦ append_value nullable prefix type (some v)
  ]

  -- `lowerCutKey`
  pub lower_cut_key : Bool → Bytes → ColumnType → Cut K → Found Bytes
  lower_cut_key nullable prefix type below_null = found (null_marker prefix nullable 0x00)
  lower_cut_key nullable prefix type above_null = found (null_marker prefix nullable 0x01)
  lower_cut_key nullable prefix type (below_key k) =
      of_option (append_bound_value nullable prefix type k)
  lower_cut_key nullable prefix type (above_key k) =
      and_then (of_option (append_bound_value nullable prefix type k)) exclusive_start
  lower_cut_key nullable prefix type above_all = exclusive_start prefix
  lower_cut_key nullable prefix type other_cut = range_error

  -- `upperCutKey`, where a nil end is none; only a position around NULL can be empty.
  pub upper_cut_key : Bool → Bytes → ColumnType → Cut K → Found (Option Bytes)
  upper_cut_key nullable prefix type above_all = found (key_prefix_end prefix)
  upper_cut_key nullable prefix type (below_key k) =
      and_then (of_option (append_bound_value nullable prefix type k)) (λ key. found (some key))
  upper_cut_key nullable prefix type (above_key k) =
      and_then (of_option (append_bound_value nullable prefix type k))
        (λ key. found (key_prefix_end key))
  upper_cut_key nullable prefix type above_null = found (end_at (null_marker prefix nullable 0x01))
  upper_cut_key nullable prefix type below_null = found (end_at (null_marker prefix nullable 0x00))
  upper_cut_key nullable prefix type other_cut = range_error

  -- The prefix behind a point column, given its lower cut.
  abbrev pub point_prefix : Bool → Bytes → ColumnType → Cut K → Found Bytes
  point_prefix nullable prefix type below_null =
      if nullable then found (null_marker prefix true 0x00) else no_key
  point_prefix nullable prefix type (below_key k) =
      of_option (append_bound_value nullable prefix type k)
  point_prefix nullable prefix type _ = range_error

  -- The interval of a column that is neither unbounded nor a point.
  pub ranged_interval : Bool → Bytes → ColumnType → RangeColumn K → Found KeyInterval
  ranged_interval nullable prefix type col =
      and_then (lower_cut_key nullable prefix type col.lower) (λ start.
        and_then (upper_cut_key nullable prefix type col.upper)
          (λ end. found (record { start = start; end = end })))

module _ {K : Type 0} (convert : ColumnType → K → Option KeyValue) (deep_equal : K → K → Bool) where
  -- The loop of `rangeInterval`; `rangeIntervals` checks that there are as many types as columns.
  pub range_from : Bool → List ColumnType → Bytes → List (RangeColumn K) → Found KeyInterval
  range_from nullable types prefix [] = found (prefix_interval prefix)
  range_from nullable [] prefix (col ∷ range) = range_error
  range_from nullable (type ∷ types) prefix (col ∷ range) = elim (is_all_column nullable col) [
    | true ↦ found (prefix_interval prefix)
    | false ↦ elim (is_point_column deep_equal col) [
      | true ↦
          and_then (point_prefix convert nullable prefix type col.lower)
            (λ prefix'. range_from nullable types prefix' range)
      | false ↦ ranged_interval convert nullable prefix type col
    ]
  ]

  -- `rangeInterval`
  abbrev pub range_interval : Bool → List ColumnType → List (RangeColumn K) → Found KeyInterval
  range_interval nullable types range = range_from nullable types [] range
