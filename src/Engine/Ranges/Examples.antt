-- ===== src/Engine/Ranges/Examples.antt =====
-- Intervals of a few ranges over integer columns.
use repodb.Base.{
  ℕ, ◌^◌, ◌%◌, ◌≡◌, refl, true, false, Option, none, some, List, [], ◌∷◌, ◌++◌, ◌==◌, arith,
}
use repodb.Bytes.{Bytes}
use repodb.Bytes.BigEndian.{big_endian}
use repodb.Engine.RowCodec.Values.{w64}
use repodb.Engine.KeyCodec.Column.{
  ColumnType, signed, KeyValue, int_value, signed_value, append_key_column,
}
use repodb.Engine.IndexKeys.{column_at, append_columns, has_null, encode_key, encode_index_key}
use repodb.Engine.IndexKeys.Columns.{IsKeyValue}
use repodb.Engine.Ranges.{contains}
use repodb.Engine.Ranges.Cuts.{
  above_null, above_all, below_key, above_key, RangeColumn, shape_supported, append_bound_value,
  range_interval,
}
use repodb.Engine.Ranges.Cuts.Meaning.{Selects, in_range}
use repodb.Engine.Ranges.Merge.{range_intervals}
use repodb.Engine.Ranges.Merge.Rows.{in_any, AreRight, range_intervals-encode_index_key}
use repodb.Engine.Ranges.Keys.{range_interval-encode_index_key, range_interval-encode_key}

-- Cuts of numbers, which convert to integers of 64 bits.
abbrev to_int : ColumnType → ℕ → Option KeyValue
to_int type k = some (int_value w64 (k % 2 ^ 64))

int-IsKeyValue : (k : ℕ) → IsKeyValue (int_value w64 (k % 2 ^ 64))
int-IsKeyValue k = record {
  word = omega arith;
  bytes = record { binary_all = tt; string_all = tt };
}

to_int_fits : (type : ColumnType) (k : ℕ) (w : KeyValue) → to_int type k ≡ some w → IsKeyValue w
to_int_fits type k w h = rw (value h) at (int-IsKeyValue k)
  where
    value : some (int_value w64 (k % 2 ^ 64)) ≡ some w → int_value w64 (k % 2 ^ 64) ≡ w
    value e = cc

same_numbers : (j k : ℕ) → (j == k) ≡ true → j ≡ k
same_numbers j k h = ground (arith, h)

abbrev two_ints : List ColumnType
two_ints = signed ∷ signed ∷ []

abbrev a_row : List (Option KeyValue)
a_row = some (int_value w64 (7 % 2 ^ 64)) ∷ some (int_value w64 (12 % 2 ^ 64)) ∷ []

abbrev null_row : List (Option KeyValue)
null_row = some (int_value w64 (7 % 2 ^ 64)) ∷ none ∷ []

-- `a = 7 AND b > 10`
abbrev above_ten : List (RangeColumn ℕ)
above_ten =
    record { lower = below_key 7; upper = above_key 7 }
    ∷ record { lower = above_key 10; upper = above_all }
    ∷ []

abbrev seven : Bytes
seven = 128 ∷ 0 ∷ 0 ∷ 0 ∷ 0 ∷ 0 ∷ 0 ∷ 7 ∷ []

abbrev twelve : Bytes
twelve = 128 ∷ 0 ∷ 0 ∷ 0 ∷ 0 ∷ 0 ∷ 0 ∷ 12 ∷ []

row_key : encode_key two_ints a_row (0 ∷ 1 ∷ []) ≡ some (seven ++ twelve)
unfolding encode_key append_columns append_key_column signed_value big_endian
row_key = refl

index_key :
    encode_index_key two_ints a_row (0 ∷ 1 ∷ []) (9 ∷ []) false
    ≡ some ((1 ∷ seven) ++ (1 ∷ twelve) ++ 9 ∷ [], false)
unfolding encode_index_key append_columns append_key_column signed_value big_endian has_null
index_key = refl

unique_null_key :
    encode_index_key two_ints null_row (0 ∷ 1 ∷ []) (9 ∷ []) true
    ≡ some ((1 ∷ seven) ++ 0 ∷ 9 ∷ [], true)
unfolding encode_index_key append_columns append_key_column signed_value big_endian has_null
unique_null_key = refl

range_interval-encode_index_key_example :
    Selects
      (λ iv. contains iv ((1 ∷ seven) ++ (1 ∷ twelve) ++ 9 ∷ []))
      (in_range to_int (column_at two_ints a_row 0 ∷ column_at two_ints a_row 1 ∷ []) above_ten)
      (range_interval to_int ◌==◌ true two_ints above_ten)
unfolding shape_supported append_bound_value append_key_column signed_value
range_interval-encode_index_key_example =
    range_interval-encode_index_key to_int ◌==◌ to_int_fits same_numbers two_ints a_row (0 ∷ 1 ∷ [])
      (9 ∷ []) false ((1 ∷ seven) ++ (1 ∷ twelve) ++ 9 ∷ []) false above_ten
      (int-IsKeyValue 7, (int-IsKeyValue 12, tt)) (omega arith, tt) index_key
      ((λ p. tt), (λ p. tt), ((λ p. tt), tt, tt)) refl

range_interval-encode_key_example :
    Selects
      (λ iv. contains iv (seven ++ twelve))
      (in_range to_int (column_at two_ints a_row 0 ∷ column_at two_ints a_row 1 ∷ []) above_ten)
      (range_interval to_int ◌==◌ false two_ints above_ten)
unfolding shape_supported append_bound_value append_key_column signed_value
range_interval-encode_key_example =
    range_interval-encode_key to_int ◌==◌ to_int_fits same_numbers two_ints a_row (0 ∷ 1 ∷ [])
      (seven ++ twelve) above_ten (int-IsKeyValue 7, (int-IsKeyValue 12, tt)) row_key
      ((λ p. tt), (λ p. tt), ((λ p. tt), tt, tt)) refl (refl, (refl, tt))

-- `a < 3 OR a = 7 AND b > 10`
abbrev low_or_above_ten : List (List (RangeColumn ℕ))
low_or_above_ten = (record { lower = above_null; upper = below_key 3 } ∷ []) ∷ above_ten ∷ []

range_intervals-encode_index_key_example :
    AreRight
      ((1 ∷ seven) ++ (1 ∷ twelve) ++ 9 ∷ [])
      (in_any to_int
        (column_at two_ints a_row 0 ∷ column_at two_ints a_row 1 ∷ [])
        low_or_above_ten)
      (range_intervals to_int ◌==◌ true two_ints low_or_above_ten)
unfolding shape_supported append_bound_value append_key_column signed_value
range_intervals-encode_index_key_example =
    range_intervals-encode_index_key to_int ◌==◌ to_int_fits same_numbers two_ints a_row
      (0 ∷ 1 ∷ []) (9 ∷ []) false ((1 ∷ seven) ++ (1 ∷ twelve) ++ 9 ∷ []) false low_or_above_ten
      (int-IsKeyValue 7, (int-IsKeyValue 12, tt)) (omega arith, tt) index_key
      ((tt, (λ p. tt), tt), (((λ p. tt), (λ p. tt), ((λ p. tt), tt, tt)), tt)) (refl, (refl, tt))
