-- ===== src/Engine/KeyCodec/Column/Examples.antt =====
-- Key columns of a few values.
use repodb.Base.{◌-◌, ◌^◌, ◌≡◌, refl, some, none, [], ◌∷◌, ◌++◌, arith}
use repodb.Bytes.{compare_bytes}
use repodb.Bytes.BigEndian.{big_endian}
use repodb.Bytes.Compare.{then_compare}
use repodb.Engine.RowCodec.Values.{w8, w64}
use repodb.Engine.KeyCodec.Column.{
  signed, float, int_value, float_value, signed_value, append_key_column, trim_right,
}
use repodb.Engine.KeyCodec.Column.Meaning.{compare_values, IsWord}
use repodb.Engine.KeyCodec.Column.Order.{append_key_column-order}

-- -1, as a byte.
minus_one_key :
    append_key_column [] signed (int_value w8 255)
    ≡ some (127 ∷ 255 ∷ 255 ∷ 255 ∷ 255 ∷ 255 ∷ 255 ∷ 255 ∷ [])
unfolding append_key_column signed_value big_endian
minus_one_key = refl

five_key :
    append_key_column [] signed (int_value w64 5) ≡ some (128 ∷ 0 ∷ 0 ∷ 0 ∷ 0 ∷ 0 ∷ 0 ∷ 5 ∷ [])
unfolding append_key_column signed_value big_endian
five_key = refl

-- The quiet NaN has no key.
nan_key : append_key_column [] float (float_value 0x7FF8000000000000) ≡ none
unfolding append_key_column
nan_key = refl

trimmed : trim_right (b'a' ∷ b' ' ∷ b'b' ∷ b' ' ∷ b' ' ∷ []) ≡ b'a' ∷ b' ' ∷ b'b' ∷ []
unfolding trim_right
trimmed = refl

-- -1 of 64 bits has the same key.
narrow_key :
    append_key_column [] signed (int_value w8 255)
    ≡ append_key_column [] signed (int_value w64 (2 ^ 64 - 1))
unfolding append_key_column signed_value
narrow_key = refl

minus_one-IsWord : IsWord (int_value w8 255)
minus_one-IsWord = omega arith

five-IsWord : IsWord (int_value w64 5)
five-IsWord = omega arith

append_key_column-order_example :
    compare_bytes
      ((127 ∷ 255 ∷ 255 ∷ 255 ∷ 255 ∷ 255 ∷ 255 ∷ 255 ∷ []) ++ 9 ∷ [])
      ((128 ∷ 0 ∷ 0 ∷ 0 ∷ 0 ∷ 0 ∷ 0 ∷ 5 ∷ []) ++ [])
    ≡ then_compare
        (compare_values signed (int_value w8 255) (int_value w64 5))
        (compare_bytes (9 ∷ []) [])
append_key_column-order_example =
    append_key_column-order signed (int_value w8 255) (int_value w64 5) [] _ _ (9 ∷ []) []
      minus_one-IsWord five-IsWord minus_one_key five_key
