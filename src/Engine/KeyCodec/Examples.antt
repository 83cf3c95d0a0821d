-- ===== src/Engine/KeyCodec/Examples.antt =====
-- Escaped keys and prefix ends on small inputs.
use repodb.Base.{◌≡◌, refl, none, some, [], ◌∷◌, ◌++◌, ◌&&◌, arith, All}
use repodb.Bytes.{Bytes, compare_bytes, at_least}
use repodb.Engine.KeyCodec.{escape, append_escaped, key_prefix_end}
use repodb.Engine.KeyCodec.Escape.{
  compare-append_escaped, key_prefix_end_lem, before_end, has_prefix, IsByte,
}
use repodb.Bytes.Compare.{then_compare}

-- A zero byte in the middle.
abbrev with_zero : Bytes
with_zero = b'a' ∷ 0 ∷ b'b' ∷ []

zero_is_escaped : append_escaped [] with_zero ≡ b'a' ∷ 0 ∷ 255 ∷ b'b' ∷ 0 ∷ 1 ∷ []
unfolding append_escaped escape
zero_is_escaped = refl

all_ones_are_dropped : key_prefix_end (7 ∷ 255 ∷ 255 ∷ []) ≡ some (8 ∷ [])
unfolding key_prefix_end
all_ones_are_dropped = refl

no_end : key_prefix_end (255 ∷ 255 ∷ []) ≡ none
unfolding key_prefix_end
no_end = refl

bytes : All IsByte (7 ∷ 255 ∷ 255 ∷ 3 ∷ [])
bytes = omega arith

prefix_bytes : All IsByte (7 ∷ 255 ∷ 255 ∷ [])
prefix_bytes = omega arith

compare-append_escaped_example :
    compare_bytes
      (append_escaped (4 ∷ []) with_zero ++ 9 ∷ [])
      (append_escaped (4 ∷ []) (b'a' ∷ []) ++ [])
    ≡ then_compare (compare_bytes with_zero (b'a' ∷ [])) (compare_bytes (9 ∷ []) [])
compare-append_escaped_example = compare-append_escaped (4 ∷ []) with_zero (b'a' ∷ []) (9 ∷ []) []

key_prefix_end_lem_example :
    (at_least (7 ∷ 255 ∷ 255 ∷ 3 ∷ []) (7 ∷ 255 ∷ 255 ∷ [])
      && before_end (key_prefix_end (7 ∷ 255 ∷ 255 ∷ [])) (7 ∷ 255 ∷ 255 ∷ 3 ∷ []))
    ≡ has_prefix (7 ∷ 255 ∷ 255 ∷ []) (7 ∷ 255 ∷ 255 ∷ 3 ∷ [])
key_prefix_end_lem_example =
    key_prefix_end_lem (7 ∷ 255 ∷ 255 ∷ []) (7 ∷ 255 ∷ 255 ∷ 3 ∷ []) prefix_bytes bytes
