-- ===== src/Prolly/Varint.antt =====
-- `binary.AppendUvarint` and `binary.Uvarint` of Go's standard library, which the node codec uses.
use repodb.Base.{
  ℕ, zero, suc, ◌+◌, ◌*◌, ◌/◌, ◌%◌, ◌^◌, ◌≤◌, ◌<◌, ◌≡◌, refl, Option, none, some, [], ◌∷◌, ◌++◌,
  ◌&&◌, ◌==◌, ltb, if◌then◌else◌, arith, length,
}
use repodb.Bytes.{Bytes}

-- Seven bits in each byte, the lowest first; nine bytes and a bit hold every 64-bit number.
unfoldable pub append_groups : ℕ → ℕ → Bytes
append_groups zero x = x ∷ []
append_groups (suc n) x = if ltb x 128 then x ∷ [] else (128 + x % 128) ∷ append_groups n (x / 128)

abbrev pub append_uvarint : ℕ → Bytes
append_uvarint x = append_groups 9 x

abbrev pub add_group : ℕ → Option (ℕ × Bytes) → Option (ℕ × Bytes)
add_group b none = none
add_group b (some (v, rest)) = some (b % 128 + 128 * v, rest)

-- The number from byte `i` on, and what follows it; `none` where `Uvarint` answers `n <= 0`.
unfoldable pub uvarint_from : ℕ → Bytes → Option (ℕ × Bytes)
uvarint_from i [] = none
uvarint_from i (b ∷ input) =
    let more = uvarint_from (i + 1) input in
    if i == 10
    then none
    else if ltb b 128
    then (if (i == 9) && ltb 1 b then none else some (b, input))
    else add_group b more

abbrev pub uvarint : Bytes → Option (ℕ × Bytes)
uvarint input = uvarint_from 0 input

-- What `n` full groups and a bit can hold.
abbrev pub group_bound : ℕ → ℕ
group_bound zero = 2
group_bound (suc n) = 128 * group_bound n

divide_bound : (n x : ℕ) → x < group_bound (suc n) → x / 128 < group_bound n
divide_bound n x h = omega arith

-- A byte that holds a group and is not the last.
join_group : (x : ℕ) → (128 + x % 128) % 128 + 128 * (x / 128) ≡ x
join_group x = omega arith

uvarint_from-append_groups :
    (n i x : ℕ) (input : Bytes)
    → i + n ≡ 9
    → x < group_bound n
    → uvarint_from i (append_groups n x ++ input) ≡ some (x, input)
unfolding append_groups uvarint_from
uvarint_from-append_groups zero i x input h b = ground arith
uvarint_from-append_groups (suc n) i x input h b =
    ground (
      arith,
      uvarint_from-append_groups n (i + 1) (x / 128) input,
      divide_bound n x b,
      join_group x,
    )

pub uvarint-append_uvarint :
    (x : ℕ) (input : Bytes) → x < 2 ^ 64 → uvarint (append_uvarint x ++ input) ≡ some (x, input)
uvarint-append_uvarint x input h = uvarint_from-append_groups 9 0 x input refl h

pub length-append_uvarint : (x : ℕ) → 1 ≤ length (append_uvarint x)
unfolding append_groups
length-append_uvarint x = ground arith
