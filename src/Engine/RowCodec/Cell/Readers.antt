-- ===== src/Engine/RowCodec/Cell/Readers.antt =====
-- The readers of a row find what was written.
use repodb.Base.{
  ℕ, ◌^◌, ◌<◌, ◌≡◌, refl, false, ◌++◌, append_assoc, ltb, arith, length, length-append, take_exact,
  drop_exact,
}
use repodb.Base.Int.{ℤ}
use repodb.Bytes.{Bytes}
use repodb.Prolly.Varint.{append_uvarint, uvarint-append_uvarint}
use repodb.Engine.RowCodec.Values.{Width, done, append_varint, zigzag, little_endian}
use repodb.Engine.RowCodec.Values.Laws.{
  InRange, unzigzag-zigzag, zigzag_bound, length-little_endian,
}
use repodb.Engine.RowCodec.Cell.{read_uvarint, read_varint, read_fixed, read_span}

pub read_uvarint-append :
    (n : ℕ) (rest : Bytes) → n < 2 ^ 64 → read_uvarint (append_uvarint n ++ rest) ≡ done (n, rest)
unfolding read_uvarint
read_uvarint-append n rest h = rw (read_uvarint, uvarint-append_uvarint n rest h)

pub read_varint-append :
    (w : Width) (z : ℤ) (rest : Bytes)
    → InRange w z
    → read_varint (append_varint z ++ rest) ≡ done (z, rest)
unfolding read_varint
read_varint-append w z rest h =
    rw (read_uvarint-append (zigzag z) rest (zigzag_bound w z h)) (rw (unzigzag-zigzag z) refl)

pub not_short : (xs ys : Bytes) → ltb (length (xs ++ ys)) (length xs) ≡ false
not_short xs ys = ground (arith, length-append xs ys)

pub read_fixed-append :
    (n : ℕ) (b rest : Bytes) → length b ≡ n → read_fixed n (b ++ rest) ≡ done (b, rest)
unfolding read_fixed
read_fixed-append n b rest h =
    rw (take_exact n b rest h, drop_exact n b rest h) (rw (← h) (rw (not_short b rest) refl))

pub read_span-append :
    (b rest : Bytes)
    → length b < 2 ^ 64
    → read_span ((append_uvarint (length b) ++ b) ++ rest) ≡ done (b, rest)
unfolding read_span
read_span-append b rest h =
    rw
      (
        append_assoc (append_uvarint (length b)) b rest,
        read_uvarint-append (length b) (b ++ rest) h,
        not_short b rest,
        take_exact (length b) b rest refl,
        drop_exact (length b) b rest refl,
      )
      refl

pub read_fixed-little_endian :
    (n v : ℕ) (rest : Bytes)
    → read_fixed n (little_endian n v ++ rest) ≡ done (little_endian n v, rest)
read_fixed-little_endian n v rest =
    read_fixed-append n (little_endian n v) rest (length-little_endian n v)
