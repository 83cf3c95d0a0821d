-- ===== src/Repository/Journal/Examples.antt =====
-- A journal of two records with a third one that is cut off. Records are their own texts here.
use repodb.Base.{
  ℕ, ◌^◌, ◌%◌, ◌<◌, ◌≡◌, refl, Option, some, List, [], ◌∷◌, ◌++◌, length, take, arith,
}
use repodb.Bytes.{Bytes, compare_bytes}
use repodb.Bytes.BigEndian.{big_endian, from_big_endian}
use repodb.Repository.Journal.{
  read, corrupt, invalid_magic, frame, append_records, read_frames, read_content,
}
use repodb.Repository.Journal.Torn.{IsWritten, frames_from, end_of, read_frames-append_records}

abbrev text : Bytes → Bytes
text r = r

abbrev record_of : Bytes → Option Bytes
record_of b = some b

-- A stand-in for the checksum.
abbrev size_sum : Bytes → ℕ
size_sum b = length b % 2 ^ 32

sums : (b : Bytes) → size_sum b < 2 ^ 32
sums b = omega arith

abbrev two_records : List Bytes
two_records = (7 ∷ []) ∷ (8 ∷ 9 ∷ []) ∷ []

first-IsWritten : IsWritten text record_of size_sum sums (7 ∷ [])
first-IsWritten = record { round_trip = refl; not_empty = omega arith; not_long = omega arith }

second-IsWritten : IsWritten text record_of size_sum sums (8 ∷ 9 ∷ [])
second-IsWritten = record { round_trip = refl; not_empty = omega arith; not_long = omega arith }

-- Another program's file.
not_a_journal :
    read_frames record_of size_sum 2 0 (1 ∷ 2 ∷ 3 ∷ 4 ∷ 5 ∷ 6 ∷ 7 ∷ 8 ∷ 9 ∷ 10 ∷ 11 ∷ 12 ∷ [])
    ≡ corrupt invalid_magic
unfolding read_frames read_content compare_bytes from_big_endian
not_a_journal = refl

read_frames-append_records_example :
    read_frames record_of size_sum 3 0
      (append_records text size_sum [] two_records ++ take 13 (frame text size_sum (8 ∷ 9 ∷ [])))
    ≡ read
        (frames_from text record_of size_sum sums 0 two_records)
        (end_of text record_of size_sum sums 0 two_records)
unfolding frame big_endian
read_frames-append_records_example =
    read_frames-append_records text record_of size_sum sums 3 13 two_records (8 ∷ 9 ∷ [])
      (first-IsWritten, (second-IsWritten, tt)) second-IsWritten (omega arith) (omega arith)
