-- ===== src/Repository/Journal.antt =====
-- The journal's frames in common/repository/working.go: `appendRecords` and `readJournalFrames`. JSON
-- and the checksum are parameters: `unmarshal` is both decoders and the check of the version.
pub mod Torn
mod Examples
use repodb.Base.{
  ℕ, zero, suc, ◌+◌, ◌^◌, Bool, true, false, Option, none, some, List, [], ◌∷◌, ◌++◌, ◌||◌, ◌==◌,
  ltb, if◌then◌else◌, length, take, drop,
}
use repodb.Bytes.{Bytes, equal_bytes}
use repodb.Bytes.BigEndian.{big_endian, from_big_endian}

-- "RDBJ"
abbrev pub magic : Bytes
magic = b'R' ∷ b'D' ∷ b'B' ∷ b'J' ∷ []

-- `journalFrame`: a record with the offset behind its frame.
pub record JournalFrame (R : Type 0) : Type 0 where
  pub content : R
  pub end : ℕ

pub data JournalError : Type 0 where
  invalid_magic invalid_length checksum_mismatch invalid_record : JournalError

-- The frames and the offset behind the last one, or an error. `stuck` is no Go value: the fuel ran
-- out.
pub data Frames (R : Type 0) : Type 0 where
  read : List (JournalFrame R) → ℕ → Frames R
  corrupt : JournalError → Frames R
  stuck : Frames R

abbrev pub prepend : {R : Type 0} → JournalFrame R → Frames R → Frames R
prepend f (read frames offset) = read (f ∷ frames) offset
prepend f (corrupt e) = corrupt e
prepend f stuck = stuck

-- The header of a frame: magic, length and checksum of the content.
abbrev pub header : (Bytes → ℕ) → Bytes → Bytes
header checksum content =
    magic ++ (big_endian 4 (length content) ++ big_endian 4 (checksum content))

module _ {R : Type 0} (marshal : R → Bytes) (checksum : Bytes → ℕ) where
  -- What `appendRecords` writes.
  pub frame : R → Bytes
  frame r = header checksum (marshal r) ++ marshal r

  pub append_records : Bytes → List R → Bytes
  append_records journal [] = journal
  append_records journal (r ∷ records) = append_records (journal ++ frame r) records

module _ {R : Type 0} (unmarshal : Bytes → Option R) (checksum : Bytes → ℕ) where
  abbrev pub frame_length : Bytes → ℕ
  frame_length head = from_big_endian 0 (take 4 (drop 4 head))

  abbrev pub frame_checksum : Bytes → ℕ
  frame_checksum head = from_big_endian 0 (drop 8 head)

  -- A round of the loop of `readJournalFrames`, behind the header; `later` reads the frames that
  -- follow.
  pub read_content : Bytes → Bytes → ℕ → (ℕ → Bytes → Frames R) → Frames R
  read_content head rest offset later =
      let n = frame_length head in
      let next = later (offset + 12 + n) (drop n rest) in
      if equal_bytes (take 4 head) magic
      then (if (n == 0) || ltb (2 ^ 30) n
          then corrupt invalid_length
          else if ltb (length rest) n
          then read [] offset
          else if checksum (take n rest) == frame_checksum head
          then (elim (unmarshal (take n rest)) [
            | none ↦ corrupt invalid_record
            | some r ↦ prepend (record { content = r; end = offset + 12 + n }) next
          ])
          else corrupt checksum_mismatch)
      else corrupt invalid_magic

  -- The loop on the bytes from the offset on; a header that is cut off ends it. The source returns
  -- how far the offset has come.
  pub read_frames : ℕ → ℕ → Bytes → Frames R
  read_frames zero offset input = stuck
  read_frames (suc fuel) offset input =
      if ltb (length input) 12
      then read [] offset
      else read_content (take 12 input) (drop 12 input) offset (read_frames fuel)
