-- ===== src/Repository/Journal/Torn.antt =====
-- A journal whose last append was cut off still gives every record before it.
use repodb.Base.{
  ℕ, zero, suc, ◌+◌, ◌-◌, ◌^◌, ◌≤◌, ◌<◌, ◌≡◌, refl, ap, ◌∙◌, true, false, Option, some, List, [],
  ◌∷◌, ◌++◌, append_assoc, append-nil, ◌||◌, ◌==◌, ltb, arith, length, length-append, take,
  take_exact, drop_exact, length-take_short, take-append_long, All, lt→ltb, ltb→lt, Bool-cases, inl,
  inr,
}
use repodb.Bytes.{Bytes, compare_bytes}
use repodb.Bytes.BigEndian.{big_endian, length-big_endian, from_big_endian-big_endian}
use repodb.Repository.Journal.{
  magic, JournalFrame, Frames, read, prepend, header, frame, append_records, frame_length,
  frame_checksum, read_content, read_frames,
}

module _ {R : Type 0} (marshal : R → Bytes) (unmarshal : Bytes → Option R) (checksum : Bytes → ℕ)
    (sums : (bytes : Bytes) → checksum bytes < 2 ^ 32) where
  -- A record that JSON gives back, and whose text is no longer than a frame may be.
  pub record IsWritten (r : R) : Type 0 where
    pub round_trip : unmarshal (marshal r) ≡ some r
    pub not_empty : 1 ≤ length (marshal r)
    pub not_long : length (marshal r) ≤ 2 ^ 30

  length-header : (content : Bytes) → length (header checksum content) ≡ 12
  length-header content = omega (
    arith,
    length-append (big_endian 4 (length content)) (big_endian 4 (checksum content)),
    length-big_endian 4 (length content),
    length-big_endian 4 (checksum content),
  )

  frame_length-header :
      (content : Bytes)
      → length content ≤ 2 ^ 30
      → frame_length unmarshal checksum (header checksum content) ≡ length content
  frame_length-header content h =
      rw
        (take_exact 4 (big_endian 4 (length content)) (big_endian 4 (checksum content))
          (length-big_endian 4 (length content)))
        (from_big_endian-big_endian 4 (length content) (omega arith))

  frame_checksum-header :
      (content : Bytes)
      → frame_checksum unmarshal checksum (header checksum content) ≡ checksum content
  frame_checksum-header content =
      rw
        (drop_exact 4 (big_endian 4 (length content)) (big_endian 4 (checksum content))
          (length-big_endian 4 (length content)))
        (from_big_endian-big_endian 4 (checksum content) (sums content))

  long_enough : (xs ys : Bytes) → 12 ≤ length xs → ltb (length (xs ++ ys)) 12 ≡ false
  long_enough xs ys h = ground (arith, length-append xs ys)

  good_length : (n : ℕ) → 1 ≤ n → n ≤ 2 ^ 30 → ((n == 0) || ltb (2 ^ 30) n) ≡ false
  good_length n h k = ground arith

  equal_refl : (n : ℕ) → (n == n) ≡ true
  equal_refl n = ground arith

  not_short : (xs ys : Bytes) → ltb (length (xs ++ ys)) (length xs) ≡ false
  not_short xs ys = ground (arith, length-append xs ys)

  content_read :
      (head c later : Bytes) (offset : ℕ) (go_on : ℕ → Bytes → Frames R) (r : R)
      → take 4 head ≡ magic
      → frame_length unmarshal checksum head ≡ length c
      → frame_checksum unmarshal checksum head ≡ checksum c
      → 1 ≤ length c
      → length c ≤ 2 ^ 30
      → unmarshal c ≡ some r
      → read_content unmarshal checksum head (c ++ later) offset go_on
        ≡ prepend
            (record { content = r; end = offset + 12 + length c })
            (go_on (offset + 12 + length c) later)
  unfolding read_content compare_bytes
  content_read head c later offset go_on r em el es h k er =
      rw
        (
          read_content,
          em,
          el,
          es,
          good_length (length c) h k,
          not_short c later,
          take_exact (length c) c later refl,
          equal_refl (checksum c),
          er,
          el,
          drop_exact (length c) c later refl,
        )
        refl

  content_cut :
      (head rest : Bytes) (offset n : ℕ) (go_on : ℕ → Bytes → Frames R)
      → take 4 head ≡ magic
      → frame_length unmarshal checksum head ≡ n
      → 1 ≤ n
      → n ≤ 2 ^ 30
      → length rest < n
      → read_content unmarshal checksum head rest offset go_on ≡ read [] offset
  unfolding read_content compare_bytes
  content_cut head rest offset n go_on em el h k l =
      rw (read_content, em, el, good_length n h k, lt→ltb (length rest) n l) refl

  behind_header :
      (fuel offset : ℕ) (head rest : Bytes)
      → length head ≡ 12
      → read_frames unmarshal checksum (suc fuel) offset (head ++ rest)
        ≡ read_content unmarshal checksum head rest offset (read_frames unmarshal checksum fuel)
  unfolding read_frames
  behind_header fuel offset head rest l =
      rw
        (
          read_frames,
          long_enough head rest (omega (arith, l)),
          take_exact 12 head rest l,
          drop_exact 12 head rest l,
        )
        refl

  read_frame :
      (fuel offset : ℕ) (r : R) (later : Bytes)
      → IsWritten r
      → read_frames unmarshal checksum (suc fuel) offset (frame marshal checksum r ++ later)
        ≡ prepend
            (record { content = r; end = offset + 12 + length (marshal r) })
            (read_frames unmarshal checksum fuel (offset + 12 + length (marshal r)) later)
  unfolding read_frames frame
  read_frame fuel offset r later w =
      ap (read_frames unmarshal checksum (suc fuel) offset)
        (append_assoc (header checksum (marshal r)) (marshal r) later)
      ∙ behind_header fuel offset (header checksum (marshal r)) (marshal r ++ later)
          (length-header (marshal r))
      ∙ content_read (header checksum (marshal r)) (marshal r) later offset
          (read_frames unmarshal checksum fuel) r refl (frame_length-header (marshal r) w.not_long)
          (frame_checksum-header (marshal r)) w.not_empty w.not_long w.round_trip

  read_cut :
      (fuel offset n : ℕ) (r : R)
      → IsWritten r
      → n < length (frame marshal checksum r)
      → read_frames unmarshal checksum (suc fuel) offset (take n (frame marshal checksum r))
        ≡ read [] offset
  unfolding read_frames frame
  read_cut fuel offset n r w h = elim (Bool-cases (ltb n 12)) [
    | inl t ↦ rw (read_frames, length-cut (ltb→lt n 12 t), t) refl
    | inr f ↦
        ap (read_frames unmarshal checksum (suc fuel) offset)
          (take-append_long n head c (ground (arith, f, length-header c)))
        ∙ behind_header fuel offset head (take (n - length head) c) (length-header c)
        ∙ content_cut head (take (n - length head) c) offset (length c)
            (read_frames unmarshal checksum fuel) refl (frame_length-header c w.not_long)
            w.not_empty w.not_long
            (omega (
              arith,
              length-take_short (n - length head) c within,
              whole,
              length-header c,
              above f,
            ))
  ]
    where
      c : Bytes
      c = marshal r

      head : Bytes
      head = header checksum c

      whole : length (head ++ c) ≡ 12 + length c
      whole = omega (arith, length-append head c, length-header c)

      above : ltb n 12 ≡ false → 12 ≤ n
      above f = ground (arith, f)

      within : n - length head ≤ length c
      within = omega (arith, whole, length-header c, h)

      length-cut : n < 12 → length (take n (head ++ c)) ≡ n
      length-cut l = length-take_short n (head ++ c) (omega (arith, whole))

  -- Where the frames of records end that stand from an offset on.
  abbrev pub frames_from : ℕ → List R → List (JournalFrame R)
  frames_from offset [] = []
  frames_from offset (r ∷ records) =
      let end = offset + 12 + length (marshal r) in
      record { content = r; end = end } ∷ frames_from end records

  abbrev pub end_of : ℕ → List R → ℕ
  end_of offset [] = offset
  end_of offset (r ∷ records) = end_of (offset + 12 + length (marshal r)) records

  abbrev texts : List R → Bytes
  texts [] = []
  texts (r ∷ records) = frame marshal checksum r ++ texts records

  read_all :
      (fuel offset n : ℕ) (records : List R) (r : R)
      → All IsWritten records
      → IsWritten r
      → n < length (frame marshal checksum r)
      → length records < fuel
      → read_frames unmarshal checksum fuel offset
          (texts records ++ take n (frame marshal checksum r))
        ≡ read (frames_from offset records) (end_of offset records)
  read_all zero offset n records r ws w h l = absurd (omega arith)
  read_all (suc fuel) offset n [] r ws w h l = read_cut fuel offset n r w h
  read_all (suc fuel) offset n (s ∷ records) r ws w h l =
      ap (read_frames unmarshal checksum (suc fuel) offset) (
        append_assoc (frame marshal checksum s) (texts records) (take n (frame marshal checksum r)))
      ∙ read_frame fuel offset s (texts records ++ take n (frame marshal checksum r)) ws.0
      ∙ ap (prepend _) (read_all fuel _ n records r ws.1 w h (omega arith))

  append_records-texts :
      (journal : Bytes) (records : List R)
      → append_records marshal checksum journal records ≡ journal ++ texts records
  unfolding append_records
  append_records-texts journal [] = rw (append-nil journal) refl
  append_records-texts journal (r ∷ records) =
      append_records-texts (journal ++ frame marshal checksum r) records
      ∙ append_assoc journal (frame marshal checksum r) (texts records)

  -- Let checksums have 32 bits, let JSON give back the records that were appended to an empty journal
  -- and one more, and let their texts have from one byte to 2^30. If only a part of the last frame
  -- reached the file, even none of it, then reading gives no error: it gives exactly the records
  -- before, in order, each with the offset behind its frame, and the end of the last whole frame. A
  -- fuel above the number of records is enough.
  pub read_frames-append_records :
      (fuel n : ℕ) (records : List R) (r : R)
      → All IsWritten records
      → IsWritten r
      → n < length (frame marshal checksum r)
      → length records < fuel
      → read_frames unmarshal checksum fuel 0
          (append_records marshal checksum [] records ++ take n (frame marshal checksum r))
        ≡ read (frames_from 0 records) (end_of 0 records)
  read_frames-append_records fuel n records r ws w h l =
      ap (λ b. read_frames unmarshal checksum fuel 0 (b ++ take n (frame marshal checksum r)))
        (append_records-texts [] records)
      ∙ read_all fuel 0 n records r ws w h l
