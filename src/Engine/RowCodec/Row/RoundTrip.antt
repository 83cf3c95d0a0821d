-- ===== src/Engine/RowCodec/Row/RoundTrip.antt =====
-- A row that fits its schema is encoded, and decodes to itself.
use repodb.Base.{
  ℕ, suc, ◌+◌, ◌*◌, ◌/◌, ◌^◌, ◌≤◌, ◌<◌, ◌≡◌, refl, sym, ap, ◌∙◌, true, false, Option, none, some,
  [], ◌∷◌, ◌++◌, append-nil, append_assoc, ◌==◌, ltb, arith, length, length-append, take_exact,
  drop_exact,
}
use repodb.Bytes.{Bytes}
use repodb.Prolly.Varint.{append_uvarint}
use repodb.Engine.RowCodec.Values.{Decimal, done}
use repodb.Engine.RowCodec.Cell.RoundTrip.{IsCell, Written_lem}
use repodb.Engine.RowCodec.Cell.Readers.{read_uvarint-append}
use repodb.Engine.RowCodec.Row.{
  set_null, is_null, zeros, bitmap_size, Schema, Row, append_cells, encode_row, read_cells,
  decode_row,
}
use repodb.Engine.RowCodec.Row.Steps.{read_cells-null, read_cells-value}
use repodb.Engine.RowCodec.Row.Bitmap.{
  length-set_bit_at, is_null-set_null, length-zeros, is_null-zeros,
}

module _ {J : Type 0} (json_text : J → Option Bytes) (parse_json : Bytes → Option J) where
  -- A value for every column, NULL or one that the column's type has.
  abbrev pub IsRow : Schema → Row J → Type 0
  IsRow [] [] = Unit {0}
  IsRow [] (v ∷ row) = ⊥
  IsRow (type ∷ schema) [] = ⊥
  IsRow (type ∷ schema) (none ∷ row) = IsRow schema row
  IsRow (type ∷ schema) (some v ∷ row) = IsCell json_text parse_json type v × IsRow schema row

  length_row : (schema : Schema) (row : Row J) → IsRow schema row → length row ≡ length schema
  length_row [] [] h = refl
  length_row [] (v ∷ row) h = absurd h
  length_row (type ∷ schema) [] h = absurd h
  length_row (type ∷ schema) (none ∷ row) h = ap suc (length_row schema row h)
  length_row (type ∷ schema) (some v ∷ row) h = ap suc (length_row schema row h.1)

module _ {J : Type 0} (narrow widen : ℕ → ℕ) (round : Decimal → ℕ → Option Decimal)
    (json_text : J → Option Bytes) (parse_json : Bytes → Option J) where
  -- What the loop from column `i` on writes, and that it is read back.
  abbrev Appended : ℕ → Schema → Row J → Bytes → Bytes → Type 0
  Appended i schema row nulls cells =
      (nulls' : Bytes) × (bytes : Bytes) × (append_cells narrow widen round json_text i schema row
          nulls cells
        ≡ done (nulls', cells ++ bytes))
      × (length nulls' ≡ length nulls)
      × ((j : ℕ) → j < i → is_null nulls' j ≡ is_null nulls j)
      × ((rest : Bytes) → read_cells parse_json i schema nulls' (bytes ++ rest) ≡ done (row, rest))

  Appended_lem :
      (i : ℕ) (schema : Schema) (row : Row J) (nulls cells : Bytes)
      → IsRow json_text parse_json schema row
      → i + length schema ≤ 8 * length nulls
      → ((j : ℕ) → i ≤ j → is_null nulls j ≡ false)
      → Appended i schema row nulls cells
  unfolding append_cells
  Appended_lem i [] [] nulls cells h b free =
      (nulls, [], rw (append-nil cells) refl, refl, λ j l. refl, λ rest. unfold read_cells in refl)
  Appended_lem i [] (v ∷ row) nulls cells h b free = absurd h
  Appended_lem i (type ∷ schema) [] nulls cells h b free = absurd h
  Appended_lem i (type ∷ schema) (none ∷ row) nulls cells h b free =
      let fits : i / 8 < length nulls = omega arith in
      let same : length (set_null nulls i) ≡ length nulls = length-set_bit_at nulls (i / 8) _ in
      let (nulls', bytes, e, l, before, reads) =
        Appended_lem (i + 1) schema row (set_null nulls i) cells h (omega arith)
          (λ j k. ground (arith, is_null-set_null nulls i j fits, free j)) in
      (
        nulls',
        bytes,
        e,
        l ∙ same,
        λ j k. ground (arith, before j, is_null-set_null nulls i j fits),
        λ rest.
            read_cells-null parse_json i type schema nulls' (bytes ++ rest)
              (ground (arith, before i, is_null-set_null nulls i i fits))
            ∙ rw (reads rest) refl,
      )
  Appended_lem i (type ∷ schema) (some v ∷ row) nulls cells h b free =
      let (bytes, wrote, read) = Written_lem narrow widen round json_text parse_json type v h.0 in
      let (nulls', more, e, l, before, reads) =
        Appended_lem (i + 1) schema row nulls (cells ++ bytes) h.1 (omega arith)
          (λ j k. free j (omega arith)) in
      (
        nulls',
        bytes ++ more,
        rw (wrote cells) (e ∙ ap (λ c. done (nulls', c)) (append_assoc cells bytes more)),
        l,
        λ j k. before j (omega arith),
        λ rest.
            let clear : is_null nulls' i ≡ false = before i (omega arith) ∙ free i (omega arith) in
            read_cells-value parse_json i type schema nulls' ((bytes ++ more) ++ rest) clear
            ∙ rw (append_assoc bytes more rest, read (more ++ rest), reads rest) refl,
      )

  decode_row-parts :
      (schema : Schema) (row : Row J) (nulls cells : Bytes)
      → length schema < 2 ^ 64
      → length nulls ≡ bitmap_size (length schema)
      → read_cells parse_json 0 schema nulls cells ≡ done (row, [])
      → decode_row parse_json schema (append_uvarint (length schema) ++ (nulls ++ cells)) ≡ done row
  unfolding decode_row
  decode_row-parts schema row nulls cells b l reads =
      let enough : ltb (length (nulls ++ cells)) (bitmap_size (length schema)) ≡ false =
        ground (arith, length-append nulls cells) in
      let same : (length schema == length schema) ≡ true = ground arith in
      rw
        (
          read_uvarint-append (length schema) (nulls ++ cells) b,
          same,
          enough,
          take_exact (bitmap_size (length schema)) nulls cells l,
          drop_exact (bitmap_size (length schema)) nulls cells l,
          reads,
        )
        refl

  encode_row-parts :
      (schema : Schema) (row : Row J) (nulls cells : Bytes)
      → length row ≡ length schema
      → append_cells narrow widen round json_text 0 schema row
          (zeros (bitmap_size (length schema)))
          []
        ≡ done (nulls, cells)
      → encode_row narrow widen round json_text schema row
        ≡ done (append_uvarint (length schema) ++ (nulls ++ cells))
  unfolding encode_row
  encode_row-parts schema row nulls cells n e =
      let same : (length schema == length schema) ≡ true = ground arith in
      rw n (rw same (rw e refl))

  -- Let every value be NULL or fit its column's type: integers in the range of the type, decimals
  -- finite, at the column's scale and with one zero, JSON documents that parse back from their text,
  -- and texts and columns that 64 bits count. Then the row is encoded without an error, and decoding its
  -- bytes returns the row.
  pub decode_row-encode_row :
      (schema : Schema) (row : Row J)
      → IsRow json_text parse_json schema row
      → length schema < 2 ^ 64
      → (bytes : Bytes) × (encode_row narrow widen round json_text schema row ≡ done bytes)
        × (decode_row parse_json schema bytes ≡ done row)
  decode_row-encode_row schema row h b =
      let z = length-zeros (bitmap_size (length schema)) in
      let (nulls, cells, e, l, before, reads) =
        Appended_lem 0 schema row (zeros (bitmap_size (length schema))) [] h (omega arith)
          (λ j k. is_null-zeros (bitmap_size (length schema)) j) in
      (
        append_uvarint (length schema) ++ (nulls ++ cells),
        encode_row-parts schema row nulls cells (length_row json_text parse_json schema row h) e,
        decode_row-parts schema row nulls cells b (l ∙ z)
            (ap (read_cells parse_json 0 schema nulls) (sym (append-nil cells)) ∙ reads []),
      )
