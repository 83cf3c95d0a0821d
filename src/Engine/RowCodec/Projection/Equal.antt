-- ===== src/Engine/RowCodec/Projection/Equal.antt =====
-- Decoding some columns of a row is decoding the row and projecting it.
use repodb.Base.{
  some_injective, ℕ, zero, suc, ◌<◌, ◌≡◌, refl, sym, ap, ap₂, ◌∙◌, Bool, true, false, Option, none,
  some, List, [], ◌∷◌, ◌==◌, if◌then◌else◌, arith, length, get_elem?, take, drop, map, All,
  Bool-cases, Option-cases, inl, inr,
}
use repodb.Bytes.{Bytes}
use repodb.Engine.RowCodec.Values.{CellValue, done, and_then}
use repodb.Engine.RowCodec.Row.{bitmap_size, Schema, Row, decode_row}
use repodb.Engine.RowCodec.Projection.{
  value_at, blanks, RowProjection, built, counts_from, new_row_projection, project, fill_repeats,
  fill, project_cells, decode_row_projected,
}
use repodb.Engine.RowCodec.Row.Steps.{Decoded, Decoded_lem}
use repodb.Engine.RowCodec.Projection.Positions.{value_at-blanks, length-blanks, none-ne-some}
use repodb.Engine.RowCodec.Projection.Slots.{
  IsSlots, length-slot-built, ordinals-built, built-IsSlots,
}
use repodb.Engine.RowCodec.Projection.Repeats.{InSlots, length-fill_repeats, Before-fill_repeats}
use repodb.Engine.RowCodec.Projection.Fill.{Ready, Filled, Outcome_lem}

get_elem?-lt : (xs : List ℕ) (m : ℕ) (o : ℕ) → get_elem? xs m ≡ some o → m < length xs
get_elem?-lt [] m o h = absurd (none-ne-some h)
get_elem?-lt (x ∷ xs) zero o h = omega arith
get_elem?-lt (x ∷ xs) (suc m) o h = omega (arith, get_elem?-lt xs m o h)

module _ {J : Type 0} where
  map_at :
      (f : ℕ → Option (CellValue J)) (ordinals : List ℕ) (out : Row J)
      → length out ≡ length ordinals
      → ((m o : ℕ) → get_elem? ordinals m ≡ some o → value_at out m ≡ f o)
      → out ≡ map f ordinals
  unfolding value_at
  map_at f [] [] l h = refl
  map_at f [] (v ∷ out) l h = absurd (omega arith)
  map_at f (o ∷ ordinals) [] l h = absurd (omega arith)
  map_at f (o ∷ ordinals) (v ∷ out) l h =
      ap₂ (λ x xs. x ∷ xs) (h 0 o refl)
        (map_at f ordinals out (omega arith) (λ m o' e. h (suc m) o' e))

  module _ (all : List ℕ) (p : RowProjection) (row : Row J) (inv : IsSlots all (length all) p)
      (same : p.ordinals ≡ all) where
    Ready-blanks : Ready {J = J} p.slot (blanks (length all))
    Ready-blanks = record {
      distinct = λ j k s e f. some_injective (sym (inv.named j s e).1 ∙ (inv.named k s f).1);
      inside =
          λ j s e. omega (arith, (inv.named j s e).0, length-blanks (CellValue J) (length all));
      blank = λ j s e. value_at-blanks (length all) s;
    }

    -- The output after the loop over the columns, repeats included.
    fill_lem :
        (last : ℕ) (out : Row J)
        → p.last ≡ some last
        → Filled (suc last) p.slot row (blanks (length all)) out
        → fill p out ≡ map (value_at row) all
    fill_lem last out e f =
        let n : length out ≡ length all =
          f.same_length ∙ length-blanks (CellValue J) (length all) in
        elim (Bool-cases p.repeats) [
          | inl repeats ↦
              rw (repeats, same)
                (map_at (value_at row) all (fill_repeats 0 all p.slot out)
                  (length-fill_repeats all p row inv 0 all out ∙ n)
                  (λ m o g.
                    Before-fill_repeats all p row inv 0 all out
                      (λ m. ap (get_elem? all) (omega arith)) (omega arith) n slots
                      (λ m o l g. absurd (omega arith)) m o (get_elem?-lt all m o g) g))
          | inr once ↦ rw once (
              map_at (value_at row) all out n (λ m o g.
                let (s, e', k) = inv.has_slot m o (get_elem?-lt all m o g) g in
                ap (value_at out) (sym (k once)) ∙ slots o s e'))
        ]
      where
        slots : InSlots all p row inv out
        slots o s e' =
            let (inside, g) = inv.named o s e' in
            let (l, el, b) = inv.up_to_last s o inside g in
            f.filled o s (omega (arith, some_injective (sym e ∙ el))) e'

module _ {J : Type 0} (parse_json : Bytes → Option J) where
  projected-empty :
      (schema : Schema) (input : Bytes) (p : RowProjection)
      → p.last ≡ none
      → decode_row_projected parse_json schema input (some p) ≡ done (blanks (length p.ordinals))
  unfolding decode_row_projected
  projected-empty schema input p e = rw (e, decode_row_projected) refl

  projected-last :
      (schema : Schema) (input : Bytes) (row : Row J) (p : RowProjection) (last : ℕ)
      → p.last ≡ some last
      → (d : Decoded parse_json schema input row)
      → decode_row_projected parse_json schema input (some p)
        ≡ and_then
            (project_cells parse_json 0
              (suc last)
              schema
              p.slot
              (take (bitmap_size (length schema)) d.rest)
              (drop (bitmap_size (length schema)) d.rest)
              (blanks (length p.ordinals)))
            (λ out. done (fill p out))
  unfolding decode_row_projected
  projected-last schema input row p last e d =
      rw (e, decode_row_projected) (rw d.header_read (rw (d.same_width, d.long_enough) refl))

  nothing_named :
      (all : List ℕ) (p : RowProjection) → IsSlots all (length all) p → p.last ≡ none → all ≡ []
  nothing_named [] p inv e = refl
  nothing_named (o ∷ all) p inv e =
      let (l, e', b) = inv.up_to_last 0 o (omega arith) refl in absurd (none-ne-some (sym e ∙ e'))

  project_lem :
      (schema : Schema) (input : Bytes) (row : Row J) (all : List ℕ) (p : RowProjection)
      → decode_row parse_json schema input ≡ done row
      → IsSlots all (length all) p
      → p.ordinals ≡ all
      → length p.slot ≡ length schema
      → decode_row_projected parse_json schema input (some p) ≡ done (map (value_at row) all)
  project_lem schema input row all p h inv same l = elim (Option-cases p.last) [
    | inl empty ↦
        let none_left : all ≡ [] = nothing_named all p inv empty in
        projected-empty schema input p empty
        ∙ ap (λ (os : List ℕ). done (blanks (length os))) (same ∙ none_left)
        ∙ unfold blanks in ap (λ os. done (map (value_at row) os)) (sym none_left)
    | inr (last, e) ↦
        let d = Decoded_lem parse_json schema input row h in
        let (out, e', f) =
          Outcome_lem parse_json 0 (suc last) schema p.slot
            (take (bitmap_size (length schema)) d.rest) (drop (bitmap_size (length schema)) d.rest)
            [] row (blanks (length all)) d.cells (omega (arith, inv.last_inside last e)) l
            (Ready-blanks all p row inv same) in
        projected-last schema input row p last e d
        ∙ ap
            (λ (os : List ℕ).
              and_then
                (project_cells parse_json 0 (suc last) schema p.slot
                  (take (bitmap_size (length schema)) d.rest)
                  (drop (bitmap_size (length schema)) d.rest) (blanks (length os)))
                (λ out. done (fill p out)))
            same
        ∙ ap (λ m. and_then m (λ out. done (fill p out))) e'
        ∙ ap done (fill_lem all p row inv same last out e f)
  ]

  -- Let a row decode without an error, and let ordinals be columns of it, in any order and with
  -- repeats. Then decoding with the projection that `newRowProjection` makes of them gives the
  -- projected row, without an error.
  pub decode_row_projected-project :
      (schema : Schema) (input : Bytes) (row : Row J) (ordinals : List ℕ)
      → decode_row parse_json schema input ≡ done row
      → All (λ o. o < length schema) ordinals
      → decode_row_projected parse_json schema input (new_row_projection (length schema) ordinals)
        ≡ done (project (new_row_projection (length schema) ordinals) row)
  unfolding new_row_projection project decode_row_projected
  decode_row_projected-project schema input row ordinals h inside =
      choose (length ordinals == length schema) (counts_from 0 ordinals)
    where
      p : RowProjection
      p = built (length schema) ordinals

      once :
          decode_row_projected parse_json schema input (some p)
          ≡ done (map (value_at row) p.ordinals)
      once =
          project_lem schema input row ordinals p h (built-IsSlots (length schema) ordinals inside)
            (ordinals-built (length schema) ordinals) (length-slot-built (length schema) ordinals)
          ∙ ap (λ os. done (map (value_at row) os)) (sym (ordinals-built (length schema) ordinals))

      choose :
          (b c : Bool)
          → decode_row_projected parse_json schema input
              (if b then (if c then none else some p) else some p)
            ≡ done (project (if b then (if c then none else some p) else some p) row)
      choose true true = h
      choose true false = once
      choose false c = once
