-- ===== src/Engine/RowCodec/Projection/Repeats.antt =====
-- The last loop of `decodeRowProjected` copies every column to all positions that name it.
use repodb.Base.{
  some_injective, ℕ, suc, ◌+◌, ◌<◌, ◌≡◌, refl, sym, ap, ◌∙◌, some, List, [], ◌∷◌, arith, length,
  get_elem?, inl, inr,
}
use repodb.Engine.RowCodec.Row.{Row}
use repodb.Engine.RowCodec.Projection.{value_at, set_value, RowProjection, slot_value, fill_repeats}
use repodb.Engine.RowCodec.Projection.Positions.{
  length-set_value, value_at-set_value_self, value_at-set_value_other, same_or_not,
}
use repodb.Engine.RowCodec.Projection.Slots.{IsSlots, Follows}

module _ {J : Type 0} where
  module _ (all : List ℕ) (p : RowProjection) (row : Row J) (inv : IsSlots all (length all) p) where
    -- Every slot holds its column.
    abbrev pub InSlots : Row J → Type 0
    InSlots out = (o s : ℕ) → value_at p.slot o ≡ some s → value_at out s ≡ value_at row o

    -- So does every position before `i`.
    abbrev pub Before : ℕ → Row J → Type 0
    Before i out = (m o : ℕ) → m < i → get_elem? all m ≡ some o → value_at out m ≡ value_at row o

    module _ (i o : ℕ) (out : Row J) (here : get_elem? all i ≡ some o) (inside : i < length all)
        (enough : length out ≡ length all) (slots : InSlots out) (before : Before i out) where
      copied : value_at (set_value out i (slot_value out (value_at p.slot o))) i ≡ value_at row o
      copied =
          let (s, e, k) = inv.has_slot i o inside here in
          value_at-set_value_self out i (slot_value out (value_at p.slot o)) (omega arith)
          ∙ ap (slot_value out) e
          ∙ slots o s e

      InSlots-copied : InSlots (set_value out i (slot_value out (value_at p.slot o)))
      InSlots-copied o' s e = elim (same_or_not i s) [
        | inl same ↦
            let column : o ≡ o' =
              some_injective (sym here ∙ ap (get_elem? all) same ∙ (inv.named o' s e).1) in
            ap (value_at (set_value out i (slot_value out (value_at p.slot o)))) (sym same)
            ∙ copied
            ∙ ap (value_at row) column
        | inr other ↦
            value_at-set_value_other out i s (slot_value out (value_at p.slot o)) other
            ∙ slots o' s e
      ]

      Before-copied : Before (i + 1) (set_value out i (slot_value out (value_at p.slot o)))
      Before-copied m o' l g = elim (same_or_not i m) [
        | inl same ↦
            let column : o ≡ o' = some_injective (sym here ∙ ap (get_elem? all) same ∙ g) in
            ap (value_at (set_value out i (slot_value out (value_at p.slot o)))) (sym same)
            ∙ copied
            ∙ ap (value_at row) column
        | inr other ↦
            value_at-set_value_other out i m (slot_value out (value_at p.slot o)) other
            ∙ before m o' (ground arith) g
      ]

    pub length-fill_repeats :
        (i : ℕ) (rest : List ℕ) (out : Row J) → length (fill_repeats i rest p.slot out) ≡ length out
    unfolding fill_repeats
    length-fill_repeats i [] out = refl
    length-fill_repeats i (o ∷ rest) out =
        length-fill_repeats (i + 1) rest (set_value out i (slot_value out (value_at p.slot o)))
        ∙ length-set_value out i (slot_value out (value_at p.slot o))

    pub Before-fill_repeats :
        (i : ℕ) (rest : List ℕ) (out : Row J)
        → Follows all i rest
        → i + length rest ≡ length all
        → length out ≡ length all
        → InSlots out
        → Before i out
        → Before (length all) (fill_repeats i rest p.slot out)
    unfolding fill_repeats
    Before-fill_repeats i [] out f n l slots before = λ m o k g. before m o (omega arith) g
    Before-fill_repeats i (o ∷ rest) out f n l slots before =
        let zero_right : i + 0 ≡ i = omega arith in
        let here : get_elem? all i ≡ some o = ap (get_elem? all) (sym zero_right) ∙ sym (f 0) in
        let inside : i < length all = omega arith in
        Before-fill_repeats (i + 1) rest (set_value out i (slot_value out (value_at p.slot o)))
          (λ m. f (suc m) ∙ ap (get_elem? all) (omega arith)) (omega arith)
          (length-set_value out i (slot_value out (value_at p.slot o)) ∙ l)
          (InSlots-copied i o out here inside l slots before)
          (Before-copied i o out here inside l slots before)
