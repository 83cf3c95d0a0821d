-- ===== src/Engine/RowCodec/Projection/Slots.antt =====
-- The slots of a projection are the first positions of the columns that it names.
use repodb.Base.{
  some_injective, ℕ, suc, ◌+◌, ◌≤◌, ◌<◌, ◌≡◌, refl, sym, ap, ◌∙◌, true, false, Option, none, some,
  List, [], ◌∷◌, ◌==◌, ltb, arith, length, get_elem?, All, Option-cases, Bool-cases, ◌⊎◌, inl, inr,
}
use repodb.Engine.RowCodec.Projection.{
  value_at, set_value, RowProjection, max_last, add_ordinal, add_ordinals, empty_projection, built,
}
use repodb.Engine.RowCodec.Projection.Positions.{
  length-set_value, value_at-set_value_self, value_at-set_value_other, value_at-blanks,
  length-blanks, same_or_not, none-ne-some,
}

-- After `i` ordinals of a list: a slot is a position that names its column, every column named so far
-- has one, the same position if none is repeated, and is not behind the last, which is a column.
pub record IsSlots (all : List ℕ) (i : ℕ) (p : RowProjection) : Type 0 where
  pub named : (o s : ℕ) → value_at p.slot o ≡ some s → (s < i) × (get_elem? all s ≡ some o)
  pub has_slot :
      (m o : ℕ)
      → m < i
      → get_elem? all m ≡ some o
      → (s : ℕ) × (value_at p.slot o ≡ some s) × (p.repeats ≡ false → s ≡ m)
  pub up_to_last :
      (m o : ℕ) → m < i → get_elem? all m ≡ some o → (l : ℕ) × (p.last ≡ some l) × (o ≤ l)
  pub last_inside : (l : ℕ) → p.last ≡ some l → l < length p.slot

-- Going on by one position: an earlier one, or the new one.
split_last : (m i : ℕ) → m < i + 1 → (m < i) ⊎ (m ≡ i)
split_last m i h = elim (Bool-cases (ltb m i)) [
  | inl l ↦ inl (ground arith)
  | inr g ↦ inr (ground arith)
]

max_last-le : (last : Option ℕ) (o : ℕ) → o ≤ max_last last o
max_last-le none o = omega arith
max_last-le (some l) o = ground arith

le-max_last : (last : Option ℕ) (l o : ℕ) → last ≡ some l → l ≤ max_last last o
le-max_last none l o h = absurd (none-ne-some h)
le-max_last (some l') l o h = let e = some_injective h in ground arith

max_last-lt :
    (n : ℕ) (last : Option ℕ) (o : ℕ)
    → ((l : ℕ) → last ≡ some l → l < n)
    → o < n
    → max_last last o < n
max_last-lt n none o h k = k
max_last-lt n (some l) o h k = let below = h l refl in ground arith

module _ (all : List ℕ) (i o : ℕ) (p : RowProjection) (inv : IsSlots all i p)
    (here : get_elem? all i ≡ some o) where
  -- The column has a slot already.
  repeated :
      (s : ℕ) → value_at p.slot o ≡ some s → IsSlots all (i + 1) (record p { repeats = true })
  repeated s e = record {
    named = λ o' s' e'. (omega (arith, (inv.named o' s' e').0), (inv.named o' s' e').1);
    has_slot = λ m o' l g. elim (split_last m i l) [
      | inl before ↦
          let (s', e', k) = inv.has_slot m o' before g in (s', e', λ f. absurd (ground (arith, f)))
      | inr now ↦ (s, ap (value_at p.slot) (found m o' now g) ∙ e, λ f. absurd (ground (arith, f)))
    ];
    up_to_last = λ m o' l g. elim (split_last m i l) [
      | inl before ↦ inv.up_to_last m o' before g
      | inr now ↦
          let (before, g') = inv.named o s e in
          inv.up_to_last s o' before (g' ∙ ap some (sym (found m o' now g)))
    ];
    last_inside = inv.last_inside;
  }
    where
      found : (m o' : ℕ) → m ≡ i → get_elem? all m ≡ some o' → o' ≡ o
      found m o' now g = some_injective (sym g ∙ ap (get_elem? all) now ∙ here)

  -- The position becomes the column's slot.
  first :
      value_at p.slot o ≡ none
      → o < length p.slot
      → IsSlots all
          (i + 1)
          (record p { slot = set_value p.slot o (some i); last = some (max_last p.last o) })
  first e inside = record {
    named = λ o' s' e'. elim (same_or_not o o') [
      | inl same ↦
          let now : i ≡ s' = some_injective (
            sym (value_at-set_value_self p.slot o (some i) inside)
            ∙ ap (value_at (set_value p.slot o (some i))) same
            ∙ e') in
          (omega arith, ap (get_elem? all) (sym now) ∙ here ∙ ap some same)
      | inr other ↦
          let old =
            inv.named o' s' (sym (value_at-set_value_other p.slot o o' (some i) other) ∙ e') in
          (omega (arith, old.0), old.1)
    ];
    has_slot = λ m o' l g. elim (split_last m i l) [
      | inl before ↦
          let (s', e', k) = inv.has_slot m o' before g in
          (s', value_at-set_value_other p.slot o o' (some i) (differs o' s' e') ∙ e', k)
      | inr now ↦ (
        i,
        ap (value_at (set_value p.slot o (some i))) (found m o' now g)
            ∙ value_at-set_value_self p.slot o (some i) inside,
        λ f. sym now,
      )
    ];
    up_to_last = λ m o' l g. elim (split_last m i l) [
      | inl before ↦
          let (last, e', k) = inv.up_to_last m o' before g in
          (max_last p.last o, refl, omega (arith, le-max_last p.last last o e'))
      | inr now ↦ (max_last p.last o, refl, omega (arith, found m o' now g, max_last-le p.last o))
    ];
    last_inside = λ l e'. omega (
      arith,
      some_injective e',
      max_last-lt (length p.slot) p.last o inv.last_inside inside,
      length-set_value p.slot o (some i),
    );
  }
    where
      found : (m o' : ℕ) → m ≡ i → get_elem? all m ≡ some o' → o' ≡ o
      found m o' now g = some_injective (sym g ∙ ap (get_elem? all) now ∙ here)

      differs : (o' s' : ℕ) → value_at p.slot o' ≡ some s' → (o == o') ≡ false
      differs o' s' e' = elim (same_or_not o o') [
        | inl same ↦ absurd (none-ne-some (sym e ∙ ap (value_at p.slot) same ∙ e'))
        | inr other ↦ other
      ]

  -- Either way.
  pub add_ordinal-IsSlots :
      o < length p.slot → IsSlots all (i + 1) (add_ordinal i o p (value_at p.slot o))
  add_ordinal-IsSlots inside = elim (Option-cases (value_at p.slot o)) [
    | inl new ↦ rw new (first new inside)
    | inr (s, old) ↦ rw old (repeated s old)
  ]

length-slot-add_ordinal :
    (i o : ℕ) (p : RowProjection) (s : Option ℕ) → length (add_ordinal i o p s).slot ≡ length p.slot
length-slot-add_ordinal i o p none = length-set_value p.slot o (some i)
length-slot-add_ordinal i o p (some s) = refl

-- The rest of a list stands behind its first `i` elements.
abbrev pub Follows : List ℕ → ℕ → List ℕ → Type 0
Follows all i rest = (m : ℕ) → get_elem? rest m ≡ get_elem? all (i + m)

All_same_bound :
    {n n' : ℕ} (rest : List ℕ) → n ≡ n' → All (λ o. o < n) rest → All (λ o. o < n') rest
All_same_bound [] e h = tt
All_same_bound (o ∷ rest) e h = (omega (arith, h.0), All_same_bound rest e h.1)

add_ordinals-IsSlots :
    (all : List ℕ) (i : ℕ) (rest : List ℕ) (p : RowProjection)
    → Follows all i rest
    → All (λ o. o < length p.slot) rest
    → IsSlots all i p
    → IsSlots all (i + length rest) (add_ordinals i rest p)
unfolding add_ordinals
add_ordinals-IsSlots all i [] p f h inv = let e : i + 0 ≡ i = omega arith in rw e inv
add_ordinals-IsSlots all i (o ∷ rest) p f h inv =
    let e : i + suc (length rest) ≡ i + 1 + length rest = omega arith in
    let zero_right : i + 0 ≡ i = omega arith in
    let q = add_ordinal i o p (value_at p.slot o) in
    let same : length p.slot ≡ length q.slot =
      sym (length-slot-add_ordinal i o p (value_at p.slot o)) in
    rw e (
      add_ordinals-IsSlots all (i + 1) rest q (λ m. f (suc m) ∙ ap (get_elem? all) (omega arith))
        (All_same_bound rest same h.1)
        (add_ordinal-IsSlots all i o p inv (ap (get_elem? all) (sym zero_right) ∙ sym (f 0)) h.0))

length-slot-add_ordinals :
    (i : ℕ) (rest : List ℕ) (p : RowProjection)
    → length (add_ordinals i rest p).slot ≡ length p.slot
unfolding add_ordinals
length-slot-add_ordinals i [] p = refl
length-slot-add_ordinals i (o ∷ rest) p =
    length-slot-add_ordinals (i + 1) rest (add_ordinal i o p (value_at p.slot o))
    ∙ length-slot-add_ordinal i o p (value_at p.slot o)

ordinals-add_ordinals :
    (i : ℕ) (rest : List ℕ) (p : RowProjection) → (add_ordinals i rest p).ordinals ≡ p.ordinals
unfolding add_ordinals
ordinals-add_ordinals i [] p = refl
ordinals-add_ordinals i (o ∷ rest) p =
    ordinals-add_ordinals (i + 1) rest (add_ordinal i o p (value_at p.slot o))
    ∙ kept (value_at p.slot o)
  where
    kept : (s : Option ℕ) → (add_ordinal i o p s).ordinals ≡ p.ordinals
    kept none = refl
    kept (some s) = refl

pub length-slot-built : (width : ℕ) (ordinals : List ℕ) → length (built width ordinals).slot ≡ width
unfolding built
length-slot-built width ordinals =
    length-slot-add_ordinals 0 ordinals (empty_projection width ordinals) ∙ length-blanks ℕ width

pub ordinals-built : (width : ℕ) (ordinals : List ℕ) → (built width ordinals).ordinals ≡ ordinals
unfolding built
ordinals-built width ordinals = ordinals-add_ordinals 0 ordinals (empty_projection width ordinals)

pub built-IsSlots :
    (width : ℕ) (ordinals : List ℕ)
    → All (λ o. o < width) ordinals
    → IsSlots ordinals (length ordinals) (built width ordinals)
unfolding built
built-IsSlots width ordinals h =
    let e : length ordinals ≡ 0 + length ordinals = omega arith in
    rw e (
      add_ordinals-IsSlots ordinals 0 ordinals (empty_projection width ordinals)
        (λ m. ap (get_elem? ordinals) (omega arith))
        (All_same_bound ordinals (sym (length-blanks ℕ width)) h)
        (record {
          named = λ o s e. absurd (none-ne-some (sym (value_at-blanks width o) ∙ e));
          has_slot = λ m o l g. absurd (omega arith);
          up_to_last = λ m o l g. absurd (omega arith);
          last_inside = λ l e'. absurd (none-ne-some e');
        }))
