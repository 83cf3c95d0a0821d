-- ===== src/Engine/Ranges/Cuts/Points.antt =====
-- The interval behind a point column, and the columns behind one that is ranged.
use repodb.Base.{
  some_injective, true_ne_false, ◌≤◌, ◌≡◌, ◌≢◌, refl, sym, ap, ap₂, ◌∙◌, Ordering, Bool, true,
  false, Option, none, some, List, [], ◌∷◌, ◌++◌, ◌&&◌, not, arith, length, if◌then◌else◌, All,
  Bool-cases, Option-cases, inl, inr,
}
use repodb.Bytes.{Bytes}
use repodb.Bytes.Order.{Ordering-cases}
use repodb.Engine.KeyCodec.Escape.{has_prefix, IsByte}
use repodb.Engine.KeyCodec.Column.{ColumnType, KeyValue}
use repodb.Engine.KeyCodec.Column.Extends.{All-append}
use repodb.Engine.IndexKeys.{Column, null_marker, append_value, append_columns, is_absent}
use repodb.Engine.IndexKeys.Columns.{
  IsKeyValue, IsColumnValue, compare_to, append_value-order, first_column,
}
use repodb.Engine.Ranges.{KeyInterval, contains}
use repodb.Engine.Ranges.Cuts.{
  Cut, below_null, above_null, above_all, other_cut, below_key, above_key, RangeColumn, Found,
  range_error, no_key, found, of_option, and_then, is_all, is_all_column, shape_supported,
  append_bound_value, range_from,
}
use repodb.Engine.Ranges.Cuts.Bounds.{is_lt, is_gt, same_keys, prefix-key}
use repodb.Engine.Ranges.Cuts.Meaning.{
  Answers, on_value, in_lower, in_upper, in_range, present, marked_key,
}
use repodb.Engine.Ranges.Cuts.Sides.{
  append_bound_value-none, append_bound_value-some, append_value-IsByte,
}
use repodb.Engine.Ranges.Cuts.Ends.{Holds, Within}
use repodb.Engine.Ranges.Cuts.Inside.{range_from-Within}

pub Answers-same :
    {A : Type 0} (test : A → Bool) (p q : Bool) (m : Found A)
    → p ≡ q
    → Answers test p m
    → Answers test q m
Answers-same test p q m e t = rw (sym e) t

Answers-outside :
    (q key : Bytes) (m : Found KeyInterval)
    → All IsByte key
    → Holds (Within q) m
    → has_prefix q key ≡ false
    → Answers (λ iv. contains iv key) false m
Answers-outside q key range_error hk w out = tt
Answers-outside q key no_key hk w out = refl
Answers-outside q key (found iv) hk w out = elim (Bool-cases (contains iv key)) [
  | inl t ↦ absurd (true_ne_false (sym (w key hk t) ∙ out))
  | inr f ↦ f
]

module _ {K : Type 0} (convert : ColumnType → K → Option KeyValue) where
  pub all_passes :
      (nullable : Bool) (type : ColumnType) (v : Option KeyValue) (lower upper : Cut K)
      → (nullable ≡ false → is_absent v ≡ false)
      → is_all nullable lower upper ≡ true
      → (in_lower convert type v lower && in_upper convert type v upper) ≡ true
  all_passes nullable type v lower below_null there h = absurd (ground (arith, h))
  all_passes nullable type v lower above_null there h = absurd (ground (arith, h))
  all_passes nullable type v lower other_cut there h = absurd (ground (arith, h))
  all_passes nullable type v lower (below_key k) there h = absurd (ground (arith, h))
  all_passes nullable type v lower (above_key k) there h = absurd (ground (arith, h))
  all_passes nullable type v below_null above_all there h = refl
  all_passes true type v above_null above_all there h = absurd (ground (arith, h))
  all_passes false type v above_null above_all there h = rw (there refl) refl
  all_passes nullable type v above_all above_all there h = absurd (ground (arith, h))
  all_passes nullable type v other_cut above_all there h = absurd (ground (arith, h))
  all_passes nullable type v (below_key k) above_all there h = absurd (ground (arith, h))
  all_passes nullable type v (above_key k) above_all there h = absurd (ground (arith, h))

  pub there_lem :
      (nullable : Bool) (dst a : Bytes) (type : ColumnType) (v : Option KeyValue)
      → append_value nullable dst type v ≡ some a
      → nullable ≡ false
      → is_absent v ≡ false
  there_lem true dst a type v e h = absurd (ground (arith, h))
  there_lem false dst a type v e h = present dst a type v e

  -- Behind a ranged column nothing is asked.
  pub rest_passes :
      (nullable : Bool) (dst out : Bytes) (columns : List Column) (range : List (RangeColumn K))
      (deep_equal : K → K → Bool)
      → append_columns nullable dst columns ≡ some out
      → length range ≤ length columns
      → shape_supported deep_equal nullable true range ≡ true
      → in_range convert columns range ≡ true
  unfolding shape_supported
  rest_passes nullable dst out columns [] deep_equal h n s = refl
  rest_passes nullable dst out [] (col ∷ range) deep_equal h n s = absurd (omega arith)
  rest_passes nullable dst out (c ∷ columns) (col ∷ range) deep_equal h n s =
      let (a, e, later) = first_column nullable dst out c columns h in
      elim (Bool-cases (is_all_column nullable col)) [
        | inl unbounded ↦
            ap₂ (λ p q. p && q)
              (all_passes nullable c.type c.value col.lower col.upper
                (there_lem nullable dst a c.type c.value e) unbounded)
              (rest_passes nullable a out columns range deep_equal later (omega arith)
                (rw (unbounded, shape_supported) at s))
        | inr bounded ↦ absurd (true_ne_false (sym (rw (bounded, shape_supported) at s)))
      ]

has_prefix-skip : (p q z : Bytes) → has_prefix (p ++ q) (p ++ z) ≡ has_prefix q z
has_prefix-skip [] q z = refl
has_prefix-skip (c ∷ p) q z = ground (arith, has_prefix-skip p q z)

module _ {K : Type 0} (convert : ColumnType → K → Option KeyValue) (deep_equal : K → K → Bool)
    (converts : (type : ColumnType) (k : K) (w : KeyValue)
      → convert type k ≡ some w
      → IsKeyValue w) where
  -- A point column; `rest` says what follows it if the value is the point.
  pub null_Exact :
      (nullable : Bool) (dst a x : Bytes) (type : ColumnType) (v : Option KeyValue)
      (types : List ColumnType) (range : List (RangeColumn K)) (later : Bool)
      → IsColumnValue v
      → append_value nullable dst type v ≡ some a
      → All IsByte dst
      → All IsByte (a ++ x)
      → Answers
          (λ iv. contains iv (a ++ x))
          later
          (range_from convert deep_equal nullable types a range)
      → Answers
          (λ iv. contains iv (a ++ x))
          (is_absent v && later)
          (and_then
            (if nullable then found (null_marker dst true 0) else no_key)
            (λ q. range_from convert deep_equal nullable types q range))
  null_Exact true dst a x type none types range later hv e hd hx rest =
      let same : dst ++ 0 ∷ [] ≡ a = some_injective e in rw same rest
  null_Exact true dst a x type (some w) types range later hv e hd hx rest =
      let (z, same) = marked_key dst a type (some w) hv e x in
      Answers-outside (dst ++ 0 ∷ []) (a ++ x)
        (range_from convert deep_equal true types (dst ++ 0 ∷ []) range) hx
        (range_from-Within convert converts true deep_equal types (dst ++ 0 ∷ []) range
          (All-append dst (0 ∷ []) hd (omega arith, tt)))
        (ap (has_prefix (dst ++ 0 ∷ [])) same ∙ has_prefix-skip dst (0 ∷ []) (1 ∷ z))
  null_Exact false dst a x type v types range later hv e hd hx rest =
      ap (λ absent. absent && later) (present dst a type v e)

  abbrev at_point : Ordering → Bool
  at_point o = not (is_lt o) && not (is_gt o)

  pub key_Exact :
      (nullable : Bool) (dst a x : Bytes) (type : ColumnType) (v : Option KeyValue)
      (types : List ColumnType) (range : List (RangeColumn K)) (later : Bool) (k : K)
      → IsColumnValue v
      → append_value nullable dst type v ≡ some a
      → All IsByte dst
      → All IsByte (a ++ x)
      → Answers
          (λ iv. contains iv (a ++ x))
          later
          (range_from convert deep_equal nullable types a range)
      → Answers
          (λ iv. contains iv (a ++ x))
          ((on_value (convert type k) (λ w. not (is_lt (compare_to type v w)))
              && on_value (convert type k) (λ w. not (is_gt (compare_to type v w))))
            && later)
          (and_then
            (of_option (append_bound_value convert nullable dst type k))
            (λ q. range_from convert deep_equal nullable types q range))
  key_Exact nullable dst a x type v types range later k hv e hd hx rest =
      elim (Option-cases (convert type k)) [
        | inl no_value ↦ rw (append_bound_value-none convert nullable dst type k no_value) tt
        | inr (w, value) ↦
            rw (append_bound_value-some convert nullable dst type k w value, value)
              (elim (Option-cases (append_value nullable dst type (some w))) [
                | inl bad ↦ rw bad tt
                | inr (b, good) ↦ rw good (compared w b value good)
              ])
      ]
    where
      compared :
          (w : KeyValue) (b : Bytes)
          → convert type k ≡ some w
          → append_value nullable dst type (some w) ≡ some b
          → Answers
              (λ iv. contains iv (a ++ x))
              (at_point (compare_to type v w) && later)
              (range_from convert deep_equal nullable types b range)
      compared w b value good =
          let hw = converts type k w value in
          let hb = append_value-IsByte nullable dst b type (some w) hw hd good in
          let order =
            λ (y z : Bytes). append_value-order nullable dst a b y z type v w hv hw e good in
          let outside = λ (differs : compare_to type v w ≢ Ordering.eq).
            Answers-outside b (a ++ x) (range_from convert deep_equal nullable types b range) hx
              (range_from-Within convert converts nullable deep_equal types b range hb)
              (prefix-key a b (compare_to type v w) order x differs) in
          elim (Ordering-cases (compare_to type v w)) [
            | inl lt ↦ rw lt (outside (λ eq. absurd (ground (arith, lt, eq))))
            | inr (inl eq) ↦ rw eq (rw (sym (same_keys a b (compare_to type v w) order eq)) rest)
            | inr (inr gt) ↦ rw gt (outside (λ eq. absurd (ground (arith, gt, eq))))
          ]
