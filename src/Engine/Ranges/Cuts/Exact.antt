-- ===== src/Engine/Ranges/Cuts/Exact.antt =====
-- The interval of a range holds exactly the keys of the rows that the range selects.
use repodb.Base.{
  ◌≤◌, ◌≡◌, refl, sym, ap, ap₂, ◌∙◌, Bool, true, false, Option, some, List, [], ◌∷◌, ◌++◌,
  append_assoc, ◌&&◌, ◌||◌, not, arith, length, All, Bool-cases, inl, inr,
}
use repodb.Bytes.{Bytes}
use repodb.Engine.KeyCodec.Escape.{has_prefix, IsByte, key_prefix_end_lem}
use repodb.Engine.KeyCodec.Column.{ColumnType, KeyValue}
use repodb.Engine.IndexKeys.{Column, append_value, append_columns}
use repodb.Engine.IndexKeys.Columns.{
  IsKeyValue, IsColumnValue, IsColumns, types_of, first_column, append_columns-front,
}
use repodb.Engine.Ranges.{contains}
use repodb.Engine.Ranges.Cuts.{
  Cut, below_null, above_null, above_all, other_cut, below_key, above_key, is_null_cut, RangeColumn,
  and_then, is_all_column, is_point, is_point_column, shape_supported, prefix_interval,
  point_prefix, ranged_interval, range_from,
}
use repodb.Engine.Ranges.Cuts.Bounds.{has_prefix-append}
use repodb.Engine.Ranges.Cuts.Meaning.{Answers, in_lower, in_upper, in_column, in_range}
use repodb.Engine.Ranges.Cuts.Sides.{append_value-IsByte, ranged_interval-Answers}
use repodb.Engine.Ranges.Cuts.Points.{
  Answers-same, rest_passes, all_passes, there_lem, null_Exact, key_Exact,
}

-- A column that is no point does not end at NULL where no column is NULL.
abbrev pub HasEnd : {K : Type 0} → (K → K → Bool) → Bool → RangeColumn K → Type 0
HasEnd deep_equal nullable col =
    (is_point_column deep_equal col || (nullable || not (is_null_cut col.upper))) ≡ true

module _ {K : Type 0} (convert : ColumnType → K → Option KeyValue) (deep_equal : K → K → Bool)
    (converts : (type : ColumnType) (k : K) (w : KeyValue) → convert type k ≡ some w → IsKeyValue w)
    (equal : (k k' : K) → deep_equal k k' ≡ true → k ≡ k') (nullable : Bool) where
  point_Exact :
      (dst a x : Bytes) (type : ColumnType) (v : Option KeyValue) (types : List ColumnType)
      (lower upper : Cut K) (range : List (RangeColumn K)) (later : Bool)
      → IsColumnValue v
      → append_value nullable dst type v ≡ some a
      → All IsByte dst
      → All IsByte (a ++ x)
      → is_point deep_equal lower upper ≡ true
      → Answers
          (λ iv. contains iv (a ++ x))
          later
          (range_from convert deep_equal nullable types a range)
      → Answers
          (λ iv. contains iv (a ++ x))
          ((in_lower convert type v lower && in_upper convert type v upper) && later)
          (and_then
            (point_prefix convert nullable dst type lower)
            (λ q. range_from convert deep_equal nullable types q range))
  point_Exact dst a x type v types below_null above_null range later hv e hd hx h rest =
      null_Exact convert deep_equal converts nullable dst a x type v types range later hv e hd hx
        rest
  point_Exact dst a x type v types (below_key k) (above_key k') range later hv e hd hx h rest =
      rw (sym (equal k k' h)) (
        key_Exact convert deep_equal converts nullable dst a x type v types range later k hv e hd hx
          rest)
  point_Exact dst a x type v types below_null below_null range later hv e hd hx h rest =
      absurd (ground (arith, h))
  point_Exact dst a x type v types below_null above_all range later hv e hd hx h rest =
      absurd (ground (arith, h))
  point_Exact dst a x type v types below_null other_cut range later hv e hd hx h rest =
      absurd (ground (arith, h))
  point_Exact dst a x type v types below_null (below_key k) range later hv e hd hx h rest =
      absurd (ground (arith, h))
  point_Exact dst a x type v types below_null (above_key k) range later hv e hd hx h rest =
      absurd (ground (arith, h))
  point_Exact dst a x type v types (below_key k) below_null range later hv e hd hx h rest =
      absurd (ground (arith, h))
  point_Exact dst a x type v types (below_key k) above_null range later hv e hd hx h rest =
      absurd (ground (arith, h))
  point_Exact dst a x type v types (below_key k) above_all range later hv e hd hx h rest =
      absurd (ground (arith, h))
  point_Exact dst a x type v types (below_key k) other_cut range later hv e hd hx h rest =
      absurd (ground (arith, h))
  point_Exact dst a x type v types (below_key k) (below_key k') range later hv e hd hx h rest =
      absurd (ground (arith, h))
  point_Exact dst a x type v types above_null upper range later hv e hd hx h rest =
      absurd (ground (arith, h))
  point_Exact dst a x type v types above_all upper range later hv e hd hx h rest =
      absurd (ground (arith, h))
  point_Exact dst a x type v types other_cut upper range later hv e hd hx h rest =
      absurd (ground (arith, h))
  point_Exact dst a x type v types (above_key k) upper range later hv e hd hx h rest =
      absurd (ground (arith, h))

  and_true : (b : Bool) → b ≡ (b && true)
  and_true true = refl
  and_true false = refl

  -- The answer of a range whose first columns are done.
  abbrev pub Exact : Bytes → List Column → List (RangeColumn K) → Bytes → Type 0
  Exact dst columns range key =
      Answers (λ iv. contains iv key) (in_range convert columns range)
        (range_from convert deep_equal nullable (types_of columns) dst range)

  prefix_Exact :
      (dst e x key : Bytes)
      → All IsByte dst
      → All IsByte key
      → key ≡ (dst ++ e) ++ x
      → contains (prefix_interval dst) key ≡ true
  prefix_Exact dst e x key hd hk same =
      key_prefix_end_lem dst key hd hk
      ∙ ap (has_prefix dst) (same ∙ append_assoc dst e x)
      ∙ has_prefix-append dst (e ++ x)

  pub range_from-Exact :
      (dst out x key : Bytes) (columns : List Column) (range : List (RangeColumn K))
      → IsColumns columns
      → append_columns nullable dst columns ≡ some out
      → key ≡ out ++ x
      → length range ≤ length columns
      → shape_supported deep_equal nullable false range ≡ true
      → All (HasEnd deep_equal nullable) range
      → All IsByte dst
      → All IsByte key
      → Exact dst columns range key
  unfolding range_from shape_supported
  range_from-Exact dst out x key columns [] ok h same n s end hd hk =
      let (e, front) = append_columns-front nullable dst out columns ok h in
      prefix_Exact dst e x key hd hk (same ∙ ap (λ b. b ++ x) front)
  range_from-Exact dst out x key [] (col ∷ range) ok h same n s end hd hk = absurd (omega arith)
  range_from-Exact dst out x key (c ∷ columns) (col ∷ range) ok h same n s end hd hk =
      let (a, e, later) = first_column nullable dst out c columns h in
      let (t, front) = append_columns-front nullable a out columns ok.1 later in
      let here : key ≡ a ++ (t ++ x) = same ∙ ap (λ b. b ++ x) front ∙ append_assoc a t x in
      let bytes : All IsByte (a ++ (t ++ x)) = rw here at hk in
      let ha = append_value-IsByte nullable dst a c.type c.value ok.0 hd e in
      elim (Bool-cases (is_all_column nullable col)) [
        | inl unbounded ↦
            let (u, whole) = append_columns-front nullable dst out (c ∷ columns) ok h in
            rw (unbounded, range_from)
              (prefix_Exact dst u x key hd hk (same ∙ ap (λ b. b ++ x) whole)
                ∙ ap₂ (λ p q. p && q)
                    (sym (
                      all_passes convert nullable c.type c.value col.lower col.upper
                        (there_lem convert nullable dst a c.type c.value e) unbounded))
                    (sym (
                      rest_passes convert nullable a out columns range deep_equal later
                        (omega arith) (rw (unbounded, shape_supported) at s))))
        | inr bounded ↦ elim (Bool-cases (is_point_column deep_equal col)) [
          | inl point ↦
              rw (bounded, point, range_from)
                (rw here (
                  point_Exact dst a (t ++ x) c.type c.value (types_of columns) col.lower col.upper
                    range (in_range convert columns range) ok.0 e hd bytes point
                    (range_from-Exact a out x (a ++ (t ++ x)) columns range ok.1 later
                      (sym here ∙ same) (omega arith) (rw (bounded, point, shape_supported) at s)
                      end.1 ha bytes)))
          | inr ranged ↦
              rw (bounded, ranged, range_from)
                (rw here (
                  Answers-same (λ iv. contains iv (a ++ (t ++ x))) (in_column convert c col)
                    (in_column convert c col && in_range convert columns range)
                    (ranged_interval convert nullable dst c.type col)
                    (and_true (in_column convert c col)
                      ∙ ap (λ q. in_column convert c col && q)
                          (sym (
                            rest_passes convert nullable a out columns range deep_equal later
                              (omega arith) (rw (bounded, ranged, shape_supported) at s))))
                    (ranged_interval-Answers convert converts nullable dst a (t ++ x) c.type c.value
                      ok.0 e hd bytes col
                      (ended (is_point_column deep_equal col)
                        (nullable || not (is_null_cut col.upper)) ranged end.0))))
        ]
      ]
    where
      ended : (p q : Bool) → p ≡ false → (p || q) ≡ true → q ≡ true
      ended p q f t = ground (arith, f, t)
