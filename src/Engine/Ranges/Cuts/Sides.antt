-- ===== src/Engine/Ranges/Cuts/Sides.antt =====
-- The keys of a column's cuts say of a row's key what the cuts say of the value.
use repodb.Base.{
  ℕ, ◌||◌, ◌≡◌, refl, sym, ap, ap₂, ◌∙◌, Bool, true, false, Option, none, some, [], ◌∷◌, ◌++◌, ◌&&◌,
  not, arith, All, Option-cases, inl, inr,
}
use repodb.Bytes.{Bytes, compare_bytes, below, at_least}
use repodb.Bytes.Compare.{then_compare}
use repodb.Engine.KeyCodec.{key_prefix_end}
use repodb.Engine.KeyCodec.Escape.{has_prefix, IsByte, before_end}
use repodb.Engine.KeyCodec.Column.{ColumnType, KeyValue}
use repodb.Engine.KeyCodec.Column.Extends.{All-append}
use repodb.Engine.IndexKeys.{null_marker, append_value}
use repodb.Engine.IndexKeys.Columns.{
  IsKeyValue, IsColumnValue, compare_to, append_value-Extends, append_value-order,
}
use repodb.Engine.Ranges.{contains}
use repodb.Engine.Ranges.Cuts.{
  Cut, below_null, above_null, above_all, other_cut, below_key, above_key, RangeColumn, Found,
  range_error, no_key, found, is_null_cut, end_at, of_option, and_then, exclusive_start,
  append_bound_value, lower_cut_key, upper_cut_key, ranged_interval,
}
use repodb.Engine.Ranges.Cuts.Bounds.{
  is_lt, is_gt, has_prefix-append, before_end-prefix, at_least-key, below-key, before_end-key,
  at_least-end,
}
use repodb.Engine.Ranges.Cuts.Meaning.{Answers, on_value, in_lower, in_upper, Marks_lem, front_key}

pub append_value-IsByte :
    (nullable : Bool) (dst b : Bytes) (type : ColumnType) (v : Option KeyValue)
    → IsColumnValue v
    → All IsByte dst
    → append_value nullable dst type v ≡ some b
    → All IsByte b
append_value-IsByte nullable dst b type v h hd e =
    let (t, same, ht) = append_value-Extends nullable dst b type v h e in
    rw same (All-append dst t hd ht)

end_at-marked : (dst : Bytes) (m : ℕ) → end_at (dst ++ m ∷ []) ≡ some (dst ++ m ∷ [])
end_at-marked [] m = refl
end_at-marked (c ∷ dst) m = refl

-- Around NULL an end is one of an index, or it has a key.
before_end-marker :
    (nullable : Bool) (dst key : Bytes) (m : ℕ)
    → (nullable || not true) ≡ true
    → before_end (end_at (null_marker dst nullable m)) key ≡ below key (null_marker dst nullable m)
before_end-marker true dst key m d = ap (λ end. before_end end key) (end_at-marked dst m)
before_end-marker false dst key m d = absurd (ground (arith, d))

module _ {K : Type 0} (convert : ColumnType → K → Option KeyValue) where
  pub append_bound_value-none :
      (nullable : Bool) (dst : Bytes) (type : ColumnType) (k : K)
      → convert type k ≡ none
      → append_bound_value convert nullable dst type k ≡ none
  unfolding append_bound_value
  append_bound_value-none nullable dst type k e = rw (e, append_bound_value) refl

  pub append_bound_value-some :
      (nullable : Bool) (dst : Bytes) (type : ColumnType) (k : K) (w : KeyValue)
      → convert type k ≡ some w
      → append_bound_value convert nullable dst type k ≡ append_value nullable dst type (some w)
  unfolding append_bound_value
  append_bound_value-some nullable dst type k w e = rw (e, append_bound_value) refl

module _ {K : Type 0} (convert : ColumnType → K → Option KeyValue)
    (converts : (type : ColumnType) (k : K) (w : KeyValue) → convert type k ≡ some w → IsKeyValue w)
    (nullable : Bool) (dst a x : Bytes) (type : ColumnType) (v : Option KeyValue)
    (h : IsColumnValue v) (e : append_value nullable dst type v ≡ some a) (hd : All IsByte dst)
    (hx : All IsByte (a ++ x)) where
  -- A bound that converts and has a key, or none of it.
  at_bound :
      {A : Type 0} (test : A → Bool) (passes : KeyValue → Bool) (f : Bytes → Found A) (k : K)
      → ((w : KeyValue) (b : Bytes)
          → IsKeyValue w
          → All IsByte b
          → ((y z : Bytes)
              → compare_bytes (a ++ y) (b ++ z)
                ≡ then_compare (compare_to type v w) (compare_bytes y z))
          → Answers test (passes w) (f b))
      → Answers test
          (on_value (convert type k) passes)
          (and_then (of_option (append_bound_value convert nullable dst type k)) f)
  at_bound test passes f k answer = elim (Option-cases (convert type k)) [
    | inl no_value ↦ rw (append_bound_value-none convert nullable dst type k no_value) tt
    | inr (w, value) ↦
        rw (append_bound_value-some convert nullable dst type k w value)
          (elim (Option-cases (append_value nullable dst type (some w))) [
            | inl bad ↦ rw bad tt
            | inr (b, good) ↦
                rw (good, value)
                  (answer w b (converts type k w value)
                    (append_value-IsByte nullable dst b type (some w) (converts type k w value) hd
                      good)
                    (λ y z.
                      append_value-order nullable dst a b y z type v w h (converts type k w value) e
                        good))
          ])
  ]

  exclusive_start-Answers :
      (w : KeyValue) (b : Bytes)
      → All IsByte b
      → ((y z : Bytes)
          → compare_bytes (a ++ y) (b ++ z)
            ≡ then_compare (compare_to type v w) (compare_bytes y z))
      → Answers (at_least (a ++ x)) (is_gt (compare_to type v w)) (exclusive_start b)
  exclusive_start-Answers w b hb order = elim (Option-cases (key_prefix_end b)) [
    | inl last ↦ rw last (
        never (
          ap (λ end. before_end end (a ++ x)) (sym last)
          ∙ before_end-key a b (compare_to type v w) order x hb hx))
    | inr (s, next) ↦ rw next (at_least-end a b (compare_to type v w) order x s hb hx next)
  ]
    where
      never : true ≡ not (is_gt (compare_to type v w)) → is_gt (compare_to type v w) ≡ false
      never t = ground (arith, t)

  start_of_none : has_prefix dst (a ++ x) ≡ true
  start_of_none =
      let (z, same) = front_key nullable dst a x type v h e in
      ap (has_prefix dst) same ∙ has_prefix-append dst z

  lower-Answers :
      (cut : Cut K)
      → Answers
          (at_least (a ++ x))
          (in_lower convert type v cut)
          (lower_cut_key convert nullable dst type cut)
  unfolding lower_cut_key
  lower-Answers below_null = (Marks_lem nullable dst a x type v h e).0
  lower-Answers above_null = (Marks_lem nullable dst a x type v h e).1
  lower-Answers (below_key k) = found_again (append_bound_value convert nullable dst type k) _ (
      at_bound (at_least (a ++ x)) (λ w. not (is_lt (compare_to type v w))) found k
        (λ w b hw hb order. at_least-key a b (compare_to type v w) order x))
    where
      found_again :
          (o : Option Bytes) (p : Bool)
          → Answers (at_least (a ++ x)) p (and_then (of_option o) found)
          → Answers (at_least (a ++ x)) p (of_option o)
      found_again none p t = t
      found_again (some b) p t = t
  lower-Answers (above_key k) =
      at_bound (at_least (a ++ x)) (λ w. is_gt (compare_to type v w)) exclusive_start k
        (λ w b hw hb order. exclusive_start-Answers w b hb order)
  lower-Answers above_all = elim (Option-cases (key_prefix_end dst)) [
    | inl last ↦ rw last refl
    | inr (s, next) ↦ rw next (
        not_reached s (
          ap (λ end. before_end end (a ++ x)) (sym next)
          ∙ before_end-prefix dst (a ++ x) hd hx start_of_none))
  ]
    where
      not_reached : (s : Bytes) → below (a ++ x) s ≡ true → at_least (a ++ x) s ≡ false
      not_reached s t = ground (arith, t)
  lower-Answers other_cut = tt

  upper-Answers :
      (cut : Cut K)
      → (nullable || not (is_null_cut cut)) ≡ true
      → Answers
          (λ end. before_end end (a ++ x))
          (in_upper convert type v cut)
          (upper_cut_key convert nullable dst type cut)
  unfolding upper_cut_key
  upper-Answers below_null d =
      before_end-marker nullable dst (a ++ x) 0 d ∙ (Marks_lem nullable dst a x type v h e).2
  upper-Answers above_null d =
      before_end-marker nullable dst (a ++ x) 1 d ∙ (Marks_lem nullable dst a x type v h e).3
  upper-Answers (below_key k) d =
      at_bound (λ end. before_end end (a ++ x)) (λ w. is_lt (compare_to type v w))
        (λ key. found (some key)) k (λ w b hw hb order. below-key a b (compare_to type v w) order x)
  upper-Answers (above_key k) d =
      at_bound (λ end. before_end end (a ++ x)) (λ w. not (is_gt (compare_to type v w)))
        (λ key. found (key_prefix_end key)) k
        (λ w b hw hb order. before_end-key a b (compare_to type v w) order x hb hx)
  upper-Answers above_all d = before_end-prefix dst (a ++ x) hd hx start_of_none
  upper-Answers other_cut d = tt

  both-Answers :
      (p q : Bool) (start : Found Bytes) (end : Found (Option Bytes))
      → Answers (at_least (a ++ x)) p start
      → Answers (λ end. before_end end (a ++ x)) q end
      → Answers
          (λ iv. contains iv (a ++ x))
          (p && q)
          (and_then start (λ s. and_then end (λ t. found (record { start = s; end = t }))))
  both-Answers p q range_error end t u = tt
  both-Answers p q no_key end t u = rw t refl
  both-Answers p q (found s) range_error t u = tt
  both-Answers p q (found s) no_key t u = ground (arith, u)
  both-Answers p q (found s) (found end) t u = ap₂ (λ a b. a && b) t u

  pub ranged_interval-Answers :
      (col : RangeColumn K)
      → (nullable || not (is_null_cut col.upper)) ≡ true
      → Answers
          (λ iv. contains iv (a ++ x))
          (in_lower convert type v col.lower && in_upper convert type v col.upper)
          (ranged_interval convert nullable dst type col)
  unfolding ranged_interval
  ranged_interval-Answers col d =
      both-Answers (in_lower convert type v col.lower) (in_upper convert type v col.upper)
        (lower_cut_key convert nullable dst type col.lower)
        (upper_cut_key convert nullable dst type col.upper) (lower-Answers col.lower)
        (upper-Answers col.upper d)
