-- ===== src/Engine/Ranges/Cuts/Meaning.antt =====
-- What a cut says of a column's value, and that the keys of cuts say the same of row keys.
use repodb.Base.{
  some_injective, ◌≡◌, refl, sym, ap, ◌∙◌, Bool, true, false, Option, none, some, List, [], ◌∷◌,
  ◌++◌, append_assoc, ◌&&◌, not, arith,
}
use repodb.Bytes.{Bytes, compare_bytes, below, at_least}
use repodb.Bytes.Order.{compare_bytes-append}
use repodb.Engine.KeyCodec.Column.{ColumnType, KeyValue}
use repodb.Engine.KeyCodec.Column.Extends.{append_key_column-Extends}
use repodb.Engine.IndexKeys.{Column, null_marker, append_value, is_absent}
use repodb.Engine.IndexKeys.Columns.{IsColumnValue, compare_to, append_value-Extends}
use repodb.Engine.Ranges.Cuts.{
  Cut, below_null, above_null, above_all, other_cut, below_key, above_key, RangeColumn, Found,
  range_error, no_key, found,
}
use repodb.Engine.Ranges.Cuts.Bounds.{is_lt, is_gt, compare-append_front}

-- An answer by keys agrees with a test: where there is no key the test fails.
abbrev pub Answers : {A : Type 0} → (A → Bool) → Bool → Found A → Type 0
Answers test passes range_error = Unit {0}
Answers test passes no_key = passes ≡ false
Answers test passes (found a) = test a ≡ passes

-- The same where the code finds no error.
abbrev pub Selects : {A : Type 0} → (A → Bool) → Bool → Found A → Type 0
Selects test passes range_error = ⊥
Selects test passes no_key = passes ≡ false
Selects test passes (found a) = test a ≡ passes

-- A test on the value of a cut, which has to convert.
abbrev pub on_value : Option KeyValue → (KeyValue → Bool) → Bool
on_value none test = false
on_value (some w) test = test w

module _ {K : Type 0} (convert : ColumnType → K → Option KeyValue) where
  -- A value is above a lower cut. NULL is below all values.
  abbrev pub in_lower : ColumnType → Option KeyValue → Cut K → Bool
  in_lower type v below_null = true
  in_lower type v above_null = not (is_absent v)
  in_lower type v (below_key k) = on_value (convert type k) (λ w. not (is_lt (compare_to type v w)))
  in_lower type v (above_key k) = on_value (convert type k) (λ w. is_gt (compare_to type v w))
  in_lower type v above_all = false
  in_lower type v other_cut = false

  -- A value is below an upper cut.
  abbrev pub in_upper : ColumnType → Option KeyValue → Cut K → Bool
  in_upper type v below_null = false
  in_upper type v above_null = is_absent v
  in_upper type v (below_key k) = on_value (convert type k) (λ w. is_lt (compare_to type v w))
  in_upper type v (above_key k) = on_value (convert type k) (λ w. not (is_gt (compare_to type v w)))
  in_upper type v above_all = true
  in_upper type v other_cut = false

  -- The columns of a row lie in a range.
  abbrev pub in_column : Column → RangeColumn K → Bool
  in_column c col = in_lower c.type c.value col.lower && in_upper c.type c.value col.upper

  abbrev pub in_range : List Column → List (RangeColumn K) → Bool
  in_range columns [] = true
  in_range [] (col ∷ range) = false
  in_range (c ∷ columns) (col ∷ range) = in_column c col && in_range columns range

at_least_front : (p x : Bytes) → at_least (p ++ x) p ≡ true
at_least_front p x = ground (arith, compare-append_front p x)

below_front : (p x : Bytes) → below (p ++ x) p ≡ false
below_front p x = ground (arith, compare-append_front p x)

abbrev mark : Option KeyValue → Bytes → Bytes
mark none z = 0 ∷ z
mark (some v) z = 1 ∷ z

at_least-mark_zero : (v : Option KeyValue) (z : Bytes) → at_least (mark v z) (0 ∷ []) ≡ true
unfolding compare_bytes
at_least-mark_zero none z = ground (arith, compare-append_front [] z)
at_least-mark_zero (some v) z = refl

at_least-mark_one :
    (v : Option KeyValue) (z : Bytes) → at_least (mark v z) (1 ∷ []) ≡ not (is_absent v)
unfolding compare_bytes
at_least-mark_one none z = refl
at_least-mark_one (some v) z = ground (arith, compare-append_front [] z)

below-mark_zero : (v : Option KeyValue) (z : Bytes) → below (mark v z) (0 ∷ []) ≡ false
unfolding compare_bytes
below-mark_zero none z = ground (arith, compare-append_front [] z)
below-mark_zero (some v) z = refl

below-mark_one : (v : Option KeyValue) (z : Bytes) → below (mark v z) (1 ∷ []) ≡ is_absent v
unfolding compare_bytes
below-mark_one none z = refl
below-mark_one (some v) z = ground (arith, compare-append_front [] z)

at_least-append : (p a b : Bytes) → at_least (p ++ a) (p ++ b) ≡ at_least a b
at_least-append p a b = ground (arith, compare_bytes-append p a b)

below-append : (p a b : Bytes) → below (p ++ a) (p ++ b) ≡ below a b
below-append p a b = ground (arith, compare_bytes-append p a b)

-- The key of a column that has a marker.
pub marked_key :
    (dst a : Bytes) (type : ColumnType) (v : Option KeyValue)
    → IsColumnValue v
    → append_value true dst type v ≡ some a
    → (x : Bytes) → (z : Bytes) × (a ++ x ≡ dst ++ mark v z)
marked_key dst a type none h e x =
    (x, ap (λ c. c ++ x) (sym (some_injective e)) ∙ append_assoc dst (0 ∷ []) x)
marked_key dst a type (some v) h e x =
    let (t, same, _) = append_key_column-Extends (dst ++ 1 ∷ []) a type v h.bytes e in
    (t ++ x, ap (λ c. c ++ x) (same ∙ append_assoc dst (1 ∷ []) t) ∙ append_assoc dst (1 ∷ t) x)

-- A value that is there, where there are no NULLs.
pub present :
    (dst a : Bytes) (type : ColumnType) (v : Option KeyValue)
    → append_value false dst type v ≡ some a
    → is_absent v ≡ false
present dst a type none e = absurd (ground (arith, e))
present dst a type (some v) e = refl

-- Where a key stands to the places around NULL.
abbrev pub Marks : Bool → Bytes → Bytes → Option KeyValue → Type 0
Marks nullable dst key v =
    (at_least key (null_marker dst nullable 0) ≡ true)
    × (at_least key (null_marker dst nullable 1) ≡ not (is_absent v))
    × (below key (null_marker dst nullable 0) ≡ false)
    × (below key (null_marker dst nullable 1) ≡ is_absent v)

-- The rest of a key behind the columns before.
pub front_key :
    (nullable : Bool) (dst a x : Bytes) (type : ColumnType) (v : Option KeyValue)
    → IsColumnValue v
    → append_value nullable dst type v ≡ some a
    → (z : Bytes) × (a ++ x ≡ dst ++ z)
front_key nullable dst a x type v h e =
    let (t, same, _) = append_value-Extends nullable dst a type v h e in
    (t ++ x, ap (λ c. c ++ x) same ∙ append_assoc dst t x)

pub Marks_lem :
    (nullable : Bool) (dst a x : Bytes) (type : ColumnType) (v : Option KeyValue)
    → IsColumnValue v
    → append_value nullable dst type v ≡ some a
    → Marks nullable dst (a ++ x) v
Marks_lem true dst a x type v h e =
    let (z, same) = marked_key dst a type v h e x in
    (
      ap (λ c. at_least c (dst ++ 0 ∷ [])) same
          ∙ at_least-append dst (mark v z) (0 ∷ [])
          ∙ at_least-mark_zero v z,
      ap (λ c. at_least c (dst ++ 1 ∷ [])) same
          ∙ at_least-append dst (mark v z) (1 ∷ [])
          ∙ at_least-mark_one v z,
      ap (λ c. below c (dst ++ 0 ∷ [])) same
          ∙ below-append dst (mark v z) (0 ∷ [])
          ∙ below-mark_zero v z,
      ap (λ c. below c (dst ++ 1 ∷ [])) same
          ∙ below-append dst (mark v z) (1 ∷ [])
          ∙ below-mark_one v z,
    )
Marks_lem false dst a x type v h e =
    let (z, same) = front_key false dst a x type v h e in
    let here = present dst a type v e in
    let reached : at_least (a ++ x) dst ≡ true =
      ap (λ c. at_least c dst) same ∙ at_least_front dst z in
    let not_under : below (a ++ x) dst ≡ false = ap (λ c. below c dst) same ∙ below_front dst z in
    (reached, reached ∙ ap not (sym here), not_under, not_under ∙ sym here)
