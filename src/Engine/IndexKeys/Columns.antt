-- ===== src/Engine/IndexKeys/Columns.antt =====
-- The columns of an index key compare one after the other, with NULL before all values.
use repodb.Base.{
  some_injective, some_ne_none, ◌≡◌, refl, sym, ap, ap₂, ◌∙◌, Ordering, Bool, true, false, Option,
  none, some, List, [], ◌∷◌, ◌++◌, append_assoc, append-nil, map, arith, All, Option-cases, inl,
  inr,
}
use repodb.Bytes.{Bytes, compare_bytes}
use repodb.Bytes.Order.{compare_bytes-append}
use repodb.Bytes.Compare.{then_compare}
use repodb.Engine.KeyCodec.Column.{ColumnType, KeyValue}
use repodb.Engine.KeyCodec.Column.Meaning.{compare_values, IsWord}
use repodb.Engine.KeyCodec.Column.Order.{append_key_column-order}
use repodb.Engine.KeyCodec.Column.Extends.{Extends, HasBytes, append_key_column-Extends}
use repodb.Engine.IndexKeys.{Column, null_marker, append_value, append_columns}

-- A value as the key encoding takes it: of the width of its type, strings of bytes.
pub record IsKeyValue (v : KeyValue) : Type 0 where
  pub word : IsWord v
  pub bytes : HasBytes v

abbrev pub IsColumnValue : Option KeyValue → Type 0
IsColumnValue none = Unit {0}
IsColumnValue (some v) = IsKeyValue v

-- How a value compares to one that is not NULL.
abbrev pub compare_to : ColumnType → Option KeyValue → KeyValue → Ordering
compare_to type none w = Ordering.lt
compare_to type (some v) w = compare_values type v w

marker-Extends :
    (dst : Bytes) (nullable : Bool) (a : Bytes)
    → Extends (null_marker dst nullable 1) a
    → Extends dst a
marker-Extends dst true a (e, same, b) =
    (1 ∷ e, same ∙ append_assoc dst (1 ∷ []) e, (omega arith, b))
marker-Extends dst false a x = x

pub append_value-Extends :
    (nullable : Bool) (dst a : Bytes) (type : ColumnType) (v : Option KeyValue)
    → IsColumnValue v
    → append_value nullable dst type v ≡ some a
    → Extends dst a
append_value-Extends true dst a type none h e = (0 ∷ [], sym (some_injective e), (omega arith, tt))
append_value-Extends false dst a type none h e = absurd (ground (arith, e))
append_value-Extends nullable dst a type (some v) h e =
    marker-Extends dst nullable a
      (append_key_column-Extends (null_marker dst nullable 1) a type v h.bytes e)

-- A NULL before a value.
null_first :
    (dst b x y : Bytes)
    → Extends (dst ++ 1 ∷ []) b
    → compare_bytes ((dst ++ 0 ∷ []) ++ x) (b ++ y) ≡ Ordering.lt
null_first dst b x y (e, same, _) =
    ap (λ c. compare_bytes ((dst ++ 0 ∷ []) ++ x) (c ++ y)) (same ∙ append_assoc dst (1 ∷ []) e)
    ∙ ap₂ compare_bytes (append_assoc dst (0 ∷ []) x) (append_assoc dst (1 ∷ e) y)
    ∙ compare_bytes-append dst (0 ∷ x) (1 ∷ (e ++ y))
    ∙ unfold compare_bytes in refl

-- Behind the same columns, two keys compare like the values of a column, and then what follows.
pub append_value-order :
    (nullable : Bool) (dst a b x y : Bytes) (type : ColumnType) (v : Option KeyValue) (w : KeyValue)
    → IsColumnValue v
    → IsKeyValue w
    → append_value nullable dst type v ≡ some a
    → append_value nullable dst type (some w) ≡ some b
    → compare_bytes (a ++ x) (b ++ y) ≡ then_compare (compare_to type v w) (compare_bytes x y)
append_value-order true dst a b x y type none w h k ea eb =
    ap (λ c. compare_bytes (c ++ x) (b ++ y)) (sym (some_injective ea))
    ∙ null_first dst b x y (append_key_column-Extends (dst ++ 1 ∷ []) b type w k.bytes eb)
append_value-order false dst a b x y type none w h k ea eb = absurd (ground (arith, ea))
append_value-order nullable dst a b x y type (some v) w h k ea eb =
    append_key_column-order type v w (null_marker dst nullable 1) a b x y h.word k.word ea eb

-- The columns of an index or a primary key, as the key encoding takes them.
abbrev pub IsColumns : List Column → Type 0
IsColumns columns = All (λ (c : Column). IsColumnValue c.value) columns

abbrev pub types_of : List Column → List ColumnType
types_of columns = map (λ (c : Column). c.type) columns

pub first_column :
    (nullable : Bool) (dst out : Bytes) (c : Column) (columns : List Column)
    → append_columns nullable dst (c ∷ columns) ≡ some out
    → (a : Bytes) × (append_value nullable dst c.type c.value ≡ some a)
      × (append_columns nullable a columns ≡ some out)
unfolding append_columns
first_column nullable dst out c columns h =
    elim (Option-cases (append_value nullable dst c.type c.value)) [
      | inl fails ↦ absurd (some_ne_none (sym (rw (append_columns, fails) at h)))
      | inr (a, e) ↦ (a, e, rw (append_columns, e) at h)
    ]

pub append_columns-front :
    (nullable : Bool) (dst out : Bytes) (columns : List Column)
    → IsColumns columns
    → append_columns nullable dst columns ≡ some out
    → (e : Bytes) × (out ≡ dst ++ e)
append_columns-front nullable dst out [] ok h =
    let same : out ≡ dst = sym (some_injective {a = dst} {b = out} (unfold append_columns in h)) in
    ([], same ∙ sym (append-nil dst))
append_columns-front nullable dst out (c ∷ columns) ok h =
    let (a, e, later) = first_column nullable dst out c columns h in
    let (t, same) = append_columns-front nullable a out columns ok.1 later in
    let (u, same', _) = append_value-Extends nullable dst a c.type c.value ok.0 e in
    (u ++ t, same ∙ ap (λ b. b ++ t) same' ∙ append_assoc dst u t)
