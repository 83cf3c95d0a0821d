-- ===== src/Engine/Ranges/Keys.antt =====
-- The interval of a SQL range and the keys that engine/catalog.go gives to rows.
use repodb.Base.{
  some_injective, some_ne_none, ◌≡◌, refl, sym, ap, ◌∙◌, Bool, true, false, Option, none, some,
  List, [], ◌∷◌, ◌++◌, append-nil, ◌||◌, not, arith, length, map, All, Option-cases, if◌then◌else◌,
  inl, inr, ℕ,
}
use repodb.Bytes.{Bytes}
use repodb.Engine.KeyCodec.Escape.{IsByte}
use repodb.Engine.KeyCodec.Column.{ColumnType, KeyValue}
use repodb.Engine.KeyCodec.Column.Extends.{All-append}
use repodb.Engine.IndexKeys.{
  Column, column_at, append_columns, has_null, encode_key, encode_index_key,
}
use repodb.Engine.IndexKeys.Columns.{IsKeyValue, IsColumns, types_of, first_column}
use repodb.Engine.Ranges.{contains}
use repodb.Engine.Ranges.Cuts.{is_point_column, RangeColumn, range_shape_supported, range_interval}
use repodb.Engine.Ranges.Cuts.Meaning.{Selects, in_range}
use repodb.Engine.Ranges.Cuts.Sides.{append_value-IsByte}
use repodb.Engine.Ranges.Cuts.Exact.{HasEnd, range_from-Exact}
use repodb.Engine.Ranges.Cuts.Total.{HasKeys, HasKeys-length, range_from-IsFound, Selects_lem}

append_columns-IsByte :
    (nullable : Bool) (dst out : Bytes) (columns : List Column)
    → IsColumns columns
    → All IsByte dst
    → append_columns nullable dst columns ≡ some out
    → All IsByte out
append_columns-IsByte nullable dst out [] ok hd h =
    rw (some_injective {a = dst} {b = out} (unfold append_columns in h)) at hd
append_columns-IsByte nullable dst out (c ∷ columns) ok hd h =
    let (a, e, later) = first_column nullable dst out c columns h in
    append_columns-IsByte nullable a out columns ok.1
      (append_value-IsByte nullable dst a c.type c.value ok.0 hd e) later

length_types : (columns : List Column) → length (types_of columns) ≡ length columns
length_types [] = refl
length_types (c ∷ columns) = ground (arith, length_types columns)

-- The key of an index is that of its columns and, unless they are unique and not NULL, the primary key's.
index_key_rest :
    (schema : List ColumnType) (row : List (Option KeyValue)) (ordinals : List ℕ) (pk_key : Bytes)
    (unique : Bool) (key : Bytes) (null : Bool)
    → All IsByte pk_key
    → encode_index_key schema row ordinals pk_key unique ≡ some (key, null)
    → (out x : Bytes) × (append_columns true [] (map (column_at schema row) ordinals) ≡ some out)
      × (key ≡ out ++ x)
      × All IsByte x
unfolding encode_index_key
index_key_rest schema row ordinals pk_key unique key null hp h =
    elim (Option-cases (append_columns true [] (map (column_at schema row) ordinals))) [
      | inl fails ↦ absurd (some_ne_none (sym h ∙ failed fails))
      | inr (out, e) ↦
          let (x, same, hx) =
            rest (has_null (map (column_at schema row) ordinals) || not unique) out in
          (out, x, e, sym (ap front h) ∙ ap front (found e) ∙ same, hx)
    ]
  where
    front : Option (Bytes × Bool) → Bytes
    front none = []
    front (some (out, null)) = out

    failed :
        append_columns true [] (map (column_at schema row) ordinals) ≡ none
        → encode_index_key schema row ordinals pk_key unique ≡ none
    failed e = rw (encode_index_key, e) refl

    found :
        {out : Bytes}
        → append_columns true [] (map (column_at schema row) ordinals) ≡ some out
        → encode_index_key schema row ordinals pk_key unique
          ≡ some (
            (if has_null (map (column_at schema row) ordinals) || not unique
                then out ++ pk_key
                else out),
            has_null (map (column_at schema row) ordinals),
          )
    found e = rw (encode_index_key, e) refl

    rest :
        (b : Bool) (out : Bytes)
        → (x : Bytes) × ((if b then out ++ pk_key else out) ≡ out ++ x) × All IsByte x
    rest true out = (pk_key, refl, hp)
    rest false out = ([], sym (append-nil out), tt)

module _ {K : Type 0} (convert : ColumnType → K → Option KeyValue) (deep_equal : K → K → Bool)
    (converts : (type : ColumnType) (k : K) (w : KeyValue) → convert type k ≡ some w → IsKeyValue w)
    (equal : (k k' : K) → deep_equal k k' ≡ true → k ≡ k') where
  range_interval-Selects :
      (nullable : Bool) (out x key : Bytes) (columns : List Column) (range : List (RangeColumn K))
      → IsColumns columns
      → append_columns nullable [] columns ≡ some out
      → key ≡ out ++ x
      → All IsByte x
      → HasKeys convert nullable (types_of columns) range
      → range_shape_supported deep_equal nullable range ≡ true
      → All (HasEnd deep_equal nullable) range
      → Selects
          (λ iv. contains iv key)
          (in_range convert columns range)
          (range_interval convert deep_equal nullable (types_of columns) range)
  range_interval-Selects nullable out x key columns range ok h same hx keys shape ends =
      Selects_lem (λ iv. contains iv key) (in_range convert columns range)
        (range_interval convert deep_equal nullable (types_of columns) range)
        (range_from-IsFound convert nullable deep_equal (types_of columns) [] range keys)
        (range_from-Exact convert deep_equal converts equal nullable [] out x key columns range ok h
          same
          (let n = HasKeys-length convert nullable (types_of columns) range keys in
            let m = length_types columns in omega arith)
          shape ends tt
          (rw same (All-append out x (append_columns-IsByte nullable [] out columns ok tt h) hx)))

  index_HasEnd : (range : List (RangeColumn K)) → All (HasEnd deep_equal true) range
  index_HasEnd [] = tt
  index_HasEnd (col ∷ range) = (or_true (is_point_column deep_equal col), index_HasEnd range)
    where
      or_true : (p : Bool) → (p || true) ≡ true
      or_true p = ground arith

  -- Take a row that the index gives a key to, and a range of a shape that index scans support, whose values
  -- convert and have keys. Then rangeInterval finds no error, and the row's key lies in the interval (there is
  -- none if no key can) exactly if each of the range's columns holds the row's value, NULL being below all
  -- values. `Convert` gives values that fit their type, and values that DeepEqual takes for equal are.
  pub range_interval-encode_index_key :
      (schema : List ColumnType) (row : List (Option KeyValue)) (ordinals : List ℕ) (pk_key : Bytes)
      (unique : Bool) (key : Bytes) (null : Bool) (range : List (RangeColumn K))
      → IsColumns (map (column_at schema row) ordinals)
      → All IsByte pk_key
      → encode_index_key schema row ordinals pk_key unique ≡ some (key, null)
      → HasKeys convert true (types_of (map (column_at schema row) ordinals)) range
      → range_shape_supported deep_equal true range ≡ true
      → Selects
          (λ iv. contains iv key)
          (in_range convert (map (column_at schema row) ordinals) range)
          (range_interval convert deep_equal true
            (types_of (map (column_at schema row) ordinals))
            range)
  range_interval-encode_index_key schema row ordinals pk_key unique key null range ok hp h keys
        shape =
      let (out, x, e, same, hx) = index_key_rest schema row ordinals pk_key unique key null hp h in
      range_interval-Selects true out x key (map (column_at schema row) ordinals) range ok e same hx
        keys shape (index_HasEnd range)

  -- The same of a primary key, whose columns are never NULL, for ranges that end at a value or not at all: a
  -- column that ends around NULL has to be a point, since the empty key would be no end.
  pub range_interval-encode_key :
      (schema : List ColumnType) (row : List (Option KeyValue)) (ordinals : List ℕ) (key : Bytes)
      (range : List (RangeColumn K))
      → IsColumns (map (column_at schema row) ordinals)
      → encode_key schema row ordinals ≡ some key
      → HasKeys convert false (types_of (map (column_at schema row) ordinals)) range
      → range_shape_supported deep_equal false range ≡ true
      → All (HasEnd deep_equal false) range
      → Selects
          (λ iv. contains iv key)
          (in_range convert (map (column_at schema row) ordinals) range)
          (range_interval convert deep_equal false
            (types_of (map (column_at schema row) ordinals))
            range)
  unfolding encode_key
  range_interval-encode_key schema row ordinals key range ok h keys shape ends =
      range_interval-Selects false key [] key (map (column_at schema row) ordinals) range ok h
        (sym (append-nil key)) tt keys shape ends
