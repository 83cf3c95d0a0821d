-- ===== src/Engine/Ranges/Cuts/Total.antt =====
-- A range whose cuts have keys has an interval or selects nothing, and so is right about every row's key.
use repodb.Base.{
  ◌≤◌, ◌≡◌, Bool, true, false, Option, some, List, [], ◌∷◌, ◌++◌, arith, length, Bool-cases,
  Option-cases, if◌then◌else◌, inl, inr,
}
use repodb.Bytes.{Bytes}
use repodb.Engine.KeyCodec.{key_prefix_end}
use repodb.Engine.KeyCodec.Column.{ColumnType, KeyValue}
use repodb.Engine.Ranges.Cuts.{
  Cut, below_null, above_null, above_all, other_cut, below_key, above_key, RangeColumn, Found,
  range_error, no_key, found, of_option, and_then, exclusive_start, is_all_column, is_point,
  is_point_column, append_bound_value, lower_cut_key, upper_cut_key, point_prefix, ranged_interval,
  range_from,
}
use repodb.Engine.Ranges.Cuts.Meaning.{Answers, Selects}

-- No error was found.
abbrev pub IsFound : {A : Type 0} → Found A → Type 0
IsFound range_error = ⊥
IsFound no_key = Unit {0}
IsFound (found a) = Unit {0}

and_then-IsFound :
    {A B : Type 0} (m : Found A) (f : A → Found B)
    → IsFound m
    → ((a : A) → IsFound (f a))
    → IsFound (and_then m f)
and_then-IsFound range_error f t g = t
and_then-IsFound no_key f t g = tt
and_then-IsFound (found a) f t g = g a

exclusive_start-IsFound : (p : Bytes) → IsFound (exclusive_start p)
exclusive_start-IsFound p = elim (Option-cases (key_prefix_end p)) [
  | inl last ↦ rw last tt
  | inr (s, next) ↦ rw next tt
]

pub Selects_lem :
    {A : Type 0} (test : A → Bool) (passes : Bool) (m : Found A)
    → IsFound m
    → Answers test passes m
    → Selects test passes m
Selects_lem test passes range_error t u = t
Selects_lem test passes no_key t u = u
Selects_lem test passes (found a) t u = u

module _ {K : Type 0} (convert : ColumnType → K → Option KeyValue) (nullable : Bool) where
  -- The value of a cut converts and has a key behind any prefix.
  abbrev pub HasKey : ColumnType → Cut K → Type 0
  HasKey type (below_key k) =
      (p : Bytes) → IsFound (of_option (append_bound_value convert nullable p type k))
  HasKey type (above_key k) =
      (p : Bytes) → IsFound (of_option (append_bound_value convert nullable p type k))
  HasKey type below_null = Unit {0}
  HasKey type above_null = Unit {0}
  HasKey type above_all = Unit {0}
  HasKey type other_cut = ⊥

  -- The cuts of a range have keys, and it has no more columns than there are types.
  abbrev pub HasKeys : List ColumnType → List (RangeColumn K) → Type 0
  HasKeys types [] = Unit {0}
  HasKeys [] (col ∷ range) = ⊥
  HasKeys (type ∷ types) (col ∷ range) =
      HasKey type col.lower × HasKey type col.upper × HasKeys types range

  pub HasKeys-length :
      (types : List ColumnType) (range : List (RangeColumn K))
      → HasKeys types range
      → length range ≤ length types
  HasKeys-length types [] h = omega arith
  HasKeys-length [] (col ∷ range) h = absurd h
  HasKeys-length (type ∷ types) (col ∷ range) h =
      let later = HasKeys-length types range h.2 in omega arith

  lower_cut_key-IsFound :
      (p : Bytes) (type : ColumnType) (cut : Cut K)
      → HasKey type cut
      → IsFound (lower_cut_key convert nullable p type cut)
  unfolding lower_cut_key
  lower_cut_key-IsFound p type below_null h = tt
  lower_cut_key-IsFound p type above_null h = tt
  lower_cut_key-IsFound p type above_all h = exclusive_start-IsFound p
  lower_cut_key-IsFound p type other_cut h = h
  lower_cut_key-IsFound p type (below_key k) h = h p
  lower_cut_key-IsFound p type (above_key k) h =
      and_then-IsFound (of_option (append_bound_value convert nullable p type k)) exclusive_start
        (h p) exclusive_start-IsFound

  upper_cut_key-IsFound :
      (p : Bytes) (type : ColumnType) (cut : Cut K)
      → HasKey type cut
      → IsFound (upper_cut_key convert nullable p type cut)
  unfolding upper_cut_key
  upper_cut_key-IsFound p type below_null h = tt
  upper_cut_key-IsFound p type above_null h = tt
  upper_cut_key-IsFound p type above_all h = tt
  upper_cut_key-IsFound p type other_cut h = h
  upper_cut_key-IsFound p type (below_key k) h =
      and_then-IsFound (of_option (append_bound_value convert nullable p type k))
        (λ key. found (some key)) (h p) (λ key. tt)
  upper_cut_key-IsFound p type (above_key k) h =
      and_then-IsFound (of_option (append_bound_value convert nullable p type k))
        (λ key. found (key_prefix_end key)) (h p) (λ key. tt)

  ranged_interval-IsFound :
      (p : Bytes) (type : ColumnType) (col : RangeColumn K)
      → HasKey type col.lower
      → HasKey type col.upper
      → IsFound (ranged_interval convert nullable p type col)
  unfolding ranged_interval
  ranged_interval-IsFound p type col h k =
      and_then-IsFound (lower_cut_key convert nullable p type col.lower)
        (λ start.
          and_then (upper_cut_key convert nullable p type col.upper)
            (λ end. found (record { start = start; end = end })))
        (lower_cut_key-IsFound p type col.lower h)
        (λ start.
          and_then-IsFound (upper_cut_key convert nullable p type col.upper)
            (λ end. found (record { start = start; end = end }))
            (upper_cut_key-IsFound p type col.upper k) (λ end. tt))

  point_prefix-IsFound :
      (deep_equal : K → K → Bool) (p : Bytes) (type : ColumnType) (lower upper : Cut K)
      → is_point deep_equal lower upper ≡ true
      → HasKey type lower
      → IsFound (point_prefix convert nullable p type lower)
  point_prefix-IsFound deep_equal p type below_null upper h k = null_prefix nullable
    where
      null_prefix : (b : Bool) → IsFound (if b then found (p ++ 0 ∷ []) else no_key)
      null_prefix true = tt
      null_prefix false = tt
  point_prefix-IsFound deep_equal p type (below_key key) upper h k = k p
  point_prefix-IsFound deep_equal p type above_null upper h k = absurd (ground (arith, h))
  point_prefix-IsFound deep_equal p type above_all upper h k = absurd (ground (arith, h))
  point_prefix-IsFound deep_equal p type other_cut upper h k = absurd (ground (arith, h))
  point_prefix-IsFound deep_equal p type (above_key key) upper h k = absurd (ground (arith, h))

  pub range_from-IsFound :
      (deep_equal : K → K → Bool) (types : List ColumnType) (p : Bytes)
      (range : List (RangeColumn K))
      → HasKeys types range
      → IsFound (range_from convert deep_equal nullable types p range)
  unfolding range_from
  range_from-IsFound deep_equal types p [] h = tt
  range_from-IsFound deep_equal [] p (col ∷ range) h = h
  range_from-IsFound deep_equal (type ∷ types) p (col ∷ range) h =
      let later = λ (q : Bytes). range_from-IsFound deep_equal types q range h.2 in
      elim (Bool-cases (is_all_column nullable col)) [
        | inl unbounded ↦ rw (unbounded, range_from) tt
        | inr bounded ↦ elim (Bool-cases (is_point_column deep_equal col)) [
          | inl point ↦
              rw (bounded, point, range_from)
                (and_then-IsFound (point_prefix convert nullable p type col.lower)
                  (λ q. range_from convert deep_equal nullable types q range)
                  (point_prefix-IsFound deep_equal p type col.lower col.upper point h.0) later)
          | inr ranged ↦
              rw (bounded, ranged, range_from) (ranged_interval-IsFound p type col h.0 h.1)
        ]
      ]
