-- ===== src/Engine/Ranges/Cuts/Inside.antt =====
-- Whatever a range says of later columns, its interval holds only keys that start with the point columns
-- before.
use repodb.Base.{
  ◌≡◌, sym, ◌∙◌, Bool, true, false, if◌then◌else◌, Option, none, some, List, [], ◌∷◌, arith, All,
  Bool-cases, Option-cases, inl, inr,
}
use repodb.Bytes.{Bytes}
use repodb.Engine.KeyCodec.{key_prefix_end}
use repodb.Engine.KeyCodec.Escape.{IsByte, key_prefix_end_lem}
use repodb.Engine.KeyCodec.Column.Extends.{Extends}
use repodb.Engine.KeyCodec.Column.{ColumnType, KeyValue}
use repodb.Engine.IndexKeys.{null_marker, append_value}
use repodb.Engine.IndexKeys.Columns.{IsKeyValue, append_value-Extends}
use repodb.Engine.Ranges.Cuts.{
  Cut, below_null, above_null, above_all, other_cut, below_key, above_key, RangeColumn, Found,
  range_error, no_key, found, of_option, and_then, exclusive_start, append_bound_value,
  lower_cut_key, upper_cut_key, prefix_interval, point_prefix, ranged_interval, range_from,
  is_all_column, is_point_column,
}
use repodb.Engine.Ranges.Cuts.Sides.{append_bound_value-none, append_bound_value-some}
use repodb.Engine.Ranges.Cuts.Ends.{
  StartsIn, EndsIn, StartsIn-Extends, StartsIn-end, EndsIn-Extends, EndsIn-end, EndsIn-end_at,
  Holds, Within, Within-ends, Extends-self, Extends-marker, Extends-IsByte, Within-Extends,
}

module _ {K : Type 0} (convert : ColumnType → K → Option KeyValue)
    (converts : (type : ColumnType) (k : K) (w : KeyValue) → convert type k ≡ some w → IsKeyValue w)
    (nullable : Bool) where
  bound-Holds :
      {A : Type 0} (P : A → Type 0) (f : Bytes → Found A) (p : Bytes) (type : ColumnType) (k : K)
      → ((b : Bytes) → Extends p b → Holds P (f b))
      → Holds P (and_then (of_option (append_bound_value convert nullable p type k)) f)
  bound-Holds P f p type k holds = elim (Option-cases (convert type k)) [
    | inl no_value ↦ rw (append_bound_value-none convert nullable p type k no_value) tt
    | inr (w, value) ↦
        rw (append_bound_value-some convert nullable p type k w value)
          (elim (Option-cases (append_value nullable p type (some w))) [
            | inl bad ↦ rw bad tt
            | inr (b, good) ↦ rw good (
                holds b
                  (append_value-Extends nullable p b type (some w) (converts type k w value) good))
          ])
  ]

  exclusive_start-StartsIn :
      (p b : Bytes) → All IsByte b → Extends p b → Holds (StartsIn p) (exclusive_start b)
  exclusive_start-StartsIn p b hb x = elim (Option-cases (key_prefix_end b)) [
    | inl last ↦ rw last tt
    | inr (s, next) ↦ rw next (StartsIn-end p b s hb x next)
  ]

  lower-StartsIn :
      (p : Bytes) (type : ColumnType) (cut : Cut K)
      → All IsByte p
      → Holds (StartsIn p) (lower_cut_key convert nullable p type cut)
  unfolding lower_cut_key
  lower-StartsIn p type below_null hp =
      StartsIn-Extends p _ (Extends-marker p nullable 0 (omega arith))
  lower-StartsIn p type above_null hp =
      StartsIn-Extends p _ (Extends-marker p nullable 1 (omega arith))
  lower-StartsIn p type (below_key k) hp =
      found_again (append_bound_value convert nullable p type k)
        (bound-Holds (StartsIn p) found p type k (λ b x. StartsIn-Extends p b x))
    where
      found_again :
          (o : Option Bytes)
          → Holds (StartsIn p) (and_then (of_option o) found)
          → Holds (StartsIn p) (of_option o)
      found_again none t = t
      found_again (some b) t = t
  lower-StartsIn p type (above_key k) hp =
      bound-Holds (StartsIn p) exclusive_start p type k
        (λ b x. exclusive_start-StartsIn p b (Extends-IsByte p b hp x) x)
  lower-StartsIn p type above_all hp = exclusive_start-StartsIn p p hp (Extends-self p)
  lower-StartsIn p type other_cut hp = tt

  upper-EndsIn :
      (p : Bytes) (type : ColumnType) (cut : Cut K)
      → All IsByte p
      → Holds (EndsIn p) (upper_cut_key convert nullable p type cut)
  unfolding upper_cut_key
  upper-EndsIn p type below_null hp =
      EndsIn-end_at p _ hp (Extends-marker p nullable 0 (omega arith))
  upper-EndsIn p type above_null hp =
      EndsIn-end_at p _ hp (Extends-marker p nullable 1 (omega arith))
  upper-EndsIn p type (below_key k) hp =
      bound-Holds (EndsIn p) (λ key. found (some key)) p type k (λ b x. EndsIn-Extends p b hp x)
  upper-EndsIn p type (above_key k) hp =
      bound-Holds (EndsIn p) (λ key. found (key_prefix_end key)) p type k
        (λ b x. EndsIn-end p b hp (Extends-IsByte p b hp x) x)
  upper-EndsIn p type above_all hp = λ k hk t. t
  upper-EndsIn p type other_cut hp = tt

  both-Within :
      (p : Bytes) (start : Found Bytes) (end : Found (Option Bytes))
      → All IsByte p
      → Holds (StartsIn p) start
      → Holds (EndsIn p) end
      → Holds
          (Within p)
          (and_then start (λ s. and_then end (λ t. found (record { start = s; end = t }))))
  both-Within p range_error end hp s t = tt
  both-Within p no_key end hp s t = tt
  both-Within p (found start) range_error hp s t = tt
  both-Within p (found start) no_key hp s t = tt
  both-Within p (found start) (found end) hp s t = Within-ends p start end hp s t

  Within-prefix_interval : (p : Bytes) → All IsByte p → Within p (prefix_interval p)
  Within-prefix_interval p hp k hk t = sym (key_prefix_end_lem p k hp hk) ∙ t

  point_prefix-Extends :
      (p : Bytes) (type : ColumnType) (lower : Cut K)
      → Holds (Extends p) (point_prefix convert nullable p type lower)
  point_prefix-Extends p type below_null = null_prefix nullable
    where
      null_prefix :
          (b : Bool) → Holds (Extends p) (if b then found (null_marker p true 0) else no_key)
      null_prefix true = Extends-marker p true 0 (omega arith)
      null_prefix false = tt
  point_prefix-Extends p type (below_key k) =
      of_bound (append_bound_value convert nullable p type k)
        (bound-Holds (Extends p) found p type k (λ b x. x))
    where
      of_bound :
          (o : Option Bytes)
          → Holds (Extends p) (and_then (of_option o) found)
          → Holds (Extends p) (of_option o)
      of_bound none t = t
      of_bound (some b) t = t
  point_prefix-Extends p type above_null = tt
  point_prefix-Extends p type above_all = tt
  point_prefix-Extends p type other_cut = tt
  point_prefix-Extends p type (above_key k) = tt

  and_then-Holds :
      {A B : Type 0} (P : A → Type 0) (Q : B → Type 0) (m : Found A) (f : A → Found B)
      → Holds P m
      → ((a : A) → P a → Holds Q (f a))
      → Holds Q (and_then m f)
  and_then-Holds P Q range_error f h g = tt
  and_then-Holds P Q no_key f h g = tt
  and_then-Holds P Q (found a) f h g = g a h

  Holds-map :
      {A : Type 0} (P Q : A → Type 0) (m : Found A) → ((a : A) → P a → Q a) → Holds P m → Holds Q m
  Holds-map P Q range_error f h = tt
  Holds-map P Q no_key f h = tt
  Holds-map P Q (found a) f h = f a h

  pub range_from-Within :
      (deep_equal : K → K → Bool) (types : List ColumnType) (p : Bytes)
      (range : List (RangeColumn K))
      → All IsByte p
      → Holds (Within p) (range_from convert deep_equal nullable types p range)
  unfolding range_from
  range_from-Within deep_equal types p [] hp = Within-prefix_interval p hp
  range_from-Within deep_equal [] p (col ∷ range) hp = tt
  range_from-Within deep_equal (type ∷ types) p (col ∷ range) hp =
      let later = λ (q : Bytes) (x : Extends p q).
        Holds-map (Within q) (Within p) (range_from convert deep_equal nullable types q range)
          (λ iv w. Within-Extends p q iv x w)
          (range_from-Within deep_equal types q range (Extends-IsByte p q hp x)) in
      elim (Bool-cases (is_all_column nullable col)) [
        | inl unbounded ↦ rw (unbounded, range_from) (Within-prefix_interval p hp)
        | inr bounded ↦ elim (Bool-cases (is_point_column deep_equal col)) [
          | inl point ↦
              rw (bounded, point, range_from)
                (and_then-Holds (Extends p) (Within p)
                  (point_prefix convert nullable p type col.lower)
                  (λ q. range_from convert deep_equal nullable types q range)
                  (point_prefix-Extends p type col.lower) later)
          | inr ranged ↦
              rw (bounded, ranged, range_from)
                (unfold ranged_interval in
                  both-Within p (lower_cut_key convert nullable p type col.lower)
                    (upper_cut_key convert nullable p type col.upper) hp
                    (lower-StartsIn p type col.lower hp) (upper-EndsIn p type col.upper hp))
        ]
      ]
