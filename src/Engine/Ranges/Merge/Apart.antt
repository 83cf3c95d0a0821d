-- ===== src/Engine/Ranges/Merge/Apart.antt =====
-- Merged intervals are not empty, and each starts behind the end of the one before.
use repodb.Base.{
  ◌≡◌, refl, true, false, Option, none, some, List, [], ◌∷◌, arith, All, Bool-cases, inl, inr,
}
use repodb.Bytes.{Bytes, below}
use repodb.Bytes.Order.{lt_trans}
use repodb.Engine.Ranges.{KeyInterval, is_empty_interval}
use repodb.Engine.Ranges.Merge.{
  insert_interval, sort_intervals, is_past, later_end, merge_from, merge_sorted, merge_intervals,
}

abbrev pub IsFilled : KeyInterval → Type 0
IsFilled iv = is_empty_interval iv ≡ false

-- The first interval starts behind an end.
abbrev pub StartsPast : Option Bytes → List KeyInterval → Type 0
StartsPast end [] = Unit {0}
StartsPast end (iv ∷ intervals) = is_past end iv.start ≡ true

abbrev pub AreApart : List KeyInterval → Type 0
AreApart [] = Unit {0}
AreApart (iv ∷ intervals) = IsFilled iv × StartsPast iv.end intervals × AreApart intervals

insert_interval-IsFilled :
    (iv : KeyInterval) (intervals : List KeyInterval)
    → IsFilled iv
    → All IsFilled intervals
    → All IsFilled (insert_interval iv intervals)
unfolding insert_interval
insert_interval-IsFilled iv [] h t = (h, t)
insert_interval-IsFilled iv (j ∷ intervals) h t = elim (Bool-cases (below j.start iv.start)) [
  | inl later ↦ rw (later, insert_interval) (t.0, insert_interval-IsFilled iv intervals h t.1)
  | inr first ↦ rw (first, insert_interval) (h, t)
]

sort_intervals-IsFilled :
    (intervals : List KeyInterval)
    → All IsFilled intervals
    → All IsFilled (sort_intervals intervals)
unfolding sort_intervals
sort_intervals-IsFilled [] t = tt
sort_intervals-IsFilled (iv ∷ intervals) t =
    insert_interval-IsFilled iv (sort_intervals intervals) t.0
      (sort_intervals-IsFilled intervals t.1)

joined-IsFilled :
    (start : Bytes) (e f : Option Bytes)
    → IsFilled (record { start = start; end = e })
    → IsFilled (record { start = start; end = later_end e f })
joined-IsFilled start none f h = refl
joined-IsFilled start (some e) none h = refl
joined-IsFilled start (some e) (some f) h = elim (Bool-cases (below e f)) [
  | inl longer ↦ rw longer (ground (arith, h, lt_trans start e f))
  | inr shorter ↦ rw shorter h
]

merge_from-StartsPast :
    (end : Option Bytes) (last : KeyInterval) (intervals : List KeyInterval)
    → is_past end last.start ≡ true
    → StartsPast end (merge_from last intervals)
unfolding merge_from
merge_from-StartsPast end last [] h = h
merge_from-StartsPast end last (iv ∷ intervals) h = elim (Bool-cases (is_past last.end iv.start)) [
  | inl past ↦ rw (past, merge_from) h
  | inr near ↦
      rw (near, merge_from)
        (merge_from-StartsPast end (record { start = last.start; end = later_end last.end iv.end })
          intervals h)
]

merge_from-AreApart :
    (last : KeyInterval) (intervals : List KeyInterval)
    → IsFilled last
    → All IsFilled intervals
    → AreApart (merge_from last intervals)
unfolding merge_from
merge_from-AreApart last [] h t = (h, tt, tt)
merge_from-AreApart last (iv ∷ intervals) h t = elim (Bool-cases (is_past last.end iv.start)) [
  | inl past ↦
      rw (past, merge_from)
        (
          h,
          merge_from-StartsPast last.end iv intervals past,
          merge_from-AreApart iv intervals t.0 t.1,
        )
  | inr near ↦
      rw (near, merge_from)
        (merge_from-AreApart (record { start = last.start; end = later_end last.end iv.end })
          intervals (joined-IsFilled last.start last.end iv.end h) t.1)
]

pub merge_intervals-AreApart :
    (intervals : List KeyInterval) → All IsFilled intervals → AreApart (merge_intervals intervals)
unfolding merge_intervals
merge_intervals-AreApart intervals t =
    sorted-AreApart (sort_intervals intervals) (sort_intervals-IsFilled intervals t)
  where
    sorted-AreApart :
        (sorted : List KeyInterval) → All IsFilled sorted → AreApart (merge_sorted sorted)
    sorted-AreApart [] t = tt
    sorted-AreApart (iv ∷ sorted) t = merge_from-AreApart iv sorted t.0 t.1
