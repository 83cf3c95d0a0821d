-- ===== src/Engine/Ranges/Merge/Cover.antt =====
-- Merged intervals hold the same keys as before.
use repodb.Base.{
  ◌≡◌, refl, ap, ◌∙◌, Bool, true, false, Option, none, some, List, [], ◌∷◌, ◌&&◌, ◌||◌, arith, All,
  Bool-cases, inl, inr,
}
use repodb.Bytes.{Bytes, below, at_least}
use repodb.Bytes.Order.{lt_trans, gt_of_lt, lt_of_gt, eq_of_compare}
use repodb.Engine.KeyCodec.Escape.{before_end}
use repodb.Engine.Ranges.{KeyInterval, contains}
use repodb.Engine.Ranges.Merge.{
  insert_interval, sort_intervals, is_past, later_end, merge_from, merge_sorted, merge_intervals,
}

-- One of the intervals holds a key.
abbrev pub contains_any : List KeyInterval → Bytes → Bool
contains_any [] key = false
contains_any (iv ∷ intervals) key = contains iv key || contains_any intervals key

-- Starts that do not fall.
abbrev pub StartsAfter : Bytes → List KeyInterval → Type 0
StartsAfter start intervals = All (λ (iv : KeyInterval). at_least iv.start start ≡ true) intervals

abbrev pub StartsRise : List KeyInterval → Type 0
StartsRise [] = Unit {0}
StartsRise (iv ∷ intervals) = StartsAfter iv.start intervals × StartsRise intervals

pub at_least_trans :
    (a b c : Bytes) → at_least a b ≡ true → at_least b c ≡ true → at_least a c ≡ true
at_least_trans a b c h k = ground (
  arith,
  gt_of_lt a c,
  lt_trans b a c,
  eq_of_compare a b,
  lt_of_gt a b,
  gt_of_lt a b,
  gt_of_lt b c,
  lt_of_gt b c,
  eq_of_compare b c,
)

or_swap : (p q r : Bool) → (p || (q || r)) ≡ (q || (p || r))
or_swap p q r = ground arith

insert_interval-contains_any :
    (iv : KeyInterval) (intervals : List KeyInterval) (key : Bytes)
    → contains_any (insert_interval iv intervals) key
      ≡ (contains iv key || contains_any intervals key)
unfolding insert_interval
insert_interval-contains_any iv [] key = refl
insert_interval-contains_any iv (j ∷ intervals) key = elim (Bool-cases (below j.start iv.start)) [
  | inl later ↦
      rw (later, insert_interval)
        (ap (λ q. contains j key || q) (insert_interval-contains_any iv intervals key)
          ∙ or_swap (contains j key) (contains iv key) (contains_any intervals key))
  | inr first ↦ rw (first, insert_interval) refl
]

sort_intervals-contains_any :
    (intervals : List KeyInterval) (key : Bytes)
    → contains_any (sort_intervals intervals) key ≡ contains_any intervals key
unfolding sort_intervals
sort_intervals-contains_any [] key = refl
sort_intervals-contains_any (iv ∷ intervals) key =
    insert_interval-contains_any iv (sort_intervals intervals) key
    ∙ ap (λ q. contains iv key || q) (sort_intervals-contains_any intervals key)

insert_interval-StartsAfter :
    (start : Bytes) (iv : KeyInterval) (intervals : List KeyInterval)
    → at_least iv.start start ≡ true
    → StartsAfter start intervals
    → StartsAfter start (insert_interval iv intervals)
unfolding insert_interval
insert_interval-StartsAfter start iv [] h t = (h, t)
insert_interval-StartsAfter start iv (j ∷ intervals) h t =
    elim (Bool-cases (below j.start iv.start)) [
      | inl later ↦
          rw (later, insert_interval) (t.0, insert_interval-StartsAfter start iv intervals h t.1)
      | inr first ↦ rw (first, insert_interval) (h, t)
    ]

StartsAfter-lower :
    (a b : Bytes) (intervals : List KeyInterval)
    → at_least b a ≡ true
    → StartsAfter b intervals
    → StartsAfter a intervals
StartsAfter-lower a b [] h t = tt
StartsAfter-lower a b (iv ∷ intervals) h t =
    (at_least_trans iv.start b a t.0 h, StartsAfter-lower a b intervals h t.1)

insert_interval-StartsRise :
    (iv : KeyInterval) (intervals : List KeyInterval)
    → StartsRise intervals
    → StartsRise (insert_interval iv intervals)
unfolding insert_interval
insert_interval-StartsRise iv [] t = (tt, tt)
insert_interval-StartsRise iv (j ∷ intervals) t = elim (Bool-cases (below j.start iv.start)) [
  | inl later ↦
      rw (later, insert_interval)
        (
          insert_interval-StartsAfter j.start iv intervals
              (ground (arith, gt_of_lt j.start iv.start)) t.0,
          insert_interval-StartsRise iv intervals t.1,
        )
  | inr first ↦
      let here : at_least j.start iv.start ≡ true = ground (arith, first) in
      rw (first, insert_interval) ((here, StartsAfter-lower iv.start j.start intervals here t.0), t)
]

pub sort_intervals-StartsRise :
    (intervals : List KeyInterval) → StartsRise (sort_intervals intervals)
unfolding sort_intervals
sort_intervals-StartsRise [] = tt
sort_intervals-StartsRise (iv ∷ intervals) =
    insert_interval-StartsRise iv (sort_intervals intervals) (sort_intervals-StartsRise intervals)

at_least_of_not_below : (a b : Bytes) → below a b ≡ false → at_least a b ≡ true
at_least_of_not_below a b h = ground (arith, h)

below_trans : (a b c : Bytes) → below a b ≡ true → below b c ≡ true → below a c ≡ true
below_trans a b c h k = ground (arith, lt_trans a b c)

-- The ends of two intervals that leave no gap, told by where a key stands.
joined_ends :
    (s t key : Bytes) (e f : Option Bytes)
    → at_least t s ≡ true
    → is_past e t ≡ false
    → (at_least key s && before_end (later_end e f) key)
      ≡ ((at_least key s && before_end e key) || (at_least key t && before_end f key))
joined_ends s t key none f h k = ground (arith, at_least_trans key t s)
joined_ends s t key (some e) none h k = ground (
  arith,
  at_least_trans key t s,
  at_least_of_not_below key e,
  at_least_trans key e t,
  at_least_of_not_below e t,
)
joined_ends s t key (some e) (some f) h k = elim (Bool-cases (below e f)) [
  | inl longer ↦ rw longer (
      ground (
        arith,
        at_least_trans key t s,
        at_least_of_not_below key e,
        at_least_trans key e t,
        at_least_of_not_below e t,
        below_trans key e f,
      ))
  | inr shorter ↦ rw shorter (
      ground (
        arith,
        at_least_trans key t s,
        at_least_of_not_below key e,
        at_least_trans key e f,
        at_least_of_not_below e f,
      ))
]

-- Two intervals that leave no gap.
joined_lem :
    (a b : KeyInterval) (key : Bytes)
    → at_least b.start a.start ≡ true
    → is_past a.end b.start ≡ false
    → contains (record { start = a.start; end = later_end a.end b.end }) key
      ≡ (contains a key || contains b key)
joined_lem a b key h k = joined_ends a.start b.start key a.end b.end h k

merge_from-contains_any :
    (last : KeyInterval) (intervals : List KeyInterval) (key : Bytes)
    → StartsAfter last.start intervals
    → StartsRise intervals
    → contains_any (merge_from last intervals) key
      ≡ (contains last key || contains_any intervals key)
unfolding merge_from
merge_from-contains_any last [] key h t = refl
merge_from-contains_any last (iv ∷ intervals) key h t =
    elim (Bool-cases (is_past last.end iv.start)) [
      | inl past ↦
          rw (past, merge_from)
            (ap (λ q. contains last key || q) (merge_from-contains_any iv intervals key t.0 t.1))
      | inr near ↦
          rw (near, merge_from)
            (merge_from-contains_any
                (record { start = last.start; end = later_end last.end iv.end }) intervals key h.1
                t.1
              ∙ ap (λ q. q || contains_any intervals key) (joined_lem last iv key h.0 near)
              ∙ or_assoc (contains last key) (contains iv key) (contains_any intervals key))
    ]
  where
    or_assoc : (p q r : Bool) → ((p || q) || r) ≡ (p || (q || r))
    or_assoc p q r = ground arith

pub merge_intervals-contains_any :
    (intervals : List KeyInterval) (key : Bytes)
    → contains_any (merge_intervals intervals) key ≡ contains_any intervals key
unfolding merge_intervals
merge_intervals-contains_any intervals key =
    merge_sorted-contains_any (sort_intervals intervals) (sort_intervals-StartsRise intervals)
    ∙ sort_intervals-contains_any intervals key
  where
    merge_sorted-contains_any :
        (sorted : List KeyInterval)
        → StartsRise sorted
        → contains_any (merge_sorted sorted) key ≡ contains_any sorted key
    merge_sorted-contains_any [] t = refl
    merge_sorted-contains_any (iv ∷ sorted) t = merge_from-contains_any iv sorted key t.0 t.1
