-- ===== src/Engine/Scan/Tree.antt =====
-- The tree's entries in an interval, where the iterator starts at the interval's near end.
use repodb.Base.{
  true_ne_false, ◌≡◌, refl, sym, ap, ◌∙◌, Bool, true, false, Option, none, some, List, [], ◌∷◌, not,
  arith, All, if◌then◌else◌, Bool-cases, inl, inr, map,
}
use repodb.Bytes.{Bytes, equal_bytes, below, at_least}
use repodb.Bytes.Order.{lt_trans, gt_of_lt, lt_of_gt, eq_of_compare}
use repodb.Bytes.Assoc.{Assoc, lookup}
use repodb.Prolly.{Entry}
use repodb.Engine.KeyCodec.Escape.{before_end}
use repodb.Engine.Ranges.{KeyInterval, contains, before}
use repodb.Engine.Scan.{is_behind}
use repodb.Engine.Scan.Order.{same_key, AllLater, InOrder}
use repodb.Engine.Scan.Keys.{only_in}
use repodb.Engine.Scan.Order.{lookup-same, lookup-other}
use repodb.Engine.Scan.Entries.{Slot, edited, stored, tree_slots, overlay_slots}

abbrev pub as_edited : {E : Type 0} → Option E → Option (Slot E)
as_edited none = none
as_edited (some e) = some (edited e)

abbrev pub as_stored : {E : Type 0} → Option Bytes → Option (Slot E)
as_stored none = none
as_stored (some v) = some (stored v)

abbrev pub tree_keyed : List Entry → Assoc Bytes
tree_keyed tree = map (λ (e : Entry). (e.key, e.value)) tree

pub lookup-overlay_slots :
    {E : Type 0} (k : Bytes) (items : Assoc E)
    → lookup k (overlay_slots items) ≡ as_edited (lookup k items)
lookup-overlay_slots k [] = unfold lookup in refl
lookup-overlay_slots k ((j, x) ∷ items) = elim (Bool-cases (equal_bytes j k)) [
  | inl same ↦
      rw (lookup-same j k x items same) (lookup-same j k (edited x) (overlay_slots items) same)
  | inr differ ↦
      lookup-other j k (edited x) (overlay_slots items) differ
      ∙ lookup-overlay_slots k items
      ∙ ap as_edited (sym (lookup-other j k x items differ))
]

pub overlay_slots-InOrder :
    {E : Type 0} (backwards : Bool) (items : Assoc E)
    → InOrder backwards items
    → InOrder backwards (overlay_slots items)
overlay_slots-InOrder backwards [] t = tt
overlay_slots-InOrder {E} backwards ((j, x) ∷ items) t =
    (later items t.0, overlay_slots-InOrder backwards items t.1)
  where
    later : (m : Assoc E) → AllLater backwards j m → AllLater backwards j (overlay_slots m)
    later [] p = tt
    later (y ∷ m) p = (p.0, later m p.1)

-- Behind the interval, and on its near side, in the scan's direction.
abbrev pub is_key_behind : Bool → KeyInterval → Bytes → Bool
is_key_behind backwards iv key =
    if backwards
    then below key iv.start
    else (elim iv.end [ none ↦ false | some end ↦ at_least key end ])

abbrev pub is_reached : Bool → KeyInterval → Bytes → Bool
is_reached backwards iv key = if backwards then before_end iv.end key else at_least key iv.start

contains_split :
    (backwards : Bool) (start : Bytes) (end : Option Bytes) (key : Bytes)
    → is_reached backwards (record { start = start; end = end }) key ≡ true
    → contains (record { start = start; end = end }) key
      ≡ not (is_key_behind backwards (record { start = start; end = end }) key)
contains_split true start end key h = ground (arith, h)
contains_split false start none key h = ground (arith, h)
contains_split false start (some end) key h = ground (arith, h)

outside_behind :
    (backwards : Bool) (start : Bytes) (end : Option Bytes) (key : Bytes)
    → is_key_behind backwards (record { start = start; end = end }) key ≡ true
    → contains (record { start = start; end = end }) key ≡ false
outside_behind true start end key h = ground (arith, h)
outside_behind false start none key h = absurd (ground (arith, h))
outside_behind false start (some end) key h = ground (arith, h)

behind_later :
    (backwards : Bool) (start : Bytes) (end : Option Bytes) (a b : Bytes)
    → is_key_behind backwards (record { start = start; end = end }) a ≡ true
    → before a b backwards ≡ true
    → is_key_behind backwards (record { start = start; end = end }) b ≡ true
behind_later true start end a b h k = ground (arith, lt_trans b a start)
behind_later false start none a b h k = h
behind_later false start (some end) a b h k = ground (
  arith,
  lt_trans a b end,
  lt_trans end a b,
  gt_of_lt b end,
  lt_of_gt a end,
  gt_of_lt end b,
  eq_of_compare a end,
)

module _ (backwards : Bool) (iv : KeyInterval) where
  abbrev pub Reached : List Entry → Type 0
  Reached tree = All (λ (e : Entry). is_reached backwards iv e.key ≡ true) tree

  -- Behind an entry that is behind the interval there is nothing of it.
  nothing_behind :
      (a k : Bytes) (tree : List Entry)
      → is_key_behind backwards iv a ≡ true
      → AllLater backwards a (tree_keyed tree)
      → contains iv k ≡ true
      → lookup k (tree_keyed tree) ≡ none
  nothing_behind a k [] h t inside = unfold lookup in refl
  nothing_behind a k (e ∷ tree) h t inside = elim (Bool-cases (equal_bytes e.key k)) [
    | inl same ↦ absurd (
        true_ne_false (
          sym inside
          ∙ ap (contains iv) (sym (same_key e.key k same))
          ∙ outside_behind backwards iv.start iv.end e.key
              (behind_later backwards iv.start iv.end a e.key h t.0)))
    | inr differ ↦
        lookup-other e.key k e.value (tree_keyed tree) differ ∙ nothing_behind a k tree h t.1 inside
  ]

  -- An entry behind the interval, and those behind it.
  behind_none :
      (k : Bytes) (e : Entry) (tree : List Entry)
      → is_key_behind backwards iv e.key ≡ true
      → InOrder backwards (tree_keyed (e ∷ tree))
      → contains iv k ≡ true
      → lookup k (tree_keyed (e ∷ tree)) ≡ none
  behind_none k e tree h t inside = elim (Bool-cases (equal_bytes e.key k)) [
    | inl same ↦ absurd (
        true_ne_false (
          sym inside
          ∙ ap (contains iv) (sym (same_key e.key k same))
          ∙ outside_behind backwards iv.start iv.end e.key h))
    | inr differ ↦
        lookup-other e.key k e.value (tree_keyed tree) differ
        ∙ nothing_behind e.key k tree h t.0 inside
  ]

module _ (E : Type 0) (backwards : Bool) (iv : KeyInterval) where
  only_none :
      (b : Bool) (o : Option (Slot E))
      → (b ≡ true → o ≡ none)
      → ◌≡◌ {A = Option (Slot E)} none (if b then o else none)
  only_none true o h = sym (h refl)
  only_none false o h = refl

  only_some :
      (k : Bytes) {o : Option (Slot E)} {x : Slot E}
      → contains iv k ≡ true
      → o ≡ some x
      → only_in iv k o ≡ some x
  only_some k h e = rw (h, e) refl

  pub lookup-tree_slots :
      (k : Bytes) (tree : List Entry)
      → InOrder backwards (tree_keyed tree)
      → Reached backwards iv tree
      → lookup k (tree_slots {E = E} backwards iv tree)
        ≡ only_in iv k (as_stored (lookup k (tree_keyed tree)))
  unfolding tree_slots
  lookup-tree_slots k [] t r = unfold lookup in only_none (contains iv k) none (λ h. refl)
  lookup-tree_slots k (e ∷ tree) t r = elim (Bool-cases (is_behind backwards iv e)) [
    | inl behind ↦
        rw (behind, tree_slots)
          (unfold lookup in
            only_none (contains iv k) (as_stored (lookup k (tree_keyed (e ∷ tree))))
              (λ inside. ap as_stored (behind_none backwards iv k e tree behind t inside)))
    | inr within ↦
        rw (within, tree_slots)
          (elim (Bool-cases (equal_bytes e.key k)) [
            | inl same ↦
                lookup-same e.key k (stored e.value) (tree_slots backwards iv tree) same
                ∙ sym (
                    only_some k
                      (ap (contains iv) (sym (same_key e.key k same))
                        ∙ contains_split backwards iv.start iv.end e.key r.0
                        ∙ ap not within)
                      (ap as_stored (lookup-same e.key k e.value (tree_keyed tree) same)))
            | inr differ ↦
                lookup-other e.key k (stored e.value) (tree_slots backwards iv tree) differ
                ∙ lookup-tree_slots k tree t.1 r.1
                ∙ ap (λ o. only_in iv k (as_stored o))
                    (sym (lookup-other e.key k e.value (tree_keyed tree) differ))
          ])
  ]

  tree_slots-AllLater :
      (j : Bytes) (tree : List Entry)
      → AllLater backwards j (tree_keyed tree)
      → AllLater backwards j (tree_slots {E = E} backwards iv tree)
  unfolding tree_slots
  tree_slots-AllLater j [] t = tt
  tree_slots-AllLater j (e ∷ tree) t = elim (Bool-cases (is_behind backwards iv e)) [
    | inl behind ↦ rw (behind, tree_slots) tt
    | inr within ↦ rw (within, tree_slots) (t.0, tree_slots-AllLater j tree t.1)
  ]

  pub tree_slots-InOrder :
      (tree : List Entry)
      → InOrder backwards (tree_keyed tree)
      → InOrder backwards (tree_slots {E = E} backwards iv tree)
  unfolding tree_slots
  tree_slots-InOrder [] t = tt
  tree_slots-InOrder (e ∷ tree) t = elim (Bool-cases (is_behind backwards iv e)) [
    | inl behind ↦ rw (behind, tree_slots) tt
    | inr within ↦
        rw (within, tree_slots) (tree_slots-AllLater e.key tree t.0, tree_slots-InOrder tree t.1)
  ]
