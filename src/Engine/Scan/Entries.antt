-- ===== src/Engine/Scan/Entries.antt =====
-- What merged entries give: for each key the overlay's edit, or else the tree's value.
use repodb.Base.{
  ◌≡◌, refl, ap, ◌∙◌, Bool, Option, none, some, List, [], ◌∷◌, if◌then◌else◌, Bool-cases, inl, inr,
  map,
}
use repodb.Bytes.{Bytes, equal_bytes}
use repodb.Bytes.Assoc.{Assoc}
use repodb.Prolly.{Entry}
use repodb.Engine.RowCodec.Values.{Result, done}
use repodb.Engine.Ranges.{KeyInterval, before}
use repodb.Engine.Scan.{MergedEntries, overlay_key, tree_value, is_behind, advance_tree, next}
use repodb.Engine.Scan.Overlay.{overlaid}
use repodb.Engine.Scan.Cursor.{Emits}

-- An edit of the overlay, or a value of the tree.
pub data Slot (E : Type 0) : Type 0 where
  edited : E → Slot E
  stored : Bytes → Slot E

module _ {E : Type 0} (backwards : Bool) (iv : KeyInterval) where
  -- The tree's entries up to the end of the interval in the scan's direction.
  unfoldable pub tree_slots : List Entry → Assoc (Slot E)
  tree_slots [] = []
  tree_slots (e ∷ tree) =
      let rest = tree_slots tree in
      if is_behind backwards iv e then [] else (e.key, stored e.value) ∷ rest

abbrev pub overlay_slots : {E : Type 0} → Assoc E → Assoc (Slot E)
overlay_slots items = map (λ x. (x.0, edited x.1)) items

module _ {C E : Type 0} (peek : C → Option Bytes) (advance : C → Result C) (edit : C → E)
    (backwards : Bool) (iv : KeyInterval) where
  -- Merged entries give slots, one after the other, and then no more.
  abbrev pub Serves : MergedEntries C → Assoc (Slot E) → Type 0
  Serves m [] = (m' : MergedEntries C) × (next peek advance backwards iv m ≡ done (none, m'))
  Serves m ((k, edited e) ∷ slots) =
      (m' : MergedEntries C) × (next peek advance backwards iv m ≡ done (some (overlay_key k), m'))
      × (edit m'.overlay ≡ e)
      × Serves m' slots
  Serves m ((k, stored v) ∷ slots) =
      (m' : MergedEntries C) × (next peek advance backwards iv m ≡ done (some (tree_value v), m'))
      × Serves m' slots

  overlay_kept : (tree : List Entry) (c : C) → (advance_tree backwards iv tree c).overlay ≡ c
  overlay_kept [] c = refl
  overlay_kept (e ∷ tree) c = refl

  -- The overlay alone, before a tree of which nothing is left in the interval.
  overlay-Serves :
      (c : C) (tree : List Entry) (items : Assoc E)
      → Emits peek advance edit c items
      → Serves (record { tree_next = none; tree = tree; overlay = c }) (overlay_slots items)
  overlay-Serves c tree [] emits =
      (record { tree_next = none; tree = tree; overlay = c }, rw emits refl)
  overlay-Serves c tree ((k, x) ∷ items) (here, c', moved, is_edit, later) = (
    record { tree_next = none; tree = tree; overlay = c' },
    rw (here, moved) refl,
    is_edit,
    overlay-Serves c' tree items later,
  )

  -- The tree alone.
  tree-Serves :
      (c : C) (tree : List Entry)
      → peek c ≡ none
      → Serves (advance_tree backwards iv tree c) (tree_slots backwards iv tree)
  unfolding tree_slots
  tree-Serves c [] none_left =
      (record { tree_next = none; tree = []; overlay = c }, rw none_left refl)
  tree-Serves c (e ∷ tree) none_left = elim (Bool-cases (is_behind backwards iv e)) [
    | inl behind ↦
        rw (behind, tree_slots)
          (record { tree_next = none; tree = tree; overlay = c }, rw none_left refl)
    | inr within ↦
        rw (within, tree_slots)
          (advance_tree backwards iv tree c, rw none_left refl, tree-Serves c tree none_left)
  ]

  pub merged-Serves :
      (c : C) (tree : List Entry) (items : Assoc E)
      → Emits peek advance edit c items
      → Serves
          (advance_tree backwards iv tree c)
          (overlaid backwards (overlay_slots items) (tree_slots backwards iv tree))
  unfolding overlaid tree_slots
  merged-Serves c tree [] emits = tree-Serves c tree emits
  merged-Serves c [] ((k, x) ∷ items) emits = overlay-Serves c [] ((k, x) ∷ items) emits
  merged-Serves c (e ∷ tree) ((k, x) ∷ items) emits = elim (Bool-cases (is_behind backwards iv e)) [
    | inl behind ↦ rw (behind, tree_slots) (overlay-Serves c tree ((k, x) ∷ items) emits)
    | inr within ↦ elim (Bool-cases (before e.key k backwards)) [
      | inl tree_first ↦
          rw (within, tree_first, overlaid)
            (
              advance_tree backwards iv tree c,
              rw (emits.0, tree_first) refl,
              merged-Serves c tree ((k, x) ∷ items) emits,
            )
      | inr overlay_first ↦ elim (Bool-cases (equal_bytes k e.key)) [
        | inl same ↦
            let (here, c', moved, is_edit, later) = emits in
            rw (within, overlay_first, same, overlaid)
              (
                advance_tree backwards iv tree c',
                rw (here, overlay_first, moved, same) refl,
                ap edit (overlay_kept tree c') ∙ is_edit,
                merged-Serves c' tree items later,
              )
        | inr differ ↦
            let (here, c', moved, is_edit, later) = emits in
            rw (within, overlay_first, differ, overlaid)
              (
                record { tree_next = some e; tree = tree; overlay = c' },
                rw (here, overlay_first, moved, differ) refl,
                is_edit,
                rw (within, tree_slots) at (merged-Serves c' (e ∷ tree) items later),
              )
      ]
    ]
  ]
