-- ===== src/Engine/Scan/Cursor.antt =====
-- What a cursor over the edits gives: for each key the transaction's edit, or else the journal's.
use repodb.Base.{
  ◌≡◌, refl, sym, ap, Bool, Option, none, some, List, [], ◌∷◌, Bool-cases, inl, inr, map,
}
use repodb.Bytes.{Bytes, equal_bytes}
use repodb.Bytes.Assoc.{Assoc}
use repodb.Repository.Pending.{TypedRowEdit}
use repodb.Engine.RowCodec.Values.{Result, done}
use repodb.Engine.RowCodec.Row.{Schema}
use repodb.Engine.Ranges.{before}
use repodb.Engine.Scan.{RowEdit, RowOverlayCursor, decode_pending, edit_at, peek, advance}
use repodb.Engine.Scan.Overlay.{overlaid}

-- A cursor gives edits under their keys, one for each advance, and then no more.
abbrev pub Emits :
    {C E : Type 0} → (C → Option Bytes) → (C → Result C) → (C → E) → C → Assoc E → Type 0
Emits peek advance edit c [] = peek c ≡ none
Emits {C} {E} peek advance edit c ((k, e) ∷ items) =
    (peek c ≡ some k)
    × (c' : C) × (advance c ≡ done c')
    × (edit c' ≡ e)
    × Emits peek advance edit c' items

module _ {J : Type 0} (parse_json : Bytes → Option J) (schema : Schema) where
  -- The pending edits have rows.
  abbrev pub DecodeTo : List TypedRowEdit → Assoc (RowEdit J) → Type 0
  DecodeTo [] [] = Unit {0}
  DecodeTo [] (x ∷ items) = ⊥
  DecodeTo (p ∷ pending) [] = ⊥
  DecodeTo (p ∷ pending) ((k, e) ∷ items) =
      (p.key ≡ k) × (decode_pending parse_json schema p ≡ done e) × DecodeTo pending items

-- The transaction's edits of some keys.
abbrev pub own_edits : {J : Type 0} → Assoc (RowEdit J) → List Bytes → Assoc (RowEdit J)
own_edits edits keys = map (λ k. (k, edit_at edits k)) keys

module _ {J : Type 0} (parse_json : Bytes → Option J) (schema : Schema) (backwards : Bool)
    (edits : Assoc (RowEdit J)) where
  abbrev pub EmitsRows : RowOverlayCursor J → Assoc (RowEdit J) → Type 0
  EmitsRows c items =
      Emits (peek backwards) (advance parse_json schema backwards edits)
        (λ (c : RowOverlayCursor J). c.edit) c items

  -- The pending edits alone.
  pending-EmitsRows :
      (pending : List TypedRowEdit) (items : Assoc (RowEdit J)) (edit : RowEdit J)
      → DecodeTo parse_json schema pending items
      → EmitsRows (record { local = []; pending = pending; edit = edit }) items
  pending-EmitsRows [] [] edit d = refl
  pending-EmitsRows [] (x ∷ items) edit d = absurd d
  pending-EmitsRows (p ∷ pending) [] edit d = absurd d
  pending-EmitsRows (p ∷ pending) ((k, e) ∷ items) edit d = (
    ap some d.0,
    record { local = []; pending = pending; edit = e },
    rw d.1 refl,
    refl,
    pending-EmitsRows pending items e d.2,
  )

  local-EmitsRows :
      (local : List Bytes) (edit : RowEdit J)
      → EmitsRows (record { local = local; pending = []; edit = edit }) (own_edits edits local)
  local-EmitsRows [] edit = refl
  local-EmitsRows (k ∷ local) edit = (
    refl,
    record { local = local; pending = []; edit = edit_at edits k },
    refl,
    refl,
    local-EmitsRows local (edit_at edits k),
  )

  pub cursor-EmitsRows :
      (local : List Bytes) (pending : List TypedRowEdit) (items : Assoc (RowEdit J))
      (edit : RowEdit J)
      → DecodeTo parse_json schema pending items
      → EmitsRows
          (record { local = local; pending = pending; edit = edit })
          (overlaid backwards (own_edits edits local) items)
  unfolding overlaid
  cursor-EmitsRows [] pending items edit d = pending-EmitsRows pending items edit d
  cursor-EmitsRows (k ∷ local) [] [] edit d = local-EmitsRows (k ∷ local) edit
  cursor-EmitsRows (k ∷ local) [] (x ∷ items) edit d = absurd d
  cursor-EmitsRows (k ∷ local) (p ∷ pending) [] edit d = absurd d
  cursor-EmitsRows (k ∷ local) (p ∷ pending) ((j, e) ∷ items) edit d =
      rw (sym d.0) (elim (Bool-cases (before p.key k backwards)) [
        | inl first ↦
            rw (first, overlaid)
              (
                rw first refl,
                record { local = k ∷ local; pending = pending; edit = e },
                rw (first, d.1) refl,
                refl,
                cursor-EmitsRows (k ∷ local) pending items e d.2,
              )
        | inr own ↦ elim (Bool-cases (equal_bytes k p.key)) [
          | inl same ↦
              rw (own, same, overlaid)
                (
                  rw own refl,
                  record { local = local; pending = pending; edit = edit_at edits k },
                  rw own refl,
                  refl,
                  cursor-EmitsRows local pending items (edit_at edits k) d.2,
                )
          | inr differ ↦
              rw (own, differ, overlaid)
                (
                  rw own refl,
                  record { local = local; pending = p ∷ pending; edit = edit_at edits k },
                  rw own refl,
                  refl,
                  cursor-EmitsRows local (p ∷ pending) ((p.key, e) ∷ items) (edit_at edits k)
                      (refl, d.1, d.2),
                )
        ]
      ])
