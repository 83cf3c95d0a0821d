-- ===== src/Prolly/Tree/Walk.antt =====
-- The walk of `Apply` over the leaves: what it writes is the chunking of the merged entries.
use repodb.Base.{
  ◌≡◌, refl, ◌∙◌, Option, List, [], ◌∷◌, ◌++◌, append_assoc, append-nil, length, inl, inr,
  Bool-cases,
}
use repodb.Bytes.{Bytes, compare_bytes}
use repodb.Bytes.Order.{Ordering-cases}
use repodb.Prolly.{Entry, Edit}
use repodb.Prolly.Codec.{Link}
use repodb.Prolly.Chunk.{Options, should_cut, chunk_from}
use repodb.Prolly.Tree.{
  Outcome, success, failure, bind, LeafChunker, entry_boundary_hash, write_leaf, write_all, flush,
  add, add_edit, add_edits, add_entry, add_entries,
}
use repodb.Prolly.Tree.Merge.{merge_edits, inserted, with_edit, merge_edits-nil}

pub bind_assoc :
    {A B C : Type 0} (m : Outcome A) (f : A → Outcome B) (g : B → Outcome C)
    → bind (bind m f) g ≡ bind m (λ a. bind (f a) g)
bind_assoc (failure e) f g = refl
bind_assoc (success a) f g = refl

pub bind_cong :
    {A B : Type 0} (m : Outcome A) (f g : A → Outcome B)
    → ((a : A) → f a ≡ g a)
    → bind m f ≡ bind m g
bind_cong (failure e) f g h = refl
bind_cong (success a) f g h = h a

module _ (put : Bytes → Option Bytes) (o : Options) {R : Type 0}
    (use_links : List Link → Outcome R) where
  -- The state of the chunker with the items that are still to come, and what is made of the links.
  abbrev pub rest : LeafChunker → List Entry → Outcome R
  rest c xs =
      bind (write_all put (write_leaf put) (chunk_from o entry_boundary_hash c.entries xs))
        (λ links. use_links (c.links ++ links))

  abbrev closed : List Link → Link → LeafChunker
  closed links l = record { entries = []; links = links ++ l ∷ [] }

  flushed :
      (w : Outcome Link) (links : List Link)
      → bind (bind w (λ l. success (closed links l))) (λ c. use_links c.links)
        ≡ bind (bind w (λ l. success (l ∷ []))) (λ written. use_links (links ++ written))
  flushed (failure e) links = refl
  flushed (success l) links = refl

  pub flush_lem : (c : LeafChunker) → bind (flush put o c) (λ c'. use_links c'.links) ≡ rest c []
  unfolding flush chunk_from write_all
  flush_lem c = by_entries c.entries c.links
    where
      by_entries :
          (entries : List Entry) (links : List Link)
          → bind
              (flush put o (record { entries = entries; links = links }))
              (λ c'. use_links c'.links)
            ≡ rest (record { entries = entries; links = links }) []
      by_entries [] links = rw (append-nil links) refl
      by_entries (e ∷ entries) links = flushed (write_leaf put (e ∷ entries)) links

  abbrev later : List Entry → Outcome (List Link)
  later xs = write_all put (write_leaf put) (chunk_from o entry_boundary_hash [] xs)

  joined :
      (l : Link) (links : List Link) (m : Outcome (List Link))
      → bind m (λ behind. use_links ((links ++ l ∷ []) ++ behind))
        ≡ bind (bind m (λ behind. success (l ∷ behind))) (λ written. use_links (links ++ written))
  joined l links (failure e) = refl
  joined l links (success behind) = rw (append_assoc links (l ∷ []) behind) refl

  written_first :
      (w : Outcome Link) (links : List Link) (xs : List Entry)
      → bind (bind w (λ l. success (closed links l))) (λ c. rest c xs)
        ≡ bind
            (bind w (λ l. bind (later xs) (λ behind. success (l ∷ behind))))
            (λ written. use_links (links ++ written))
  written_first (failure e) links xs = refl
  written_first (success l) links xs = joined l links (later xs)

  -- A full group is written, and the items that follow start the next.
  flush_full :
      (group : List Entry) (x : Entry) (links : List Link) (xs : List Entry)
      → bind (flush put o (record { entries = group ++ x ∷ []; links = links })) (λ c. rest c xs)
        ≡ bind
            (write_all put
              (write_leaf put)
              ((group ++ x ∷ []) ∷ chunk_from o entry_boundary_hash [] xs))
            (λ written. use_links (links ++ written))
  unfolding flush write_all
  flush_full [] x links xs = written_first (write_leaf put (x ∷ [])) links xs
  flush_full (y ∷ group) x links xs =
      written_first (write_leaf put (y ∷ (group ++ x ∷ []))) links xs

  pub add_lem :
      (c : LeafChunker) (x : Entry) (xs : List Entry)
      → bind (add put o c x) (λ c'. rest c' xs) ≡ rest c (x ∷ xs)
  unfolding add chunk_from
  add_lem c x xs =
      elim (Bool-cases (should_cut (length (c.entries ++ x ∷ [])) (entry_boundary_hash x) o)) [
        | inl t ↦ rw (add, chunk_from, t) (flush_full c.entries x c.links xs)
        | inr f ↦ rw (add, chunk_from, f) refl
      ]

  add_edit_lem :
      (c : LeafChunker) (e : Edit) (xs : List Entry)
      → bind (add_edit put o c e) (λ c'. rest c' xs) ≡ rest c (with_edit e xs)
  add_edit_lem c e xs = elim (Bool-cases e.delete) [
    | inl t ↦ rw t refl
    | inr f ↦ rw f (add_lem c (record { key = e.key; value = e.value }) xs)
  ]

  -- The edits that are left.
  pub add_edits_lem :
      (c : LeafChunker) (edits : List Edit)
      → bind (add_edits put o c edits) (λ c'. rest c' []) ≡ rest c (inserted edits)
  unfolding add_edits inserted
  add_edits_lem c [] = refl
  add_edits_lem c (e ∷ edits) =
      bind_assoc (add_edit put o c e) _ _
      ∙ bind_cong (add_edit put o c e) _ _ (λ c'. add_edits_lem c' edits)
      ∙ add_edit_lem c e (inserted edits)

  add_entry_lem :
      (c : LeafChunker) (x : Entry) (edits : List Edit) (later : List Entry)
      → bind (add_entry put o c x edits) (λ (c', edits'). rest c' (merge_edits later edits'))
        ≡ rest c (merge_edits (x ∷ later) edits)
  unfolding add_entry merge_edits
  add_entry_lem c x [] later =
      bind_assoc (add put o c x) _ _
      ∙ add_lem c x (merge_edits later [])
      ∙ rw (merge_edits-nil later) refl
  add_entry_lem c x (e ∷ edits) later = elim (Ordering-cases (compare_bytes e.key x.key)) [
    | inl h ↦
        rw (add_entry, merge_edits, h)
          (bind_assoc (add_edit put o c e) _ _
            ∙ bind_cong (add_edit put o c e) _ _ (λ c'. add_entry_lem c' x edits later)
            ∙ add_edit_lem c e (merge_edits (x ∷ later) edits))
    | inr (inl h) ↦
        rw (add_entry, merge_edits, h)
          (bind_assoc (add_edit put o c e) _ _ ∙ add_edit_lem c e (merge_edits later edits))
    | inr (inr h) ↦
        rw (add_entry, merge_edits, h)
          (bind_assoc (add put o c x) _ _ ∙ add_lem c x (merge_edits later (e ∷ edits)))
  ]

  -- The entries of a leaf.
  pub add_entries_lem :
      (c : LeafChunker) (entries : List Entry) (edits : List Edit) (later : List Entry)
      → bind
          (add_entries put o c entries edits)
          (λ (c', edits'). rest c' (merge_edits later edits'))
        ≡ rest c (merge_edits (entries ++ later) edits)
  unfolding add_entries
  add_entries_lem c [] edits later = refl
  add_entries_lem c (x ∷ entries) edits later =
      bind_assoc (add_entry put o c x edits) _ _
      ∙ bind_cong (add_entry put o c x edits) _ _
          (λ (c', edits'). add_entries_lem c' entries edits' later)
      ∙ add_entry_lem c x edits (entries ++ later)
