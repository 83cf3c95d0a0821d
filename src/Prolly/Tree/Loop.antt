-- ===== src/Prolly/Tree/Loop.antt =====
-- The loop of `Apply` over the leaves: what is written, with the leaves that are kept.
use repodb.Base.{◌≡◌, refl, sym, ◌∙◌, Option, List, [], ◌∷◌, ◌++◌, All, ◌⊎◌, inl, inr}
use repodb.Bytes.{Bytes}
use repodb.Prolly.{Entry, Edit}
use repodb.Prolly.Codec.{Link}
use repodb.Prolly.Chunk.{Options}
use repodb.Prolly.Chunk.Groups.{concat, chunk_from-tail, IsChunked}
use repodb.Prolly.Tree.{
  Outcome, success, failure, bind, LeafChunker, entry_boundary_hash, write_leaf, write_all,
  build_from_leaf_links, build_or_empty, add_edits, add_entries, finish_apply, after_leaf,
  apply_leaves,
}
use repodb.Prolly.Tree.Merge.{merge_edits, inserted, merge_edits-nil}
use repodb.Prolly.Tree.Walk.{rest, bind_cong, flush_lem, add_edits_lem, add_entries_lem}
use repodb.Prolly.Tree.Leaves.{Keeps, IsLeaf, cons_written, success_injective, read_node-write_leaf}

-- An outcome that is one of two, behind the same first step.
one_of :
    {A B : Type 0} (m : Outcome A) (f g h : A → Outcome B)
    → ((a : A) → (f a ≡ g a) ⊎ (f a ≡ h a))
    → (bind m f ≡ bind m g) ⊎ (bind m f ≡ bind m h)
one_of (failure e) f g h p = inl refl
one_of (success a) f g h p = p a

module _ (put get : Bytes → Option Bytes) (keeps : Keeps put get) (o : Options) where
  abbrev pub built : List Link → Outcome Bytes
  built = build_from_leaf_links put o

  abbrev pub or_empty : List Link → Outcome Bytes
  or_empty = build_or_empty put o

  -- Either way to go on from the links: the early end of the walk, and the end.
  abbrev pub Either : Outcome Bytes → LeafChunker → List Entry → Type 0
  Either r c xs = (r ≡ rest put o built c xs) ⊎ (r ≡ rest put o or_empty c xs)

  finish_apply_lem :
      (c : LeafChunker) (edits : List Edit)
      → finish_apply put o c edits ≡ rest put o or_empty c (inserted edits)
  unfolding finish_apply
  finish_apply_lem c edits =
      bind_cong (add_edits put o c edits) _ _ (λ c'. flush_lem put o or_empty c')
      ∙ add_edits_lem put o or_empty c edits

  -- The leaves that are kept are those that chunking would give again.
  kept_leaves :
      (c : LeafChunker) (groups : List (List Entry)) (leaves : List Link)
      → c.entries ≡ []
      → IsChunked o entry_boundary_hash groups
      → write_all put (write_leaf put) groups ≡ success leaves
      → built (c.links ++ leaves) ≡ rest put o built c (merge_edits (concat groups) [])
  kept_leaves c groups leaves e chunked written =
      rw (e, merge_edits-nil (concat groups), chunked, written) refl

  after_leaf_lem :
      (c : LeafChunker) (groups : List (List Entry)) (leaves : List Link) (edits : List Edit)
      (r : Outcome Bytes)
      → IsChunked o entry_boundary_hash groups
      → write_all put (write_leaf put) groups ≡ success leaves
      → Either r c (merge_edits (concat groups) edits)
      → Either (after_leaf put o c leaves edits r) c (merge_edits (concat groups) edits)
  unfolding after_leaf
  after_leaf_lem c groups leaves [] r chunked written h = by_entries c.entries c.links h
    where
      by_entries :
          (entries : List Entry) (links : List Link)
          → Either r (record { entries = entries; links = links }) (merge_edits (concat groups) [])
          → Either
              (after_leaf put o (record { entries = entries; links = links }) leaves [] r)
              (record { entries = entries; links = links })
              (merge_edits (concat groups) [])
      by_entries [] links h =
          inl (
            kept_leaves (record { entries = []; links = links }) groups leaves refl chunked written)
      by_entries (x ∷ entries) links h = h
  after_leaf_lem c groups leaves (e ∷ edits) r chunked written h = h

  pub apply_leaves_lem :
      (groups : List (List Entry)) (leaves : List Link) (c : LeafChunker) (edits : List Edit)
      → IsChunked o entry_boundary_hash groups
      → All IsLeaf groups
      → write_all put (write_leaf put) groups ≡ success leaves
      → Either (apply_leaves put o get c leaves edits) c (merge_edits (concat groups) edits)
  unfolding apply_leaves write_all merge_edits
  apply_leaves_lem [] leaves c edits chunked fit written =
      rw (sym (success_injective [] leaves written)) (inr (finish_apply_lem c edits))
  apply_leaves_lem (g ∷ groups) leaves c edits chunked fit written =
      let (l, behind, el, eb, same) = cons_written put (write_leaf put) g groups leaves written in
      let chunked' =
        chunk_from-tail o entry_boundary_hash [] (concat (g ∷ groups)) g groups chunked in
      let walked = one_of (add_entries put o c g edits) _ _ _ (λ (c', edits').
        after_leaf_lem c' groups behind edits' (apply_leaves put o get c' behind edits') chunked' eb
          (apply_leaves_lem groups behind c' edits' chunked' fit.1 eb)) in
      rw (sym same, apply_leaves, read_node-write_leaf put get keeps g l fit.0 el)
        (elim walked [
          | inl h ↦ inl (h ∙ add_entries_lem put o built c g edits (concat groups))
          | inr h ↦ inr (h ∙ add_entries_lem put o or_empty c g edits (concat groups))
        ])
