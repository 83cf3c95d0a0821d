-- ===== src/Prolly/Tree.antt =====
-- common/prolly/tree.go: trees over an object store. The store is the parameters `put`, which
-- answers the hash of what it stores or fails, and `get`, which finds what a hash names.
pub mod Merge
pub mod Upper
pub mod Walk
pub mod Leaves
pub mod Loop
pub mod Start
pub mod Canonical
pub mod AllDeleted
pub mod AnyOrder
pub mod Contents
mod Examples
use repodb.Base.{
  ℕ, zero, suc, ◌+◌, ◌-◌, ◌%◌, ◌^◌, Ordering, Bool, true, false, Option, none, some, List, [], ◌∷◌,
  ◌++◌, ◌==◌, leb, if◌then◌else◌, length, take, drop,
}
use repodb.Bytes.{Bytes, compare_bytes, equal_bytes, below, at_least}
use repodb.Bytes.Sorted.{lower_bound}
use repodb.Prolly.{Entry, Edit, entry_key}
use repodb.Prolly.Codec.{Link, Node, encode_node, decode_node, Result, ok, failed}
use repodb.Prolly.Chunk.{Options, validate, should_cut, key_boundary_hash, chunk}

abbrev pub link_key : Link → Bytes
link_key l = l.max_key

-- `entryBoundaryHash` and `linkBoundaryHash`
abbrev pub entry_boundary_hash : Entry → ℕ
entry_boundary_hash e = key_boundary_hash e.key

abbrev pub link_boundary_hash : Link → ℕ
link_boundary_hash l = key_boundary_hash l.max_key

pub data TreeError : Type 0 where
  invalid_options duplicate_key write_failed read_failed invalid_leaf_link : TreeError
  edit_key_required not_ordered : TreeError
  -- Go's panic for an index out of range.
  out_of_range : TreeError
  -- No Go value: the fuel ran out.
  stuck : TreeError

pub data Outcome (A : Type 0) : Type 0 where
  failure : TreeError → Outcome A
  success : A → Outcome A

abbrev pub bind : {A B : Type 0} → Outcome A → (A → Outcome B) → Outcome B
bind (failure e) f = failure e
bind (success a) f = f a

-- `group[len(group)-1]`, of a group that is not empty.
abbrev pub last_key {ℓ} : {A : Type ℓ} → (A → Bytes) → List A → Bytes
last_key key [] = []
last_key key (x ∷ []) = key x
last_key key (x ∷ y ∷ group) = last_key key (y ∷ group)

-- `sumCounts`
pub sum_counts : List Link → ℕ
sum_counts [] = 0
sum_counts (l ∷ links) = (l.count + sum_counts links) % 2 ^ 64

abbrev pub leaf_node : List Entry → Node
leaf_node entries = record { level = 0; entries = entries; children = [] }

-- Sorting in `Build`; what has equal keys is rejected afterwards, so every sort is as good.
abbrev pub insert_entry : Entry → List Entry → List Entry
insert_entry e [] = e ∷ []
insert_entry e (x ∷ entries) =
    let later = x ∷ insert_entry e entries in if below x.key e.key then later else e ∷ x ∷ entries

pub sort_entries : List Entry → List Entry
sort_entries [] = []
sort_entries (e ∷ entries) = insert_entry e (sort_entries entries)

-- `for i := 1; i < len(items); i++ { if bytes.Equal(...) }`
pub has_duplicate : List Entry → Bool
has_duplicate [] = false
has_duplicate (x ∷ []) = false
has_duplicate (x ∷ y ∷ entries) =
    let rest = has_duplicate (y ∷ entries) in if equal_bytes x.key y.key then true else rest

-- The checks of `Apply` on the edits, in their order: nothing, or the error.
pub check_edits : Option Bytes → List Edit → Option TreeError
check_edits previous [] = none
check_edits previous (e ∷ edits) =
    let rest = check_edits (some e.key) edits in
    elim e.key [
      | [] ↦ some edit_key_required
      | b ∷ key ↦ elim previous [
        | none ↦ rest
        | some p ↦ if at_least p e.key then some not_ordered else rest
      ]
    ]

-- `leafChunker`: the open group and the links of the closed ones.
pub record LeafChunker : Type 0 where
  pub entries : List Entry
  pub links : List Link

-- The loop over the children in `leafLinks`.
pub gather : (Link → Outcome (List Link)) → List Link → Outcome (List Link)
gather below_child [] = success []
gather below_child (c ∷ children) =
    bind (below_child c)
      (λ items. bind (gather below_child children) (λ leaves. success (items ++ leaves)))

abbrev pub or_read_failed : Result Node → Outcome Node
or_read_failed (failed e) = failure read_failed
or_read_failed (ok n) = success n

module _ (get : Bytes → Option Bytes) where
  abbrev pub decode_stored : Option Bytes → Outcome Node
  decode_stored none = failure read_failed
  decode_stored (some bytes) = or_read_failed (decode_node bytes)

  -- `readNode`
  pub read_node : Bytes → Outcome Node
  read_node hash = decode_stored (get hash)

  -- `leafLinks`; the fuel bounds the height of the tree.
  pub leaf_links : ℕ → Bytes → Outcome (List Link)
  leaf_links zero root = failure stuck
  leaf_links (suc fuel) root = bind (read_node root) (λ n.
      if n.level == 0
      then success (
          record { max_key = last_key entry_key n.entries; count = length n.entries; hash = root }
          ∷ [])
      else if n.level == 1
      then success n.children
      else gather (λ c. leaf_links fuel c.hash) n.children)

-- `if start == len(leaves) { start = len(leaves) - 1 }`
abbrev pub start_of : List Link → ℕ → ℕ
start_of leaves i = if i == length leaves then length leaves - 1 else i

module _ (put : Bytes → Option Bytes) where
  abbrev pub put_bytes : Option Bytes → Outcome Bytes
  put_bytes none = failure write_failed
  put_bytes (some bytes) = elim (put bytes) [ none ↦ failure write_failed | some h ↦ success h ]

  -- `writeNode`
  pub write_node : Node → Outcome Bytes
  write_node n = put_bytes (encode_node n)

  -- A leaf of a group, written, and its link.
  pub write_leaf : List Entry → Outcome Link
  write_leaf group =
      bind (write_node (leaf_node group)) (λ h.
        success (record { max_key = last_key entry_key group; count = length group; hash = h }))

  pub write_inner : ℕ → List Link → Outcome Link
  write_inner level group =
      bind (write_node (record { level = level; entries = []; children = group })) (λ h.
        success (record { max_key = last_key link_key group; count = sum_counts group; hash = h }))

  -- The loops over groups, in order.
  pub write_all : {A : Type 0} → (List A → Outcome Link) → List (List A) → Outcome (List Link)
  write_all write [] = success []
  write_all write (g ∷ groups) =
      bind (write g) (λ l. bind (write_all write groups) (λ links. success (l ∷ links)))

  module _ (o : Options) where
    -- `for len(links) > 1 { ... }`; the root is the last link's hash. `level` is a `uint8`.
    pub build_levels : ℕ → ℕ → List Link → Outcome Bytes
    build_levels zero level links = failure stuck
    build_levels (suc fuel) level [] = failure out_of_range
    build_levels (suc fuel) level (l ∷ []) = success l.hash
    build_levels (suc fuel) level (l ∷ l' ∷ links) =
        bind (write_all (write_inner level) (chunk o link_boundary_hash (l ∷ l' ∷ links)))
          (λ next. build_levels fuel ((level + 1) % 256) next)

    -- `buildFromLeafLinks`, and the end of `Build`; each round leaves fewer links.
    pub build_from_leaf_links : List Link → Outcome Bytes
    build_from_leaf_links leaves = build_levels (suc (length leaves)) 1 leaves

    -- `if len(result) == 0 { ... }` and the upper levels
    pub build_or_empty : List Link → Outcome Bytes
    build_or_empty [] =
        bind (write_node (leaf_node []))
          (λ h. build_from_leaf_links (record { max_key = []; count = 0; hash = h } ∷ []))
    build_or_empty (l ∷ links) = build_from_leaf_links (l ∷ links)

    -- `Build` on its sorted items.
    pub build_sorted : List Entry → Outcome Bytes
    build_sorted [] = write_node (leaf_node [])
    build_sorted (e ∷ items) =
        bind (write_all write_leaf (chunk o entry_boundary_hash (e ∷ items))) build_from_leaf_links

    -- `Build`: the root of the tree.
    pub build : List Entry → Outcome Bytes
    build entries =
        if validate o
        then (let items = sort_entries entries in
            if has_duplicate items then failure duplicate_key else build_sorted items)
        else failure invalid_options

    -- `leafChunker.flush`
    pub flush : LeafChunker → Outcome LeafChunker
    flush c = elim c.entries [
      | [] ↦ success c
      | e ∷ entries ↦
          bind (write_leaf (e ∷ entries))
            (λ l. success (record { entries = []; links = c.links ++ l ∷ [] }))
    ]

    -- `leafChunker.add`
    pub add : LeafChunker → Entry → Outcome LeafChunker
    add c e =
        let longer = record c { entries = c.entries ++ e ∷ [] } in
        if should_cut (length longer.entries) (entry_boundary_hash e) o
        then flush longer
        else success longer

    abbrev pub add_edit : LeafChunker → Edit → Outcome LeafChunker
    add_edit c e = if e.delete then success c else add c (record { key = e.key; value = e.value })

    -- `for editIndex < len(edits) { ... }` at the end of `Apply`.
    pub add_edits : LeafChunker → List Edit → Outcome LeafChunker
    add_edits c [] = success c
    add_edits c (e ∷ edits) = bind (add_edit c e) (λ c'. add_edits c' edits)

    -- The edits before an entry and the one at it, then the entry where no edit replaced it.
    pub add_entry : LeafChunker → Entry → List Edit → Outcome (LeafChunker × List Edit)
    add_entry c x [] = bind (add c x) (λ c'. success (c', []))
    add_entry c x (e ∷ edits) = elim (compare_bytes e.key x.key) [
      | Ordering.lt ↦ bind (add_edit c e) (λ c'. add_entry c' x edits)
      | Ordering.eq ↦ bind (add_edit c e) (λ c'. success (c', edits))
      | Ordering.gt ↦ bind (add c x) (λ c'. success (c', e ∷ edits))
    ]

    -- `for _, entry := range n.Entries`
    pub add_entries : LeafChunker → List Entry → List Edit → Outcome (LeafChunker × List Edit)
    add_entries c [] edits = success (c, edits)
    add_entries c (x ∷ entries) edits =
        bind (add_entry c x edits) (λ (c', edits'). add_entries c' entries edits')

    -- The end of `Apply`: the edits that are left, the open group, the upper levels.
    pub finish_apply : LeafChunker → List Edit → Outcome Bytes
    finish_apply c edits =
        bind (add_edits c edits) (λ c'. bind (flush c') (λ c''. build_or_empty c''.links))

    -- Behind a leaf: once no edit is left and no group is open, the leaves that follow are kept.
    pub after_leaf : LeafChunker → List Link → List Edit → Outcome Bytes → Outcome Bytes
    after_leaf c later [] rest = elim c.entries [
      | [] ↦ build_from_leaf_links (c.links ++ later)
      | x ∷ entries ↦ rest
    ]
    after_leaf c later (e ∷ edits) rest = rest

    module _ (get : Bytes → Option Bytes) where
      -- The loop over the leaves from `start` on.
      pub apply_leaves : LeafChunker → List Link → List Edit → Outcome Bytes
      apply_leaves c [] edits = finish_apply c edits
      apply_leaves c (leaf ∷ leaves) edits = bind (read_node get leaf.hash) (λ n.
          if n.level == 0
          then bind (add_entries c n.entries edits)
              (λ (c', edits'). after_leaf c' leaves edits' (apply_leaves c' leaves edits'))
          else failure invalid_leaf_link)

      -- `Apply` from the leaf links on, for edits that passed the checks.
      pub apply_from : List Link → Bytes → List Edit → Outcome Bytes
      apply_from [] first edits = failure out_of_range
      apply_from (l ∷ leaves) first edits =
          let start = start_of (l ∷ leaves) (lower_bound link_key first (l ∷ leaves)) in
          apply_leaves (record { entries = []; links = take start (l ∷ leaves) })
            (drop start (l ∷ leaves)) edits

      -- `Apply`: the root of the new tree.
      pub apply : ℕ → Bytes → List Edit → Outcome Bytes
      apply fuel root [] = success root
      apply fuel root (e ∷ edits) = elim (check_edits none (e ∷ edits)) [
        | some error ↦ failure error
        | none ↦ bind (leaf_links get fuel root) (λ leaves. apply_from leaves e.key (e ∷ edits))
      ]
