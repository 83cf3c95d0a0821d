-- ===== src/Prolly/Codec/RoundTrip.antt =====
-- Every well-formed node is encoded, and decodes to itself.
use repodb.Base.{
  ℕ, suc, ◌*◌, ◌/◌, ◌^◌, ◌==◌, ◌≤◌, ◌<◌, ◌≡◌, ◌≢◌, refl, sym, ◌∙◌, true, false, some, List, [], ◌∷◌,
  ◌++◌, ltb, if◌then◌else◌, arith, length, take, drop, All, length-append, Bool-cases, inl, inr,
}
use repodb.Bytes.{Bytes}
use repodb.Prolly.{Entry}
use repodb.Prolly.Varint.{append_uvarint, uvarint-append_uvarint, length-append_uvarint}
use repodb.Prolly.Hex.{encode_hex, IsLowerHex, encode_hex-decode_hex}
use repodb.Prolly.Codec.{
  Link, Node, encode_entries, encode_children, encode_node, Result, ok, failed, truncated, and_then,
  read_uvarint, field, next_entry, next_link_raw, next_link, read_items, decode, decode_node,
}

take-append : {A : Type 0} (xs ys : List A) → take (length xs) (xs ++ ys) ≡ xs
take-append [] ys = refl
take-append (x ∷ xs) ys = rw (take-append xs ys)

drop-append : {A : Type 0} (xs ys : List A) → drop (length xs) (xs ++ ys) ≡ ys
drop-append [] ys = refl
drop-append (x ∷ xs) ys = drop-append xs ys

read_uvarint-append :
    (x : ℕ) (rest : Bytes) → x < 2 ^ 64 → read_uvarint (append_uvarint x ++ rest) ≡ ok (x, rest)
unfolding read_uvarint
read_uvarint-append x rest h = rw (read_uvarint, uvarint-append_uvarint x rest h)

not_short : {A : Type 0} (xs ys : List A) → ltb (length (xs ++ ys)) (length xs) ≡ false
not_short xs ys = ground (arith, length-append xs ys)

abbrev Fits : Bytes → Type 0
Fits b = length b < 2 ^ 64

field-append :
    (b rest : Bytes) → Fits b → field (append_uvarint (length b) ++ (b ++ rest)) ≡ ok (b, rest)
unfolding field
field-append b rest h = rw (
  field,
  read_uvarint-append (length b) (b ++ rest) h,
  not_short b rest,
  take-append b rest,
  drop-append b rest,
)

abbrev pub IsEntry : Entry → Type 0
IsEntry e = (length e.key < 2 ^ 64) × (length e.value < 2 ^ 64)

next_entry-append :
    (e : Entry) (entries : List Entry)
    → IsEntry e
    → next_entry (encode_entries (e ∷ entries)) ≡ ok (e, encode_entries entries)
unfolding next_entry encode_entries
next_entry-append e entries h = rw (
  next_entry,
  field-append e.key (append_uvarint (length e.value) ++ (e.value ++ encode_entries entries)) h.0,
  field-append e.value (encode_entries entries) h.1,
)

entries_lem :
    (entries : List Entry)
    → All IsEntry entries
    → read_items next_entry (length entries) (encode_entries entries) ≡ ok (entries, [])
unfolding read_items
entries_lem [] h = unfold encode_entries in refl
entries_lem (e ∷ entries) h = rw (next_entry-append e entries h.0, entries_lem entries h.1)

length-encode_entries :
    (entries : List Entry) → 2 * length entries ≤ length (encode_entries entries)
unfolding encode_entries
length-encode_entries [] = omega arith
length-encode_entries (e ∷ entries) = ground (
  arith,
  length-encode_entries entries,
  length-append_uvarint (length e.key),
  length-append_uvarint (length e.value),
  length-append (append_uvarint (length e.key))
      (e.key ++ (append_uvarint (length e.value) ++ (e.value ++ encode_entries entries))),
  length-append e.key (append_uvarint (length e.value) ++ (e.value ++ encode_entries entries)),
  length-append (append_uvarint (length e.value)) (e.value ++ encode_entries entries),
  length-append e.value (encode_entries entries),
)

-- A child whose count and key length fit in 64 bits and whose hash is as `EncodeToString` writes it.
pub record IsLink (c : Link) : Type 0 where
  pub key_fits : length c.max_key < 2 ^ 64
  pub count_fits : c.count < 2 ^ 64
  pub hash_length : length c.hash ≡ 64
  pub hash_digits : All IsLowerHex c.hash

-- What the encoding of a list of children is, with the raw hashes.
abbrev IsEncoded : List Link → Bytes → Type 0
IsEncoded children items =
    (encode_children children ≡ some items)
    × (read_items next_link (length children) items ≡ ok (children, []))
    × (2 * length children ≤ length items)

abbrev link_bytes : Link → Bytes → Bytes → Bytes
link_bytes c raw items =
    append_uvarint (length c.max_key) ++ (c.max_key ++ (append_uvarint c.count ++ (raw ++ items)))

next_link-append :
    (c : Link) (raw items : Bytes)
    → IsLink c
    → length raw ≡ 32
    → encode_hex raw ≡ c.hash
    → next_link (link_bytes c raw items) ≡ ok (c, items)
unfolding next_link next_link_raw
next_link-append c raw items h l e = rw (
  next_link,
  next_link_raw,
  field-append c.max_key (append_uvarint c.count ++ (raw ++ items)) h.key_fits,
  read_uvarint-append c.count (raw ++ items) h.count_fits,
  sym l,
  not_short raw items,
  take-append raw items,
  drop-append raw items,
  e,
)

longer_link :
    (c : Link) (raw items : Bytes) (n : ℕ)
    → length raw ≡ 32
    → 2 * n ≤ length items
    → 2 * suc n ≤ length (link_bytes c raw items)
longer_link c raw items n l h = omega (
  arith,
  length-append (append_uvarint (length c.max_key))
      (c.max_key ++ (append_uvarint c.count ++ (raw ++ items))),
  length-append c.max_key (append_uvarint c.count ++ (raw ++ items)),
  length-append (append_uvarint c.count) (raw ++ items),
  length-append raw items,
)

children_lem :
    (children : List Link) → All IsLink children → (items : Bytes) × IsEncoded children items
unfolding encode_children read_items
children_lem [] h = ([], (unfold encode_children in refl, unfold read_items in refl, omega arith))
children_lem (c ∷ children) h =
    let (raw, er, l, back) =
      encode_hex-decode_hex 32 c.hash (omega (arith, h.0.hash_length)) h.0.hash_digits in
    let (items, (ei, ri, li)) = children_lem children h.1 in
    (
      link_bytes c raw items,
      (
        rw (encode_children, er, ei, l),
        rw (read_items, next_link-append c raw items h.0 l back, ri),
        longer_link c raw items (length children) l li,
      ),
    )

-- The header of a node with enough bytes for its items.
after_header : ℕ → Bytes → Result Node
after_header level input = and_then (read_uvarint input) (λ (count, items).
    if ltb (length items / 2) count then failed truncated else decode level count items)

decode_node-header :
    (level : ℕ) (input : Bytes)
    → 1 ≤ length input
    → decode_node (b'P' ∷ 1 ∷ level ∷ input) ≡ after_header level input
unfolding decode_node after_header
decode_node-header level [] h = absurd (omega arith)
decode_node-header level (b ∷ input) h = refl

decode_node-with_header :
    (level count : ℕ) (items : Bytes)
    → count < 2 ^ 64
    → 2 * count ≤ length items
    → decode_node (b'P' ∷ 1 ∷ level ∷ (append_uvarint count ++ items)) ≡ decode level count items
unfolding after_header
decode_node-with_header level count items h l =
    decode_node-header level (append_uvarint count ++ items)
      (omega (arith, length-append (append_uvarint count) items, length-append_uvarint count))
    ∙ rw (after_header, read_uvarint-append count items h, enough) refl
  where
    enough : ltb (length items / 2) count ≡ false
    enough = ground arith

-- What `encodeNode` can write: a leaf has no children, an inner node no entries, and every number
-- fits in its 64 bits.
pub record IsNode (n : Node) : Type 0 where
  pub entries_fit : All IsEntry n.entries
  pub children_fit : All IsLink n.children
  pub counts_fit : (length n.entries < 2 ^ 64) × (length n.children < 2 ^ 64)
  pub leaf : n.level ≡ 0 → n.children ≡ []
  pub inner : n.level ≢ 0 → n.entries ≡ []

-- The node, encoded and decoded.
abbrev RoundTrip : Node → Type 0
RoundTrip n = (bytes : Bytes) × (encode_node n ≡ some bytes) × (decode_node bytes ≡ ok n)

leaf_lem :
    (level : ℕ) (entries : List Entry) (children : List Link)
    → (level == 0) ≡ true
    → children ≡ []
    → length entries < 2 ^ 64
    → All IsEntry entries
    → RoundTrip (record { level = level; entries = entries; children = children })
unfolding encode_node decode
leaf_lem level entries children e c f h = rw c (
  _,
  rw (encode_node, e),
  decode_node-with_header level (length entries) (encode_entries entries) f
        (length-encode_entries entries)
      ∙ rw (decode, e, entries_lem entries h),
)

inner_lem :
    (level : ℕ) (entries : List Entry) (children : List Link)
    → (level == 0) ≡ false
    → entries ≡ []
    → length children < 2 ^ 64
    → All IsLink children
    → RoundTrip (record { level = level; entries = entries; children = children })
unfolding encode_node decode
inner_lem level entries children e c f h =
    let (items, (ei, ri, li)) = children_lem children h in
    rw c (
      _,
      rw (encode_node, e, ei),
      decode_node-with_header level (length children) items f li ∙ rw (decode, e, ri),
    )

-- A node is encoded without an error, and decoding its bytes returns the node, where keys, values,
-- numbers of items and counts fit in 64 bits, hashes are 64 lower-case digits, a leaf (level 0) has
-- no children, and a node of another level no entries.
pub decode_node-encode_node :
    (n : Node)
    → IsNode n
    → (bytes : Bytes) × (encode_node n ≡ some bytes) × (decode_node bytes ≡ ok n)
decode_node-encode_node n h = elim (Bool-cases (n.level == 0)) [
  | inl t ↦
      leaf_lem n.level n.entries n.children t (h.leaf (ground (arith, t))) h.counts_fit.0
        h.entries_fit
  | inr f ↦
      inner_lem n.level n.entries n.children f (h.inner (λ e. ground (arith, f, e))) h.counts_fit.1
        h.children_fit
]
