-- ===== src/Prolly/Codec.antt =====
-- common/prolly/codec.go: nodes as bytes. A reader keeps what it has not read, `data[pos:]`, in place
-- of the data and the position. Errors leave out the hash of the node, which is for messages only.
pub mod RoundTrip
mod Examples
use repodb.Base.{
  ℕ, zero, suc, ◌+◌, ◌/◌, ◌==◌, Bool, true, false, Option, none, some, List, [], ◌∷◌, ◌++◌, ltb,
  if◌then◌else◌, length, take, drop,
}
use repodb.Bytes.{Bytes}
use repodb.Prolly.{Entry}
use repodb.Prolly.Varint.{append_uvarint, uvarint}
use repodb.Prolly.Hex.{encode_hex, decode_hex}

-- `link`; `hash` is a `storage.Hash`.
pub record Link : Type 0 where
  pub max_key : Bytes
  pub count : ℕ
  pub hash : Bytes

-- `node`
pub record Node : Type 0 where
  pub level : ℕ
  pub entries : List Entry
  pub children : List Link

unfoldable pub encode_entries : List Entry → Bytes
encode_entries [] = []
encode_entries (e ∷ entries) =
    append_uvarint (length e.key)
    ++ (e.key ++ (append_uvarint (length e.value) ++ (e.value ++ encode_entries entries)))

abbrev pub encode_link : Link → Option Bytes → Option Bytes → Option Bytes
encode_link c none rest = none
encode_link c (some raw) none = none
encode_link c (some raw) (some rest) =
    if length raw == 32
    then some (
        append_uvarint (length c.max_key)
        ++ (c.max_key ++ (append_uvarint c.count ++ (raw ++ rest))))
    else none

pub encode_children : List Link → Option Bytes
encode_children [] = some []
encode_children (c ∷ children) = encode_link c (decode_hex c.hash) (encode_children children)

abbrev pub with_header : ℕ → ℕ → Option Bytes → Option Bytes
with_header level count none = none
with_header level count (some items) = some (b'P' ∷ 1 ∷ level ∷ (append_uvarint count ++ items))

-- `encodeNode`: `none` for an invalid child hash.
unfoldable pub encode_node : Node → Option Bytes
encode_node n =
    if n.level == 0
    then with_header n.level (length n.entries) (some (encode_entries n.entries))
    else with_header n.level (length n.children) (encode_children n.children)

pub data DecodeError : Type 0 where
  not_a_node truncated trailing : DecodeError
  unsupported_version : ℕ → DecodeError

pub data Result (A : Type 0) : Type 0 where
  failed : DecodeError → Result A
  ok : A → Result A

-- `if err != nil { return ..., err }`
abbrev pub and_then : {A B : Type 0} → Result A → (A → Result B) → Result B
and_then (failed e) f = failed e
and_then (ok a) f = f a

-- `nodeReader.uvarint`
unfoldable pub read_uvarint : Bytes → Result (ℕ × Bytes)
read_uvarint input = elim (uvarint input) [ none ↦ failed truncated | some r ↦ ok r ]

-- `nodeReader.field`
unfoldable pub field : Bytes → Result (Bytes × Bytes)
field input =
    and_then (read_uvarint input)
      (λ r. if ltb (length r.1) r.0 then failed truncated else ok (take r.0 r.1, drop r.0 r.1))

-- `nodeReader.nextEntry`
unfoldable pub next_entry : Bytes → Result (Entry × Bytes)
next_entry input =
    and_then (field input)
      (λ k. and_then (field k.1) (λ v. ok (record { key = k.0; value = v.0 }, v.1)))

-- `nodeReader.nextLinkRaw`, with the hash raw.
pub next_link_raw : Bytes → Result ((Bytes × ℕ × Bytes) × Bytes)
next_link_raw input = and_then (field input) (λ k. and_then (read_uvarint k.1) (λ c.
    if ltb (length c.1) 32 then failed truncated else ok ((k.0, c.0, take 32 c.1), drop 32 c.1)))

-- `nodeReader.nextLink`
pub next_link : Bytes → Result (Link × Bytes)
next_link input = and_then (next_link_raw input) (λ ((k, count, raw), rest).
    ok (record { max_key = k; count = count; hash = encode_hex raw }, rest))

-- `for r.remaining > 0 { ... }`: as many items as the header announces.
unfoldable pub read_items :
    {A : Type 0} → (Bytes → Result (A × Bytes)) → ℕ → Bytes → Result (List A × Bytes)
read_items next zero input = ok ([], input)
read_items next (suc remaining) input =
    and_then (next input) (λ item.
      and_then (read_items next remaining item.1) (λ items. ok (item.0 ∷ items.0, items.1)))

-- `nodeReader.finish`, after every item was read.
abbrev pub finish : {A : Type 0} → A → Bytes → Result A
finish a [] = ok a
finish a (b ∷ rest) = failed trailing

-- `nodeReader.decode`
unfoldable pub decode : ℕ → ℕ → Bytes → Result Node
decode level remaining input =
    if level == 0
    then and_then (read_items next_entry remaining input) (λ (entries, rest).
      finish (record { level = level; entries = entries; children = [] }) rest)
    else and_then (read_items next_link remaining input) (λ (children, rest).
      finish (record { level = level; entries = []; children = children }) rest)

-- `newNodeReader` and `decode`; a node has at least four bytes.
unfoldable pub decode_node : Bytes → Result Node
decode_node (magic ∷ version ∷ level ∷ b ∷ rest) =
    if magic == b'P'
    then (if version == 1
        then and_then (read_uvarint (b ∷ rest)) (λ (count, items).
          -- Every item takes at least two bytes.
          if ltb (length items / 2) count then failed truncated else decode level count items)
        else failed (unsupported_version version))
    else failed not_a_node
decode_node input = failed not_a_node
