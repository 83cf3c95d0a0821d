-- ===== src/Prolly/Codec/Examples.antt =====
-- A leaf and an inner node, with their bytes.
use repodb.Base.{ℕ, zero, suc, ◌≡◌, refl, some, [], ◌∷◌, arith, All}
use repodb.Bytes.{Bytes}
use repodb.Prolly.Varint.{append_groups, uvarint_from}
use repodb.Prolly.Hex.{IsLowerHex}
use repodb.Prolly.Codec.{
  Link, Node, encode_node, encode_entries, decode_node, decode, read_items, read_uvarint, field,
  next_entry, ok, failed, truncated, unsupported_version,
}
use repodb.Prolly.Codec.RoundTrip.{IsNode, IsLink, decode_node-encode_node}

abbrev leaf : Node
leaf = record {
  level = 0;
  entries = record { key = 5 ∷ []; value = 6 ∷ 7 ∷ [] } ∷ [];
  children = [];
}

leaf_bytes : encode_node leaf ≡ some (b'P' ∷ 1 ∷ 0 ∷ 1 ∷ 1 ∷ 5 ∷ 2 ∷ 6 ∷ 7 ∷ [])
unfolding encode_node encode_entries append_groups
leaf_bytes = refl

-- The last byte is missing.
cut_leaf : decode_node (b'P' ∷ 1 ∷ 0 ∷ 1 ∷ 1 ∷ 5 ∷ 2 ∷ 6 ∷ []) ≡ failed truncated
unfolding decode_node decode read_items read_uvarint field next_entry uvarint_from
cut_leaf = refl

newer_version : decode_node (b'P' ∷ 2 ∷ 0 ∷ 0 ∷ []) ≡ failed (unsupported_version 2)
unfolding decode_node
newer_version = refl

abbrev repeated : ℕ → ℕ → Bytes
repeated zero c = []
repeated (suc n) c = c ∷ repeated n c

abbrev child : Link
child = record { max_key = 9 ∷ []; count = 300; hash = repeated 64 b'a' }

abbrev inner : Node
inner = record { level = 1; entries = []; children = child ∷ [] }

child-IsLink : IsLink child
child-IsLink = record {
  key_fits = omega arith;
  count_fits = omega arith;
  hash_length = refl;
  hash_digits = all 64;
}
  where
    all : (n : ℕ) → All IsLowerHex (repeated n b'a')
    all zero = tt
    all (suc n) = (refl, all n)

inner-IsNode : IsNode inner
inner-IsNode = record {
  entries_fit = tt;
  children_fit = (child-IsLink, tt);
  counts_fit = (omega arith, omega arith);
  leaf = λ e. absurd (omega arith);
  inner = λ h. refl;
}

decode_node-encode_node_example :
    (bytes : Bytes) × (encode_node inner ≡ some bytes) × (decode_node bytes ≡ ok inner)
decode_node-encode_node_example = decode_node-encode_node inner inner-IsNode
