-- ===== src/Prolly/Chunk.antt =====
-- The chunking of common/prolly/tree.go: where a node ends, from the keys alone.
pub mod Groups
pub mod Sizes
use Prim.Native.Nat.{bit_xor}
use repodb.Base.{
  ℕ, zero, suc, ◌+◌, ◌-◌, ◌*◌, ◌/◌, ◌%◌, ◌^◌, Bool, true, false, List, [], ◌∷◌, ◌++◌, ◌&&◌, ◌||◌,
  ◌==◌, ltb, leb, if◌then◌else◌, length,
}
use repodb.Bytes.{Bytes}

-- `Options`
pub record Options : Type 0 where
  pub min_chunk_entries : ℕ
  pub max_chunk_entries : ℕ
  pub boundary_bits : ℕ

-- `DefaultOptions`
abbrev pub default_options : Options
default_options = record { min_chunk_entries = 64; max_chunk_entries = 256; boundary_bits = 6 }

-- `Options.validate`: whether it returns no error. The fields are `int`, which are not negative here.
unfoldable pub validate : Options → Bool
validate o =
    if ltb o.min_chunk_entries 1
      || (ltb o.max_chunk_entries 2 || ltb o.max_chunk_entries o.min_chunk_entries)
    then false
    else if ltb o.boundary_bits 1 || ltb 63 o.boundary_bits
    then false
    else true

-- `hash/fnv`'s `New64a`, written to byte by byte.
fnv64a : ℕ → Bytes → ℕ
fnv64a h [] = h
fnv64a h (b ∷ key) = fnv64a (bit_xor h b * 1099511628211 % 2 ^ 64) key

-- The finalizer in `keyBoundaryHash`.
abbrev finalize : ℕ → ℕ
finalize x =
    let y = bit_xor x (x / 2 ^ 30) * 0xbf58476d1ce4e5b9 % 2 ^ 64 in
    let z = bit_xor y (y / 2 ^ 27) * 0x94d049bb133111eb % 2 ^ 64 in bit_xor z (z / 2 ^ 31)

-- `keyBoundaryHash`
pub key_boundary_hash : Bytes → ℕ
key_boundary_hash key = finalize (fnv64a 14695981039346656037 key)

-- `shouldCut`: the mask keeps the low `boundary_bits` bits.
unfoldable pub should_cut : ℕ → ℕ → Options → Bool
should_cut size hash o =
    leb o.max_chunk_entries size
    || (leb o.min_chunk_entries size && (hash % 2 ^ o.boundary_bits == 0))

abbrev pub last_group {ℓ} : {A : Type ℓ} → List A → List (List A)
last_group [] = []
last_group (x ∷ group) = (x ∷ group) ∷ []

-- The loop of `chunk`, with the items of the group that is open, `slice(start, i)`.
unfoldable pub chunk_from {ℓ} : {A : Type ℓ} → Options → (A → ℕ) → List A → List A → List (List A)
chunk_from o hash group [] = last_group group
chunk_from o hash group (x ∷ xs) =
    let longer = group ++ x ∷ [] in
    let cut = chunk_from o hash [] xs in
    let more = chunk_from o hash longer xs in
    if should_cut (length longer) (hash x) o then longer ∷ cut else more

-- `chunk`
abbrev pub chunk {ℓ} : {A : Type ℓ} → Options → (A → ℕ) → List A → List (List A)
chunk o hash xs = chunk_from o hash [] xs
