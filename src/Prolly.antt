-- ===== src/Prolly.antt =====
-- common/prolly: the content-addressed tree. Its items.
pub mod Varint
pub mod Hex
pub mod Codec
pub mod Chunk
pub mod Tree
use repodb.Base.{Bool}
use repodb.Bytes.{Bytes}

-- `Entry` of common/prolly/tree.go
pub record Entry : Type 0 where
  pub key : Bytes
  pub value : Bytes

abbrev pub entry_key : Entry → Bytes
entry_key e = e.key

-- `Edit` of common/prolly/tree.go
pub record Edit : Type 0 where
  pub key : Bytes
  pub value : Bytes
  pub delete : Bool
