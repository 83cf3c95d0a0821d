-- ===== src/Engine/KeyCodec.antt =====
-- engine/keycodec.go: order-preserving keys.
pub mod Escape
pub mod Column
mod Examples
use repodb.Base.{
  ℕ, zero, suc, ◌+◌, ◌-◌, ◌%◌, ◌^◌, Bool, true, false, Option, none, some, List, [], ◌∷◌, ◌++◌,
  ◌==◌, ltb, if◌then◌else◌,
}
use repodb.Bytes.{Bytes}

-- The loop of `appendEscaped`, without the terminator.
pub escape : Bytes → Bytes
escape [] = []
escape (c ∷ b) = if c == 0 then 0x00 ∷ 0xFF ∷ escape b else c ∷ escape b

-- `appendEscaped`
pub append_escaped : Bytes → Bytes → Bytes
append_escaped dst b = (dst ++ escape b) ++ (0x00 ∷ 0x01 ∷ [])

-- `keyPrefixEnd`: the last byte that is not 0xFF is raised, and what follows it is cut off.
pub key_prefix_end : Bytes → Option Bytes
key_prefix_end [] = none
key_prefix_end (x ∷ prefix) = elim (key_prefix_end prefix) [
  | some end ↦ some (x ∷ end)
  | none ↦ if x == 0xFF then none else some ((x + 1) ∷ [])
]
