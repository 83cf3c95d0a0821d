-- ===== src/Engine/Ranges.antt =====
-- engine/ranges.go: intervals of keys, and how a scan visits them.
pub mod Cuts
pub mod Keys
pub mod Merge
pub mod Examples
use repodb.Base.{Bool, true, false, Option, none, some, List, ◌&&◌, if◌then◌else◌}
use mathlib.Core.List.{reverse}
use repodb.Bytes.{Bytes, below, at_least}
use repodb.Engine.KeyCodec.Escape.{before_end}

-- `keyInterval`: an end that is nil is `none`.
pub record KeyInterval : Type 0 where
  pub start : Bytes
  pub end : Option Bytes

-- `keyInterval.empty` and `keyInterval.contains`
abbrev pub is_empty_interval : KeyInterval → Bool
is_empty_interval iv = elim iv.end [ none ↦ false | some end ↦ at_least iv.start end ]

abbrev pub contains : KeyInterval → Bytes → Bool
contains iv key = at_least key iv.start && before_end iv.end key

-- `scanOrder`
abbrev pub scan_order : List KeyInterval → Bool → List KeyInterval
scan_order intervals backwards = if backwards then reverse intervals else intervals

-- `before`
abbrev pub before : Bytes → Bytes → Bool → Bool
before a b backwards = if backwards then below b a else below a b
