-- ===== src/Storage/Memory/Examples.antt =====
-- A store with one object; a hash is here the first byte.
use repodb.Base.{◌≡◌, [], ◌∷◌}
use repodb.Bytes.{Bytes}
use repodb.Bytes.Assoc.{lookup}
use repodb.Storage.Memory.{new_memory, get, put, or_put, put_lem, IsNamed}

abbrev first_byte : Bytes → Bytes
first_byte [] = []
first_byte (b ∷ bytes) = b ∷ []

new_memory-IsNamed : IsNamed first_byte new_memory
unfolding get lookup
new_memory-IsNamed hash bytes q = cc

put_lem_example :
    ((put first_byte new_memory (7 ∷ 8 ∷ [])).0 ≡ first_byte (7 ∷ 8 ∷ []))
    × ((hash : Bytes)
        → get (put first_byte new_memory (7 ∷ 8 ∷ [])).1 hash
          ≡ or_put (first_byte (7 ∷ 8 ∷ [])) (7 ∷ 8 ∷ []) hash (get new_memory hash))
    × IsNamed first_byte (put first_byte new_memory (7 ∷ 8 ∷ [])).1
put_lem_example = put_lem first_byte new_memory (7 ∷ 8 ∷ []) new_memory-IsNamed
