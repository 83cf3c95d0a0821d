-- ===== src/Engine/MergeRows/Cursors.antt =====
-- The cursors of the row merge: the cell of each key before and after a round, and the least key.
use repodb.Base.{
  ◌+◌, ◌≤◌, ◌<◌, ◌≡◌, ◌≢◌, refl, Ordering, Option, none, some, List, [], ◌∷◌, arith, if◌then◌else◌,
  length, Bool-cases, inl, inr, ◌⊎◌,
}
use repodb.Bytes.{Bytes, compare_bytes, equal_bytes, below}
use repodb.Bytes.Order.{compare_bytes_refl, eq_of_compare, lt_trans, gt_of_lt, lt_of_gt}
use repodb.Bytes.Sorted.{Above, Sorted, find, find-Above, Above-weaken}
use repodb.Prolly.{Entry, entry_key}
use repodb.Engine.MergeRows.{Cell, least_key, cell_at, behind}

-- The cell of a key in a sorted list of entries.
abbrev pub cell_of : Option Entry → Cell
cell_of none = none
cell_of (some e) = some e.value

abbrev pub cell : Bytes → List Entry → Cell
cell k xs = cell_of (find entry_key k xs)

-- No entry is below the key.
abbrev pub From : Bytes → List Entry → Type 0
From k [] = Unit
From k (e ∷ xs) = compare_bytes e.key k ≢ Ordering.lt

pub cell-behind :
    (k j : Bytes) (xs : List Entry)
    → Sorted entry_key xs
    → From k xs
    → cell j xs ≡ (if equal_bytes k j then cell_at k xs else cell j (behind k xs))
unfolding find
cell-behind k j [] s f = ground arith
cell-behind k j (e ∷ xs) s f = ground (
  arith,
  eq_of_compare e.key k,
  eq_of_compare e.key j,
  eq_of_compare k j,
  compare_bytes_refl j,
  lt_of_gt e.key k,
  find-Above entry_key e.key j xs s.0,
  gt_of_lt j e.key,
  f,
)

pub behind-Sorted :
    (k : Bytes) (xs : List Entry) → Sorted entry_key xs → Sorted entry_key (behind k xs)
behind-Sorted k [] s = tt
behind-Sorted k (e ∷ xs) s = ground (arith, s.1)

pub behind-Above :
    (k : Bytes) (xs : List Entry)
    → Sorted entry_key xs
    → From k xs
    → Above entry_key k (behind k xs)
behind-Above k [] s f = tt
behind-Above k (e ∷ xs) s f = elim (Bool-cases (equal_bytes e.key k)) [
  | inl t ↦ rw t (
      Above-weaken entry_key k e.key xs
        (ground (arith, eq_of_compare e.key k, compare_bytes_refl k)) s.0)
  | inr t ↦ rw t (
      let lt : compare_bytes k e.key ≡ Ordering.lt = ground (arith, lt_of_gt e.key k, f) in
      (lt, Above-weaken entry_key k e.key xs (λ h. cc) s.0))
]

pub length-behind : (k : Bytes) (xs : List Entry) → length (behind k xs) ≤ length xs
length-behind k [] = omega arith
length-behind k (e ∷ xs) = ground arith

pub length-behind_cell :
    (k : Bytes) (xs : List Entry) → cell_at k xs ≢ none → length (behind k xs) < length xs
length-behind_cell k [] h = absurd (h refl)
length-behind_cell k (e ∷ xs) h = ground (arith, h)

abbrev pub OptionFrom : Bytes → Option Bytes → Type 0
OptionFrom k none = Unit
OptionFrom k (some j) = compare_bytes j k ≢ Ordering.lt

-- What the least key is not below is below no cursor.
least-From :
    (o : Option Bytes) (k : Bytes) (xs : List Entry)
    → OptionFrom k (least_key o xs)
    → From k xs × OptionFrom k o
least-From none k [] h = (tt, tt)
least-From (some i) k [] h = (tt, h)
least-From none k (e ∷ xs) h = (h, tt)
least-From (some i) k (e ∷ xs) h = elim (Bool-cases (below e.key i)) [
  | inl t ↦
      let f : compare_bytes e.key k ≢ Ordering.lt = rw t at h in
      (f, ground (arith, t, f, lt_trans e.key i k))
  | inr t ↦
      let f : compare_bytes i k ≢ Ordering.lt = rw t at h in
      (ground (arith, t, f, lt_of_gt e.key i, lt_trans i e.key k, eq_of_compare e.key i), f)
]

least_present :
    (o : Option Bytes) (k : Bytes) (xs : List Entry)
    → least_key o xs ≡ some k
    → (o ≡ some k) ⊎ (cell_at k xs ≢ none)
least_present none k [] h = absurd (cc h)
least_present (some i) k [] h = inl h
least_present none k (e ∷ xs) h = inr (ground (arith, h, compare_bytes_refl k))
least_present (some i) k (e ∷ xs) h = elim (Bool-cases (below e.key i)) [
  | inl t ↦ inr (ground (arith, h, t, compare_bytes_refl k))
  | inr t ↦ inl (ground (arith, h, t))
]

present_lower :
    (j k : Bytes) (xs : List Entry)
    → cell_at k xs ≢ none
    → Above entry_key j xs
    → compare_bytes j k ≡ Ordering.lt
present_lower j k [] h a = absurd (h refl)
present_lower j k (e ∷ xs) h a = ground (arith, h, a.0, eq_of_compare e.key k)

pub behind-Above_of :
    (j k : Bytes) (xs : List Entry) → Above entry_key j xs → Above entry_key j (behind k xs)
behind-Above_of j k [] a = tt
behind-Above_of j k (e ∷ xs) a = ground (arith, a.0, a.1)

pub least_none :
    (o : Option Bytes) (xs : List Entry) → least_key o xs ≡ none → (o ≡ none) × (xs ≡ [])
least_none none [] h = (refl, refl)
least_none (some i) [] h = cc
least_none none (e ∷ xs) h = cc
least_none (some i) (e ∷ xs) h = ground (arith, h)

-- One round: no cursor stands below the key, and one at least moves on.
pub record Round (k : Bytes) (b l r : List Entry) : Type 0 where
  pub base : From k b
  pub local : From k l
  pub remote : From k r
  pub lower :
      (j : Bytes)
      → Above entry_key j b
      → Above entry_key j l
      → Above entry_key j r
      → compare_bytes j k ≡ Ordering.lt
  pub progress :
      length (behind k b) + length (behind k l) + length (behind k r)
      < length b + length l + length r

module _ (b l r : List Entry) (k : Bytes)
    (h : least_key (least_key (least_key none b) l) r ≡ some k) where
  step_progress :
      length (behind k b) + length (behind k l) + length (behind k r)
      < length b + length l + length r
  step_progress = elim (least_present (least_key (least_key none b) l) k r h) [
    | inr p ↦ omega (arith, length-behind_cell k r p, length-behind k b, length-behind k l)
    | inl e ↦ elim (least_present (least_key none b) k l e) [
      | inr p ↦ omega (arith, length-behind_cell k l p, length-behind k b, length-behind k r)
      | inl e' ↦ elim (least_present none k b e') [
        | inr p ↦ omega (arith, length-behind_cell k b p, length-behind k l, length-behind k r)
        | inl e'' ↦ absurd (cc e'')
      ]
    ]
  ]

  step_lower :
      (j : Bytes)
      → Above entry_key j b
      → Above entry_key j l
      → Above entry_key j r
      → compare_bytes j k ≡ Ordering.lt
  step_lower j ab al ar = elim (least_present (least_key (least_key none b) l) k r h) [
    | inr p ↦ present_lower j k r p ar
    | inl e ↦ elim (least_present (least_key none b) k l e) [
      | inr p ↦ present_lower j k l p al
      | inl e' ↦ elim (least_present none k b e') [
        | inr p ↦ present_lower j k b p ab
        | inl e'' ↦ absurd (cc e'')
      ]
    ]
  ]

  pub least_key-Round : Round k b l r
  least_key-Round =
      let least : OptionFrom k (least_key (least_key (least_key none b) l) r) =
        rw h (λ e. cc (compare_bytes_refl k)) in
      let (fr, upper) = least-From (least_key (least_key none b) l) k r least in
      let (fl, lower) = least-From (least_key none b) k l upper in
      let (fb, _) = least-From none k b lower in
      record { base = fb; local = fl; remote = fr; lower = step_lower; progress = step_progress }
