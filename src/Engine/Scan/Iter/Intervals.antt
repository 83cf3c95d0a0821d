-- ===== src/Engine/Scan/Iter/Intervals.antt =====
-- Intervals that are apart, in the order in which a scan visits them.
use repodb.Base.{
  ◌≡◌, refl, ◌∙◌, Bool, true, false, Option, none, some, List, [], ◌∷◌, ◌||◌, arith, All,
}
use mathlib.Core.List.{reverse_aux}
use repodb.Bytes.{Bytes, below, at_least}
use repodb.Bytes.Order.{lt_trans, lt_of_gt, eq_of_compare}
use repodb.Engine.Ranges.{KeyInterval, is_empty_interval, contains, scan_order, before}
use repodb.Engine.Ranges.Merge.{is_past}
use repodb.Engine.Ranges.Merge.Apart.{AreApart, StartsPast}
use repodb.Engine.Ranges.Merge.Cover.{contains_any}

-- The keys of one interval come before those of another.
abbrev pub IsAhead : Bool → KeyInterval → KeyInterval → Type 0
IsAhead backwards iv jv =
    (a b : Bytes) → contains iv a ≡ true → contains jv b ≡ true → before a b backwards ≡ true

abbrev pub AreInOrder : Bool → List KeyInterval → Type 0
AreInOrder backwards [] = Unit {0}
AreInOrder backwards (iv ∷ intervals) =
    All (IsAhead backwards iv) intervals × AreInOrder backwards intervals

ends_before :
    (s t a b : Bytes) (e f : Option Bytes)
    → is_past e t ≡ true
    → contains (record { start = s; end = e }) a ≡ true
    → contains (record { start = t; end = f }) b ≡ true
    → below a b ≡ true
ends_before s t a b none f h p q = absurd (ground (arith, h))
ends_before s t a b (some e) f h p q =
    let under : below a e ≡ true = ground (arith, p) in
    let over : at_least b t ≡ true = ground (arith, q) in
    ground (arith, lt_trans a e t, lt_trans a t b, eq_of_compare b t, lt_of_gt b t, under, over, h)

past_trans :
    (e f : Option Bytes) (s t : Bytes)
    → is_past e s ≡ true
    → is_empty_interval (record { start = s; end = f }) ≡ false
    → is_past f t ≡ true
    → is_past e t ≡ true
past_trans none f s t h filled k = absurd (ground (arith, h))
past_trans (some e) none s t h filled k = absurd (ground (arith, k))
past_trans (some e) (some f) s t h filled k =
    ground (arith, lt_trans e s f, lt_trans e f t, filled, h, k)

past_on :
    (e f : Option Bytes) (s : Bytes) (intervals : List KeyInterval)
    → is_past e s ≡ true
    → is_empty_interval (record { start = s; end = f }) ≡ false
    → StartsPast f intervals
    → StartsPast e intervals
past_on e f s [] h filled k = tt
past_on e f s (jv ∷ intervals) h filled k = past_trans e f s jv.start h filled k

all-IsAhead :
    (s : Bytes) (e : Option Bytes) (intervals : List KeyInterval)
    → StartsPast e intervals
    → AreApart intervals
    → All (IsAhead false (record { start = s; end = e })) intervals
all-IsAhead s e [] h t = tt
all-IsAhead s e (iv ∷ intervals) h t = (
  (λ a b p q. ends_before s iv.start a b e iv.end h p q),
  all-IsAhead s e intervals (past_on e iv.end iv.start intervals h t.0 t.1) t.2,
)

ascending-AreInOrder :
    (intervals : List KeyInterval) → AreApart intervals → AreInOrder false intervals
ascending-AreInOrder [] t = tt
ascending-AreInOrder (iv ∷ intervals) t =
    (all-IsAhead iv.start iv.end intervals t.1 t.2, ascending-AreInOrder intervals t.2)

-- The other way around.
reverse_aux-AreInOrder :
    (xs ys : List KeyInterval)
    → AreInOrder false xs
    → All (λ iv. All (IsAhead true iv) ys) xs
    → AreInOrder true ys
    → AreInOrder true (reverse_aux xs ys)
reverse_aux-AreInOrder [] ys t u s = s
reverse_aux-AreInOrder (iv ∷ xs) ys t u s =
    reverse_aux-AreInOrder xs (iv ∷ ys) t.1 (behind xs t.0 u.1) (u.0, s)
  where
    behind :
        (zs : List KeyInterval)
        → All (IsAhead false iv) zs
        → All (λ jv. All (IsAhead true jv) ys) zs
        → All (λ jv. All (IsAhead true jv) (iv ∷ ys)) zs
    behind [] p q = tt
    behind (jv ∷ zs) p q = (((λ a b i j. p.0 b a j i), q.0), behind zs p.1 q.1)

nothing-IsAhead : (xs : List KeyInterval) → All (λ iv. All (IsAhead true iv) []) xs
nothing-IsAhead [] = tt
nothing-IsAhead (iv ∷ xs) = (tt, nothing-IsAhead xs)

pub scan_order-AreInOrder :
    (intervals : List KeyInterval) (backwards : Bool)
    → AreApart intervals
    → AreInOrder backwards (scan_order intervals backwards)
scan_order-AreInOrder intervals false t = ascending-AreInOrder intervals t
scan_order-AreInOrder intervals true t =
    reverse_aux-AreInOrder intervals [] (ascending-AreInOrder intervals t)
      (nothing-IsAhead intervals) tt

reverse_aux-contains_any :
    (xs ys : List KeyInterval) (key : Bytes)
    → contains_any (reverse_aux xs ys) key ≡ (contains_any xs key || contains_any ys key)
reverse_aux-contains_any [] ys key = refl
reverse_aux-contains_any (iv ∷ xs) ys key =
    reverse_aux-contains_any xs (iv ∷ ys) key
    ∙ or_swap (contains_any xs key) (contains iv key) (contains_any ys key)
  where
    or_swap : (p q r : Bool) → (p || (q || r)) ≡ ((q || p) || r)
    or_swap p q r = ground arith

pub scan_order-contains_any :
    (intervals : List KeyInterval) (backwards : Bool) (key : Bytes)
    → contains_any (scan_order intervals backwards) key ≡ contains_any intervals key
scan_order-contains_any intervals false key = refl
scan_order-contains_any intervals true key =
    reverse_aux-contains_any intervals [] key ∙ or_false (contains_any intervals key)
  where
    or_false : (p : Bool) → (p || false) ≡ p
    or_false p = ground arith
