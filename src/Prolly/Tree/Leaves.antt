-- ===== src/Prolly/Tree/Leaves.antt =====
-- The links of written leaves: their keys, and what the store gives back.
use repodb.Base.{
  ℕ, zero, suc, ◌≤◌, ◌<◌, ◌^◌, ◌≡◌, refl, sym, ap, ◌∙◌, Ordering, false, Option, none, some, List,
  [], ◌∷◌, ◌++◌, length-append, arith, length, take, drop, All,
}
use repodb.Bytes.{Bytes, compare_bytes, at_least}
use repodb.Bytes.Order.{lt_trans, lt_of_gt, gt_of_lt}
use repodb.Bytes.Sorted.{Above, Sorted}
use repodb.Prolly.{Entry, entry_key}
use repodb.Prolly.Codec.{Link}
use repodb.Prolly.Codec.RoundTrip.{IsEntry, IsNode, decode_node-encode_node}
use repodb.Prolly.Chunk.Groups.{concat}
use repodb.Prolly.Tree.{
  Outcome, success, failure, write_failed, bind, leaf_node, last_key, link_key, write_node,
  write_leaf, write_all, read_node,
}

-- Every group has an item.
abbrev pub NonEmpty : List (List Entry) → Type 0
NonEmpty groups = All (λ g. 1 ≤ length g) groups

-- The last key of a sorted list is above what is below the list, and below what follows it.
pub last_key-Above :
    (k : Bytes) (g : List Entry)
    → 1 ≤ length g
    → Above entry_key k g
    → compare_bytes k (last_key entry_key g) ≡ Ordering.lt
last_key-Above k [] n a = absurd (omega arith)
last_key-Above k (x ∷ []) n a = a.0
last_key-Above k (x ∷ y ∷ g) n a = last_key-Above k (y ∷ g) (omega arith) a.1

pub Above-left :
    (k : Bytes) (g later : List Entry)
    → Above entry_key k (g ++ later)
    → Above entry_key k g × Above entry_key k later
Above-left k [] later a = (tt, a)
Above-left k (x ∷ g) later a = let (b, c) = Above-left k g later a.1 in ((a.0, b), c)

Sorted-right : (g later : List Entry) → Sorted entry_key (g ++ later) → Sorted entry_key later
Sorted-right [] later s = s
Sorted-right (x ∷ g) later s = Sorted-right g later s.1

last_key-below :
    (g later : List Entry)
    → 1 ≤ length g
    → Sorted entry_key (g ++ later)
    → Above entry_key (last_key entry_key g) later
last_key-below [] later n s = absurd (omega arith)
last_key-below (x ∷ []) later n s = s.0
last_key-below (x ∷ y ∷ g) later n s = last_key-below (y ∷ g) later (omega arith) s.1

All-append : {A : Type 0} (P : A → Type 0) (xs ys : List A) → All P xs → All P ys → All P (xs ++ ys)
All-append P [] ys p q = q
All-append P (x ∷ xs) ys p q = (p.0, All-append P xs ys p.1 q)

-- Nothing in a sorted group is above its last key.
pub below_last :
    (k : Bytes) (g later : List Entry)
    → Sorted entry_key (g ++ later)
    → at_least (last_key entry_key g) k ≡ false
    → All (λ x. compare_bytes k x.key ≡ Ordering.gt) g
below_last k [] later s h = tt
below_last k (x ∷ []) later s h = (ground (arith, h, gt_of_lt x.key k), tt)
below_last k (x ∷ y ∷ g) later s h =
    let rest = below_last k (y ∷ g) later s.1 h in
    (
      ground (arith, rest.0, s.0.0, gt_of_lt x.key k, lt_of_gt k y.key, lt_trans x.key y.key k),
      rest,
    )

pub bind_success :
    {A B : Type 0} (m : Outcome A) (f : A → Outcome B) (b : B)
    → bind m f ≡ success b
    → (a : A) × (m ≡ success a) × (f a ≡ success b)
bind_success (failure e) f b h = cc
bind_success (success a) f b h = (a, refl, h)

pub success_injective : {A : Type 0} (a b : A) → success a ≡ success b → a ≡ b
success_injective a b e = cc

pub bind-success : {A : Type 0} (m : Outcome A) → m ≡ bind m (λ a. success a)
bind-success (failure e) = refl
bind-success (success a) = refl

bind-map :
    (m : Outcome (List Link)) (l : Link) (behind : List Link)
    → bind (bind m (λ links. success (behind ++ links))) (λ links. success (l ∷ links))
      ≡ bind m (λ links. success (l ∷ (behind ++ links)))
bind-map (failure e) l behind = refl
bind-map (success links) l behind = refl

module _ (put : Bytes → Option Bytes) where
  pub cons_written :
      {A : Type 0} (write : List A → Outcome Link) (g : List A) (groups : List (List A))
      (leaves : List Link)
      → write_all put write (g ∷ groups) ≡ success leaves
      → (l : Link) × (behind : List Link) × (write g ≡ success l)
        × (write_all put write groups ≡ success behind)
        × (l ∷ behind ≡ leaves)
  unfolding write_all
  cons_written write g groups leaves e =
      let (l, el, h) = bind_success (write g) _ leaves e in
      let (behind, eb, h') = bind_success (write_all put write groups) _ leaves h in
      (l, behind, el, eb, success_injective (l ∷ behind) leaves h')

  pub write_leaf_lem :
      (g : List Entry) (l : Link)
      → write_leaf put g ≡ success l
      → (write_node put (leaf_node g) ≡ success l.hash) × (l.max_key ≡ last_key entry_key g)
  unfolding write_leaf
  write_leaf_lem g l e =
      let (hash, eh, h) = bind_success (write_node put (leaf_node g)) _ l e in
      let same = success_injective _ l h in
      (eh ∙ ap (λ k. success k.hash) same, sym (ap link_key same))

  leaves-Above :
      (k : Bytes) (groups : List (List Entry)) (leaves : List Link)
      → NonEmpty groups
      → Above entry_key k (concat groups)
      → write_all put (write_leaf put) groups ≡ success leaves
      → Above link_key k leaves
  unfolding write_all
  leaves-Above k [] leaves n a e = rw (sym (success_injective [] leaves e)) tt
  leaves-Above k (g ∷ groups) leaves n a e =
      let (l, behind, el, eb, same) = cons_written (write_leaf put) g groups leaves e in
      let (ag, al) = Above-left k g (concat groups) a in
      rw (sym same) (
        rw ((write_leaf_lem g l el).1) (last_key-Above k g n.0 ag),
        leaves-Above k groups behind n.1 al eb,
      )

  -- The links of the leaves of sorted entries are sorted.
  pub leaves-Sorted :
      (groups : List (List Entry)) (leaves : List Link)
      → NonEmpty groups
      → Sorted entry_key (concat groups)
      → write_all put (write_leaf put) groups ≡ success leaves
      → Sorted link_key leaves
  unfolding write_all
  leaves-Sorted [] leaves n s e = rw (sym (success_injective [] leaves e)) tt
  leaves-Sorted (g ∷ groups) leaves n s e =
      let (l, behind, el, eb, same) = cons_written (write_leaf put) g groups leaves e in
      rw (sym same) (
        rw ((write_leaf_lem g l el).1) (
            leaves-Above (last_key entry_key g) groups behind n.1
              (last_key-below g (concat groups) n.0 s) eb),
        leaves-Sorted groups behind n.1 (Sorted-right g (concat groups) s) eb,
      )

  -- Before a leaf whose key is not below the first edit's, all entries are below it.
  pub entries_before :
      (k : Bytes) (i : ℕ) (groups : List (List Entry)) (leaves : List Link)
      → Sorted entry_key (concat groups)
      → write_all put (write_leaf put) groups ≡ success leaves
      → All (λ l. at_least l.max_key k ≡ false) (take i leaves)
      → All (λ x. compare_bytes k x.key ≡ Ordering.gt) (concat (take i groups))
  entries_before k zero groups leaves s e h = tt
  entries_before k (suc i) [] leaves s e h = tt
  entries_before k (suc i) (g ∷ groups) leaves s e h =
      let (l, behind, el, eb, same) = cons_written (write_leaf put) g groups leaves e in
      let h' = rw (sym same) at h in
      All-append _ g (concat (take i groups))
        (below_last k g (concat groups) s (rw (write_leaf_lem g l el).1 at h'.0))
        (entries_before k i groups behind (Sorted-right g (concat groups) s) eb h'.1)

  length-written :
      (groups : List (List Entry)) (leaves : List Link)
      → write_all put (write_leaf put) groups ≡ success leaves
      → length groups ≡ length leaves
  unfolding write_all
  length-written [] leaves e = ap length (success_injective [] leaves e)
  length-written (g ∷ groups) leaves e =
      let (l, behind, el, eb, same) = cons_written (write_leaf put) g groups leaves e in
      ap suc (length-written groups behind eb) ∙ ap length same

  pub write-take :
      (i : ℕ) (groups : List (List Entry)) (leaves : List Link)
      → write_all put (write_leaf put) groups ≡ success leaves
      → (write_all put (write_leaf put) (take i groups) ≡ success (take i leaves))
        × (write_all put (write_leaf put) (drop i groups) ≡ success (drop i leaves))
        × (length groups ≡ length leaves)
  unfolding write_all
  write-take zero groups leaves e = (refl, e, length-written groups leaves e)
  write-take (suc i) [] leaves e = rw (sym (success_injective [] leaves e)) (refl, refl, refl)
  write-take (suc i) (g ∷ groups) leaves e =
      let (l, behind, el, eb, same) = cons_written (write_leaf put) g groups leaves e in
      let (taken, dropped, same_length) = write-take i groups behind eb in
      rw (sym same) (rw (el, taken) refl, dropped, ap suc same_length)

  -- What is written before more groups.
  pub write-append :
      (before later : List (List Entry)) (leaves : List Link)
      → write_all put (write_leaf put) before ≡ success leaves
      → write_all put (write_leaf put) (before ++ later)
        ≡ bind (write_all put (write_leaf put) later) (λ links. success (leaves ++ links))
  unfolding write_all
  write-append [] later leaves e =
      rw (sym (success_injective [] leaves e)) (bind-success (write_all put (write_leaf put) later))
  write-append (g ∷ groups) later leaves e =
      let (l, behind, el, eb, same) = cons_written (write_leaf put) g groups leaves e in
      rw (sym same, el, write-append groups later behind eb)
        (bind-map (write_all put (write_leaf put) later) l behind)

-- A leaf that the codec can hold.
abbrev pub IsLeaf : List Entry → Type 0
IsLeaf g = All IsEntry g × (length g < 2 ^ 64)

All-parts : {A : Type 0} (P : A → Type 0) (xs ys : List A) → All P (xs ++ ys) → All P xs × All P ys
All-parts P [] ys h = (tt, h)
All-parts P (x ∷ xs) ys h = let (a, b) = All-parts P xs ys h.1 in ((h.0, a), b)

pub IsLeaf-groups :
    (groups : List (List Entry))
    → All IsEntry (concat groups)
    → length (concat groups) < 2 ^ 64
    → All IsLeaf groups
IsLeaf-groups [] h l = tt
IsLeaf-groups (g ∷ groups) h l =
    let (a, b) = All-parts IsEntry g (concat groups) h in
    let total = length-append g (concat groups) in
    ((a, omega (arith, total)), IsLeaf-groups groups b (omega (arith, total)))

IsNode-leaf : (g : List Entry) → IsLeaf g → IsNode (leaf_node g)
IsNode-leaf g h = record {
  entries_fit = h.0;
  children_fit = tt;
  counts_fit = (h.1, omega arith);
  leaf = λ e. refl;
  inner = λ e. absurd (e refl);
}

-- What a store must promise: a hash that it gave out finds the stored bytes.
abbrev pub Keeps : (Bytes → Option Bytes) → (Bytes → Option Bytes) → Type 0
Keeps put get = (bytes hash : Bytes) → put bytes ≡ some hash → get hash ≡ some bytes

put-success :
    (answer : Option Bytes) (hash : Bytes)
    → elim answer as (λ _. Outcome Bytes) [ none ↦ failure write_failed | some h ↦ success h ]
      ≡ success hash
    → answer ≡ some hash
put-success none hash e = cc
put-success (some h) hash e = ap some (success_injective h hash e)

module _ (put get : Bytes → Option Bytes) (keeps : Keeps put get) where
  -- A written leaf is read back.
  pub read_node-write_leaf :
      (g : List Entry) (l : Link)
      → IsLeaf g
      → write_leaf put g ≡ success l
      → read_node get l.hash ≡ success (leaf_node g)
  unfolding write_node read_node
  read_node-write_leaf g l h e =
      let (bytes, encoded, decoded) = decode_node-encode_node (leaf_node g) (IsNode-leaf g h) in
      let stored =
        put-success (put bytes) l.hash (rw (write_node, encoded) at (write_leaf_lem put g l e).0) in
      rw (read_node, keeps bytes l.hash stored, decoded) refl
