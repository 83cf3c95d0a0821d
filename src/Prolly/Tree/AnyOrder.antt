-- ===== src/Prolly/Tree/AnyOrder.antt =====
-- `Build` on the same entries in another order.
use repodb.Base.{
  ◌≡◌, refl, sym, ap, Ordering, ◌⊎◌, inl, inr, true, Option, List, [], ◌∷◌, arith, if◌then◌else◌,
}
use mathlib.Core.Logic.{∥∥₁_elim}
use mathlib.Core.List.{Perm, Permᴰ}
use repodb.Bytes.{Bytes, compare_bytes}
use repodb.Bytes.Order.{
  compare_bytes_refl, eq_of_compare, lt_trans, gt_of_lt, lt_of_gt, Ordering-cases,
}
use repodb.Prolly.{Entry}
use repodb.Prolly.Chunk.{Options, validate}
use repodb.Prolly.Tree.{
  Outcome, failure, duplicate_key, invalid_options, sort_entries, insert_entry, has_duplicate,
  build_sorted, build,
}

-- The lists are the same, or both have a duplicate.
abbrev SameItems : List Entry → List Entry → Type 0
SameItems xs ys = (xs ≡ ys) ⊎ ((has_duplicate xs ≡ true) × (has_duplicate ys ≡ true))

duplicate_later :
    (x : Entry) (xs : List Entry) → has_duplicate xs ≡ true → has_duplicate (x ∷ xs) ≡ true
unfolding has_duplicate
duplicate_later x [] h = cc h
duplicate_later x (y ∷ xs) h = ground (arith, h)

insert_entry-duplicate :
    (e : Entry) (xs : List Entry)
    → has_duplicate xs ≡ true
    → has_duplicate (insert_entry e xs) ≡ true
unfolding has_duplicate
insert_entry-duplicate e [] h = cc h
insert_entry-duplicate e (x ∷ []) h = cc h
insert_entry-duplicate e (x ∷ y ∷ xs) h = ground (
  arith,
  h,
  insert_entry-duplicate e (y ∷ xs),
  duplicate_later x (insert_entry e (y ∷ xs)),
  eq_of_compare x.key y.key,
)

-- Equal keys end up side by side.
insert_entry-equal :
    (x y : Entry) (xs : List Entry)
    → x.key ≡ y.key
    → has_duplicate (insert_entry x (insert_entry y xs)) ≡ true
unfolding has_duplicate
insert_entry-equal x y [] e = ground (arith, e, compare_bytes_refl y.key)
insert_entry-equal x y (z ∷ xs) e = ground (
  arith,
  e,
  compare_bytes_refl y.key,
  insert_entry-equal x y xs e,
  duplicate_later z (insert_entry x (insert_entry y xs)),
)

insert_entry_comm :
    (x y : Entry) (xs : List Entry)
    → compare_bytes x.key y.key ≡ Ordering.lt
    → insert_entry x (insert_entry y xs) ≡ insert_entry y (insert_entry x xs)
insert_entry_comm x y [] h = ground (arith, h, gt_of_lt x.key y.key)
insert_entry_comm x y (z ∷ xs) h =
    ground (arith, h, gt_of_lt x.key y.key, lt_trans z.key x.key y.key, insert_entry_comm x y xs h)

cons-SameItems :
    (x : Entry) (xs ys : List Entry)
    → SameItems xs ys
    → SameItems (insert_entry x xs) (insert_entry x ys)
cons-SameItems x xs ys (inl e) = inl (ap (insert_entry x) e)
cons-SameItems x xs ys (inr (d, d')) =
    inr (insert_entry-duplicate x xs d, insert_entry-duplicate x ys d')

swap-SameItems :
    (x y : Entry) (xs : List Entry)
    → SameItems (insert_entry x (insert_entry y xs)) (insert_entry y (insert_entry x xs))
swap-SameItems x y xs = elim (Ordering-cases (compare_bytes x.key y.key)) [
  | inl lt ↦ inl (insert_entry_comm x y xs lt)
  | inr (inl eq) ↦
      let e : x.key ≡ y.key = eq_of_compare x.key y.key eq in
      inr (insert_entry-equal x y xs e, insert_entry-equal y x xs (sym e))
  | inr (inr gt) ↦ inl (sym (insert_entry_comm y x xs (lt_of_gt x.key y.key gt)))
]

trans-SameItems : (xs ys zs : List Entry) → SameItems xs ys → SameItems ys zs → SameItems xs zs
trans-SameItems xs ys zs (inl e) t = rw e t
trans-SameItems xs ys zs (inr (d, d')) (inl e) = inr (d, rw e at d')
trans-SameItems xs ys zs (inr (d, d')) (inr (c, c')) = inr (d, c')

sort_entries-SameItems :
    {xs ys : List Entry} → Permᴰ xs ys → SameItems (sort_entries xs) (sort_entries ys)
unfolding sort_entries
sort_entries-SameItems Permᴰ.nil = inl refl
sort_entries-SameItems (Permᴰ.cons {a = x} {l₁ = xs} {l₂ = ys} e d) =
    rw (sym e) (cons-SameItems x (sort_entries xs) (sort_entries ys) (sort_entries-SameItems d))
sort_entries-SameItems (Permᴰ.swap {a = x} {b = y} {l = xs} e e') =
    rw (sym e, sym e') (swap-SameItems x y (sort_entries xs))
sort_entries-SameItems (Permᴰ.trans {l₁ = xs} {l₂ = ys} {l₃ = zs} d d') =
    trans-SameItems (sort_entries xs) (sort_entries ys) (sort_entries zs) (sort_entries-SameItems d)
      (sort_entries-SameItems d')

outcome-IsSet : IsSet (Outcome Bytes)
outcome-IsSet = hlevel

module _ (put : Bytes → Option Bytes) (o : Options) where
  after_sort : List Entry → Outcome Bytes
  after_sort items = if has_duplicate items then failure duplicate_key else build_sorted put o items

  after_sort-SameItems : (xs ys : List Entry) → SameItems xs ys → after_sort xs ≡ after_sort ys
  unfolding after_sort
  after_sort-SameItems xs ys (inl e) = ap after_sort e
  after_sort-SameItems xs ys (inr (d, d')) = rw (d, d') refl

  -- `Build` has the same outcome for the same entries in every order: the same root, or the same
  -- error.
  pub build-Perm : (xs ys : List Entry) → Perm xs ys → build put o xs ≡ build put o ys
  unfolding build after_sort
  build-Perm xs ys p =
      ap (λ r. if validate o then r else failure invalid_options)
        (∥∥₁_elim {P = after_sort (sort_entries xs) ≡ after_sort (sort_entries ys)} p
          (outcome-IsSet _ _)
          (λ d.
            after_sort-SameItems (sort_entries xs) (sort_entries ys) (sort_entries-SameItems d)))
