-- ===== src/Engine/Ranges/Cuts/Ends.antt =====
-- Starts and ends of intervals within a prefix.
use repodb.Base.{
  ℕ, ◌<◌, ◌≡◌, refl, sym, ap, ap₂, ◌∙◌, Bool, true, false, Option, none, some, [], ◌∷◌, ◌++◌,
  append_assoc, append-nil, ◌&&◌, arith, All, Bool-cases, inl, inr,
}
use repodb.Bytes.{Bytes, compare_bytes, below, at_least}
use repodb.Bytes.Order.{lt_trans}
use repodb.Engine.KeyCodec.{key_prefix_end}
use repodb.Engine.KeyCodec.Escape.{has_prefix, IsByte, before_end, key_prefix_end_lem}
use repodb.Engine.KeyCodec.Column.Extends.{Extends, All-append}
use repodb.Engine.IndexKeys.{null_marker}
use repodb.Engine.Ranges.{KeyInterval, contains}
use repodb.Engine.Ranges.Cuts.{Found, range_error, no_key, found, end_at}
use repodb.Engine.Ranges.Cuts.Bounds.{
  has_prefix-append, has_prefix-front, before_end-prefix, before_end-below,
}

at_least_of_extension : (p e k : Bytes) → at_least k (p ++ e) ≡ true → at_least k p ≡ true
unfolding compare_bytes
at_least_of_extension [] e [] h = refl
at_least_of_extension [] e (c ∷ k) h = refl
at_least_of_extension (d ∷ p) e [] h = absurd (ground (arith, h))
at_least_of_extension (d ∷ p) e (c ∷ k) h = ground (arith, at_least_of_extension p e k)

before_end_trans :
    (end : Option Bytes) (k m : Bytes)
    → below k m ≡ true
    → before_end end m ≡ true
    → before_end end k ≡ true
before_end_trans none k m h t = refl
before_end_trans (some end) k m h t = ground (arith, lt_trans k m end)

-- Starts and ends within a prefix.
abbrev pub StartsIn : Bytes → Bytes → Type 0
StartsIn p s = (k : Bytes) → All IsByte k → at_least k s ≡ true → at_least k p ≡ true

abbrev pub EndsIn : Bytes → Option Bytes → Type 0
EndsIn p end =
    (k : Bytes) → All IsByte k → before_end end k ≡ true → before_end (key_prefix_end p) k ≡ true

pub StartsIn-Extends : (p b : Bytes) → Extends p b → StartsIn p b
StartsIn-Extends p b (e, same, _) k hk t =
    at_least_of_extension p e k (ap (at_least k) (sym same) ∙ t)

-- Behind the end of an extension of the prefix.
pub StartsIn-end :
    (p b s : Bytes) → All IsByte b → Extends p b → key_prefix_end b ≡ some s → StartsIn p s
StartsIn-end p b s hb x next k hk t = elim (Bool-cases (below k b)) [
  | inl under ↦
      absurd
        (contradiction (ap (λ end. before_end end k) (sym next) ∙ before_end-below b k hb under))
  | inr over ↦ StartsIn-Extends p b x k hk (reached over)
]
  where
    contradiction : below k s ≡ true → ⊥
    contradiction u = absurd (ground (arith, u, t))

    reached : below k b ≡ false → at_least k b ≡ true
    reached u = ground (arith, u)

pub EndsIn-Extends : (p b : Bytes) → All IsByte p → Extends p b → EndsIn p (some b)
EndsIn-Extends p b hp (e, same, he) k hk t = before_end_trans (key_prefix_end p) k b t (
    before_end-prefix p b hp (rw same (All-append p e hp he))
      (ap (has_prefix p) same ∙ has_prefix-append p e))

pub EndsIn-end :
    (p b : Bytes) → All IsByte p → All IsByte b → Extends p b → EndsIn p (key_prefix_end b)
EndsIn-end p b hp hb x k hk t = elim (Bool-cases (below k b)) [
  | inl under ↦ EndsIn-Extends p b hp x k hk under
  | inr over ↦
      before_end-prefix p k hp hk
        (has_prefix-front p x.0 k (ap (λ c. has_prefix c k) (sym x.1) ∙ inside over))
]
  where
    inside : below k b ≡ false → has_prefix b k ≡ true
    inside u = ground (arith, u, t, key_prefix_end_lem b k hb hk)

pub EndsIn-end_at : (p b : Bytes) → All IsByte p → Extends p b → EndsIn p (end_at b)
EndsIn-end_at [] [] hp x k hk t = second (at_least k []) (key_prefix_end_lem [] k hp hk)
  where
    second :
        (a : Bool)
        → (a && before_end (key_prefix_end []) k) ≡ true
        → before_end (key_prefix_end []) k ≡ true
    second a h = ground (arith, h)
EndsIn-end_at (c ∷ p) [] hp x k hk t = absurd (ground (arith, x.1))
EndsIn-end_at p (c ∷ b) hp x k hk t = EndsIn-Extends p (c ∷ b) hp x k hk t

-- A property of what was found, if anything was.
abbrev pub Holds : {A : Type 0} → (A → Type 0) → Found A → Type 0
Holds P range_error = Unit {0}
Holds P no_key = Unit {0}
Holds P (found a) = P a

-- An interval holds only keys with a prefix.
abbrev pub Within : Bytes → KeyInterval → Type 0
Within p iv = (k : Bytes) → All IsByte k → contains iv k ≡ true → has_prefix p k ≡ true

pub Within-ends :
    (p s : Bytes) (end : Option Bytes)
    → All IsByte p
    → StartsIn p s
    → EndsIn p end
    → Within p (record { start = s; end = end })
Within-ends p s end hp starts ends k hk t =
    sym (key_prefix_end_lem p k hp hk)
    ∙ ap₂ (λ a b. a && b) (starts k hk (first (at_least k s) (before_end end k) t))
        (ends k hk (second (at_least k s) (before_end end k) t))
  where
    first : (a b : Bool) → (a && b) ≡ true → a ≡ true
    first true b t = refl
    first false b t = t

    second : (a b : Bool) → (a && b) ≡ true → b ≡ true
    second true b t = t
    second false b t = absurd (ground (arith, t))

pub Extends-self : (p : Bytes) → Extends p p
Extends-self p = ([], sym (append-nil p), tt)

pub Extends-marker :
    (p : Bytes) (nullable : Bool) (m : ℕ) → m < 256 → Extends p (null_marker p nullable m)
Extends-marker p true m h = (m ∷ [], refl, (h, tt))
Extends-marker p false m h = Extends-self p

Extends-trans : (p q r : Bytes) → Extends p q → Extends q r → Extends p r
Extends-trans p q r (e, same, he) (f, same', hf) =
    (e ++ f, same' ∙ ap (λ c. c ++ f) same ∙ append_assoc p e f, All-append e f he hf)

pub Extends-IsByte : (p q : Bytes) → All IsByte p → Extends p q → All IsByte q
Extends-IsByte p q hp (e, same, he) = rw same (All-append p e hp he)

-- A longer prefix is a narrower one.
pub Within-Extends : (p q : Bytes) (iv : KeyInterval) → Extends p q → Within q iv → Within p iv
Within-Extends p q iv (e, same, _) w k hk t =
    has_prefix-front p e k (ap (λ c. has_prefix c k) (sym same) ∙ w k hk t)
