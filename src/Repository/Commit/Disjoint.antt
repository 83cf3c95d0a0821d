-- ===== src/Repository/Commit/Disjoint.antt =====
-- What the conflict test of a transaction says of the marks that earlier transactions left.
use Prim.Native.Nat.{max}
use repodb.Base.{
  ℕ, ◌≤◌, ◌<◌, ◌≡◌, ◌≢◌, refl, true, false, Option, none, some, List, [], ◌∷◌, arith, In, here,
  there,
}
use repodb.Bytes.{Bytes}
use repodb.Bytes.Assoc.{lookup}
use repodb.Repository.Pending.{TypedRowEdit, PendingRows, get}
use repodb.Repository.Working.{
  TypedTableEdit, IndexClaim, PendingTables, PendingTableEdits, Hash, Applied, apply_edit,
  apply_edits, edit_pending, changes_schema,
}
use repodb.Repository.WriteLog.{
  WriteLog, WorkingView, record_edit, record_edits, edits_conflict, edit_conflict, row_conflict,
  claim_conflict, claimed_at, table_writes, rows_conflict,
}
use repodb.Repository.WriteLog.Marks.{
  PendingSorted, edit_generation, row_mark, entry_generation, edit_pending-Sorted, IsMarked,
  record_edit-IsMarked, IsMarked-record_edit,
}

-- The pending tables after a list of edits.
abbrev pub pending_after : ℕ → PendingTables → List TypedTableEdit → PendingTables
pending_after g pending [] = pending
pending_after g pending (te ∷ edits) = pending_after g (edit_pending g pending te) edits

pub pending_after-Sorted :
    (g : ℕ) (pending : PendingTables) (edits : List TypedTableEdit)
    → PendingSorted pending
    → PendingSorted (pending_after g pending edits)
pending_after-Sorted g pending [] s = s
pending_after-Sorted g pending (te ∷ edits) s =
    pending_after-Sorted g (edit_pending g pending te) edits (edit_pending-Sorted g pending te s)

pub IsMarked-edits :
    (g h : ℕ) (l : WriteLog) (pending : PendingTables) (edits : List TypedTableEdit)
    (other : TypedTableEdit)
    → PendingSorted pending
    → g ≤ h
    → IsMarked l pending g other
    → IsMarked (record_edits h l edits) (pending_after h pending edits) g other
unfolding record_edits
IsMarked-edits g h l pending [] other s gh m = m
IsMarked-edits g h l pending (te ∷ edits) other s gh m =
    IsMarked-edits g h (record_edit h l te) (edit_pending h pending te) edits other
      (edit_pending-Sorted h pending te s) gh (IsMarked-record_edit g h l pending te other s gh m)

pub edits-IsMarked :
    (h : ℕ) (l : WriteLog) (pending : PendingTables) (edits : List TypedTableEdit)
    (other : TypedTableEdit)
    → PendingSorted pending
    → In other edits
    → IsMarked (record_edits h l edits) (pending_after h pending edits) h other
unfolding record_edits
edits-IsMarked h l pending [] other s i = elim i [ ]
edits-IsMarked h l pending (te ∷ edits) other s here =
    IsMarked-edits h h (record_edit h l te) (edit_pending h pending te) edits te
      (edit_pending-Sorted h pending te s) (omega arith) (record_edit-IsMarked h l pending te s)
edits-IsMarked h l pending (te ∷ edits) other s (there i) =
    edits-IsMarked h (record_edit h l te) (edit_pending h pending te) edits other
      (edit_pending-Sorted h pending te s) i

module _ (sum : Bytes → Hash) where
  pub pending-apply_edits :
      (g : ℕ) (a : Applied) (edits : List TypedTableEdit)
      → (apply_edits sum g a edits).pending ≡ pending_after g a.pending edits
  unfolding apply_edits
  pending-apply_edits g a [] = refl
  pending-apply_edits g a (te ∷ edits) = pending-apply_edits g (apply_edit sum g a te) edits

-- No two edits of the same key.
abbrev pub DisjointRows : List TypedRowEdit → List TypedRowEdit → Type 0
DisjointRows xs ys = (a b : TypedRowEdit) → In a xs → In b ys → a.key ≢ b.key

-- No two claims of the same key of the same index.
abbrev pub DisjointClaims : List IndexClaim → List IndexClaim → Type 0
DisjointClaims cs ds =
    (c d : IndexClaim) → In c cs → In d ds → ¬ ((c.index ≡ d.index) × (c.key ≡ d.key))

row_conflict-In :
    (base g : ℕ) (rows : PendingRows) (edits : List TypedRowEdit) (b : TypedRowEdit)
    → row_conflict base rows edits ≡ false
    → In b edits
    → base < g
    → ¬ (g ≤ edit_generation (get rows b.key))
unfolding row_conflict
row_conflict-In base g rows [] b h i lt m = elim i [ ]
row_conflict-In base g rows (x ∷ edits) b h here lt m = ground arith
row_conflict-In base g rows (x ∷ edits) b h (there i) lt m =
    row_conflict-In base g rows edits b (ground arith) i lt m

claim_conflict-In :
    (base g : ℕ) (l : WriteLog) (t : Bytes) (claims : List IndexClaim) (d : IndexClaim)
    → claim_conflict base l t claims ≡ none
    → In d claims
    → base < g
    → ¬ (g ≤ claimed_at l.claims t d.index d.key)
unfolding claim_conflict
claim_conflict-In base g l t [] d h i lt m = elim i [ ]
claim_conflict-In base g l t (x ∷ claims) d h here lt m = ground arith
claim_conflict-In base g l t (x ∷ claims) d h (there i) lt m =
    claim_conflict-In base g l t claims d (ground arith) i lt m

pub edits_conflict-In :
    (v : WorkingView) (l : WriteLog) (base : ℕ) (edits : List TypedTableEdit) (te : TypedTableEdit)
    → edits_conflict v l base edits ≡ none
    → In te edits
    → edit_conflict v l base te ≡ none
unfolding edits_conflict
edits_conflict-In v l base [] te h i = elim i [ ]
edits_conflict-In v l base (x ∷ edits) te h here = ground arith
edits_conflict-In v l base (x ∷ edits) te h (there i) =
    edits_conflict-In v l base edits te (ground arith) i

-- What passes the test of `writeConflict` against an edit `other` of a later generation.
record Passes (v : WorkingView) (l : WriteLog) (base : ℕ) (te other : TypedTableEdit) : Type 0 where
  own_schema : changes_schema te ≡ false
  other_schema : changes_schema other ≡ false
  old_schema : (table_writes l te.table).schema ≤ base
  rows : rows_conflict base (lookup te.table v.pending_edits) te.edits ≡ false
  claims : claim_conflict base l te.table te.claims ≡ none

edit_conflict-Passes :
    (v : WorkingView) (l : WriteLog) (base g : ℕ) (te other : TypedTableEdit)
    → edit_conflict v l base te ≡ none
    → base < g
    → g ≤ (table_writes l te.table).touched
    → (changes_schema other ≡ true → g ≤ (table_writes l te.table).schema)
    → Passes v l base te other
unfolding edit_conflict
edit_conflict-Passes v l base g te other h lt t s = record {
  own_schema = ground (arith, h);
  other_schema = ground (arith, h, s);
  old_schema = ground (arith, h);
  rows = ground (arith, h);
  claims = ground (arith, h);
}

row_unmarked :
    (v : WorkingView) (l : WriteLog) (base g : ℕ) (te : TypedTableEdit) (b : TypedRowEdit)
    → rows_conflict base (lookup te.table v.pending_edits) te.edits ≡ false
    → (table_writes l te.table).schema ≤ base
    → In b te.edits
    → base < g
    → ¬ (g ≤ row_mark l v.pending_edits te.table b.key)
row_unmarked v l base g te b r old i lt m = by_entry (lookup te.table v.pending_edits) r m
  where
    by_entry :
        (o : Option PendingTableEdits)
        → rows_conflict base o te.edits ≡ false
        → ¬ (g ≤ max (table_writes l te.table).schema (entry_generation o b.key))
    by_entry none h k = omega arith
    by_entry (some entry) h k = row_conflict-In base g entry.rows te.edits b h i lt (omega arith)

-- An edit that passes is disjoint from the marked edits of later generations.
pub record Disjoint (other te : TypedTableEdit) : Type 0 where
  pub schema : (changes_schema other ≡ false) × (changes_schema te ≡ false)
  pub rows : DisjointRows other.edits te.edits
  pub claims : DisjointClaims other.claims te.claims

pub marked-Disjoint :
    (v : WorkingView) (l : WriteLog) (base g : ℕ) (te other : TypedTableEdit)
    → edit_conflict v l base te ≡ none
    → base < g
    → other.table ≡ te.table
    → IsMarked l v.pending_edits g other
    → Disjoint other te
marked-Disjoint v l base g te other h lt e m =
    let passes : Passes v l base te other =
      edit_conflict-Passes v l base g te other h lt (rw e at m.touched)
        (λ c. rw e at (m.schema c)) in
    record {
      schema = (passes.other_schema, passes.own_schema);
      rows = λ a b i j same.
          row_unmarked v l base g te b passes.rows passes.old_schema j lt
            (rw (e, same) at (m.rows a i));
      claims = λ c d i j same.
          claim_conflict-In base g l te.table te.claims d passes.claims j lt
            (rw (e, same.0, same.1) at (m.claims c i));
    }
