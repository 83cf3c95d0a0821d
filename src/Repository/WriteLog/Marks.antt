-- ===== src/Repository/WriteLog/Marks.antt =====
-- The generations that a write log and the pending edits show for a table, a row and a claim, and
-- how one transaction raises them.
use Prim.Native.Nat.{max}
use repodb.Base.{
  ℕ, ◌≤◌, ◌≡◌, ◌≢◌, refl, Bool, true, false, Option, none, some, List, [], ◌∷◌, arith, In, here,
  there, if◌then◌else◌, Bool-cases, inl, inr,
}
use repodb.Bytes.{Bytes, equal_bytes}
use repodb.Bytes.Order.{equal_bytes_refl, compare_bytes_refl, eq_of_compare}
use repodb.Bytes.Assoc.{lookup, lookup-insert, lookup-delete}
use repodb.Repository.Pending.{TypedRowEdit, PendingRows, with_generation, get}
use repodb.Repository.Pending.Unique.{last_edit}
use repodb.Repository.Pending.Lookup.{
  SortedRuns, with_generation-Sorted, get-with_generation, get-empty_rows,
}
use repodb.Repository.Working.{
  TypedTableEdit, IndexClaim, PendingTableEdits, PendingTables, edit_entry, edit_pending,
  changes_schema, previous_or_new,
}
use repodb.Repository.WriteLog.{
  WriteLog, table_writes, record_edit, claimed_at, record_claims, Claims,
}

abbrev pub edit_generation : Option TypedRowEdit → ℕ
edit_generation none = 0
edit_generation (some e) = e.generation

abbrev pub entry_generation : Option PendingTableEdits → Bytes → ℕ
entry_generation none k = 0
entry_generation (some entry) k = edit_generation (get entry.rows k)

-- The generation that wrote the pending edit of a row.
abbrev pub row_generation : PendingTables → Bytes → Bytes → ℕ
row_generation pending t k = entry_generation (lookup t pending) k

abbrev pub EntrySorted : Option PendingTableEdits → Type 0
EntrySorted none = Unit
EntrySorted (some entry) = SortedRuns entry.rows.runs

-- Every table's pending runs are sorted.
abbrev pub PendingSorted : PendingTables → Type 0
PendingSorted pending = (t : Bytes) → EntrySorted (lookup t pending)

-- A row is marked by its own generation, or by that of a later change of its table's schema.
abbrev pub row_mark : WriteLog → PendingTables → Bytes → Bytes → ℕ
row_mark l pending t k = max (table_writes l t).schema (row_generation pending t k)

touched-record_edit :
    (g h : ℕ) (l : WriteLog) (te : TypedTableEdit) (t : Bytes)
    → g ≤ h
    → g ≤ (table_writes l t).touched
    → g ≤ (table_writes (record_edit h l te) t).touched
unfolding record_edit
touched-record_edit g h l te t gh m = rw lookup-insert (ground arith)

schema-record_edit :
    (g h : ℕ) (l : WriteLog) (te : TypedTableEdit) (t : Bytes)
    → g ≤ h
    → g ≤ (table_writes l t).schema
    → g ≤ (table_writes (record_edit h l te) t).schema
unfolding record_edit
schema-record_edit g h l te t gh m = rw lookup-insert (ground (arith, eq_of_compare te.table t))

claimed-record_claims :
    (g h : ℕ) (cs : List IndexClaim) (claims : Claims) (s t i k : Bytes)
    → g ≤ h
    → g ≤ claimed_at claims t i k
    → g ≤ claimed_at (record_claims s cs h claims) t i k
unfolding claimed_at record_claims
claimed-record_claims g h [] claims s t i k gh m = m
claimed-record_claims g h (c ∷ cs) claims s t i k gh m =
    claimed-record_claims g h cs ((s, c.index, c.key, h) ∷ claims) s t i k gh (ground arith)

claimed-record_edit :
    (g h : ℕ) (l : WriteLog) (te : TypedTableEdit) (t i k : Bytes)
    → g ≤ h
    → g ≤ claimed_at l.claims t i k
    → g ≤ claimed_at (record_edit h l te).claims t i k
unfolding record_edit
claimed-record_edit g h l te t i k gh m =
    claimed-record_claims g h te.claims l.claims te.table t i k gh m

generation-with :
    (g h : ℕ) (p : PendingRows) (edits : List TypedRowEdit) (k : Bytes)
    → SortedRuns p.runs
    → g ≤ h
    → g ≤ edit_generation (get p k)
    → g ≤ edit_generation (get (with_generation p edits h) k)
generation-with g h p edits k s gh m = rw (get-with_generation p edits h k s) (ground arith)

lookup-edit_pending :
    (h : ℕ) (pending : PendingTables) (te : TypedTableEdit) (t : Bytes)
    → lookup t (edit_pending h pending te) ≡ (
        if equal_bytes te.table t
        then (if te.drop
            then none
            else some (edit_entry h te (previous_or_new (lookup te.table pending))))
        else lookup t pending)
unfolding edit_pending
lookup-edit_pending h pending te t = elim (Bool-cases te.drop) [
  | inl e ↦ rw (e, lookup-delete)
  | inr e ↦ rw (e, lookup-insert)
]

new_rows-Sorted :
    (o : Option PendingTableEdits) → EntrySorted o → SortedRuns (previous_or_new o).rows.runs
new_rows-Sorted none s = tt
new_rows-Sorted (some entry) s = s

previous_generation :
    (o : Option PendingTableEdits) (k : Bytes)
    → edit_generation (get (previous_or_new o).rows k) ≡ entry_generation o k
previous_generation none k = rw get-empty_rows
previous_generation (some entry) k = refl

pub edit_pending-Sorted :
    (h : ℕ) (pending : PendingTables) (te : TypedTableEdit)
    → PendingSorted pending
    → PendingSorted (edit_pending h pending te)
edit_pending-Sorted h pending te s t =
    rw lookup-edit_pending (split (equal_bytes te.table t) te.drop)
  where
    split :
        (b d : Bool)
        → EntrySorted (
            if b
            then (if d
                then none
                else some (edit_entry h te (previous_or_new (lookup te.table pending))))
            else lookup t pending)
    split true true = tt
    split true false =
        with_generation-Sorted (previous_or_new (lookup te.table pending)).rows te.edits h
          (new_rows-Sorted (lookup te.table pending) (s te.table))
    split false d = s t

-- A transaction of a later generation lowers no row's mark.
row_mark-edit :
    (g h : ℕ) (l : WriteLog) (pending : PendingTables) (te : TypedTableEdit) (t k : Bytes)
    → PendingSorted pending
    → g ≤ h
    → g ≤ row_mark l pending t k
    → g ≤ row_mark (record_edit h l te) (edit_pending h pending te) t k
unfolding record_edit
row_mark-edit g h l pending te t k s gh m =
    rw (lookup-edit_pending, lookup-insert)
      (ground (
        arith,
        eq_of_compare te.table t,
        previous_generation (lookup te.table pending) k,
        generation-with g h (previous_or_new (lookup te.table pending)).rows te.edits k
            (new_rows-Sorted (lookup te.table pending) (s te.table)),
      ))

-- The row of an edit is marked with the transaction's generation.
last_edit-In :
    (a : TypedRowEdit) (edits : List TypedRowEdit) → In a edits → last_edit a.key edits ≢ none
unfolding last_edit
last_edit-In a [] i = elim i [ ]
last_edit-In a (x ∷ edits) here = ground (arith, compare_bytes_refl a.key)
last_edit-In a (x ∷ edits) (there i) = ground (arith, last_edit-In a edits i)

generation-with_new :
    (h : ℕ) (p : PendingRows) (edits : List TypedRowEdit) (a : TypedRowEdit)
    → SortedRuns p.runs
    → In a edits
    → edit_generation (get (with_generation p edits h) a.key) ≡ h
generation-with_new h p edits a s i =
    rw (get-with_generation p edits h a.key s) (ground (arith, last_edit-In a edits i))

row_mark-new :
    (h : ℕ) (l : WriteLog) (pending : PendingTables) (te : TypedTableEdit) (a : TypedRowEdit)
    → PendingSorted pending
    → In a te.edits
    → h ≤ row_mark (record_edit h l te) (edit_pending h pending te) te.table a.key
unfolding record_edit
row_mark-new h l pending te a s i =
    rw (lookup-edit_pending, lookup-insert, equal_bytes_refl te.table)
      (ground (
        arith,
        compare_bytes_refl te.table,
        generation-with_new h (previous_or_new (lookup te.table pending)).rows te.edits a
            (new_rows-Sorted (lookup te.table pending) (s te.table)) i,
      ))

touched-new :
    (h : ℕ) (l : WriteLog) (te : TypedTableEdit)
    → h ≤ (table_writes (record_edit h l te) te.table).touched
unfolding record_edit
touched-new h l te = rw lookup-insert (ground (arith, compare_bytes_refl te.table))

schema-new :
    (h : ℕ) (l : WriteLog) (te : TypedTableEdit)
    → changes_schema te ≡ true
    → h ≤ (table_writes (record_edit h l te) te.table).schema
unfolding record_edit
schema-new h l te c = rw lookup-insert (ground (arith, compare_bytes_refl te.table))

claimed-new_claims :
    (h : ℕ) (cs : List IndexClaim) (claims : Claims) (t : Bytes) (c : IndexClaim)
    → In c cs
    → h ≤ claimed_at (record_claims t cs h claims) t c.index c.key
unfolding record_claims claimed_at
claimed-new_claims h [] claims t c i = elim i [ ]
claimed-new_claims h (c' ∷ cs) claims t c here =
    claimed-record_claims h h cs ((t, c.index, c.key, h) ∷ claims) t t c.index c.key (omega arith)
      (ground (arith, compare_bytes_refl t, compare_bytes_refl c.index, compare_bytes_refl c.key))
claimed-new_claims h (c' ∷ cs) claims t c (there i) =
    claimed-new_claims h cs ((t, c'.index, c'.key, h) ∷ claims) t c i

claimed-new :
    (h : ℕ) (l : WriteLog) (te : TypedTableEdit) (c : IndexClaim)
    → In c te.claims
    → h ≤ claimed_at (record_edit h l te).claims te.table c.index c.key
unfolding record_edit
claimed-new h l te c i = claimed-new_claims h te.claims l.claims te.table c i

-- All that a table edit of generation `g` wrote is marked with `g` or a later generation.
pub record IsMarked (l : WriteLog) (pending : PendingTables) (g : ℕ) (te : TypedTableEdit)
    : Type 0 where
  pub touched : g ≤ (table_writes l te.table).touched
  pub schema : changes_schema te ≡ true → g ≤ (table_writes l te.table).schema
  pub rows : (a : TypedRowEdit) → In a te.edits → g ≤ row_mark l pending te.table a.key
  pub claims : (c : IndexClaim) → In c te.claims → g ≤ claimed_at l.claims te.table c.index c.key

pub record_edit-IsMarked :
    (h : ℕ) (l : WriteLog) (pending : PendingTables) (te : TypedTableEdit)
    → PendingSorted pending
    → IsMarked (record_edit h l te) (edit_pending h pending te) h te
record_edit-IsMarked h l pending te s = record {
  touched = touched-new h l te;
  schema = schema-new h l te;
  rows = λ a i. row_mark-new h l pending te a s i;
  claims = λ c i. claimed-new h l te c i;
}

pub IsMarked-record_edit :
    (g h : ℕ) (l : WriteLog) (pending : PendingTables) (te other : TypedTableEdit)
    → PendingSorted pending
    → g ≤ h
    → IsMarked l pending g other
    → IsMarked (record_edit h l te) (edit_pending h pending te) g other
IsMarked-record_edit g h l pending te other s gh m = record {
  touched = touched-record_edit g h l te other.table gh m.touched;
  schema = λ c. schema-record_edit g h l te other.table gh (m.schema c);
  rows = λ a i. row_mark-edit g h l pending te other.table a.key s gh (m.rows a i);
  claims = λ c i. claimed-record_edit g h l te other.table c.index c.key gh (m.claims c i);
}
