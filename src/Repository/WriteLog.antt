-- ===== src/Repository/WriteLog.antt =====
-- common/repository/writelog.go: what the journal transactions since a base commit wrote, and the
-- test whether a transaction conflicts with them.
pub mod Marks
use repodb.Base.{
  ℕ, ◌+◌, ◌-◌, ◌%◌, ◌^◌, Bool, true, false, Option, none, some, List, [], ◌∷◌, ◌||◌, if◌then◌else◌,
  leb, ltb, ◌==◌,
}
use repodb.Bytes.{Bytes, equal_bytes}
use repodb.Bytes.Assoc.{Assoc, lookup, insert}
use repodb.Repository.Pending.{TypedRowEdit, PendingRows, get}
use repodb.Repository.Working.{
  TypedTableEdit, IndexClaim, PendingTableEdits, PendingTables, Snapshot, has_schema,
  changes_schema,
}

-- `tableWrites`
pub record TableWrites : Type 0 where
  pub schema : ℕ
  pub touched : ℕ

-- Go's zero value, which a map returns for a missing key.
abbrev pub or_zero : Option TableWrites → TableWrites
or_zero none = record { schema = 0; touched = 0 }
or_zero (some tw) = tw

-- A map from `claimKey`, that is table, index and key: the newest entry comes first and hides others.
abbrev pub Claims : Type 0
Claims = List (Bytes × Bytes × Bytes × ℕ)

abbrev pub same_claim : Bytes → Bytes → Bytes → Bytes → Bytes → Bytes → Bool
same_claim t i k t' i' k' =
    if equal_bytes t t' then (if equal_bytes i i' then equal_bytes k k' else false) else false

-- `l.claims[claimKey{...}]`, zero for a missing key
unfoldable pub claimed_at : Claims → Bytes → Bytes → Bytes → ℕ
claimed_at [] t i k = 0
claimed_at ((t', i', k', g) ∷ claims) t i k =
    if same_claim t' i' k' t i k then g else claimed_at claims t i k

-- `writeLog`
pub record WriteLog : Type 0 where
  pub from : ℕ
  pub tables : Assoc TableWrites
  pub claims : Claims

unfoldable pub record_claims : Bytes → List IndexClaim → ℕ → Claims → Claims
record_claims t [] g claims = claims
record_claims t (c ∷ more) g claims = record_claims t more g ((t, c.index, c.key, g) ∷ claims)

abbrev pub table_writes : WriteLog → Bytes → TableWrites
table_writes l t = or_zero (lookup t l.tables)

-- One round of the loop in `recorded`.
unfoldable pub record_edit : ℕ → WriteLog → TypedTableEdit → WriteLog
record_edit generation l te = record l {
  tables =
      insert te.table
        (record {
          schema = if changes_schema te then generation else (table_writes l te.table).schema;
          touched = generation;
        })
        l.tables;
  claims = record_claims te.table te.claims generation l.claims;
}

unfoldable pub record_edits : ℕ → WriteLog → List TypedTableEdit → WriteLog
record_edits generation l [] = l
record_edits generation l (te ∷ edits) = record_edits generation (record_edit generation l te) edits

-- A nil log starts at the generation before.
abbrev pub log_or_new : Option WriteLog → ℕ → WriteLog
log_or_new none generation = record {
  from = (generation + (2 ^ 64 - 1)) % 2 ^ 64;
  tables = [];
  claims = [];
}
log_or_new (some l) generation = l

-- `writeLog.recorded`
unfoldable pub recorded : Option WriteLog → List TypedTableEdit → ℕ → WriteLog
recorded l edits generation = record_edits generation (log_or_new l generation) edits

-- `workingView`
pub record WorkingView : Type 0 where
  pub snapshot : Snapshot
  pub generation : ℕ
  pub dirty : Bool
  pub base_commit : Bytes
  pub pending_edits : PendingTables
  pub writes : Option WriteLog

-- The errors that wrap `ErrConflict`, with their causes.
pub data Conflict : Type 0 where
  uncovered : Conflict
  schema_changed : Bytes → Conflict
  table_written : Bytes → Conflict
  row_written : Bytes → Conflict
  key_claimed : Bytes → Bytes → Conflict

-- `edit, ok := pending.rows.Get(re.Key); ok && edit.generation > base`
abbrev pub newer_edit : ℕ → Option TypedRowEdit → Bool
newer_edit base none = false
newer_edit base (some e) = ltb base e.generation

unfoldable pub row_conflict : ℕ → PendingRows → List TypedRowEdit → Bool
row_conflict base rows [] = false
row_conflict base rows (re ∷ edits) =
    newer_edit base (get rows re.key) || row_conflict base rows edits

-- The claim loop: the index of the first claim that a later transaction made.
unfoldable pub claim_conflict : ℕ → WriteLog → Bytes → List IndexClaim → Option Bytes
claim_conflict base l t [] = none
claim_conflict base l t (c ∷ claims) =
    if ltb base (claimed_at l.claims t c.index c.key)
    then some c.index
    else claim_conflict base l t claims

abbrev pub rows_conflict : ℕ → Option PendingTableEdits → List TypedRowEdit → Bool
rows_conflict base none edits = false
rows_conflict base (some pending) edits = row_conflict base pending.rows edits

-- The body of the loop in `writeConflict`, for one table edit.
unfoldable pub edit_conflict : WorkingView → WriteLog → ℕ → TypedTableEdit → Option Conflict
edit_conflict v l base te =
    let tw = table_writes l te.table in
    if leb tw.touched base
    then none
    else if ltb base tw.schema
    then some (schema_changed te.table)
    else if changes_schema te
    then some (table_written te.table)
    else if rows_conflict base (lookup te.table v.pending_edits) te.edits
    then some (row_written te.table)
    else (elim (claim_conflict base l te.table te.claims) [
      | none ↦ none
      | some index ↦ some (key_claimed te.table index)
    ])

unfoldable pub edits_conflict : WorkingView → WriteLog → ℕ → List TypedTableEdit → Option Conflict
edits_conflict v l base [] = none
edits_conflict v l base (te ∷ edits) = elim (edit_conflict v l base te) [
  | some c ↦ some c
  | none ↦ edits_conflict v l base edits
]

abbrev pub logged_conflict :
    WorkingView → Option WriteLog → ℕ → List TypedTableEdit → Option Conflict
logged_conflict v none base edits = some uncovered
logged_conflict v (some l) base edits =
    if ltb base l.from then some uncovered else edits_conflict v l base edits

-- `workingView.writeConflict`
unfoldable pub write_conflict : WorkingView → ℕ → List TypedTableEdit → Option Conflict
write_conflict v base edits =
    if base == v.generation
    then none
    else if ltb v.generation base
    then some uncovered
    else logged_conflict v v.writes base edits
