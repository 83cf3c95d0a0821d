-- ===== src/Repository/Working.antt =====
-- common/repository/working.go: snapshots with pending journal edits, and the application of one
-- transaction's typed edits to them. `storage.Sum` (SHA-256) is the parameter `sum`.
use repodb.Base.{
  ℕ, Bool, true, false, Option, none, some, List, [], ◌∷◌, ◌&&◌, ◌||◌, if◌then◌else◌, length, leb,
  ◌==◌, map,
}
use repodb.Bytes.{Bytes}
use repodb.Bytes.Assoc.{Assoc, lookup, insert, delete}
use repodb.Repository.Pending.{TypedRowEdit, PendingRows, empty_rows, is_empty, with_generation}

-- `storage.Hash`: a hexadecimal text.
abbrev pub Hash : Type 0
Hash = Bytes

-- The test of one character in `Hash.Valid`.
abbrev pub is_hex : ℕ → Bool
is_hex c = (leb b'0' c && leb c b'9') || (leb b'a' c && leb c b'f') || (leb b'A' c && leb c b'F')

pub all_hex : Bytes → Bool
all_hex [] = true
all_hex (c ∷ h) = is_hex c && all_hex h

-- `Hash.Valid`
pub is_valid_hash : Hash → Bool
is_valid_hash h = (length h == 64) && all_hex h

-- `IndexClaim`
pub record IndexClaim : Type 0 where
  pub index : Bytes
  pub key : Bytes

-- `TypedTableEdit`
pub record TypedTableEdit : Type 0 where
  pub table : Bytes
  pub schema : Bytes
  pub drop : Bool
  pub edits : List TypedRowEdit
  pub claims : List IndexClaim

-- `len(te.Schema) > 0`
abbrev pub has_schema : Bytes → Bool
has_schema [] = false
has_schema (b ∷ schema) = true

-- `te.Drop || len(te.Schema) > 0`
abbrev pub changes_schema : TypedTableEdit → Bool
changes_schema te = te.drop || has_schema te.schema

-- `Table` of common/repository/repository.go
pub record Table : Type 0 where
  pub schema_root : Hash
  pub data_root : Hash
  pub indexes : Assoc Hash

abbrev pub empty_table : Table
empty_table = record { schema_root = []; data_root = []; indexes = [] }

-- `Manifest` of common/repository/repository.go
pub record Manifest : Type 0 where
  pub format_version : ℕ
  pub default_database : Bytes
  pub tables : Assoc Table
  pub objects : List Hash

-- `Snapshot`, without what the functions here copy unchanged (`repo`, `objectOIDs`, `core`).
pub record Snapshot : Type 0 where
  pub commit : Bytes
  pub generation : ℕ
  pub manifest : Manifest
  pub object_set : Assoc (Unit {0})
  pub cache : Assoc Bytes
  pub pending_edits : Assoc PendingRows

-- `pendingTableEdits`; Go's nil `schemaData` is the empty string, which is never stored otherwise.
pub record PendingTableEdits : Type 0 where
  pub schema_data : Bytes
  pub rows : PendingRows

abbrev pub PendingTables : Type 0
PendingTables = Assoc PendingTableEdits

abbrev pub previous_or_new : Option PendingTableEdits → PendingTableEdits
previous_or_new none = record { schema_data = []; rows = empty_rows }
previous_or_new (some entry) = entry

abbrev pub table_or_new : Option Table → Table
table_or_new none = empty_table
table_or_new (some table) = table

-- What the loop of `applyTypedEditsToSnapshot` changes.
pub record Applied : Type 0 where
  pub tables : Assoc Table
  pub pending : PendingTables
  pub cache : Assoc Bytes

-- `for hash := range base.objectSet`, `for _, table := range manifest.Tables`
pub add_schema_roots : Assoc Table → Assoc (Unit {0}) → Assoc (Unit {0})
add_schema_roots [] objects = objects
add_schema_roots ((name, table) ∷ tables) objects =
    add_schema_roots tables
      (if is_valid_hash table.schema_root then insert table.schema_root tt objects else objects)

-- The pending rows that a snapshot shows: of tables with row edits or a changed schema.
pub shown_pending : PendingTables → Assoc PendingRows
shown_pending [] = []
shown_pending ((name, te) ∷ pending) =
    let rest = shown_pending pending in
    if is_empty te.rows
    then (if has_schema te.schema_data then (name, te.rows) ∷ rest else rest)
    else (name, te.rows) ∷ rest

-- The entry of a table after one edit of it, without a drop.
abbrev pub edit_entry : ℕ → TypedTableEdit → PendingTableEdits → PendingTableEdits
edit_entry generation te entry = record {
  schema_data = if has_schema te.schema then te.schema else entry.schema_data;
  rows = with_generation entry.rows te.edits generation;
}

-- What one round of the loop does to the pending tables.
unfoldable pub edit_pending : ℕ → PendingTables → TypedTableEdit → PendingTables
edit_pending generation pending te =
    if te.drop
    then delete te.table pending
    else insert te.table (edit_entry generation te (previous_or_new (lookup te.table pending)))
        pending

module _ (sum : Bytes → Hash) where
  -- The schema part of one table edit, on the manifest's tables and on the cache.
  pub edit_tables : TypedTableEdit → Assoc Table → Assoc Table
  edit_tables te tables =
      if te.drop
      then delete te.table tables
      else if has_schema te.schema
      then insert te.table
          (record (table_or_new (lookup te.table tables)) { schema_root = sum te.schema }) tables
      else tables

  pub edit_cache : TypedTableEdit → Assoc Bytes → Assoc Bytes
  edit_cache te cache =
      if te.drop
      then cache
      else if has_schema te.schema
      then insert (sum te.schema) te.schema cache
      else cache

  -- One round of the loop over the edits.
  abbrev pub apply_edit : ℕ → Applied → TypedTableEdit → Applied
  apply_edit generation a te = record {
    tables = edit_tables te a.tables;
    pending = edit_pending generation a.pending te;
    cache = edit_cache te a.cache;
  }

  unfoldable pub apply_edits : ℕ → Applied → List TypedTableEdit → Applied
  apply_edits generation a [] = a
  apply_edits generation a (te ∷ edits) = apply_edits generation (apply_edit generation a te) edits

  -- `applyTypedEditsToSnapshot`
  unfoldable pub apply_typed_edits :
      Snapshot → PendingTables → List TypedTableEdit → ℕ → Snapshot × PendingTables
  apply_typed_edits base existing edits generation =
      let a =
        apply_edits generation
          (record { tables = base.manifest.tables; pending = existing; cache = base.cache })
          edits in
      let objects = add_schema_roots a.tables base.object_set in
      (
        record {
          commit = base.commit;
          generation = generation;
          manifest = record base.manifest { tables = a.tables; objects = map (λ o. o.0) objects };
          object_set = objects;
          cache = a.cache;
          pending_edits = shown_pending a.pending;
        },
        a.pending,
      )
