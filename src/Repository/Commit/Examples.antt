-- ===== src/Repository/Commit/Examples.antt =====
-- Transactions on a small view: two that are disjoint and two that are not.
use repodb.Base.{ℕ, ◌≡◌, refl, false, none, some, [], ◌∷◌, arith, here, inl}
use repodb.Base.Search.{search, search_list}
use repodb.Bytes.{Bytes, compare_bytes}
use repodb.Bytes.Sorted.{check_at}
use repodb.Bytes.Assoc.{lookup, insert}
use repodb.Repository.Pending.{with_generation, unique_edits, compact_runs, get, get_runs}
use repodb.Repository.Working.{TypedTableEdit, Hash, apply_typed_edits, apply_edits, edit_pending}
use repodb.Repository.WriteLog.{
  WorkingView, row_written, write_conflict, edits_conflict, edit_conflict, row_conflict,
  claim_conflict, claimed_at, record_claims, recorded, record_edits, record_edit,
}
use repodb.Repository.WriteLog.Marks.{PendingSorted}
use repodb.Repository.Commit.{committed_view, after_commits}
use repodb.Repository.Commit.Disjoint.{Disjoint}
use repodb.Repository.Commit.FirstWins.{first_committer_wins}

-- A stand-in for SHA-256.
abbrev first_byte : Bytes → Hash
first_byte b = b

abbrev clean : WorkingView
clean = record {
  snapshot = record {
    commit = 1 ∷ [];
    generation = 4;
    manifest = record { format_version = 2; default_database = []; tables = []; objects = [] };
    object_set = [];
    cache = [];
    pending_edits = [];
  };
  generation = 4;
  dirty = false;
  base_commit = 1 ∷ [];
  pending_edits = [];
  writes = none;
}

abbrev row : ℕ → TypedTableEdit
row k = record {
  table = b't' ∷ [];
  schema = [];
  drop = false;
  edits = record { key = k ∷ []; value = 7 ∷ []; delete = false; generation = 0 } ∷ [];
  claims = record { index = b'u' ∷ []; key = k ∷ [] } ∷ [];
}

disjoint_rows :
    write_conflict (after_commits first_byte clean ((row 1 ∷ []) ∷ [])) 4 (row 2 ∷ []) ≡ none
unfolding write_conflict edits_conflict edit_conflict row_conflict claim_conflict claimed_at
    record_claims after_commits committed_view recorded record_edits record_edit apply_typed_edits
    apply_edits edit_pending lookup insert with_generation unique_edits compact_runs get get_runs
    check_at search_list search compare_bytes
disjoint_rows = refl

same_row :
    write_conflict (after_commits first_byte clean ((row 1 ∷ []) ∷ [])) 4 (row 1 ∷ [])
    ≡ some (row_written (b't' ∷ []))
unfolding write_conflict edits_conflict edit_conflict row_conflict claim_conflict claimed_at
    record_claims after_commits committed_view recorded record_edits record_edit apply_typed_edits
    apply_edits edit_pending lookup insert with_generation unique_edits compact_runs get get_runs
    check_at search_list search compare_bytes
same_row = refl

clean-Sorted : PendingSorted clean.pending_edits
unfolding lookup
clean-Sorted = λ t. tt

first_committer_wins_example : Disjoint (row 1) (row 2)
first_committer_wins_example =
    first_committer_wins first_byte clean ((row 1 ∷ []) ∷ []) 4 5 (row 2 ∷ []) (row 2) (row 1)
      clean-Sorted (omega arith) (inl (refl, here)) (omega arith) disjoint_rows here refl
