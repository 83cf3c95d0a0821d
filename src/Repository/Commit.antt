-- ===== src/Repository/Commit.antt =====
-- `WorkingState.CommitTypedEdits` of common/repository/working.go: the check against concurrent
-- transactions and the new view.
pub mod Disjoint
pub mod FirstWins
mod Examples
use repodb.Base.{
  ℕ, ◌+◌, ◌%◌, ◌^◌, Bool, true, false, Option, none, some, List, [], ◌∷◌, if◌then◌else◌,
}
use repodb.Bytes.{Bytes, equal_bytes}
use repodb.Repository.Working.{TypedTableEdit, PendingTables, Snapshot, Hash, apply_typed_edits}
use repodb.Repository.WriteLog.{WorkingView, Conflict, uncovered, recorded, write_conflict}

module _ (sum : Bytes → Hash) where
  -- The view that a successful commit caches.
  pub committed_view : WorkingView → List TypedTableEdit → WorkingView
  committed_view v edits =
      let generation = (v.generation + 1) % 2 ^ 64 in
      let (snapshot, pending) = apply_typed_edits sum v.snapshot v.pending_edits edits generation in
      record {
        snapshot = snapshot;
        generation = generation;
        dirty = true;
        base_commit = v.base_commit;
        pending_edits = pending;
        writes = some (recorded v.writes edits generation);
      }

  pub data Outcome : Type 0 where
    rejected : Conflict → Outcome
    committed : WorkingView → Outcome

  -- The base snapshot's commit must be that of the view, and the writes must not conflict.
  pub commit_typed_edits : WorkingView → Snapshot → List TypedTableEdit → Outcome
  commit_typed_edits v base edits =
      if equal_bytes base.commit v.snapshot.commit
      then (elim (write_conflict v base.generation edits) [
        | some c ↦ rejected c
        | none ↦ committed (committed_view v edits)
      ])
      else rejected uncovered

  -- The view after further commits, each with its own edits.
  pub after_commits : WorkingView → List (List TypedTableEdit) → WorkingView
  after_commits v [] = v
  after_commits v (edits ∷ history) = after_commits (committed_view v edits) history
