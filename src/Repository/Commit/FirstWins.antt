-- ===== src/Repository/Commit/FirstWins.antt =====
-- First committer wins: a commit that passes is disjoint from every transaction since its base.
use repodb.Base.{
  ℕ, ◌+◌, ◌%◌, ◌^◌, length, ◌≤◌, ◌<◌, ◌≡◌, Option, none, some, List, [], ◌∷◌, arith, In, ◌⊎◌, inl,
  inr,
}
use repodb.Bytes.{Bytes}
use repodb.Repository.Working.{TypedTableEdit, PendingTables, Hash, apply_typed_edits}
use repodb.Repository.WriteLog.{
  WriteLog, WorkingView, log_or_new, recorded, write_conflict, logged_conflict,
}
use repodb.Repository.WriteLog.Marks.{PendingSorted, IsMarked}
use repodb.Repository.Commit.{committed_view, after_commits}
use repodb.Repository.Commit.Disjoint.{
  Disjoint, pending-apply_edits, pending_after, pending_after-Sorted, IsMarked-edits,
  edits-IsMarked, edits_conflict-In, marked-Disjoint,
}

-- In a history that starts at generation `n`, the transaction of generation `g` wrote `te`.
abbrev pub CommittedAt : TypedTableEdit → ℕ → ℕ → List (List TypedTableEdit) → Type 0
CommittedAt te g n [] = ⊥
CommittedAt te g n (edits ∷ history) =
    ((g ≡ n + 1) × In te edits) ⊎ CommittedAt te g (n + 1) history

abbrev LogMarked : Option WriteLog → PendingTables → ℕ → TypedTableEdit → Type 0
LogMarked none pending g te = ⊥
LogMarked (some l) pending g te = IsMarked l pending g te

abbrev ViewMarked : WorkingView → ℕ → TypedTableEdit → Type 0
ViewMarked v g te = LogMarked v.writes v.pending_edits g te

-- The generation that a commit on the view gets.
abbrev next_of : WorkingView → ℕ
next_of v = (v.generation + 1) % 2 ^ 64

next_of_lem : (v : WorkingView) → v.generation + 1 < 2 ^ 64 → next_of v ≡ v.generation + 1
next_of_lem v h = omega arith

module _ (sum : Bytes → Hash) where
  pending-committed_view :
      (v : WorkingView) (edits : List TypedTableEdit)
      → (committed_view sum v edits).pending_edits ≡ pending_after (next_of v) v.pending_edits edits
  unfolding committed_view apply_typed_edits
  pending-committed_view v edits = pending-apply_edits sum (next_of v) _ edits

  committed_view-Sorted :
      (v : WorkingView) (edits : List TypedTableEdit)
      → PendingSorted v.pending_edits
      → PendingSorted (committed_view sum v edits).pending_edits
  committed_view-Sorted v edits s =
      rw (pending-committed_view v edits) (pending_after-Sorted (next_of v) v.pending_edits edits s)

  generation-committed_view :
      (v : WorkingView) (edits : List TypedTableEdit)
      → v.generation + 1 < 2 ^ 64
      → (committed_view sum v edits).generation ≡ v.generation + 1
  unfolding committed_view
  generation-committed_view v edits h = next_of_lem v h

  -- A committed transaction's edits are marked with its generation.
  committed-ViewMarked :
      (v : WorkingView) (edits : List TypedTableEdit) (te : TypedTableEdit)
      → PendingSorted v.pending_edits
      → v.generation + 1 < 2 ^ 64
      → In te edits
      → ViewMarked (committed_view sum v edits) (v.generation + 1) te
  unfolding committed_view recorded
  committed-ViewMarked v edits te s h i =
      rw (pending-committed_view v edits, next_of_lem v h)
        (edits-IsMarked (v.generation + 1) (log_or_new v.writes (v.generation + 1)) v.pending_edits
          edits te s i)

  -- Later transactions keep the marks.
  ViewMarked-committed :
      (v : WorkingView) (edits : List TypedTableEdit) (g : ℕ) (te : TypedTableEdit)
      → PendingSorted v.pending_edits
      → v.generation + 1 < 2 ^ 64
      → g ≤ v.generation
      → ViewMarked v g te
      → ViewMarked (committed_view sum v edits) g te
  unfolding committed_view recorded
  ViewMarked-committed v edits g te s h gv m =
      rw (pending-committed_view v edits) (by_log v.writes m)
    where
      by_log :
          (o : Option WriteLog)
          → LogMarked o v.pending_edits g te
          → IsMarked
              (recorded o edits (next_of v))
              (pending_after (next_of v) v.pending_edits edits)
              g
              te
      by_log none m = absurd m
      by_log (some l) m = IsMarked-edits g (next_of v) l v.pending_edits edits te s (omega arith) m

  kept :
      (v : WorkingView) (history : List (List TypedTableEdit)) (g : ℕ) (te : TypedTableEdit)
      → PendingSorted v.pending_edits
      → v.generation + length history < 2 ^ 64
      → g ≤ v.generation
      → ViewMarked v g te
      → ViewMarked (after_commits sum v history) g te
        × (g ≤ (after_commits sum v history).generation)
  unfolding after_commits
  kept v [] g te s h gv m = (m, gv)
  kept v (edits ∷ history) g te s h gv m =
      let e = generation-committed_view v edits (omega arith) in
      kept (committed_view sum v edits) history g te (committed_view-Sorted v edits s)
        (omega (arith, e)) (omega (arith, e))
        (ViewMarked-committed v edits g te s (omega arith) gv m)

  history_marked :
      (v : WorkingView) (history : List (List TypedTableEdit)) (g : ℕ) (te : TypedTableEdit)
      → PendingSorted v.pending_edits
      → v.generation + length history < 2 ^ 64
      → CommittedAt te g v.generation history
      → ViewMarked (after_commits sum v history) g te
        × (g ≤ (after_commits sum v history).generation)
  unfolding after_commits
  history_marked v [] g te s h c = absurd c
  history_marked v (edits ∷ history) g te s h (inl (e, i)) =
      let e' = generation-committed_view v edits (omega arith) in
      rw e (
        kept (committed_view sum v edits) history (v.generation + 1) te
          (committed_view-Sorted v edits s) (omega (arith, e')) (omega (arith, e'))
          (committed-ViewMarked v edits te s (omega arith) i))
  history_marked v (edits ∷ history) g te s h (inr c) =
      let e = generation-committed_view v edits (omega arith) in
      history_marked (committed_view sum v edits) history g te (committed_view-Sorted v edits s)
        (omega (arith, e)) (rw e c)

  no_conflict-Disjoint :
      (v : WorkingView) (base g : ℕ) (edits : List TypedTableEdit) (te other : TypedTableEdit)
      → write_conflict v base edits ≡ none
      → ViewMarked v g other
      → g ≤ v.generation
      → base < g
      → In te edits
      → other.table ≡ te.table
      → Disjoint other te
  unfolding write_conflict
  no_conflict-Disjoint v base g edits te other h m gv lt i e = by_log v.writes (ground (arith, h)) m
    where
      by_log :
          (o : Option WriteLog)
          → logged_conflict v o base edits ≡ none
          → LogMarked o v.pending_edits g other
          → Disjoint other te
      by_log none c k = absurd k
      by_log (some l) c k =
          marked-Disjoint v l base g te other (edits_conflict-In v l base edits te (ground arith) i)
            lt e k

  -- Let the pending runs of a view be sorted, let any history of transactions commit on it whose
  -- generations stay below 2^64, and let
  -- the test of a transaction with snapshot generation `base` find no conflict in the view after
  -- them. Then each edit of that transaction is disjoint from each edit `other` of the same table
  -- that the history committed after `base`: neither changes the table's schema, they have no row
  -- key in common, and no claim of one key of one unique index.
  pub first_committer_wins :
      (v : WorkingView) (history : List (List TypedTableEdit)) (base g : ℕ)
      (edits : List TypedTableEdit) (te other : TypedTableEdit)
      → PendingSorted v.pending_edits
      → v.generation + length history < 2 ^ 64
      → CommittedAt other g v.generation history
      → base < g
      → write_conflict (after_commits sum v history) base edits ≡ none
      → In te edits
      → other.table ≡ te.table
      → Disjoint other te
  first_committer_wins v history base g edits te other s bound c lt h i e =
      let (m, gv) = history_marked v history g other s bound c in
      no_conflict-Disjoint (after_commits sum v history) base g edits te other h m gv lt i e
