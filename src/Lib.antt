-- ===== src/Lib.antt =====
-- RepoDB: an SQL database that keeps its data in Git.
--
-- The program's parts, from the bottom up. Paths are from the repository's root.
--
-- Base, Bytes: shared helpers. `Base/Search` is Go's `sort.Search`; `Bytes` has byte strings with
--   `bytes.Compare`, and under it sorted slices (`Bytes/Sorted`), Go maps with string keys as
--   association lists (`Bytes/Assoc`) and big-endian numbers (`Bytes/BigEndian`).
-- Storage/Memory: common/storage/memory.go, with `get` and `put` for `Get` and `Put`.
-- Prolly: the content-addressed tree of common/prolly. `Prolly/Codec` is codec.go, over the standard
--   library's `Prolly/Varint` and `Prolly/Hex`: `encode_node` for `encodeNode`, and the readers under
--   their Go names up to `decode_node` for `decodeNode`. `Prolly/Chunk` has `Options`, `should_cut`,
--   `key_boundary_hash` and `chunk` of tree.go. `Prolly/Tree` has `build` and `apply` for `Build` and
--   `Apply`, `leaf_links`, `LeafChunker` with `add` and `flush`, and `build_levels` for the loop that
--   `Build` and `buildFromLeafLinks` share. A tree is the hash of its root. `Tree/Merge` is the
--   reference for the edited entries, `Tree/Walk` and `Tree/Loop` follow the walk over the leaves, and
--   `Tree/AnyOrder` and `Tree/Contents` are about the entries given to `Build`.
-- Repository/Pending: common/repository/pending.go. `PendingRows` is the list of sorted runs;
--   `with_generation` is `with`, with `sort_positions` for `slices.SortFunc`, `unique_edits` for
--   the loop over the sorted positions, `compact_runs` for the size-tiered merging and `merge_runs`
--   for `mergeRuns`; `get` is `Get`. `Pending/Iter` has the iterator: `iter`, and `next` for `Next`.
-- Repository/Working: the snapshots of common/repository/working.go and repository.go, and
--   `apply_typed_edits` for `applyTypedEditsToSnapshot`.
-- Repository/WriteLog: common/repository/writelog.go. `recorded` extends the log by one transaction
--   and `write_conflict` tests a transaction against it.
-- Repository/Commit: `CommitTypedEdits` on a loaded view. `committed_view` is the view that it
--   caches, `after_commits` the view after a whole history of commits.
-- Repository/Journal: the frames of the journal of common/repository/working.go, `append_records` for
--   `appendRecords` and `read_frames` for the loop of `readJournalFrames`. JSON and CRC-32 are
--   parameters.
-- Engine/KeyCodec: engine/keycodec.go: `append_escaped` for `appendEscaped` and `key_prefix_end` for
--   `keyPrefixEnd`; `KeyCodec/Column` is `appendKeyColumn`, without decimals and with the default
--   and the binary collation only; `Column/Meaning` is how the values themselves compare.
-- Engine/RowCodec: engine/rowcodec.go. `RowCodec/Cell` has `append_cell` for `appendCell`, `cell` and
--   `skip` with the readers of `rowDecoder` under them; `RowCodec/Row` has `encode_row` and
--   `decode_row` with the NULL bitmap, `RowCodec/Projection` has `new_row_projection`, `project` and
--   `decode_row_projected`. Float conversions, decimal rounding and JSON are parameters.
-- Engine/IndexKeys: `encodeKey` and `encodeIndexKey` of engine/catalog.go as `encode_key` and
--   `encode_index_key`, over the columns of a row.
-- Engine/Ranges: engine/ranges.go: `Ranges/Cuts` takes a range of the SQL engine to an interval of
--   keys, `range_interval` for `rangeInterval` with `lower_cut_key` and `upper_cut_key` under it, and
--   `Cuts/Meaning` is what a range says of a row's values; `Ranges/Merge` is `mergeIntervals` and
--   `rangeIntervals`. `Type.Convert` and `reflect.DeepEqual` are parameters.
-- Engine/Scan: the scans of engine/ranges.go over those intervals, in either direction.
--   `RowOverlayCursor` merges a transaction's edits with the pending ones, `MergedEntries` merges those
--   with a tree's entries, and `Scan/Iter` is `primaryRowIter`, with `round` for one turn of the loop in
--   its `Next`. `Iterators` says what the iterators of the tree and of the pending edits give.
-- Engine/MergeRows: engine/merge.go: `merge_loop` is the loop of `mergeRows`, `decide` its switch;
--   `MergeRows/Disjoint` and `MergeRows/FastForward` are about changes of one side only.
--
-- A commit goes through `write_conflict`, which reads the write log and, by `get`, the pending rows
-- of the view; then `apply_typed_edits` overlays the rows by `with_generation`, and `recorded` adds
-- the transaction to the log.
--
-- Bounds and fuel. Numbers are unbounded except where the source's wrap-around can show: the
-- generation of a commit is taken modulo 2^64, and the integers of keys and cells have the width of
-- their type. `search` runs on the length of the interval, which
-- each round shrinks. `drain` and `merge_loop` run on fuel that their theorems bound by the number of
-- entries. `build_levels` runs on the number of links, which each level lowers for a minimum chunk of
-- two; `leaf_links` runs on a bound of the tree's height. `read_frames` runs on one more than
-- the number of records. `drain` of a scan runs on more rounds than its intervals, edits and entries.
--
-- Not modelled: the calls of Git, files, locks and the SQL engine, which are I/O or third-party
-- code; SHA-256 is a parameter. The object store is the parameters `put` and `get`; that it gives back
-- what it was given is a hypothesis (`Keeps`). Reads of a tree's nodes are taken to succeed in
-- `merge_loop` and in scans, which leave out rows held in memory and index scans.
pub mod Base
pub mod Bytes
pub mod Storage
pub mod Prolly
pub mod Repository
pub mod Engine
