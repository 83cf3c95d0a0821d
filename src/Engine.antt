-- ===== src/Engine.antt =====
-- engine: keys, rows, scans and merges.
pub mod KeyCodec
pub mod RowCodec
pub mod IndexKeys
pub mod Ranges
pub mod Scan
pub mod Base64
pub mod MergeRows
