-- ===== src/Engine/RowCodec.antt =====
-- engine/rowcodec.go: rows as bytes.
pub mod Values
pub mod Cell
pub mod Row
pub mod Projection
mod Examples
