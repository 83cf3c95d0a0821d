-- ===== src/Storage.antt =====
-- common/storage: names of objects and the store in memory. SHA-256 is the parameter `sum`.
pub mod Memory
