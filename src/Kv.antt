-- ===== src/Kv.antt =====
-- kv_ftl.c: the key-value namespace, with append_only.c and bitmap.c, its allocators.
pub mod State
pub mod Mapping
pub mod Allocate
pub mod Command
pub mod Perform
pub mod Iterate
pub mod Namespace
