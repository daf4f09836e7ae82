-- ===== src/Session.antt =====
-- pkg/session: session keys, and the files of a session.
pub mod Key
pub mod Lock
pub mod Types
pub mod Store
pub mod Compaction
