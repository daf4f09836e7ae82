-- ===== src/Datastore.antt =====
-- internal/datastore: the repository that the gateway reads and writes.
pub mod Backend
pub mod TtlCache
pub mod Cache
