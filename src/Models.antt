-- ===== src/Models.antt =====
-- internal/models: the canonical data that flows through the gateway. Go strings are `Text`,
-- pointers are `Option`, and a time is the number of nanoseconds since Go's zero time, so that 0
-- is `IsZero`. What JSON leaves as `any` or as a float is kept as the text of its JSON.
pub mod Channel
pub mod Message
pub mod Event
pub mod Queue
pub mod Session
pub mod User
