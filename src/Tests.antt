-- ===== src/Tests.antt =====
-- Runs of the models on concrete inputs, and the theorems at such inputs.
mod Fixtures
mod Keys
mod Seen
mod Queues
mod Runs
mod Messages
mod Limits
mod Agents
mod Locks
mod Cron
mod Store
mod Paths
mod Monitor
mod Cache
