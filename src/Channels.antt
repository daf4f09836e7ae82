-- ===== src/Channels.antt =====
-- internal/channels: the adapters of the chat channels.
pub mod Cron
