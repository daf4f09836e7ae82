-- ===== src/Session/Types.antt =====
-- pkg/session/types.go: sessions as the agents keep them. A channel's own data is its JSON text.
use open_nipper.Prelude.{ℕ, ℤ, Text, Option}

pub data SessionStatus : Type 0 where
  active archived expired : SessionStatus

pub record ContextUsage : Type 0 where
  pub input_tokens : ℤ
  pub output_tokens : ℤ
  pub cache_read_tokens : ℤ
  pub context_window : ℤ
  pub usage_percent : Text

pub record SessionMetadata : Type 0 where
  pub model : Text
  pub compaction_level : Text
  pub compaction_count : ℕ
  pub message_count : ℕ
  pub context_usage : ContextUsage
  pub last_activity_at : ℕ
  pub channel_meta : Option Text

pub record Session : Type 0 where
  pub key : Text
  pub id : Text
  pub user_id : Text
  pub channel_type : Text
  pub status : SessionStatus
  pub metadata : SessionMetadata
  pub created_at : ℕ
  pub updated_at : ℕ

pub record TranscriptLine : Type 0 where
  pub role : Text
  pub content : Text
  pub timestamp : ℕ
  pub run_id : Text
  pub token_count : ℤ

pub record CreateSessionRequest : Type 0 where
  pub user_id : Text
  pub session_id : Text
  pub channel_type : Text
  pub model : Text
  pub channel_meta : Option Text
