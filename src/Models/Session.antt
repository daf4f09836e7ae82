-- ===== src/Models/Session.antt =====
-- internal/models/session.go: the descriptor and the transcript of a session.
use open_nipper.Prelude.{ℕ, ℤ, Text}
use open_nipper.Models.Channel.{ChannelType, DeliveryContext}
use open_nipper.Models.Message.{ContextUsage}

pub data SessionStatus : Type 0 where
  active archived expired : SessionStatus

pub record SessionMetadata : Type 0 where
  pub model : Text
  pub compaction_level : Text
  pub compaction_count : ℤ
  pub message_count : ℤ
  pub context_usage : ContextUsage
  pub last_activity_at : ℕ
  pub delivery_context : DeliveryContext

pub record Session : Type 0 where
  pub key : Text
  pub id : Text
  pub user_id : Text
  pub channel_type : ChannelType
  pub status : SessionStatus
  pub metadata : SessionMetadata
  pub created_at : ℕ
  pub updated_at : ℕ

pub record TranscriptLine : Type 0 where
  pub role : Text
  pub content : Text
  pub timestamp : ℕ
  pub run_id : Text
  pub token_count : ℤ
