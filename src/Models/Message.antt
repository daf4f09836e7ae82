-- ===== src/Models/Message.antt =====
-- internal/models/message.go: inbound messages and outbound responses.
use open_nipper.Prelude.{ℕ, ℤ, List, Option, Text}
use open_nipper.Models.Channel.{ChannelType, ChannelMeta, DeliveryContext}

pub record ContentPart : Type 0 where
  pub kind : Text
  pub text : Text
  pub url : Text
  pub mime_type : Text
  pub caption : Text
  pub transcript : Text
  pub latitude : Text
  pub longitude : Text
  pub address : Text

pub record MessageContent : Type 0 where
  pub text : Text
  pub parts : List ContentPart

pub record NipperMessage : Type 0 where
  pub message_id : Text
  pub origin_message_id : Text
  pub user_id : Text
  pub session_key : Text
  pub channel_type : ChannelType
  pub channel_identity : Text
  pub content : MessageContent
  pub delivery_context : DeliveryContext
  pub meta : Option ChannelMeta
  pub timestamp : ℕ
  pub dedupe_key : Text

-- internal/models/session.go
pub record ContextUsage : Type 0 where
  pub input_tokens : ℤ
  pub output_tokens : ℤ
  pub cache_read_tokens : ℤ
  pub context_window : ℤ
  pub usage_percent : Text

pub record NipperResponse : Type 0 where
  pub response_id : Text
  pub session_key : Text
  pub user_id : Text
  pub channel_type : ChannelType
  pub channel_identity : Text
  pub text : Text
  pub parts : List ContentPart
  pub delivery_context : DeliveryContext
  pub meta : Option ChannelMeta
  pub origin_message_id : Text
  pub timestamp : ℕ
  pub context_usage : Option ContextUsage
