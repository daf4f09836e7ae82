-- ===== src/Models/Channel.antt =====
-- internal/models/channel.go
use open_nipper.Prelude.{ℤ, Bool, true, false, List, Text, codes}

-- `type ChannelType string`: values from configuration and from agents need not be constants.
abbrev pub ChannelType : Type 0
ChannelType = Text

abbrev pub whatsapp : ChannelType
whatsapp = codes "whatsapp"

abbrev pub slack : ChannelType
slack = codes "slack"

abbrev pub cron : ChannelType
cron = codes "cron"

abbrev pub mqtt : ChannelType
mqtt = codes "mqtt"

abbrev pub rabbitmq : ChannelType
rabbitmq = codes "rabbitmq"

pub record ChannelCapabilities : Type 0 where
  pub supports_markdown : Bool
  pub supports_streaming : Bool
  pub supports_images : Bool
  pub supports_documents : Bool
  pub supports_audio : Bool
  pub supports_reactions : Bool
  pub supports_threads : Bool
  pub supports_message_edits : Bool

-- The zero value of the struct.
abbrev pub no_capabilities : ChannelCapabilities
no_capabilities = record {
  supports_markdown = false;
  supports_streaming = false;
  supports_images = false;
  supports_documents = false;
  supports_audio = false;
  supports_reactions = false;
  supports_threads = false;
  supports_message_edits = false;
}

abbrev pub whatsapp_capabilities : ChannelCapabilities
whatsapp_capabilities = record {
  supports_markdown = false;
  supports_streaming = false;
  supports_images = true;
  supports_documents = true;
  supports_audio = true;
  supports_reactions = false;
  supports_threads = false;
  supports_message_edits = false;
}

abbrev pub slack_capabilities : ChannelCapabilities
slack_capabilities = record {
  supports_markdown = true;
  supports_streaming = true;
  supports_images = true;
  supports_documents = true;
  supports_audio = false;
  supports_reactions = true;
  supports_threads = true;
  supports_message_edits = true;
}

abbrev pub cron_capabilities : ChannelCapabilities
cron_capabilities = no_capabilities

abbrev pub mqtt_capabilities : ChannelCapabilities
mqtt_capabilities = no_capabilities

abbrev pub rabbitmq_capabilities : ChannelCapabilities
rabbitmq_capabilities = no_capabilities

pub record DeliveryContext : Type 0 where
  pub channel_type : ChannelType
  pub channel_id : Text
  pub reply_mode : Text
  pub thread_id : Text
  pub notify_channels : List Text
  pub capabilities : ChannelCapabilities

pub record WhatsAppMeta : Type 0 where
  pub wuzapi_user_id : Text
  pub wuzapi_instance_name : Text
  pub wuzapi_base_url : Text
  pub chat_jid : Text
  pub sender_jid : Text
  pub message_id : Text
  pub push_name : Text
  pub is_group : Bool
  pub is_from_me : Bool
  pub quoted_message_id : Text
  pub quoted_participant : Text
  pub has_media : Bool
  pub media_type : Text
  pub s3_url : Text
  pub media_key : Text

pub record SlackMeta : Type 0 where
  pub team_id : Text
  pub channel_id : Text
  pub slack_user_id : Text
  pub thread_ts : Text
  pub message_ts : Text
  pub app_id : Text
  pub bot_id : Text
  pub bot_token : Text

pub record CronMeta : Type 0 where
  pub job_id : Text
  pub schedule_at : Text

pub record MqttMeta : Type 0 where
  pub broker : Text
  pub topic : Text
  pub qos : ℤ
  pub retain : Bool
  pub client_id : Text
  pub correlation_id : Text
  pub response_topic : Text

pub record RabbitMqMeta : Type 0 where
  pub exchange : Text
  pub routing_key : Text
  pub correlation_id : Text
  pub reply_to : Text
  pub message_id : Text

-- The implementations of the marker interface; a nil interface is the `none` of an `Option`.
pub data ChannelMeta : Type 0 where
  whatsapp_meta : WhatsAppMeta → ChannelMeta
  slack_meta : SlackMeta → ChannelMeta
  cron_meta : CronMeta → ChannelMeta
  mqtt_meta : MqttMeta → ChannelMeta
  rabbitmq_meta : RabbitMqMeta → ChannelMeta
  raw_meta : Text → ChannelMeta
