-- ===== src/Models/Queue.antt =====
-- internal/models/queue.go, and the queue section of internal/config/config.go.
use open_nipper.Prelude.{ℕ, ℤ, List, Text, codes, Dict}
use open_nipper.Models.Message.{NipperMessage}

-- `type QueueMode string`: the configuration may hold any text.
abbrev pub QueueMode : Type 0
QueueMode = Text

abbrev pub collect : QueueMode
collect = codes "collect"

abbrev pub interrupt : QueueMode
interrupt = codes "interrupt"

abbrev pub queue : QueueMode
queue = codes "queue"

pub record QueueItem : Type 0 where
  pub id : Text
  pub message : NipperMessage
  pub mode : QueueMode
  pub priority : ℤ
  pub enqueued_at : ℕ
  pub collected_messages : List NipperMessage

pub data ControlMessageType : Type 0 where
  interrupt_run abort_run : ControlMessageType

pub record ControlMessage : Type 0 where
  pub kind : ControlMessageType
  pub user_id : Text
  pub session_key : Text
  pub timestamp : ℕ

pub record ChannelQueueMode : Type 0 where
  pub mode : Text
  pub debounce_ms : ℤ
  pub collect_cap : ℤ
  pub priority : ℤ

-- The fields that the router reads.
pub record QueueConfig : Type 0 where
  pub default_mode : Text
  pub per_channel : Dict Text ChannelQueueMode
