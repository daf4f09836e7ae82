-- ===== src/Models/Event.antt =====
-- internal/models/message.go: the events that an agent emits.
use open_nipper.Prelude.{ℕ, ℤ, Bool, Option, Text}
use open_nipper.Models.Message.{ContextUsage}

-- `type NipperEventType string`: the constants, and any other text.
pub data EventType : Type 0 where
  delta tool_start tool_progress tool_end thinking error done : EventType
  skill_loaded skill_execution_start skill_execution_end skill_secret_resolved : EventType
  unknown : Text → EventType

pub record EventDelta : Type 0 where
  pub text : Text

pub record EventToolInfo : Type 0 where
  pub tool_name : Text
  pub tool_call_id : Text
  pub input : Text
  pub output : Text
  pub exit_code : ℤ

pub record EventThinking : Type 0 where
  pub text : Text

pub record EventError : Type 0 where
  pub code : Text
  pub message : Text
  pub recoverable : Bool

pub record EventSkillInfo : Type 0 where
  pub skill_name : Text
  pub has_config : Bool
  pub has_entrypoint : Bool
  pub args : Text
  pub exit_code : ℤ
  pub duration_ms : ℤ
  pub secret_name : Text
  pub provider : Text

pub record NipperEvent : Type 0 where
  pub event_id : Text
  pub kind : EventType
  pub session_key : Text
  pub response_id : Text
  pub timestamp : ℕ
  pub delta_text : Option EventDelta
  pub tool_info : Option EventToolInfo
  pub skill_info : Option EventSkillInfo
  pub thinking_text : Option EventThinking
  pub failure : Option EventError
  pub context_usage : Option ContextUsage
  pub user_id : Text
