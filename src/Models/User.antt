-- ===== src/Models/User.antt =====
-- internal/models/user.go: what the datastore holds. A map of any values is kept as its JSON text.
use open_nipper.Prelude.{ℕ, Bool, Option, List, Text}

pub record User : Type 0 where
  pub id : Text
  pub name : Text
  pub enabled : Bool
  pub default_model : Text
  pub created_at : ℕ
  pub updated_at : ℕ
  pub preferences : Text

pub record CreateUserRequest : Type 0 where
  pub name : Text
  pub default_model : Text
  pub preferences : Text

pub record UpdateUserRequest : Type 0 where
  pub name : Option Text
  pub default_model : Option Text
  pub enabled : Option Bool
  pub preferences : Text

pub data AgentStatus : Type 0 where
  provisioned registered revoked : AgentStatus

pub record Agent : Type 0 where
  pub id : Text
  pub user_id : Text
  pub label : Text
  pub token_hash : Text
  pub token_prefix : Text
  pub rmq_username : Text
  pub status : AgentStatus
  pub last_registered_at : Option ℕ
  pub last_registered_ip : Text
  pub created_at : ℕ
  pub updated_at : ℕ

pub record ProvisionAgentRequest : Type 0 where
  pub user_id : Text
  pub label : Text
  pub token_hash : Text
  pub token_prefix : Text

pub record AgentRegistrationMeta : Type 0 where
  pub ip : Text
  pub agent_type : Text
  pub version : Text

pub record PolicyData : Type 0 where
  pub allow : List Text
  pub deny : List Text
  pub rate_limit : Text
  pub models : Text
  pub extra : Text
