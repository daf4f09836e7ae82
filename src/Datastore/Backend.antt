-- ===== src/Datastore/Backend.antt =====
-- internal/datastore/interface.go: the reads that are cached, and the writes to what they read, over an
-- unknown database. Reads are told apart by a query, and writes by a request.
use open_nipper.Prelude.{
  ℕ, ◌≡◌, Bool, true, false, Option, some, Text, Result, list_eq, nat_eq, ◌==◌, ◌&&◌, ◌||◌,
}
use open_nipper.Allowlist.{wildcard}
use open_nipper.Models.User.{
  CreateUserRequest, UpdateUserRequest, AgentStatus, Agent, ProvisionAgentRequest,
  AgentRegistrationMeta, PolicyData,
}

pub data Query : Type 0 where
  -- ResolveIdentity: a channel type and a channel identity
  identity : Text → Text → Query
  -- IsAllowed: a user and a channel type
  allowed : Text → Text → Query
  -- IsUserEnabled
  user_enabled : Text → Query
  -- GetUserPolicy: a user and a policy type
  policy : Text → Text → Query
  -- GetAgentByTokenHash
  agent_token : Text → Query

-- What a query answers; a nil pointer is none.
abbrev pub Value : Query → Type 0
Value (identity ct id) = Text
Value (allowed user ct) = Bool
Value (user_enabled user) = Bool
Value (policy user kind) = Option PolicyData
Value (agent_token hash) = Option Agent

pub data Write : Type 0 where
  add_identity : Text → Text → Text → Write
  remove_identity : ℕ → Write
  set_allowed : Text → Text → Bool → Text → Write
  remove_allowed : Text → Text → Write
  create_user : CreateUserRequest → Write
  update_user : Text → UpdateUserRequest → Write
  delete_user : Text → Write
  set_user_policy : Text → Text → PolicyData → Write
  delete_user_policy : Text → Text → Write
  provision_agent : ProvisionAgentRequest → Write
  rotate_agent_token : Text → Text → Text → Write
  update_agent_status : Text → AgentStatus → Option AgentRegistrationMeta → Write
  set_agent_rmq_username : Text → Text → Write
  revoke_agent delete_agent : Text → Write

pub record Backend : Type 1 where
  pub Db : Type 0
  pub ask : Db → (q : Query) → Result Text (Value q)
  -- the database after a write, and the error, if there is one
  pub write : Db → Write → Db × Option Text

unfoldable pub is_agent : Query → Bool
is_agent (agent_token hash) = true
is_agent _ = false

unfoldable pub is_enabled_of : Text → Query → Bool
is_enabled_of user (user_enabled u) = user == u
is_enabled_of user _ = false

unfoldable pub is_identity : Text → Text → Query → Bool
is_identity ct id (identity c i) = (ct == c) && (id == i)
is_identity ct id _ = false

-- An entry of the allowlist for the wildcard stands for every channel type.
unfoldable pub is_allowed : Text → Text → Query → Bool
is_allowed user ct (allowed u c) = (user == u) && ((ct == wildcard) || (ct == c))
is_allowed user ct _ = false

unfoldable pub is_policy : Text → Text → Query → Bool
is_policy user kind (policy u k) = (user == u) && (kind == k)
is_policy user kind _ = false

-- Which answers a write may change. Removing an identity by its number may change any identity, a
-- created user has a new identifier, the wildcard entry of a user decides every channel type without
-- an entry, and deleting a user deletes what belongs to it.
unfoldable pub touches : Write → Query → Bool
unfolding is_agent is_enabled_of is_identity is_allowed is_policy
touches (add_identity user ct id) q = is_identity ct id q
touches (remove_identity n) (identity ct id) = true
touches (remove_identity n) _ = false
touches (set_allowed user ct on by) q = is_allowed user ct q
touches (remove_allowed user ct) q = is_allowed user ct q
touches (create_user req) (user_enabled u) = true
touches (create_user req) _ = false
touches (update_user user req) q = is_enabled_of user q
touches (delete_user user) q = true
touches (set_user_policy user kind p) q = is_policy user kind q
touches (delete_user_policy user kind) q = is_policy user kind q
touches (provision_agent req) q = is_agent q
touches (rotate_agent_token id hash prefix) q = is_agent q
touches (update_agent_status id status meta) q = is_agent q
touches (set_agent_rmq_username id name) q = is_agent q
touches (revoke_agent id) q = is_agent q
touches (delete_agent id) q = is_agent q

-- What the cache relies on: a write that fails changes no answer, and one that succeeds changes only
-- those it touches.
pub record IsFramed (B : Backend) : Type 0 where
  pub failed :
      (db : B.Db) (w : Write) (e : Text) (q : Query)
      → (B.write db w).1 ≡ some e
      → B.ask (B.write db w).0 q ≡ B.ask db q
  pub untouched :
      (db : B.Db) (w : Write) (q : Query)
      → touches w q ≡ false
      → B.ask (B.write db w).0 q ≡ B.ask db q
