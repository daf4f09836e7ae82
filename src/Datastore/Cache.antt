-- ===== src/Datastore/Cache.antt =====
-- internal/datastore/cache.go: the reads with a cache in front of the database, and the writes that
-- remove what they may have changed. A panic of a type assertion is none.
pub mod Keys
pub mod Runs
pub mod Recent
pub mod Coherent
pub mod Wildcard
use open_nipper.Prelude.{
  ℕ, ◌+◌, Bool, Option, none, some, List, [], ◌∷◌, ◌++◌, Text, codes, Result, ok, err,
}
use open_nipper.Models.User.{PolicyData, Agent}
use open_nipper.Datastore.Backend.{
  Query, identity, allowed, user_enabled, policy, agent_token, Value, Write, add_identity,
  remove_identity, set_allowed, remove_allowed, create_user, update_user, delete_user,
  set_user_policy, delete_user_policy, provision_agent, rotate_agent_token, update_agent_status,
  set_agent_rmq_username, revoke_agent, delete_agent, Backend,
}
use open_nipper.Datastore.TtlCache.{TtlCache}

-- What a key holds, an interface{} value with its dynamic type.
pub data Cached : Type 0 where
  a_text : Text → Cached
  a_flag : Bool → Cached
  a_policy : Option PolicyData → Cached
  an_agent : Option Agent → Cached

abbrev pub identity_ttl : ℕ
identity_ttl = 60

abbrev pub allowed_ttl : ℕ
allowed_ttl = 60

abbrev pub user_ttl : ℕ
user_ttl = 60

abbrev pub policy_ttl : ℕ
policy_ttl = 300

abbrev pub agent_ttl : ℕ
agent_ttl = 60

unfoldable pub identity_key : Text → Text → Text
identity_key channel_type channel_identity =
    codes "identity" ++ (codes ":" ++ (channel_type ++ (codes ":" ++ channel_identity)))

unfoldable pub allowed_key : Text → Text → Text
allowed_key user_id channel_type =
    codes "allowed" ++ (codes ":" ++ (user_id ++ (codes ":" ++ channel_type)))

unfoldable pub user_enabled_key : Text → Text
user_enabled_key user_id = codes "user_enabled" ++ (codes ":" ++ user_id)

unfoldable pub policy_key : Text → Text → Text
policy_key user_id policy_type =
    codes "policy" ++ (codes ":" ++ (user_id ++ (codes ":" ++ policy_type)))

unfoldable pub agent_token_key : Text → Text
agent_token_key token_hash = codes "agent_token" ++ (codes ":" ++ token_hash)

unfoldable pub key_of : Query → Text
key_of (identity ct id) = identity_key ct id
key_of (allowed user ct) = allowed_key user ct
key_of (user_enabled user) = user_enabled_key user
key_of (policy user kind) = policy_key user kind
key_of (agent_token hash) = agent_token_key hash

unfoldable pub ttl_of : Query → ℕ
ttl_of (identity ct id) = identity_ttl
ttl_of (allowed user ct) = allowed_ttl
ttl_of (user_enabled user) = user_ttl
ttl_of (policy user kind) = policy_ttl
ttl_of (agent_token hash) = agent_ttl

unfoldable pub wrap : (q : Query) → Value q → Cached
wrap (identity ct id) x = a_text x
wrap (allowed user ct) x = a_flag x
wrap (user_enabled user) x = a_flag x
wrap (policy user kind) x = a_policy x
wrap (agent_token hash) x = an_agent x

-- The type assertion of a read on what its key holds.
unfoldable pub unwrap : (q : Query) → Cached → Option (Value q)
unwrap (identity ct id) (a_text x) = some x
unwrap (identity ct id) _ = none
unwrap (allowed user ct) (a_flag x) = some x
unwrap (allowed user ct) _ = none
unwrap (user_enabled user) (a_flag x) = some x
unwrap (user_enabled user) _ = none
unwrap (policy user kind) (a_policy x) = some x
unwrap (policy user kind) _ = none
unwrap (agent_token hash) (an_agent x) = some x
unwrap (agent_token hash) _ = none

-- What a write that succeeded removes from the cache.
pub data Invalidation : Type 0 where
  keep drop_all : Invalidation
  drop : Text → Invalidation

unfoldable pub invalidation : Write → Invalidation
invalidation (add_identity user ct id) = drop (identity_key ct id)
invalidation (remove_identity id) = keep
invalidation (set_allowed user ct enabled by) = drop (allowed_key user ct)
invalidation (remove_allowed user ct) = drop (allowed_key user ct)
invalidation (create_user req) = keep
invalidation (update_user user req) = drop (user_enabled_key user)
invalidation (delete_user user) = drop (user_enabled_key user)
invalidation (set_user_policy user kind data_of) = drop (policy_key user kind)
invalidation (delete_user_policy user kind) = drop (policy_key user kind)
invalidation (provision_agent req) = keep
invalidation (rotate_agent_token id hash prefix) = drop_all
invalidation (update_agent_status id status meta) = drop_all
invalidation (set_agent_rmq_username id name) = keep
invalidation (revoke_agent id) = drop_all
invalidation (delete_agent id) = drop_all

module _ (B : Backend) (C : TtlCache Cached) where
  pub record CachedRepository : Type 0 where
    pub inner : B.Db
    pub cache : C.Entries

  unfoldable pub after_miss :
      ℕ
      → (q : Query) → CachedRepository
      → Result Text (Value q)
      → CachedRepository × Option (Result Text (Value q))
  after_miss now q r (err e) = (r, some (err e))
  after_miss now q r (ok x) = (
    record { inner = r.inner; cache = C.set now (key_of q) (wrap q x) (ttl_of q) r.cache },
    some (ok x),
  )

  unfoldable pub asserted : (q : Query) → Option (Value q) → Option (Result Text (Value q))
  asserted q none = none
  asserted q (some x) = some (ok x)

  unfoldable pub after_get :
      ℕ
      → (q : Query) → CachedRepository
      → Option Cached
      → CachedRepository × Option (Result Text (Value q))
  unfolding after_miss asserted
  after_get now q r (some v) = (r, asserted q (unwrap q v))
  after_get now q r none = after_miss now q r (B.ask r.inner q)

  -- ResolveIdentity, IsAllowed, IsUserEnabled, GetUserPolicy and GetAgentByTokenHash at a time.
  unfoldable pub cached_read :
      ℕ → CachedRepository → (q : Query) → CachedRepository × Option (Result Text (Value q))
  unfolding after_get
  cached_read now r q = after_get now q r (C.get now (key_of q) r.cache)

  unfoldable pub invalidate : Invalidation → C.Entries → C.Entries
  invalidate keep c = c
  invalidate drop_all c = C.flush c
  invalidate (drop k) c = C.delete k c

  unfoldable pub after_write :
      Write → C.Entries → B.Db × Option Text → CachedRepository × Option Text
  unfolding invalidate
  after_write w c (db, some e) = (record { inner = db; cache = c }, some e)
  after_write w c (db, none) = (record { inner = db; cache = invalidate (invalidation w) c }, none)

  -- The writes: the error of the database, and what stands in the cache after it.
  unfoldable pub cached_write : CachedRepository → Write → CachedRepository × Option Text
  unfolding after_write
  cached_write r w = after_write w r.cache (B.write r.inner w)
