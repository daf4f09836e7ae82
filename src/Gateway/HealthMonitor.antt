-- ===== src/Gateway/HealthMonitor.antt =====
-- internal/gateway/healthmon.go: the health of each user's agent queue. The datastore and the
-- management API are what they answer in one cycle; counts are not negative.
pub mod Cycle
pub mod Streak
use open_nipper.Prelude.{
  ℕ, ◌+◌, ◌*◌, Bool, true, false, ◌&&◌, ◌||◌, not, Option, none, some, List, [], ◌∷◌, ◌++◌, Text,
  codes, is_empty, ltb, if◌then◌else◌, Dict, Result, ok, err, list_eq, nat_eq, ◌==◌, ℤ, positive_or,
}
use open_nipper.Models.User.{Agent, AgentStatus, revoked}
use open_nipper.Prelude.GoMap.{lookup, insert, sweep}

pub data HealthState : Type 0 where
  processing idle degraded offline : HealthState

pub record AgentHealthStatus : Type 0 where
  pub user_id : Text
  pub queue_name : Text
  pub consumer_count : ℕ
  pub messages_ready : ℕ
  pub messages_unacknowledged : ℕ
  pub status : HealthState
  pub degraded_since : Option ℕ
  pub last_checked : ℕ

abbrev pub Statuses : Type 0
Statuses = Dict Text AgentHealthStatus

pub record QueueInfo : Type 0 where
  pub consumers : ℕ
  pub messages_ready : ℕ
  pub messages_unacknowledged : ℕ

abbrev is_positive : ℕ → Bool
is_positive n = ltb 0 n

unfoldable pub derive_agent_status : ℕ → ℕ → ℕ → HealthState
derive_agent_status consumers ready unacked =
    if is_positive consumers && is_positive unacked
    then processing
    else if is_positive consumers
    then idle
    else if (consumers == 0) && is_positive ready
    then degraded
    else offline

-- Since when an entry says that its queue is degraded.
abbrev since_of : HealthState → Option ℕ → Option ℕ
since_of degraded since = since
since_of _ since = none

abbrev known_since : Option AgentHealthStatus → Option ℕ
known_since none = none
known_since (some e) = since_of e.status e.degraded_since

abbrev or_now : ℕ → Option ℕ → Option ℕ
or_now now none = some now
or_now now (some t) = some t

-- The new `DegradedSince`, from the entry before.
abbrev degraded_from : ℕ → HealthState → Option AgentHealthStatus → Option ℕ
degraded_from now degraded existing = or_now now (known_since existing)
degraded_from now _ existing = none

-- updateStatus, which logs a queue that is degraded for too long.
unfoldable pub update_status : ℕ → Text → Text → QueueInfo → Statuses → Statuses
unfolding derive_agent_status
update_status now user queue info s =
    let status =
      derive_agent_status info.consumers info.messages_ready info.messages_unacknowledged in
    let entry : AgentHealthStatus = record {
      user_id = user;
      queue_name = queue;
      consumer_count = info.consumers;
      messages_ready = info.messages_ready;
      messages_unacknowledged = info.messages_unacknowledged;
      status = status;
      degraded_since = degraded_from now status (lookup user s);
      last_checked = now;
    } in
    insert user entry s

-- internal/queue/topology.go
unfoldable pub user_agent_queue : Text → Text
user_agent_queue user = codes "nipper-agent-" ++ user

-- The answers of one cycle, and the reading of the clock for each user.
pub record CycleEnv : Type 0 where
  pub list_users : Option (List Text)
  pub list_agents : Text → Option (List Agent)
  pub queue_info : Text → Option QueueInfo
  pub clock : Text → ℕ

abbrev is_revoked : AgentStatus → Bool
is_revoked revoked = true
is_revoked _ = false

unfoldable pub has_active : List Agent → Bool
has_active [] = false
has_active (a ∷ agents) = not (is_revoked a.status) || has_active agents

abbrev active_in : Option (List Agent) → Bool
active_in none = false
active_in (some agents) = has_active agents

-- Whether the cycle looks at the queue of a user.
unfoldable pub is_watched : CycleEnv → Text → Bool
unfolding has_active
is_watched env user = active_in (env.list_agents user)

-- What a failed request of the queue counts as.
abbrev info_or_zero : Option QueueInfo → QueueInfo
info_or_zero none = record { consumers = 0; messages_ready = 0; messages_unacknowledged = 0 }
info_or_zero (some info) = info

-- The body of the loop over the users.
unfoldable pub check_user : CycleEnv → Text → Statuses → Statuses
unfolding is_watched update_status
check_user env user s =
    if is_watched env user
    then update_status (env.clock user) user (user_agent_queue user)
        (info_or_zero (env.queue_info user)) s
    else s

unfoldable pub check_users : CycleEnv → List Text → Statuses → Statuses
unfolding check_user
check_users env [] s = s
check_users env (user ∷ users) s = check_users env users (check_user env user s)

-- seen[uid]
unfoldable pub was_seen : CycleEnv → List Text → Text → Bool
unfolding is_watched
was_seen env [] uid = false
was_seen env (user ∷ users) uid = ((user == uid) && is_watched env user) || was_seen env users uid

abbrev keep_seen : CycleEnv → List Text → Text → AgentHealthStatus → Option AgentHealthStatus
keep_seen env users uid e = if was_seen env users uid then some e else none

check_listed : CycleEnv → Option (List Text) → Statuses → Statuses
check_listed env none s = s
check_listed env (some users) s = sweep (keep_seen env users) (check_users env users s)

-- checkAll
unfoldable pub check_all : CycleEnv → Statuses → Statuses
unfolding check_listed check_users was_seen
check_all env s = check_listed env env.list_users s

-- GetStatus
unfoldable pub get_status : Text → Statuses → Option AgentHealthStatus
get_status user s = lookup user s

-- models.AgentHealthInfo, in internal/models/user.go
pub record AgentHealthInfo : Type 0 where
  pub user_id : Text
  pub queue : Text
  pub consumer_count : ℕ
  pub messages_ready : ℕ
  pub status : HealthState

-- GetAllStatuses
unfoldable pub get_all_statuses : Statuses → List AgentHealthInfo
get_all_statuses [] = []
get_all_statuses ((id, e) ∷ s) =
    record {
      user_id = e.user_id;
      queue = e.queue_name;
      consumer_count = e.consumer_count;
      messages_ready = e.messages_ready;
      status = e.status;
    }
    ∷ get_all_statuses s
