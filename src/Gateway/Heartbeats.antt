-- ===== src/Gateway/Heartbeats.antt =====
-- internal/gateway/heartbeat_store.go: the last heartbeat of each agent. `now` is the clock reading
-- of a method.
pub mod Staleness
use open_nipper.Prelude.{
  ℕ, ◌-◌, Bool, true, false, ◌&&◌, not, Option, none, some, List, [], ◌∷◌, Text, codes, ltb,
  if◌then◌else◌, Dict, list_eq, nat_eq, ◌==◌,
}
use open_nipper.Prelude.GoMap.{insert, sweep}

pub record HeartbeatEntry : Type 0 where
  pub agent_id : Text
  pub user_id : Text
  pub status : Text
  pub last_seen : ℕ

abbrev pub HeartbeatStore : Type 0
HeartbeatStore = Dict Text HeartbeatEntry

abbrev pub new_heartbeat_store : HeartbeatStore
new_heartbeat_store = []

abbrev pub failed : Text
failed = codes "failed"

abbrev pub entry_at : ℕ → Text → Text → Text → HeartbeatEntry
entry_at now agent user status = record {
  agent_id = agent;
  user_id = user;
  status = status;
  last_seen = now;
}

-- Record
unfoldable pub record_heartbeat : ℕ → Text → Text → Text → HeartbeatStore → HeartbeatStore
record_heartbeat now agent user status s = insert agent (entry_at now agent user status) s

-- What the admin endpoint shows of an entry.
pub record HeartbeatInfo : Type 0 where
  pub agent_id : Text
  pub user_id : Text
  pub status : Text
  pub last_seen : Text

-- GetAll, with the time formatting as a parameter.
unfoldable pub get_all : (ℕ → Text) → HeartbeatStore → List HeartbeatInfo
get_all format [] = []
get_all format ((id, e) ∷ s) =
    record {
      agent_id = e.agent_id;
      user_id = e.user_id;
      status = e.status;
      last_seen = format e.last_seen;
    }
    ∷ get_all format s

-- The body of the loop of MarkStaleAsFailed.
abbrev pub mark_entry : ℕ → Text → HeartbeatEntry → Option HeartbeatEntry
mark_entry cutoff id e =
    if ltb e.last_seen cutoff && not (e.status == failed)
    then some (record e { status = failed })
    else some e

-- MarkStaleAsFailed
unfoldable pub mark_stale_as_failed : ℕ → ℕ → HeartbeatStore → HeartbeatStore
mark_stale_as_failed now older_than s = sweep (mark_entry (now - older_than)) s
