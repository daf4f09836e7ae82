-- ===== src/Tests/Monitor.antt =====
-- Cycles of the health monitor.
use open_nipper.Prelude.{ℕ, ◌≡◌, refl, none, some, [], ◌∷◌, if◌then◌else◌, list_eq, nat_eq, ℕ}
use open_nipper.Prelude.GoMap.{lookup}
use open_nipper.Models.User.{Agent, registered}
use open_nipper.Gateway.HealthMonitor.{
  CycleEnv, was_seen, is_watched, has_active, derive_agent_status, user_agent_queue, check_all,
}
use open_nipper.Gateway.HealthMonitor.Cycle.{entry_after, cycle_statuses}
use open_nipper.Gateway.HealthMonitor.Streak.{
  FindsDegraded, degraded_time, run, degraded_since_first,
}
use open_nipper.Tests.Fixtures.{ann, bob}

abbrev agent : Agent
agent = record {
  id = [];
  user_id = ann;
  label = [];
  token_hash = [];
  token_prefix = [];
  rmq_username = [];
  status = registered;
  last_registered_at = none;
  last_registered_ip = [];
  created_at = 0;
  updated_at = 0;
}

-- A cycle at a time that finds messages of ann and no consumer.
abbrev cycle_at : ℕ → CycleEnv
cycle_at now = record {
  list_users = some (ann ∷ bob ∷ []);
  list_agents = λ user. some (agent ∷ []);
  queue_info =
      λ user. some (record { consumers = 0; messages_ready = 3; messages_unacknowledged = 0 });
  clock = λ user. now;
}

finds_degraded : (now : ℕ) → FindsDegraded ann (cycle_at now)
unfolding was_seen is_watched has_active derive_agent_status user_agent_queue
finds_degraded now = record { users = ann ∷ bob ∷ []; listed = refl; seen = refl; state = refl }

cycle_statuses_example : lookup bob (check_all (cycle_at 60) []) ≡ (
    if was_seen (cycle_at 60) (ann ∷ bob ∷ []) bob
    then some (entry_after (cycle_at 60) bob (lookup bob []))
    else none)
cycle_statuses_example = cycle_statuses (cycle_at 60) (ann ∷ bob ∷ []) bob [] tt refl

degraded_since_first_example :
    degraded_time ann (run (cycle_at 60 ∷ cycle_at 120 ∷ cycle_at 180 ∷ []) []) ≡ some 60
unfolding lookup
degraded_since_first_example =
    degraded_since_first (cycle_at 60) (cycle_at 120 ∷ cycle_at 180 ∷ []) ann [] tt refl
      (finds_degraded 60) (finds_degraded 120, (finds_degraded 180, tt))
