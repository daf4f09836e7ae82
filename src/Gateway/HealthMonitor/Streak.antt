-- ===== src/Gateway/HealthMonitor/Streak.antt =====
-- Since when the queue of a user has been degraded, over any number of cycles.
use open_nipper.Prelude.{
  ℕ, ◌≡◌, ap, ◌∙◌, true, Option, none, some, List, [], ◌∷◌, Text, list_eq, nat_eq, All, if_true,
}
use open_nipper.Prelude.GoMap.{lookup, Unique}
use open_nipper.Gateway.HealthMonitor.{
  degraded, AgentHealthStatus, Statuses, degraded_from, or_now, known_since, since_of, CycleEnv,
  was_seen, check_all,
}
use open_nipper.Gateway.HealthMonitor.Cycle.{
  state_in, entry_after, cycle_statuses, check_all-Unique,
}

unfoldable pub run : List CycleEnv → Statuses → Statuses
run [] s = s
run (c ∷ cs) s = run cs (check_all c s)

-- A cycle finds the queue of a user degraded.
pub record FindsDegraded (uid : Text) (c : CycleEnv) : Type 0 where
  pub users : List Text
  pub listed : c.list_users ≡ some users
  pub seen : was_seen c users uid ≡ true
  pub state : state_in c uid ≡ degraded

-- The time from which the entry of a user says that its queue has been degraded, if it is.
abbrev pub degraded_time : Text → Statuses → Option ℕ
degraded_time uid s = known_since (lookup uid s)

since-entry :
    (c : CycleEnv) (uid : Text) (o : Option AgentHealthStatus)
    → state_in c uid ≡ degraded
    → known_since (some (entry_after c uid o)) ≡ or_now (c.clock uid) (known_since o)
since-entry c uid o state = ap (λ st. since_of st (degraded_from (c.clock uid) st o)) state

cycle-degraded :
    (c : CycleEnv) (uid : Text) (s : Statuses)
    → Unique s
    → FindsDegraded uid c
    → degraded_time uid (check_all c s) ≡ or_now (c.clock uid) (degraded_time uid s)
cycle-degraded c uid s v found =
    ap known_since (cycle_statuses c found.users uid s v found.listed ∙ if_true _ _ found.seen)
    ∙ since-entry c uid (lookup uid s) found.state

run-degraded :
    (cs : List CycleEnv) (uid : Text) (s : Statuses) (t : ℕ)
    → Unique s
    → degraded_time uid s ≡ some t
    → All (FindsDegraded uid) cs
    → degraded_time uid (run cs s) ≡ some t
unfolding run
run-degraded [] uid s t v since found = since
run-degraded (c ∷ cs) uid s t v since found =
    run-degraded cs uid (check_all c s) t (check_all-Unique c s v)
      (cycle-degraded c uid s v found.0 ∙ ap (or_now (c.clock uid)) since) found.1

-- If a user's queue is not known to be degraded, and every one of the cycles that follow finds it
-- degraded, then its entry says that it has been so since the time of the first of them.
pub degraded_since_first :
    (c : CycleEnv) (cs : List CycleEnv) (uid : Text) (s : Statuses)
    → Unique s
    → degraded_time uid s ≡ none
    → FindsDegraded uid c
    → All (FindsDegraded uid) cs
    → degraded_time uid (run (c ∷ cs) s) ≡ some (c.clock uid)
unfolding run
degraded_since_first c cs uid s v fresh first rest =
    run-degraded cs uid (check_all c s) (c.clock uid) (check_all-Unique c s v)
      (cycle-degraded c uid s v first ∙ ap (or_now (c.clock uid)) fresh) rest
