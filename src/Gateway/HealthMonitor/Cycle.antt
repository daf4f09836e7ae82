-- ===== src/Gateway/HealthMonitor/Cycle.antt =====
-- What one cycle of the monitor leaves for each user.
use open_nipper.Prelude.{
  ℕ, ◌≡◌, refl, ap, ◌∙◌, ◌&&◌, Option, none, some, List, [], ◌∷◌, Text, if◌then◌else◌, list_eq,
  nat_eq, list_beq_iff, ◌==◌, arith, Bool-cases, inl, inr, if_true, if_false,
}
use open_nipper.Prelude.GoMap.{
  lookup, sweep_at, Unique, lookup-insert, lookup-sweep, insert-Unique, sweep-Unique,
}
use open_nipper.Gateway.HealthMonitor.{
  HealthState, degraded, AgentHealthStatus, Statuses, derive_agent_status, degraded_from, or_now,
  known_since, since_of, update_status, user_agent_queue, CycleEnv, is_watched, info_or_zero,
  check_user, check_users, was_seen, keep_seen, check_listed, check_all,
}

-- The state of a user's queue in a cycle.
abbrev pub state_in : CycleEnv → Text → HealthState
state_in env uid =
    let info = info_or_zero (env.queue_info uid) in
    derive_agent_status info.consumers info.messages_ready info.messages_unacknowledged

-- The entry that a cycle makes for a user from the one before.
abbrev pub entry_after : CycleEnv → Text → Option AgentHealthStatus → AgentHealthStatus
entry_after env uid before =
    let info = info_or_zero (env.queue_info uid) in
    record {
      user_id = uid;
      queue_name = user_agent_queue uid;
      consumer_count = info.consumers;
      messages_ready = info.messages_ready;
      messages_unacknowledged = info.messages_unacknowledged;
      status = state_in env uid;
      degraded_since = degraded_from (env.clock uid) (state_in env uid) before;
      last_checked = env.clock uid;
    }

since_twice :
    (now : ℕ) (st : HealthState) (before : Option AgentHealthStatus) (e : AgentHealthStatus)
    → e.status ≡ st
    → e.degraded_since ≡ degraded_from now st before
    → degraded_from now st (some e) ≡ degraded_from now st before
since_twice now degraded before e p q =
    ap (λ st. or_now now (since_of st e.degraded_since)) p
    ∙ ap (or_now now) q
    ∙ go (known_since before)
  where
    go : (o : Option ℕ) → or_now now (or_now now o) ≡ or_now now o
    go none = refl
    go (some t) = refl
since_twice now _ before e p q = refl

entry_twice :
    (env : CycleEnv) (uid : Text) (before : Option AgentHealthStatus)
    → entry_after env uid (some (entry_after env uid before)) ≡ entry_after env uid before
entry_twice env uid before =
    ap (λ t. record (entry_after env uid before) { degraded_since = t })
      (since_twice (env.clock uid) (state_in env uid) before (entry_after env uid before) refl refl)

lookup-check_user :
    (env : CycleEnv) (user uid : Text) (s : Statuses)
    → lookup uid (check_user env user s) ≡ (
        if (user == uid) && is_watched env user
        then some (entry_after env uid (lookup uid s))
        else lookup uid s)
unfolding check_user update_status
lookup-check_user env user uid s = elim (Bool-cases (is_watched env user)) [
  | inr skipped ↦ rw skipped (ground arith)
  | inl watched ↦ rw watched (elim (Bool-cases (user == uid)) [
    | inr other ↦
        rw other
          (lookup-insert user uid (entry_after env user (lookup user s)) s ∙ if_false _ _ other)
    | inl same ↦ rw same (
        lookup-insert user uid (entry_after env user (lookup user s)) s
        ∙ if_true _ _ same
        ∙ ap (λ u. some (entry_after env u (lookup u s))) ((list_beq_iff user uid).0 same))
  ])
]

pub lookup-check_users :
    (env : CycleEnv) (users : List Text) (uid : Text) (s : Statuses)
    → lookup uid (check_users env users s)
      ≡ (if was_seen env users uid then some (entry_after env uid (lookup uid s)) else lookup uid s)
unfolding check_users was_seen
lookup-check_users env [] uid s = refl
lookup-check_users env (user ∷ users) uid s =
    let rest = lookup-check_users env users uid (check_user env user s) in
    let here = lookup-check_user env user uid s in
    elim (Bool-cases ((user == uid) && is_watched env user)) [
      | inr not_here ↦ rw not_here (
          rest
          ∙ ap (λ o. if was_seen env users uid then some (entry_after env uid o) else o)
              (here ∙ if_false _ _ not_here))
      | inl is_here ↦ rw is_here (
          rest
          ∙ ap (λ o. if was_seen env users uid then some (entry_after env uid o) else o)
              (here ∙ if_true _ _ is_here)
          ∙ elim (Bool-cases (was_seen env users uid)) [
            | inl again ↦ rw again (ap some (entry_twice env uid (lookup uid s)))
            | inr once ↦ rw once refl
          ])
    ]

check_user-Unique :
    (env : CycleEnv) (user : Text) (s : Statuses) → Unique s → Unique (check_user env user s)
unfolding check_user update_status
check_user-Unique env user s v = elim (Bool-cases (is_watched env user)) [
  | inl watched ↦ rw watched (insert-Unique user _ s v)
  | inr skipped ↦ rw skipped v
]

check_users-Unique :
    (env : CycleEnv) (users : List Text) (s : Statuses)
    → Unique s
    → Unique (check_users env users s)
unfolding check_users
check_users-Unique env [] s v = v
check_users-Unique env (user ∷ users) s v =
    check_users-Unique env users (check_user env user s) (check_user-Unique env user s v)

-- A cycle keeps that every user stands once.
pub check_all-Unique : (env : CycleEnv) (s : Statuses) → Unique s → Unique (check_all env s)
unfolding check_all check_listed
check_all-Unique env s v = go env.list_users
  where
    go : (o : Option (List Text)) → Unique (check_listed env o s)
    go none = v
    go (some users) = sweep-Unique (keep_seen env users) _ (check_users-Unique env users s v)

-- After a cycle that could list the users: exactly the listed users with an agent that is not revoked
-- have an entry. It has the counts of the user's queue, or zeros where they could not be read, the
-- state derived from them, and, if it is degraded, the time from which it has been.
pub cycle_statuses :
    (env : CycleEnv) (users : List Text) (uid : Text) (s : Statuses)
    → Unique s
    → env.list_users ≡ some users
    → lookup uid (check_all env s)
      ≡ (if was_seen env users uid then some (entry_after env uid (lookup uid s)) else none)
unfolding check_all check_listed
cycle_statuses env users uid s v listed =
    ap (λ o. lookup uid (check_listed env o s)) listed
    ∙ lookup-sweep (keep_seen env users) uid (check_users env users s)
        (check_users-Unique env users s v)
    ∙ ap (sweep_at (keep_seen env users) uid) (lookup-check_users env users uid s)
    ∙ go (lookup uid s)
  where
    go :
        (o : Option AgentHealthStatus)
        → sweep_at
            (keep_seen env users)
            uid
            (if was_seen env users uid then some (entry_after env uid o) else o)
          ≡ (if was_seen env users uid then some (entry_after env uid o) else none)
    go none = ground arith
    go (some e) = ground arith
