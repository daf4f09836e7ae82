-- ===== src/Gateway/Heartbeats/Staleness.antt =====
-- The status of an agent between two of its heartbeats.
use open_nipper.Prelude.{
  ℕ, ◌-◌, ◌≡◌, refl, ap, ◌∙◌, Bool, true, false, ◌||◌, some, List, [], ◌∷◌, Text, ltb,
  if◌then◌else◌, list_eq, nat_eq, list_beq_iff, ◌==◌, All, Bool-cases, inl, inr, if_false,
}
use open_nipper.Prelude.GoMap.{
  lookup, sweep_at, Unique, lookup-insert, lookup-insert_self, lookup-sweep, insert-Unique,
  sweep-Unique,
}
use open_nipper.Gateway.Heartbeats.{
  HeartbeatEntry, HeartbeatStore, failed, entry_at, record_heartbeat, mark_entry,
  mark_stale_as_failed,
}

pub data Call : Type 0 where
  heartbeat : ℕ → Text → Text → Text → Call
  mark : ℕ → ℕ → Call

unfoldable pub perform : Call → HeartbeatStore → HeartbeatStore
perform (heartbeat now agent user status) s = record_heartbeat now agent user status s
perform (mark now older_than) s = mark_stale_as_failed now older_than s

unfoldable pub run : List Call → HeartbeatStore → HeartbeatStore
unfolding perform
run [] s = s
run (c ∷ cs) s = run cs (perform c s)

-- Whether a call finds a heartbeat of time t too old.
abbrev pub finds_stale : ℕ → Call → Bool
finds_stale t (heartbeat now agent user status) = false
finds_stale t (mark now older_than) = ltb t (now - older_than)

unfoldable pub any_stale : ℕ → List Call → Bool
any_stale t [] = false
any_stale t (c ∷ cs) = finds_stale t c || any_stale t cs

abbrev pub is_heartbeat_of : Text → Call → Bool
is_heartbeat_of a (heartbeat now agent user status) = agent == a
is_heartbeat_of a (mark now older_than) = false

abbrev pub after_stale : Bool → HeartbeatEntry → HeartbeatEntry
after_stale b e = record e { status = if b then failed else e.status }

mark_entry_lem :
    (cutoff : ℕ) (a : Text) (e : HeartbeatEntry)
    → mark_entry cutoff a e ≡ some (after_stale (ltb e.last_seen cutoff) e)
mark_entry_lem cutoff a e = elim (Bool-cases (ltb e.last_seen cutoff)) [
  | inr fresh ↦ rw fresh refl
  | inl stale ↦ elim (Bool-cases (e.status == failed)) [
    | inr other ↦ rw (stale, other) refl
    | inl same ↦
        rw (stale, same)
          (ap (λ st. some (record e { status = st })) ((list_beq_iff e.status failed).0 same))
  ]
]

perform-Unique : (c : Call) (s : HeartbeatStore) → Unique s → Unique (perform c s)
unfolding perform record_heartbeat mark_stale_as_failed
perform-Unique (heartbeat now agent user status) s v = insert-Unique agent _ s v
perform-Unique (mark now older_than) s v = sweep-Unique _ s v

lookup-perform :
    (c : Call) (a : Text) (e : HeartbeatEntry) (s : HeartbeatStore)
    → Unique s
    → is_heartbeat_of a c ≡ false
    → lookup a s ≡ some e
    → lookup a (perform c s) ≡ some (after_stale (finds_stale e.last_seen c) e)
unfolding perform record_heartbeat mark_stale_as_failed
lookup-perform (heartbeat now agent user status) a e s v other found =
    lookup-insert agent a (entry_at now agent user status) s ∙ if_false _ _ other ∙ found
lookup-perform (mark now older_than) a e s v other found =
    lookup-sweep (mark_entry (now - older_than)) a s v
    ∙ ap (sweep_at (mark_entry (now - older_than)) a) found
    ∙ mark_entry_lem (now - older_than) a e

stale_twice :
    (b c : Bool) (e : HeartbeatEntry) → after_stale c (after_stale b e) ≡ after_stale (b || c) e
stale_twice true true e = refl
stale_twice true false e = refl
stale_twice false true e = refl
stale_twice false false e = refl

lookup-run :
    (cs : List Call) (a : Text) (e : HeartbeatEntry) (s : HeartbeatStore)
    → Unique s
    → All (λ c. is_heartbeat_of a c ≡ false) cs
    → lookup a s ≡ some e
    → lookup a (run cs s) ≡ some (after_stale (any_stale e.last_seen cs) e)
unfolding run any_stale
lookup-run [] a e s v others found = found
lookup-run (c ∷ cs) a e s v others found =
    lookup-run cs a (after_stale (finds_stale e.last_seen c) e) (perform c s) (perform-Unique c s v)
      others.1 (lookup-perform c a e s v others.0 found)
    ∙ ap some (stale_twice (finds_stale e.last_seen c) (any_stale e.last_seen cs) e)

-- From a heartbeat of an agent to its next one, whatever other agents send: the store holds that
-- heartbeat, and its status is the reported one until a stale marking finds the heartbeat older than
-- its limit, and failed from then on.
pub status_until_next :
    (now : ℕ) (agent user status : Text) (cs : List Call) (s : HeartbeatStore)
    → Unique s
    → All (λ c. is_heartbeat_of agent c ≡ false) cs
    → lookup agent (run cs (record_heartbeat now agent user status s))
      ≡ some (after_stale (any_stale now cs) (entry_at now agent user status))
unfolding record_heartbeat
status_until_next now agent user status cs s v others =
    lookup-run cs agent (entry_at now agent user status) (record_heartbeat now agent user status s)
      (insert-Unique agent _ s v) others (lookup-insert_self agent _ s)
