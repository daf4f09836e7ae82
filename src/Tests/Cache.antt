-- ===== src/Tests/Cache.antt =====
-- Reads and writes of a cached repository, over a small database and an association list.
use open_nipper.Prelude.{
  ◌∙◌, if_false, ap, ℕ, ◌+◌, ◌≤◌, ◌≡◌, ◌≢◌, refl, Bool, true, false, ◌&&◌, ◌||◌, not, Option, none,
  some, List, [], ◌∷◌, Text, codes, Result, ok, err, arith, list_eq, nat_eq, ◌==◌, if◌then◌else◌,
  list_beq_iff,
}
use open_nipper.Datastore.Backend.{
  is_allowed, Query, identity, allowed, user_enabled, policy, agent_token, Value, Write,
  set_allowed, remove_allowed, remove_identity, Backend, IsFramed, touches,
}
use open_nipper.Datastore.TtlCache.Memory.{memory, memory-IsLawful}
use open_nipper.Datastore.Cache.{Cached, cached_read}
use open_nipper.Datastore.Cache
use open_nipper.Datastore.Cache.Runs.{Op, read, write, wait, State, start, run}
use open_nipper.Datastore.Cache.Recent
use open_nipper.Datastore.Cache.Coherent
use open_nipper.Allowlist.{wildcard}
use open_nipper.Tests.Fixtures.{ann, ann-IsColonFree, whatsapp-IsColonFree}
use open_nipper.Models.Channel.{whatsapp}

-- The database is the allowlist's entries, and whether ann is known.
record Db : Type 0 where
  entries : Text → Text → Option Bool
  known : Bool

set_entry : Text → Text → Option Bool → Db → Db
set_entry user ct entry db = record db {
  entries = λ u c. if (user == u) && (ct == c) then entry else db.entries u c;
}

-- The entry of a channel type comes before the wildcard's.
is_permitted : Option Bool → Option Bool → Bool
is_permitted (some on) any = on
is_permitted none (some on) = on
is_permitted none none = false

ask_db : Db → (q : Query) → Result Text (Value q)
ask_db db (identity ct id) = ok (if db.known then ann else [])
ask_db db (allowed user ct) = ok (is_permitted (db.entries user ct) (db.entries user wildcard))
ask_db db (user_enabled user) = ok true
ask_db db (policy user kind) = ok none
ask_db db (agent_token hash) = err (codes "no agents")

-- The writes of other kinds fail.
write_db : Db → Write → Db × Option Text
unfolding set_entry
write_db db (set_allowed user ct on by) = (set_entry user ct (some on) db, none)
write_db db (remove_allowed user ct) = (set_entry user ct none db, none)
write_db db (remove_identity n) = (record db { known = false }, none)
write_db db _ = (db, some (codes "not supported"))

abbrev backend : Backend
backend = record { Db = Db; ask = ask_db; write = write_db }

-- What is asked for neither is the entry nor, when it is the wildcard's, of its user.
apart_from :
    (same wild exact : Bool)
    → same && (wild || exact) ≡ false
    → (same && exact ≡ false) × (same && wild ≡ false)
apart_from same wild exact h = ground (arith, h)

set_entry_frame :
    (user ct : Text) (entry : Option Bool) (db : Db) (q : Query)
    → is_allowed user ct q ≡ false
    → ask_db (set_entry user ct entry db) q ≡ ask_db db q
unfolding ask_db set_entry is_allowed
set_entry_frame user ct entry db (allowed u c) h =
    let (exact, wild) = apart_from (user == u) (ct == wildcard) (ct == c) h in
    ap ok (
      ap (λ o. is_permitted o ((set_entry user ct entry db).entries u wildcard))
        (if_false _ _ exact)
      ∙ ap (is_permitted (db.entries u c)) (if_false _ _ wild))
set_entry_frame user ct entry db (identity c i) h = refl
set_entry_frame user ct entry db (user_enabled u) h = refl
set_entry_frame user ct entry db (policy u k) h = refl
set_entry_frame user ct entry db (agent_token x) h = refl

unknown_after :
    (n : ℕ) (db : Db) (q : Query)
    → touches (remove_identity n) q ≡ false
    → ask_db (record db { known = false }) q ≡ ask_db db q
unfolding ask_db touches
unknown_after n db (identity c i) h = absurd (cc h)
unknown_after n db (allowed u c) h = refl
unknown_after n db (user_enabled u) h = refl
unknown_after n db (policy u k) h = refl
unknown_after n db (agent_token x) h = refl

write_db-failed :
    (db : Db) (w : Write) (e : Text) (q : Query)
    → (write_db db w).1 ≡ some e
    → ask_db (write_db db w).0 q ≡ ask_db db q
unfolding write_db
write_db-failed db (set_allowed user ct on by) e q h = absurd (cc h)
write_db-failed db (remove_allowed user ct) e q h = absurd (cc h)
write_db-failed db (remove_identity n) e q h = absurd (cc h)
write_db-failed db _ e q h = refl

write_db-untouched :
    (db : Db) (w : Write) (q : Query)
    → touches w q ≡ false
    → ask_db (write_db db w).0 q ≡ ask_db db q
unfolding write_db touches
write_db-untouched db (set_allowed user ct on by) q h = set_entry_frame user ct (some on) db q h
write_db-untouched db (remove_allowed user ct) q h = set_entry_frame user ct none db q h
write_db-untouched db (remove_identity n) q h = unknown_after n db q h
write_db-untouched db _ q h = refl

backend-IsFramed : IsFramed backend
backend-IsFramed = record { failed = write_db-failed; untouched = write_db-untouched }

abbrev first_db : Db
first_db = record { entries = λ user ct. if ct == wildcard then some true else none; known = true }

-- The last operation first: ann loses WhatsApp after two reads.
abbrev ops : List Op
ops =
    read (allowed ann whatsapp)
    ∷ wait 20
    ∷ write (set_allowed ann whatsapp false [])
    ∷ read (identity whatsapp (codes "123"))
    ∷ read (allowed ann whatsapp)
    ∷ []

abbrev after : State backend (memory Cached)
after = run backend (memory Cached) (start backend (memory Cached) 5 first_db) ops

reads-typed_example :
    (cached_read backend (memory Cached) 30 after.repo (allowed ann whatsapp)).1 ≢ none
reads-typed_example =
    Recent.reads-typed backend (memory Cached) (memory-IsLawful Cached) 5 first_db ops 30
      (allowed ann whatsapp)

reads_coherent_example :
    (cached_read backend (memory Cached) 30 after.repo (allowed ann whatsapp)).1
    ≡ some (ask_db after.repo.inner (allowed ann whatsapp))
unfolding Coherent.is_covered
reads_coherent_example =
    Coherent.reads_coherent backend (memory Cached) backend-IsFramed (memory-IsLawful Cached) 5
      first_db ops 30 (allowed ann whatsapp)
      (ann-IsColonFree, (tt, (refl, (whatsapp-IsColonFree, (ann-IsColonFree, tt))))) ann-IsColonFree

-- After a removed identity the old answer is still given.
abbrev stale_ops : List Op
stale_ops = wait 60 ∷ write (remove_identity 1) ∷ read (identity whatsapp (codes "123")) ∷ []

reads_recent_example :
    Recent.AnsweredBefore backend
      (memory Cached)
      (memory-IsLawful Cached)
      5
      first_db
      stale_ops
      65
      (identity whatsapp (codes "123"))
      ann
unfolding run cached_read open_nipper.Prelude.GoMap.lookup open_nipper.Datastore.Cache.cached_write
    write_db open_nipper.Datastore.Cache.invalidation ask_db open_nipper.Prelude.GoMap.insert
    open_nipper.Datastore.Cache.key_of open_nipper.Datastore.Cache.identity_key
    open_nipper.Datastore.Cache.ttl_of open_nipper.Datastore.Cache.unwrap
    open_nipper.Datastore.Cache.wrap
reads_recent_example =
    Recent.reads_recent backend (memory Cached) (memory-IsLawful Cached) 5 first_db stale_ops
      (identity whatsapp (codes "123")) ann (tt, (tt, (whatsapp-IsColonFree, tt)))
      whatsapp-IsColonFree refl

-- ann may use every channel type by the wildcard, and was seen to.
abbrev allowed_once : State backend (memory Cached)
allowed_once =
    run backend (memory Cached) (start backend (memory Cached) 5 first_db)
      (read (allowed ann whatsapp) ∷ [])

abbrev revoked : Cache.CachedRepository backend (memory Cached)
revoked =
    (Cache.cached_write backend (memory Cached) allowed_once.repo
      (set_allowed ann wildcard false [])).0

wildcard_stale_test :
    (cached_read backend (memory Cached) 9 revoked (allowed ann whatsapp)).1 ≡ some (ok true)
unfolding run cached_read open_nipper.Prelude.GoMap.lookup open_nipper.Prelude.GoMap.insert
    open_nipper.Prelude.GoMap.remove ask_db Cache.cached_write write_db Cache.invalidation
    Cache.key_of Cache.allowed_key Cache.ttl_of Cache.wrap Cache.unwrap is_permitted
wildcard_stale_test = refl

-- The database itself says that she may not.
revoked_in_database : ask_db revoked.inner (allowed ann whatsapp) ≡ ok false
unfolding ask_db is_permitted Cache.cached_write write_db run cached_read
    open_nipper.Prelude.GoMap.lookup
revoked_in_database = refl
