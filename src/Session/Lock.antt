-- ===== src/Session/Lock.antt =====
-- pkg/session/lock.go: the file lock of a session. One `FileLock.Lock` call is a loop over rounds; what
-- the file system, the clock and the context answer in each round is given. Times are in
-- milliseconds.
pub mod Waiting
pub mod System
pub mod Exclusion
use open_nipper.Prelude.{
  ℕ, zero, suc, ◌+◌, ◌-◌, ◌*◌, Bool, true, false, Option, none, some, ltb, if◌then◌else◌, nat_eq,
  ◌==◌,
}

abbrev pub minutes : ℕ → ℕ
minutes n = n * 60000

abbrev pub stale_lock_threshold : ℕ
stale_lock_threshold = minutes 30

-- The threshold for a lock file whose content cannot be read as a time.
abbrev pub malformed_threshold : ℕ
malformed_threshold = minutes 5

abbrev pub lock_max_wait : ℕ
lock_max_wait = 10000

abbrev pub lock_retry_base : ℕ
lock_retry_base = 100

abbrev pub lock_retry_max : ℕ
lock_retry_max = 800

-- What the lock file holds: nothing that can be read, no JSON or no time in it, or `acquired_at`.
pub data LockContent : Type 0 where
  unreadable malformed : LockContent
  acquired_at : ℕ → LockContent

pub record LockFile : Type 0 where
  pub content : LockContent
  pub mod_time : ℕ

content_is_stale : ℕ → ℕ → LockContent → Bool
content_is_stale now mod_time unreadable = true
content_is_stale now mod_time malformed = ltb malformed_threshold (now - mod_time)
content_is_stale now mod_time (acquired_at t) = ltb stale_lock_threshold (now - t)

-- A missing file is stale too, since `os.Stat` fails.
unfoldable pub lock_file_is_stale : ℕ → Option LockFile → Bool
unfolding content_is_stale
lock_file_is_stale now none = true
lock_file_is_stale now (some file) = content_is_stale now file.mod_time file.content

-- The answer of `os.Link`: the name is taken, or another error.
pub data LinkResult : Type 0 where
  linked exists link_error : LinkResult

-- The answers in each round, counted from 0.
pub record Rounds : Type 0 where
  pub link : ℕ → LinkResult
  pub file : ℕ → Option LockFile
  -- the reading of the clock in `lockFileIsStale`, and the one against the deadline
  pub stale_clock : ℕ → ℕ
  pub clock : ℕ → ℕ
  pub cancelled : ℕ → Bool

pub data LockOutcome : Type 0 where
  acquired failed timed_out cancelled_out : LockOutcome

unfoldable pub next_delay : ℕ → ℕ
next_delay delay = if ltb lock_retry_max (delay * 2) then lock_retry_max else delay * 2

-- What a round that found the name taken does: `retry` is the loop after the removal of a stale
-- file, and `wait` the loop after the sleep.
unfoldable pub finds_stale : Rounds → ℕ → Bool
unfolding lock_file_is_stale
finds_stale env n = lock_file_is_stale (env.stale_clock n) (env.file n)

abbrev after_exists : Rounds → ℕ → ℕ → Option LockOutcome → Option LockOutcome → Option LockOutcome
after_exists env deadline n retry wait =
    if finds_stale env n
    then retry
    else if ltb deadline (env.clock n)
    then some timed_out
    else if env.cancelled n
    then some cancelled_out
    else wait

abbrev after_link : LinkResult → Option LockOutcome → Option LockOutcome
after_link linked rest = some acquired
after_link link_error rest = some failed
after_link exists rest = rest

-- The loop of `Lock` from round n on; none is that the fuel ran out.
unfoldable pub lock_loop : ℕ → Rounds → ℕ → ℕ → ℕ → Option LockOutcome
lock_loop zero env deadline n delay = none
lock_loop (suc fuel) env deadline n delay =
    let retry = lock_loop fuel env deadline (suc n) delay in
    let wait = lock_loop fuel env deadline (suc n) (next_delay delay) in
    after_link (env.link n) (after_exists env deadline n retry wait)

-- Lock, started at a time.
unfoldable pub lock : ℕ → Rounds → ℕ → Option LockOutcome
unfolding lock_loop next_delay finds_stale
lock fuel env start = lock_loop fuel env (start + lock_max_wait) 0 lock_retry_base
