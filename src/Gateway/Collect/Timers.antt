-- ===== src/Gateway/Collect/Timers.antt =====
-- internal/gateway/router.go: the timers and the goroutines of the collect buffers. A timer that fires
-- starts a goroutine, which takes the lock of the buffers later than that. flushCollectBuffer does not
-- stop the timer of the buffer that it deletes: such a timer is an orphan, which fires all the same.
use open_nipper.Prelude.{
  ℕ, ◌≤◌, ◌≡◌, Bool, true, false, ◌||◌, Option, none, some, List, [], ◌∷◌, ◌++◌, Text, ℤ, ◌==◌,
  nat_eq, list_eq, if◌then◌else◌,
}
use open_nipper.Prelude.GoMap.{lookup, insert}
use open_nipper.Models.Message.{NipperMessage}
use open_nipper.Models.Queue.{QueueMode}
use open_nipper.Gateway.Collect.{
  CollectBuffer, Router, RouterEnv, enqueue_collect, flush_collect_buffer,
}

-- A goroutine for the key was started and has not run.
unfoldable pub is_started : Text → List Text → Bool
is_started key [] = false
is_started key (k ∷ ks) = let rest = is_started key ks in (k == key) || rest

-- The first goroutine for the key has run.
unfoldable pub drop_one : Text → List Text → List Text
drop_one key [] = []
drop_one key (k ∷ ks) = let rest = drop_one key ks in if k == key then ks else k ∷ rest

-- The router, and the timers of deleted buffers with the times at which they fire.
pub record System : Type 0 where
  pub router : Router
  pub orphans : List (Text × ℕ)

-- The timer of a buffer fires.
abbrev pub fire_timer : Text → CollectBuffer → Router → Router
fire_timer key buf r = record r {
  collect_buffers = insert key (record buf { timer = none }) r.collect_buffers;
  flushing = r.flushing ++ key ∷ [];
}

armed_after : Text → List NipperMessage → Option ℕ → List (Text × ℕ)
armed_after key (m ∷ ms) (some t) = (key, t) ∷ []
armed_after key _ _ = []

-- The timer that a flush leaves armed.
unfoldable pub left_armed : Text → Option CollectBuffer → List (Text × ℕ)
unfolding armed_after
left_armed key none = []
left_armed key (some buf) = armed_after key buf.msgs buf.timer

-- A goroutine that was started for a key runs.
abbrev pub run_goroutine : RouterEnv → ℕ → Text → System → System
run_goroutine env now key s = record {
  router =
      flush_collect_buffer env now key
        (record s.router { flushing = drop_one key s.router.flushing });
  orphans = s.orphans ++ left_armed key (lookup key s.router.collect_buffers);
}

-- What happens: a message is collected, a timer of a buffer or of a deleted buffer is due and fires,
-- or a goroutine that was started runs.
pub data Progress (env : RouterEnv) (s : System) : System → Type 0 where
  collects :
      (now : ℕ) (msg : NipperMessage) (mode : QueueMode) (priority : ℤ)
      → Progress env s
          (record s { router = enqueue_collect env.config now msg mode priority s.router })
  timer_fires :
      (now : ℕ) (key : Text) (buf : CollectBuffer) (t : ℕ)
      → lookup key s.router.collect_buffers ≡ some buf
      → buf.timer ≡ some t
      → t ≤ now
      → Progress env s (record s { router = fire_timer key buf s.router })
  orphan_fires :
      (now : ℕ) (key : Text) (t : ℕ) (xs ys : List (Text × ℕ))
      → s.orphans ≡ xs ++ ((key, t) ∷ ys)
      → t ≤ now
      → Progress env s (record {
        router = record s.router { flushing = s.router.flushing ++ key ∷ [] };
        orphans = xs ++ ys;
      })
  goroutine_runs :
      (now : ℕ) (key : Text)
      → is_started key s.router.flushing ≡ true
      → Progress env s (run_goroutine env now key s)

-- From a router without buffers.
pub data Reach (env : RouterEnv) : System → Type 0 where
  first : (s : System) → s.router.collect_buffers ≡ [] → Reach env s
  later : {s s' : System} → Reach env s → Progress env s s' → Reach env s'

-- A flush at a time: by a goroutine that was started, or by the buffer's timer, armed and due, and the
-- goroutine that it starts.
pub data Flush (env : RouterEnv) (now : ℕ) (key : Text) (s : System) : System → Type 0 where
  runs : is_started key s.router.flushing ≡ true → Flush env now key s (run_goroutine env now key s)
  fires_and_runs :
      (buf : CollectBuffer) (t : ℕ)
      → lookup key s.router.collect_buffers ≡ some buf
      → buf.timer ≡ some t
      → t ≤ now
      → Flush env now key s
          (run_goroutine env now key (record s { router = fire_timer key buf s.router }))

-- When a buffer's timer fires; a buffer without one waits for a goroutine, at any time.
unfoldable pub due_of : Option ℕ → ℕ
due_of none = 0
due_of (some t) = t
