-- ===== src/Channels/Cron/AtJobs.antt =====
-- internal/channels/cron/scheduler.go: jobs that fire once. A timer has a number; `armed` is the timers
-- that were neither stopped nor fired, and `fired` and `cleaned` are the jobs that were handed to the
-- handler and removed from the datastore, the oldest first. A timer's function has three parts, each a
-- step of its own: the handler, the scheduler's lists, and the datastore. It holds the lock only in
-- the second; `running` and `leaving` are the timers that wait for the second and the third.
pub mod Once
pub mod Invariant
pub mod Stopping
pub mod LateCleanup
use open_nipper.Prelude.{
  ℕ, suc, Bool, true, false, ◌&&◌, ◌||◌, Option, none, some, List, [], ◌∷◌, ◌++◌, Text, is_empty,
  codes, ltb, if◌then◌else◌, Dict, list_eq, nat_eq, ◌==◌,
}
use open_nipper.Prelude.GoMap.{lookup, insert, remove}
use open_nipper.Models.Channel.{cron, cron_meta, cron_capabilities}
use open_nipper.Models.Message.{NipperMessage}
use open_nipper.Channels.Cron.{job_key, Validator, is_valid_user}

-- AtJob of internal/config/config.go.
pub record AtJob : Type 0 where
  pub id : Text
  pub run_at : Text
  pub user_id : Text
  pub prompt : Text
  pub notify_channels : List Text

abbrev pub at_job_key : AtJob → Text
at_job_key job = job_key job.user_id job.id

pub record AtState : Type 0 where
  pub at_timers : Dict Text ℕ
  pub at_jobs : List AtJob
  pub armed : Dict ℕ AtJob
  pub running : Dict ℕ AtJob
  pub leaving : Dict ℕ AtJob
  pub next_timer : ℕ
  pub fired : List (ℕ × AtJob)
  pub cleaned : List (Text × Text)

abbrev pub no_at_jobs : AtState
no_at_jobs = record {
  at_timers = [];
  at_jobs = [];
  armed = [];
  running = [];
  leaving = [];
  next_timer = 0;
  fired = [];
  cleaned = [];
}

pub data AtError : Type 0 where
  missing_field invalid_run_at in_the_past already_registered : AtError

-- scheduleAtJob
unfoldable pub schedule_at_job : AtJob → AtState → AtState
schedule_at_job job s = record s {
  at_timers = insert (at_job_key job) s.next_timer s.at_timers;
  at_jobs = s.at_jobs ++ (job ∷ []);
  armed = insert s.next_timer job s.armed;
  next_timer = suc s.next_timer;
}

abbrev pub has_missing_field : AtJob → Bool
has_missing_field job =
    is_empty job.id || (is_empty job.run_at || (is_empty job.user_id || is_empty job.prompt))

unfoldable pub add_unknown_at : AtJob → AtState → Option ℕ → AtState × Option AtError
add_unknown_at job s none = (schedule_at_job job s, none)
add_unknown_at job s (some t) = (s, some already_registered)

unfoldable pub add_parsed_at : ℕ → AtJob → AtState → Option ℕ → AtState × Option AtError
unfolding add_unknown_at
add_parsed_at now job s none = (s, some invalid_run_at)
add_parsed_at now job s (some run_at) =
    if ltb run_at now
    then (s, some in_the_past)
    else add_unknown_at job s (lookup (at_job_key job) s.at_timers)

-- AddAtJob, with the parser of times.
unfoldable pub add_at_job : (Text → Option ℕ) → ℕ → AtJob → AtState → AtState × Option AtError
unfolding add_parsed_at
add_at_job parse now job s =
    if has_missing_field job
    then (s, some missing_field)
    else add_parsed_at now job s (parse job.run_at)

abbrev clean_up : AtJob → AtState → AtState
clean_up job s = record s { cleaned = s.cleaned ++ ((job.id, job.user_id) ∷ []) }

load_parsed_at : ℕ → Validator → AtJob → AtState → Option ℕ → AtState
unfolding schedule_at_job
load_parsed_at now validator job s none = clean_up job s
load_parsed_at now validator job s (some run_at) =
    if ltb run_at now
    then clean_up job s
    else if is_valid_user validator job.user_id
    then schedule_at_job job s
    else s

-- LoadAtJobs, which does not ask whether a job has a timer.
unfoldable pub load_at_jobs : (Text → Option ℕ) → ℕ → Validator → List AtJob → AtState → AtState
unfolding load_parsed_at
load_at_jobs parse now validator [] s = s
load_at_jobs parse now validator (job ∷ jobs) s =
    load_at_jobs parse now validator jobs (load_parsed_at now validator job s (parse job.run_at))

-- The loops over the jobs end at the first match.
unfoldable pub without_at_job : Text → Text → List AtJob → List AtJob
without_at_job user id [] = []
without_at_job user id (j ∷ js) =
    let rest = without_at_job user id js in
    if (j.user_id == user) && (j.id == id) then js else j ∷ rest

unfoldable pub remove_known_at : Text → Text → AtState → Option ℕ → AtState × Bool
unfolding without_at_job
remove_known_at user id s none = (s, false)
remove_known_at user id s (some t) = (
  record s {
    at_timers = remove (job_key user id) s.at_timers;
    at_jobs = without_at_job user id s.at_jobs;
    armed = remove t s.armed;
  },
  true,
)

-- RemoveAtJob
unfoldable pub remove_at_job : Text → Text → AtState → AtState × Bool
unfolding remove_known_at
remove_at_job user id s = remove_known_at user id s (lookup (job_key user id) s.at_timers)

unfoldable pub fire_armed : ℕ → AtState → Option AtJob → AtState
fire_armed t s none = s
fire_armed t s (some job) = record s {
  armed = remove t s.armed;
  running = insert t job s.running;
  fired = s.fired ++ ((t, job) ∷ []);
}

-- A timer runs out and its function calls the handler, without the lock; one that was stopped or has
-- fired does not.
unfoldable pub fire : ℕ → AtState → AtState
unfolding fire_armed
fire t s = fire_armed t s (lookup t s.armed)

unfoldable pub forget_running : ℕ → AtState → Option AtJob → AtState
unfolding without_at_job
forget_running t s none = s
forget_running t s (some job) = record s {
  at_timers = remove (at_job_key job) s.at_timers;
  at_jobs = without_at_job job.user_id job.id s.at_jobs;
  running = remove t s.running;
  leaving = insert t job s.leaving;
}

-- The function of a timer, after the handler: under the lock, whatever its key then has is deleted.
unfoldable pub forget : ℕ → AtState → AtState
unfolding forget_running
forget t s = forget_running t s (lookup t s.running)

unfoldable pub clean_leaving : ℕ → AtState → Option AtJob → AtState
clean_leaving t s none = s
clean_leaving t s (some job) = clean_up job (record s { leaving = remove t s.leaving })

-- The function of a timer, after the lock: the datastore.
unfoldable pub clean_fired : ℕ → AtState → AtState
unfolding clean_leaving
clean_fired t s = clean_leaving t s (lookup t s.leaving)

-- The message of a job that fires, with the time in milliseconds as a text and in RFC 3339.
unfoldable pub at_job_message : AtJob → Text → ℕ → Text → Text → NipperMessage
at_job_message job fresh_id now millis stamp = record {
  message_id = fresh_id;
  origin_message_id = codes "at:" ++ (job.id ++ (codes ":" ++ millis));
  user_id = job.user_id;
  session_key = [];
  channel_type = cron;
  channel_identity = codes "at:" ++ job.id;
  content = record { text = job.prompt; parts = [] };
  delivery_context = record {
    channel_type = cron;
    channel_id = job.id;
    reply_mode = codes "broadcast";
    thread_id = [];
    notify_channels = job.notify_channels;
    capabilities = cron_capabilities;
  };
  meta = some (cron_meta (record { job_id = job.id; schedule_at = stamp }));
  timestamp = now;
  dedupe_key = [];
}
