-- ===== src/Channels/Cron.antt =====
-- internal/channels/cron/scheduler.go: jobs that fire by a cron expression. The library
-- github.com/robfig/cron is given by its entries: a schedule and what is called, by an identifier.
pub mod Tracking
pub mod Removal
pub mod AtJobs
pub mod Firing
use open_nipper.Prelude.{
  ◌≡◌, ℕ, Bool, true, false, ◌&&◌, ◌||◌, Option, none, some, List, [], ◌∷◌, ◌++◌, Text, codes,
  is_empty, Result, ok, err, if◌then◌else◌, Dict, list_eq, nat_eq, ◌==◌,
}
use open_nipper.Prelude.GoMap.{lookup, insert, remove}
use open_nipper.Models.Channel.{cron_meta, cron, cron_capabilities}
use open_nipper.Models.Message.{NipperMessage}

-- CronJob of internal/config/config.go.
pub record CronJob : Type 0 where
  pub id : Text
  pub schedule : Text
  pub user_id : Text
  pub prompt : Text
  pub notify_channels : List Text

unfoldable pub job_key : Text → Text → Text
job_key user_id id = user_id ++ (codes ":" ++ id)

abbrev pub cron_job_key : CronJob → Text
cron_job_key job = job_key job.user_id job.id

pub record CronLib : Type 1 where
  pub Cron : Type 0
  pub new : Cron
  -- AddFunc with a schedule, which may not parse; the job is what the function fires
  pub add_func : Text → CronJob → Cron → Option (Cron × ℕ)
  pub remove_entry : ℕ → Cron → Cron
  -- the job that an entry fires, if there is the entry
  pub entry : ℕ → Cron → Option CronJob

-- A new entry has an unused identifier and is the only change, and so is the removal of an entry.
pub record IsLawful (L : CronLib) : Type 0 where
  pub entry-new : (k : ℕ) → L.entry k L.new ≡ none
  pub unused :
      (schedule : Text) (job : CronJob) (c c' : L.Cron) (i : ℕ)
      → L.add_func schedule job c ≡ some (c', i)
      → L.entry i c ≡ none
  pub entry-add_func :
      (schedule : Text) (job : CronJob) (c c' : L.Cron) (i k : ℕ)
      → L.add_func schedule job c ≡ some (c', i)
      → L.entry k c' ≡ (if i == k then some job else L.entry k c)
  pub entry-remove_entry :
      (i k : ℕ) (c : L.Cron)
      → L.entry k (L.remove_entry i c) ≡ (if i == k then none else L.entry k c)

pub data AddError : Type 0 where
  missing_field already_registered invalid_schedule : AddError

-- What the validator answers for a user; none is no validator.
abbrev pub Validator : Type 0
Validator = Option (Text → Result Text Bool)

abbrev pub is_valid_user : Validator → Text → Bool
is_valid_user none user = true
is_valid_user (some asks) user = elim (asks user) [ ok allowed ↦ allowed | err e ↦ false ]

abbrev pub has_missing_field : CronJob → Bool
has_missing_field job =
    is_empty job.id || (is_empty job.schedule || (is_empty job.user_id || is_empty job.prompt))

-- The loop of `RemoveJob` over the jobs, which ends at the first match.
unfoldable pub without_job : Text → Text → List CronJob → List CronJob
without_job user id [] = []
without_job user id (j ∷ js) =
    let rest = without_job user id js in
    if (j.user_id == user) && (j.id == id) then js else j ∷ rest

module _ (L : CronLib) where
  pub record Scheduler : Type 0 where
    pub library : L.Cron
    pub entry_ids : Dict Text ℕ
    pub jobs : List CronJob

  abbrev pub new_scheduler : Scheduler
  new_scheduler = record { library = L.new; entry_ids = []; jobs = [] }

  abbrev pub registered : CronJob → Scheduler → L.Cron × ℕ → Scheduler
  registered job s (c, i) = record {
    library = c;
    entry_ids = insert (cron_job_key job) i s.entry_ids;
    jobs = s.jobs ++ (job ∷ []);
  }

  unfoldable pub load_entry : CronJob → Scheduler → Option (L.Cron × ℕ) → Scheduler
  load_entry job s none = s
  load_entry job s (some added) = registered job s added

  -- The body of the loop of `LoadJobs`.
  unfoldable pub load_job : Validator → CronJob → Scheduler → Scheduler
  unfolding load_entry
  load_job validator job s =
      if has_missing_field job
      then s
      else if is_valid_user validator job.user_id
      then load_entry job s (L.add_func job.schedule job s.library)
      else s

  unfoldable pub load_each : Validator → List CronJob → Scheduler → Scheduler
  unfolding load_job
  load_each validator [] s = s
  load_each validator (job ∷ jobs) s = load_each validator jobs (load_job validator job s)

  -- LoadJobs, which forgets the jobs that were loaded before.
  unfoldable pub load_jobs : Validator → List CronJob → Scheduler → Scheduler
  unfolding load_each
  load_jobs validator jobs s = load_each validator jobs (record s { jobs = [] })

  unfoldable pub add_entry : CronJob → Scheduler → Option (L.Cron × ℕ) → Scheduler × Option AddError
  add_entry job s none = (s, some invalid_schedule)
  add_entry job s (some added) = (registered job s added, none)

  unfoldable pub add_unknown : CronJob → Scheduler → Option ℕ → Scheduler × Option AddError
  unfolding add_entry
  add_unknown job s (some i) = (s, some already_registered)
  add_unknown job s none = add_entry job s (L.add_func job.schedule job s.library)

  -- AddJob
  unfoldable pub add_job : CronJob → Scheduler → Scheduler × Option AddError
  unfolding add_unknown
  add_job job s =
      if has_missing_field job
      then (s, some missing_field)
      else add_unknown job s (lookup (cron_job_key job) s.entry_ids)

  unfoldable pub remove_known : Text → Text → Scheduler → Option ℕ → Scheduler × Bool
  unfolding without_job
  remove_known user id s none = (s, false)
  remove_known user id s (some i) = (
    record {
      library = L.remove_entry i s.library;
      entry_ids = remove (job_key user id) s.entry_ids;
      jobs = without_job user id s.jobs;
    },
    true,
  )

  -- RemoveJob
  unfoldable pub remove_job : Text → Text → Scheduler → Scheduler × Bool
  unfolding remove_known
  remove_job user id s = remove_known user id s (lookup (job_key user id) s.entry_ids)

-- The message of a job that fires, with the time in milliseconds as a text and in RFC 3339.
unfoldable pub job_message : CronJob → Text → ℕ → Text → Text → NipperMessage
job_message job fresh_id now millis stamp = record {
  message_id = fresh_id;
  origin_message_id = codes "cron:" ++ (job.id ++ (codes ":" ++ millis));
  user_id = job.user_id;
  session_key = [];
  channel_type = cron;
  channel_identity = codes "cron:" ++ job.id;
  content = record { text = job.prompt; parts = [] };
  delivery_context = record {
    channel_type = cron;
    channel_id = job.id;
    reply_mode = codes "broadcast";
    thread_id = [];
    notify_channels = job.notify_channels;
    capabilities = cron_capabilities;
  };
  meta = some (cron_meta (record { job_id = job.id; schedule_at = stamp }));
  timestamp = now;
  dedupe_key = [];
}
