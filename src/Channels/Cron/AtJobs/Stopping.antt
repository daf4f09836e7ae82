-- ===== src/Channels/Cron/AtJobs/Stopping.antt =====
-- The timers that are left when a one-shot job is removed.
use open_nipper.Prelude.{
  ℕ, ◌≡◌, ◌≢◌, refl, ap, Option, none, some, List, [], ◌∷◌, Text, list_eq, nat_eq,
}
use open_nipper.Prelude.GoMap.{lookup}
use open_nipper.Channels.Cron.{job_key}
use open_nipper.Channels.Cron.AtJobs.{
  AtJob, at_job_key, AtState, no_at_jobs, add_at_job, remove_known_at, remove_at_job, fire, forget,
  clean_fired,
}
use open_nipper.Channels.Cron.AtJobs.Invariant.{
  NoneRunning, Tracked, remove_known_at-Tracked, fire_armed-Tracked, forget-Tracked,
  clean_fired-Tracked, add_at_job-Tracked, kept_timer,
}

-- Jobs are added and removed by the agents' requests, and timers go through the steps of their
-- functions.
pub data AtEvent : Type 0 where
  add : ℕ → AtJob → AtEvent
  removal : Text → Text → AtEvent
  expire forgotten cleaned_up : ℕ → AtEvent

-- A job is not added while one of its key is there.
abbrev pub IsApart : AtEvent → AtState → Type 0
IsApart (add now job) s = NoneRunning (at_job_key job) s
IsApart (removal user id) s = Unit
IsApart (expire t) s = Unit
IsApart (forgotten t) s = Unit
IsApart (cleaned_up t) s = Unit

left_armed :
    (user id : Text) (s : AtState) (o : Option ℕ) (t : ℕ) (j : AtJob)
    → lookup (job_key user id) s.at_timers ≡ o
    → Tracked s
    → lookup t (remove_known_at user id s o).0.armed ≡ some j
    → at_job_key j ≢ job_key user id
unfolding remove_known_at
left_armed user id s none t j absent h found =
    λ same. absurd (cc (h.known t j found, absent, ap (λ n. lookup n s.at_timers) same))
left_armed user id s (some u) t j there h found =
    (kept_timer (job_key user id) s u t j h there found).1

module _ (parse : Text → Option ℕ) where
  unfoldable pub perform : AtEvent → AtState → AtState
  perform (add now job) s = (add_at_job parse now job s).0
  perform (removal user id) s = (remove_at_job user id s).0
  perform (expire t) s = fire t s
  perform (forgotten t) s = forget t s
  perform (cleaned_up t) s = clean_fired t s

  unfoldable pub run : List AtEvent → AtState → AtState
  unfolding perform
  run [] s = s
  run (o ∷ os) s = run os (perform o s)

  -- In no state of the run is a job added while a timer of its key is between its handler and the
  -- scheduler's lists.
  unfoldable pub AreApart : List AtEvent → AtState → Type 0
  unfolding perform
  AreApart [] s = Unit
  AreApart (o ∷ os) s = IsApart o s × AreApart os (perform o s)

  perform-Tracked : (o : AtEvent) (s : AtState) → IsApart o s → Tracked s → Tracked (perform o s)
  unfolding perform remove_at_job fire forget clean_fired
  perform-Tracked (add now job) s apart h = add_at_job-Tracked parse now job s apart h
  perform-Tracked (removal user id) s apart h = remove_known_at-Tracked user id s _ refl h
  perform-Tracked (expire t) s apart h = fire_armed-Tracked t s _ refl h
  perform-Tracked (forgotten t) s apart h = forget-Tracked t s _ refl h
  perform-Tracked (cleaned_up t) s apart h = clean_fired-Tracked t s _ h

  run-Tracked : (os : List AtEvent) (s : AtState) → AreApart os s → Tracked s → Tracked (run os s)
  unfolding run AreApart
  run-Tracked [] s apart h = h
  run-Tracked (o ∷ os) s apart h =
      run-Tracked os (perform o s) apart.1 (perform-Tracked o s apart.0 h)

  none-Tracked : Tracked no_at_jobs
  unfolding lookup
  none-Tracked = record {
    known = λ t j found. absurd (cc found);
    no_other = λ t u j found there. absurd (cc found);
    not_both = λ t j k found. absurd (cc found);
    armed_before = λ t j found. absurd (cc found);
    running_before = λ t j found. absurd (cc found);
  }

  -- Once a one-shot job is removed, no timer is armed for its user and identifier, whether the removal
  -- found the job or not, after any sequence of jobs that were added and removed and of the steps of
  -- timers' functions, in which no job was added while a timer of the same user and identifier was
  -- between its handler and its deletion from the scheduler's lists.
  pub removed_at_stops :
      (os : List AtEvent) (user id : Text) (t : ℕ) (j : AtJob)
      → AreApart os no_at_jobs
      → lookup t (remove_at_job user id (run os no_at_jobs)).0.armed ≡ some j
      → at_job_key j ≢ job_key user id
  unfolding remove_at_job
  removed_at_stops os user id t j apart found =
      left_armed user id (run os no_at_jobs) _ t j refl
        (run-Tracked os no_at_jobs apart none-Tracked) found
