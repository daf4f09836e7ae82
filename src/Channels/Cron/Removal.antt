-- ===== src/Channels/Cron/Removal.antt =====
-- Jobs that are loaded a second time.
use open_nipper.Prelude.{
  ℕ, ◌≡◌, ◌∙◌, true, false, some, [], ◌∷◌, list_eq, nat_eq, ◌==◌, nat_beq_iff, Bool-cases, inl, inr,
  if_false,
}
use open_nipper.Prelude.GoMap.{lookup-insert_self}
use open_nipper.Channels.Cron.{
  CronJob, cron_job_key, CronLib, IsLawful, Validator, is_valid_user, has_missing_field, Scheduler,
  load_entry, load_job, load_each, load_jobs, remove_known, remove_job,
}

-- A job that has an entry and is loaded again gets a second entry under its key: after the job is
-- removed the first entry is still there and fires it.
pub reloaded_still_fires :
    (L : CronLib) (laws : IsLawful L) (validator : Validator) (job : CronJob) (s : Scheduler L)
    (k i : ℕ) (c : L.Cron)
    → has_missing_field job ≡ false
    → is_valid_user validator job.user_id ≡ true
    → L.entry k s.library ≡ some job
    → L.add_func job.schedule job s.library ≡ some (c, i)
    → L.entry k (remove_job L job.user_id job.id (load_jobs L validator (job ∷ []) s)).0.library
      ≡ some job
unfolding load_jobs load_each load_job load_entry remove_job remove_known
reloaded_still_fires L laws validator job s k i c whole valid there added =
    rw (whole, valid)
      (rw added (
        rw (lookup-insert_self (cron_job_key job) i s.entry_ids) (
          laws.entry-remove_entry i k c
          ∙ if_false _ _ apart
          ∙ laws.entry-add_func job.schedule job s.library c i k added
          ∙ if_false _ _ apart
          ∙ there)))
  where
    apart : (i == k) ≡ false
    apart = elim (Bool-cases (i == k)) [
      | inr other ↦ other
      | inl same ↦
          absurd
            (cc (laws.unused job.schedule job s.library c i added, there, (nat_beq_iff i k).0 same))
    ]
