-- ===== src/Channels/Cron/AtJobs/LateCleanup.antt =====
-- A one-shot job that is added again before the cleanup of the timer that fired.
use open_nipper.Prelude.{
  ℕ, ◌≡◌, refl, sym, ap, ◌∙◌, false, Option, none, some, List, [], ◌∷◌, Text, list_eq, nat_eq, Dict,
  beq_refl, if_true, if_false, ltb,
}
use mathlib.Core.Path.{subst}
use open_nipper.Prelude.GoMap.{lookup, insert, remove, lookup-insert_self, lookup-remove}
use open_nipper.Channels.Cron.AtJobs.{
  AtJob, at_job_key, AtState, AtError, no_at_jobs, schedule_at_job, has_missing_field,
  add_unknown_at, add_parsed_at, add_at_job, remove_known_at, remove_at_job, fire, forget,
}
use open_nipper.Channels.Cron.AtJobs.Stopping.{
  AtEvent, add, removal, expire, forgotten, run, perform,
}

removed_key : (key : Text) (d : Dict Text ℕ) → lookup key (remove key d) ≡ none
removed_key key d = lookup-remove key key d ∙ if_true _ _ (beq_refl key)

module _ (parse : Text → Option ℕ) where
  -- A job that is complete, in time and has no timer is scheduled.
  accepted :
      (now run_at : ℕ) (job : AtJob) (s : AtState)
      → has_missing_field job ≡ false
      → parse job.run_at ≡ some run_at
      → ltb run_at now ≡ false
      → lookup (at_job_key job) s.at_timers ≡ none
      → (add_at_job parse now job s).0 ≡ schedule_at_job job s
  unfolding add_at_job add_parsed_at add_unknown_at
  accepted now run_at job s whole parsed future fresh =
      ap (λ (r : AtState × Option AtError). r.0) (if_false _ _ whole)
      ∙ ap (λ o. (add_parsed_at now job s o).0) parsed
      ∙ ap (λ (r : AtState × Option AtError). r.0) (if_false _ _ future)
      ∙ ap (λ o. (add_unknown_at job s o).0) fresh

  module _ (job : AtJob) where
    -- The states after the job was added, its timer fired, the job was removed and added again, and
    -- the first timer's function reached the lists.
    abbrev first_fired : AtState
    first_fired = fire 0 (schedule_at_job job no_at_jobs)

    abbrev first_removed : AtState
    first_removed = (remove_known_at job.user_id job.id first_fired (some 0)).0

    abbrev second_added : AtState
    second_added = schedule_at_job job first_removed

    timer_found : lookup (at_job_key job) first_fired.at_timers ≡ some 0
    unfolding fire schedule_at_job lookup insert
    timer_found = lookup-insert_self (at_job_key job) 0 []

    second_fresh : lookup (at_job_key job) first_removed.at_timers ≡ none
    unfolding remove_known_at
    second_fresh = removed_key (at_job_key job) first_fired.at_timers

    second_armed : lookup 1 (forget 0 second_added).armed ≡ some job
    unfolding forget schedule_at_job remove_known_at fire lookup insert remove
    second_armed = refl

    second_unknown : lookup (at_job_key job) (forget 0 second_added).at_timers ≡ none
    unfolding forget schedule_at_job remove_known_at fire lookup insert
    second_unknown = removed_key (at_job_key job) second_added.at_timers

    removed_known : (remove_at_job job.user_id job.id first_fired).0 ≡ first_removed
    unfolding remove_at_job
    removed_known = ap (λ o. (remove_known_at job.user_id job.id first_fired o).0) timer_found

    abbrev pub events : ℕ → ℕ → List AtEvent
    events now later =
        add now job ∷ expire 0 ∷ removal job.user_id job.id ∷ add later job ∷ forgotten 0 ∷ []

    abbrev Hidden : AtState → Type 0
    Hidden s =
        ((remove_at_job job.user_id job.id s).1 ≡ false)
        × (lookup 1 (remove_at_job job.user_id job.id s).0.armed ≡ some job)

    second-Hidden : Hidden (forget 0 second_added)
    unfolding remove_at_job remove_known_at
    second-Hidden =
        let s = forget 0 second_added in
        (
          ap (λ o. (remove_known_at job.user_id job.id s o).1) second_unknown,
          ap (λ o. lookup 1 (remove_known_at job.user_id job.id s o).0.armed) second_unknown
              ∙ second_armed,
        )

    -- For every one-shot job that is complete and in time: it is added, its timer fires, the job is
    -- removed and added again while the handler is at work, and the function of the first timer goes
    -- on. Then the second timer is armed, RemoveAtJob does not find the job, and the timer stays armed.
    pub late_cleanup_hides :
        (now later run_at : ℕ)
        → has_missing_field job ≡ false
        → parse job.run_at ≡ some run_at
        → ltb run_at now ≡ false
        → ltb run_at later ≡ false
        → ((remove_at_job job.user_id job.id (run parse (events now later) no_at_jobs)).1 ≡ false)
          × (lookup 1
                (remove_at_job job.user_id job.id (run parse (events now later) no_at_jobs)).0.armed
              ≡ some job)
    unfolding run perform lookup
    late_cleanup_hides now later run_at whole parsed future still =
        let added = accepted now run_at job no_at_jobs whole parsed future refl in
        let again = accepted later run_at job first_removed whole parsed still second_fresh in
        let then_add = λ (s : AtState). forget 0 (add_at_job parse later job s).0 in
        subst Hidden
          (sym (
            ap (λ s. then_add (remove_at_job job.user_id job.id (fire 0 s)).0) added
            ∙ ap then_add removed_known
            ∙ ap (forget 0) again))
          second-Hidden
