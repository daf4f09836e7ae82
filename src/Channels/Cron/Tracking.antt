-- ===== src/Channels/Cron/Tracking.antt =====
-- Every entry of the cron library is that of a job which the scheduler knows.
use open_nipper.Prelude.{
  ℕ, ◌≡◌, ◌≢◌, refl, sym, ap, ◌∙◌, Option, none, some, List, [], ◌∷◌, arith, Text, list_eq, nat_eq,
  ◌==◌, nat_beq_iff, Bool-cases, inl, inr, if_true, if_false, All,
}
use open_nipper.Prelude.GoMap.{
  lookup, insert, lookup-insert_self, lookup-insert_ne, lookup-remove_ne,
}
use open_nipper.Channels.Cron.{
  Dict, CronJob, cron_job_key, job_key, CronLib, IsLawful, Validator, is_valid_user,
  has_missing_field, Scheduler, new_scheduler, registered, load_entry, load_job, load_each,
  load_jobs, add_entry, add_unknown, add_job, remove_known, remove_job,
}

pub data Op : Type 0 where
  add : CronJob → Op
  removal : Text → Text → Op

module _ (L : CronLib) (laws : IsLawful L) where
  unfoldable pub perform : Op → Scheduler L → Scheduler L
  perform (add job) s = (add_job L job s).0
  perform (removal user id) s = (remove_job L user id s).0

  unfoldable pub run : List Op → Scheduler L → Scheduler L
  unfolding perform
  run [] s = s
  run (o ∷ os) s = run os (perform o s)

  pub record Tracked (s : Scheduler L) : Type 0 where
    pub known :
        (k : ℕ) (j : CronJob)
        → L.entry k s.library ≡ some j
        → lookup (cron_job_key j) s.entry_ids ≡ some k

  registered-Tracked :
      (job : CronJob) (s : Scheduler L) (c : L.Cron) (i : ℕ)
      → L.add_func job.schedule job s.library ≡ some (c, i)
      → lookup (cron_job_key job) s.entry_ids ≡ none
      → Tracked s
      → Tracked (registered L job s (c, i))
  registered-Tracked job s c i added fresh t = record {
    known = λ k j found.
        let at = sym (laws.entry-add_func job.schedule job s.library c i k added) ∙ found in
        elim (Bool-cases (i == k)) [
          | inl new ↦
              let same : job ≡ j = cc (sym (if_true _ _ new) ∙ at) in
              ap
                (λ (x : CronJob). lookup (cron_job_key x) (insert (cron_job_key job) i s.entry_ids))
                (sym same)
              ∙ lookup-insert_self (cron_job_key job) i s.entry_ids
              ∙ ap some ((nat_beq_iff i k).0 new)
          | inr old ↦
              let before = t.known k j (sym (if_false _ _ old) ∙ at) in
              lookup-insert_ne (cron_job_key job) (cron_job_key j) i s.entry_ids
                (λ same. absurd (cc (before, fresh, ap (λ n. lookup n s.entry_ids) same)))
              ∙ before
        ];
  }

  -- An entry that is left after the removal of one that was known.
  kept_entry :
      (user id : Text) (s : Scheduler L) (i k : ℕ) (j : CronJob)
      → Tracked s
      → lookup (job_key user id) s.entry_ids ≡ some i
      → L.entry k (L.remove_entry i s.library) ≡ some j
      → (lookup (cron_job_key j) s.entry_ids ≡ some k) × (cron_job_key j ≢ job_key user id)
  kept_entry user id s i k j t there found =
      let at = sym (laws.entry-remove_entry i k s.library) ∙ found in
      elim (Bool-cases (i == k)) [
        | inl gone ↦ absurd (cc (sym (if_true _ _ gone) ∙ at))
        | inr kept ↦
            let before = t.known k j (sym (if_false _ _ kept) ∙ at) in
            (
              before,
              λ same.
                  let ids : some i ≡ some k =
                    sym there ∙ ap (λ n. lookup n s.entry_ids) (sym same) ∙ before in
                  absurd (ground (arith, kept, nat_beq_iff i k, ids)),
            )
      ]

  remove_known-Tracked :
      (user id : Text) (s : Scheduler L) (o : Option ℕ)
      → lookup (job_key user id) s.entry_ids ≡ o
      → Tracked s
      → Tracked (remove_known L user id s o).0
  unfolding remove_known
  remove_known-Tracked user id s none there t = t
  remove_known-Tracked user id s (some i) there t = record {
    known = λ k j found.
        let kept = kept_entry user id s i k j t there found in
        lookup-remove_ne (job_key user id) (cron_job_key j) s.entry_ids (λ same. kept.1 (sym same))
        ∙ kept.0;
  }

  add_unknown-Tracked :
      (job : CronJob) (s : Scheduler L) (o : Option ℕ)
      → lookup (cron_job_key job) s.entry_ids ≡ o
      → Tracked s
      → Tracked (add_unknown L job s o).0
  unfolding add_unknown
  add_unknown-Tracked job s (some i) there t = t
  add_unknown-Tracked job s none fresh t = add_entry-Tracked _ refl
    where
      add_entry-Tracked :
          (a : Option (L.Cron × ℕ))
          → L.add_func job.schedule job s.library ≡ a
          → Tracked (add_entry L job s a).0
      add_entry-Tracked none added = t
      add_entry-Tracked (some (c, i)) added = registered-Tracked job s c i added fresh t

  add_job-Tracked : (job : CronJob) (s : Scheduler L) → Tracked s → Tracked (add_job L job s).0
  unfolding add_job
  add_job-Tracked job s t = elim (Bool-cases (has_missing_field job)) [
    | inl missing ↦ rw missing t
    | inr whole ↦ rw whole (add_unknown-Tracked job s _ refl t)
  ]

  perform-Tracked : (o : Op) (s : Scheduler L) → Tracked s → Tracked (perform o s)
  unfolding perform remove_job
  perform-Tracked (removal user id) s t = remove_known-Tracked user id s _ refl t
  perform-Tracked (add job) s t = add_job-Tracked job s t

  pub run-Tracked : (os : List Op) (s : Scheduler L) → Tracked s → Tracked (run os s)
  unfolding run
  run-Tracked [] s t = t
  run-Tracked (o ∷ os) s t = run-Tracked os (perform o s) (perform-Tracked o s t)

  -- No two jobs have the same key.
  abbrev pub IsDistinct : List CronJob → Type 0
  IsDistinct [] = Unit
  IsDistinct (j ∷ js) = All (λ k. cron_job_key j ≢ cron_job_key k) js × IsDistinct js

  -- The scheduler has no entry for the jobs.
  abbrev AreNew : Scheduler L → List CronJob → Type 0
  AreNew s js = All (λ j. lookup (cron_job_key j) s.entry_ids ≡ none) js

  insert-AreNew :
      (job : CronJob) (i : ℕ) (ids : Dict Text ℕ) (js : List CronJob)
      → All (λ k. cron_job_key job ≢ cron_job_key k) js
      → All (λ j. lookup (cron_job_key j) ids ≡ none) js
      → All (λ j. lookup (cron_job_key j) (insert (cron_job_key job) i ids) ≡ none) js
  insert-AreNew job i ids [] apart fresh = tt
  insert-AreNew job i ids (j ∷ js) apart fresh = (
    lookup-insert_ne (cron_job_key job) (cron_job_key j) i ids apart.0 ∙ fresh.0,
    insert-AreNew job i ids js apart.1 fresh.1,
  )

  load_entry-Tracked :
      (job : CronJob) (js : List CronJob) (s : Scheduler L) (a : Option (L.Cron × ℕ))
      → L.add_func job.schedule job s.library ≡ a
      → All (λ k. cron_job_key job ≢ cron_job_key k) js
      → AreNew s (job ∷ js)
      → Tracked s
      → Tracked (load_entry L job s a) × AreNew (load_entry L job s a) js
  unfolding load_entry
  load_entry-Tracked job js s none added apart fresh t = (t, fresh.1)
  load_entry-Tracked job js s (some (c, i)) added apart fresh t = (
    registered-Tracked job s c i added fresh.0 t,
    insert-AreNew job i s.entry_ids js apart fresh.1,
  )

  load_job-Tracked :
      (validator : Validator) (job : CronJob) (js : List CronJob) (s : Scheduler L)
      → All (λ k. cron_job_key job ≢ cron_job_key k) js
      → AreNew s (job ∷ js)
      → Tracked s
      → Tracked (load_job L validator job s) × AreNew (load_job L validator job s) js
  unfolding load_job
  load_job-Tracked validator job js s apart fresh t = elim (Bool-cases (has_missing_field job)) [
    | inl missing ↦ rw missing (t, fresh.1)
    | inr whole ↦ elim (Bool-cases (is_valid_user validator job.user_id)) [
      | inl valid ↦ rw (whole, valid) (load_entry-Tracked job js s _ refl apart fresh t)
      | inr unknown ↦ rw (whole, unknown) (t, fresh.1)
    ]
  ]

  load_each-Tracked :
      (validator : Validator) (js : List CronJob) (s : Scheduler L)
      → IsDistinct js
      → AreNew s js
      → Tracked s
      → Tracked (load_each L validator js s)
  unfolding load_each
  load_each-Tracked validator [] s distinct fresh t = t
  load_each-Tracked validator (j ∷ js) s distinct fresh t =
      let (tracked, rest) = load_job-Tracked validator j js s distinct.0 fresh t in
      load_each-Tracked validator js (load_job L validator j s) distinct.1 rest tracked

  none_known : (js : List CronJob) → AreNew (new_scheduler L) js
  unfolding lookup
  none_known [] = tt
  none_known (j ∷ js) = (refl, none_known js)

  pub load_jobs-Tracked :
      (validator : Validator) (js : List CronJob)
      → IsDistinct js
      → Tracked (load_jobs L validator js (new_scheduler L))
  unfolding load_jobs
  load_jobs-Tracked validator js distinct =
      load_each-Tracked validator js (new_scheduler L) distinct (none_known js)
        (record { known = λ k j found. absurd (cc (found, laws.entry-new k)) })

  left_after :
      (user id : Text) (s : Scheduler L) (o : Option ℕ) (k : ℕ) (j : CronJob)
      → lookup (job_key user id) s.entry_ids ≡ o
      → Tracked s
      → L.entry k (remove_known L user id s o).0.library ≡ some j
      → cron_job_key j ≢ job_key user id
  unfolding remove_known
  left_after user id s none k j absent t found =
      λ same. absurd (cc (t.known k j found, absent, ap (λ n. lookup n s.entry_ids) same))
  left_after user id s (some i) k j there t found = (kept_entry user id s i k j t there found).1

  -- Once a job is removed nothing fires for its user and identifier, after any sequence of jobs that
  -- were added and removed since the first loading, whether the removal found the job or not. The
  -- jobs that are loaded have distinct keys, and the library keeps its entries apart.
  pub removed_stops :
      (validator : Validator) (js : List CronJob) (os : List Op) (user id : Text) (k : ℕ)
      (j : CronJob)
      → IsDistinct js
      → L.entry k
          (remove_job L user id (run os (load_jobs L validator js (new_scheduler L)))).0.library
        ≡ some j
      → cron_job_key j ≢ job_key user id
  unfolding remove_job
  removed_stops validator js os user id k j distinct found =
      left_after user id (run os (load_jobs L validator js (new_scheduler L))) _ k j refl
        (run-Tracked os _ (load_jobs-Tracked validator js distinct)) found
