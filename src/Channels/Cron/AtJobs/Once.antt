-- ===== src/Channels/Cron/AtJobs/Once.antt =====
-- How often a one-shot job fires.
use open_nipper.Prelude.{
  ℕ, suc, ◌≡◌, ◌≤◌, ◌<◌, ◌+◌, refl, sym, ◌∙◌, Option, none, some, List, [], ◌∷◌, ◌++◌, arith, Text,
  if◌then◌else◌, list_eq, nat_eq, ◌==◌, nat_beq_iff, Bool-cases, inl, inr, if_true, if_false, ltb,
}
use open_nipper.Prelude.GoMap.{lookup, lookup-insert, lookup-remove}
use open_nipper.Channels.Cron.{Validator, is_valid_user}
use open_nipper.Channels.Cron.AtJobs.{
  AtJob, AtState, no_at_jobs, schedule_at_job, has_missing_field, add_unknown_at, add_parsed_at,
  add_at_job, load_at_jobs, load_parsed_at, remove_known_at, remove_at_job, fire_armed, fire,
  forget_running, forget, clean_leaving, clean_fired,
}

pub data AtOp : Type 0 where
  add : ℕ → AtJob → AtOp
  load : ℕ → List AtJob → AtOp
  removal : Text → Text → AtOp
  expire forgotten cleaned_up : ℕ → AtOp

-- How often a timer has fired.
unfoldable pub times : ℕ → List (ℕ × AtJob) → ℕ
times t [] = 0
times t ((u, j) ∷ fs) = let rest = times t fs in if u == t then suc rest else rest

times-snoc :
    (t u : ℕ) (j : AtJob) (fs : List (ℕ × AtJob))
    → times t (fs ++ ((u, j) ∷ [])) ≡ times t fs + (if u == t then 1 else 0)
unfolding times
times-snoc t u j [] = ground arith
times-snoc t u j ((v, k) ∷ fs) = ground (arith, times-snoc t u j fs)

-- A timer that is armed has not fired, one that is not made yet neither is armed nor has fired, and none
-- has fired twice.
record Sound (s : AtState) : Type 0 where
  at_most_once : (t : ℕ) → times t s.fired ≤ 1
  armed_unfired :
      (t : ℕ) (j : AtJob) → lookup t s.armed ≡ some j → (times t s.fired ≡ 0) × (t < s.next_timer)
  later_unfired : (t : ℕ) → s.next_timer ≤ t → times t s.fired ≡ 0

schedule-Sound : (job : AtJob) (s : AtState) → Sound s → Sound (schedule_at_job job s)
unfolding schedule_at_job
schedule-Sound job s h = record {
  at_most_once = h.at_most_once;
  armed_unfired = λ t j found. elim (Bool-cases (s.next_timer == t)) [
    | inl new ↦ (
      h.later_unfired t (ground (arith, new, nat_beq_iff s.next_timer t)),
      ground (arith, new, nat_beq_iff s.next_timer t),
    )
    | inr old ↦
        let before =
          h.armed_unfired t j
            (sym (if_false _ _ old) ∙ sym (lookup-insert s.next_timer t job s.armed) ∙ found) in
        (before.0, omega (arith, before.1))
  ];
  later_unfired = λ t after. h.later_unfired t (omega arith);
}

fire_armed-Sound :
    (t : ℕ) (s : AtState) (o : Option AtJob)
    → lookup t s.armed ≡ o
    → Sound s
    → Sound (fire_armed t s o)
unfolding fire_armed
fire_armed-Sound t s none there h = h
fire_armed-Sound t s (some job) there h = record {
  at_most_once = λ u. ground (
    arith,
    times-snoc u t job s.fired,
    h.at_most_once u,
    h.armed_unfired t job there,
    nat_beq_iff t u,
  );
  armed_unfired = λ u j found. elim (Bool-cases (t == u)) [
    | inl own ↦ absurd (cc (sym (if_true _ _ own) ∙ sym (lookup-remove t u s.armed) ∙ found))
    | inr other ↦
        let before =
          h.armed_unfired u j
            (sym (if_false _ _ other) ∙ sym (lookup-remove t u s.armed) ∙ found) in
        (ground (arith, times-snoc u t job s.fired, before, other), before.1)
  ];
  later_unfired = λ u after. ground (
    arith,
    times-snoc u t job s.fired,
    h.later_unfired u after,
    h.armed_unfired t job there,
    nat_beq_iff t u,
  );
}

forget-Sound : (t : ℕ) (s : AtState) (o : Option AtJob) → Sound s → Sound (forget_running t s o)
unfolding forget_running
forget-Sound t s none h = h
forget-Sound t s (some job) h = record {
  at_most_once = h.at_most_once;
  armed_unfired = h.armed_unfired;
  later_unfired = h.later_unfired;
}

clean_fired-Sound : (t : ℕ) (s : AtState) (o : Option AtJob) → Sound s → Sound (clean_leaving t s o)
unfolding clean_leaving
clean_fired-Sound t s none h = h
clean_fired-Sound t s (some job) h = record {
  at_most_once = h.at_most_once;
  armed_unfired = h.armed_unfired;
  later_unfired = h.later_unfired;
}

remove_known_at-Sound :
    (user id : Text) (s : AtState) (o : Option ℕ) → Sound s → Sound (remove_known_at user id s o).0
unfolding remove_known_at
remove_known_at-Sound user id s none h = h
remove_known_at-Sound user id s (some t) h = record {
  at_most_once = h.at_most_once;
  armed_unfired = λ u j found. elim (Bool-cases (t == u)) [
    | inl own ↦ absurd (cc (sym (if_true _ _ own) ∙ sym (lookup-remove t u s.armed) ∙ found))
    | inr other ↦
        h.armed_unfired u j (sym (if_false _ _ other) ∙ sym (lookup-remove t u s.armed) ∙ found)
  ];
  later_unfired = h.later_unfired;
}

add_unknown_at-Sound :
    (job : AtJob) (s : AtState) (o : Option ℕ) → Sound s → Sound (add_unknown_at job s o).0
unfolding add_unknown_at
add_unknown_at-Sound job s none h = schedule-Sound job s h
add_unknown_at-Sound job s (some t) h = h

add_parsed_at-Sound :
    (now : ℕ) (job : AtJob) (s : AtState) (o : Option ℕ)
    → Sound s
    → Sound (add_parsed_at now job s o).0
unfolding add_parsed_at
add_parsed_at-Sound now job s none h = h
add_parsed_at-Sound now job s (some run_at) h = elim (Bool-cases (ltb run_at now)) [
  | inl past ↦ rw past h
  | inr future ↦ rw future (add_unknown_at-Sound job s _ h)
]

add_at_job-Sound :
    (parse : Text → Option ℕ) (now : ℕ) (job : AtJob) (s : AtState)
    → Sound s
    → Sound (add_at_job parse now job s).0
unfolding add_at_job
add_at_job-Sound parse now job s h = elim (Bool-cases (has_missing_field job)) [
  | inl missing ↦ rw missing h
  | inr whole ↦ rw whole (add_parsed_at-Sound now job s _ h)
]

clean-Sound :
    (job : AtJob) (s : AtState)
    → Sound s
    → Sound (record s { cleaned = s.cleaned ++ ((job.id, job.user_id) ∷ []) })
clean-Sound job s h = record {
  at_most_once = h.at_most_once;
  armed_unfired = h.armed_unfired;
  later_unfired = h.later_unfired;
}

load_parsed_at-Sound :
    (now : ℕ) (validator : Validator) (job : AtJob) (s : AtState) (o : Option ℕ)
    → Sound s
    → Sound (load_parsed_at now validator job s o)
unfolding load_parsed_at
load_parsed_at-Sound now validator job s none h = clean-Sound job s h
load_parsed_at-Sound now validator job s (some run_at) h = elim (Bool-cases (ltb run_at now)) [
  | inl past ↦ rw past (clean-Sound job s h)
  | inr future ↦ elim (Bool-cases (is_valid_user validator job.user_id)) [
    | inl valid ↦ rw (future, valid) (schedule-Sound job s h)
    | inr unknown ↦ rw (future, unknown) h
  ]
]

load_at_jobs-Sound :
    (parse : Text → Option ℕ) (now : ℕ) (validator : Validator) (jobs : List AtJob) (s : AtState)
    → Sound s
    → Sound (load_at_jobs parse now validator jobs s)
unfolding load_at_jobs
load_at_jobs-Sound parse now validator [] s h = h
load_at_jobs-Sound parse now validator (job ∷ jobs) s h =
    load_at_jobs-Sound parse now validator jobs _ (load_parsed_at-Sound now validator job s _ h)

module _ (parse : Text → Option ℕ) (validator : Validator) where
  unfoldable pub perform : AtOp → AtState → AtState
  perform (add now job) s = (add_at_job parse now job s).0
  perform (load now jobs) s = load_at_jobs parse now validator jobs s
  perform (removal user id) s = (remove_at_job user id s).0
  perform (expire t) s = fire t s
  perform (forgotten t) s = forget t s
  perform (cleaned_up t) s = clean_fired t s

  unfoldable pub run : List AtOp → AtState → AtState
  unfolding perform
  run [] s = s
  run (o ∷ os) s = run os (perform o s)

  perform-Sound : (o : AtOp) (s : AtState) → Sound s → Sound (perform o s)
  unfolding perform remove_at_job fire forget clean_fired
  perform-Sound (add now job) s h = add_at_job-Sound parse now job s h
  perform-Sound (load now jobs) s h = load_at_jobs-Sound parse now validator jobs s h
  perform-Sound (removal user id) s h = remove_known_at-Sound user id s _ h
  perform-Sound (expire t) s h = fire_armed-Sound t s _ refl h
  perform-Sound (forgotten t) s h = forget-Sound t s _ h
  perform-Sound (cleaned_up t) s h = clean_fired-Sound t s _ h

  run-Sound : (os : List AtOp) (s : AtState) → Sound s → Sound (run os s)
  unfolding run
  run-Sound [] s h = h
  run-Sound (o ∷ os) s h = run-Sound os (perform o s) (perform-Sound o s h)

  none-Sound : Sound no_at_jobs
  unfolding times lookup
  none-Sound = record {
    at_most_once = λ t. omega arith;
    armed_unfired = λ t j found. absurd (cc found);
    later_unfired = λ t after. refl;
  }

  -- Through any sequence of jobs that are added, loaded and removed and of the steps of timers, no
  -- timer hands its job to the handler twice, and none does that is still armed: a job whose timer was
  -- stopped or has fired does not fire by that timer again.
  pub fires_once :
      (os : List AtOp) (t : ℕ)
      → (times t (run os no_at_jobs).fired ≤ 1)
        × ((j : AtJob)
            → lookup t (run os no_at_jobs).armed ≡ some j
            → times t (run os no_at_jobs).fired ≡ 0)
  fires_once os t =
      let sound = run-Sound os no_at_jobs none-Sound in
      (sound.at_most_once t, λ j found. (sound.armed_unfired t j found).0)
