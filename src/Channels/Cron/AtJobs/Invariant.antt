-- ===== src/Channels/Cron/AtJobs/Invariant.antt =====
-- Which timer a one-shot job has, through the steps of the timers and of the requests.
use open_nipper.Prelude.{
  ◌<◌, ◌⊎◌, Dict, ℕ, ◌≡◌, ◌≢◌, refl, sym, ap, ◌∙◌, Option, none, some, arith, Text, list_eq, nat_eq,
  ◌==◌, nat_beq_iff, Bool-cases, inl, inr, if_true, if_false, ltb,
}
use open_nipper.Prelude.GoMap.{
  lookup, insert, remove, lookup-insert, lookup-insert_self, lookup-insert_ne, lookup-remove,
  lookup-remove_ne,
}
use open_nipper.Channels.Cron.{job_key}
use open_nipper.Channels.Cron.AtJobs.{
  AtJob, at_job_key, AtState, schedule_at_job, has_missing_field, add_unknown_at, add_parsed_at,
  add_at_job, remove_known_at, fire_armed, forget_running, clean_leaving,
}

-- No timer of the key is between its handler and the scheduler's lists.
unfoldable pub NoneRunning : Text → AtState → Type 0
NoneRunning key s = (t : ℕ) (j : AtJob) → lookup t s.running ≡ some j → at_job_key j ≢ key

-- Every armed timer is the one that its job's key has, and the key of a timer that is running has no
-- other.
pub record Tracked (s : AtState) : Type 0 where
  pub known :
      (t : ℕ) (j : AtJob) → lookup t s.armed ≡ some j → lookup (at_job_key j) s.at_timers ≡ some t
  pub no_other :
      (t u : ℕ) (j : AtJob)
      → lookup t s.running ≡ some j
      → lookup (at_job_key j) s.at_timers ≡ some u
      → u ≡ t
  pub not_both : (t : ℕ) (j k : AtJob) → lookup t s.armed ≡ some j → lookup t s.running ≢ some k
  pub armed_before : (t : ℕ) (j : AtJob) → lookup t s.armed ≡ some j → t < s.next_timer
  pub running_before : (t : ℕ) (j : AtJob) → lookup t s.running ≡ some j → t < s.next_timer

-- What a timer that was set in a map, or one of the others, has.
insert_cases :
    (t u : ℕ) (j k : AtJob) (m : Dict ℕ AtJob)
    → lookup u (insert t j m) ≡ some k
    → ((t ≡ u) × (j ≡ k)) ⊎ ((t ≢ u) × (lookup u m ≡ some k))
insert_cases t u j k m found =
    let at = sym (lookup-insert t u j m) ∙ found in
    elim (Bool-cases (t == u)) [
      | inl own ↦ inl ((nat_beq_iff t u).0 own, cc (sym (if_true _ _ own) ∙ at))
      | inr other ↦ inr (
        λ same. absurd (ground (arith, same, other, nat_beq_iff t u)),
        sym (if_false _ _ other) ∙ at,
      )
    ]

remove_cases :
    (t u : ℕ) (k : AtJob) (m : Dict ℕ AtJob)
    → lookup u (remove t m) ≡ some k
    → (t ≢ u) × (lookup u m ≡ some k)
remove_cases t u k m found =
    let at = sym (lookup-remove t u m) ∙ found in
    elim (Bool-cases (t == u)) [
      | inl own ↦ absurd (cc (sym (if_true _ _ own) ∙ at))
      | inr other ↦ (
        λ same. absurd (ground (arith, same, other, nat_beq_iff t u)),
        sym (if_false _ _ other) ∙ at,
      )
    ]

-- A key that is removed has no timer, and the others keep theirs.
remove_key_cases :
    (key other : Text) (u : ℕ) (m : Dict Text ℕ)
    → lookup other (remove key m) ≡ some u
    → lookup other m ≡ some u
remove_key_cases key other u m found =
    let at = sym (lookup-remove key other m) ∙ found in
    elim (Bool-cases (key == other)) [
      | inl own ↦ absurd (cc (sym (if_true _ _ own) ∙ at))
      | inr apart ↦ sym (if_false _ _ apart) ∙ at
    ]

schedule-Tracked :
    (job : AtJob) (s : AtState)
    → lookup (at_job_key job) s.at_timers ≡ none
    → NoneRunning (at_job_key job) s
    → Tracked s
    → Tracked (schedule_at_job job s)
unfolding schedule_at_job NoneRunning
schedule-Tracked job s fresh apart h =
    let key = at_job_key job in
    record {
      known = λ t j found. elim (insert_cases s.next_timer t job j s.armed found) [
        | inl new ↦
            ap (λ (x : AtJob). lookup (at_job_key x) (insert key s.next_timer s.at_timers))
              (sym new.1)
            ∙ lookup-insert_self key s.next_timer s.at_timers
            ∙ ap some new.0
        | inr old ↦
            let before = h.known t j old.1 in
            lookup-insert_ne key (at_job_key j) s.next_timer s.at_timers
              (λ same. absurd (cc (before, fresh, ap (λ n. lookup n s.at_timers) same)))
            ∙ before
      ];
      no_other = λ t u j found there. h.no_other t u j found (
          sym (
            lookup-insert_ne key (at_job_key j) s.next_timer s.at_timers
              (λ same. apart t j found (sym same)))
          ∙ there);
      not_both = λ t j k found also. elim (insert_cases s.next_timer t job j s.armed found) [
        | inl new ↦ absurd (omega (arith, h.running_before t k also, new.0))
        | inr old ↦ h.not_both t j k old.1 also
      ];
      armed_before = λ t j found. elim (insert_cases s.next_timer t job j s.armed found) [
        | inl new ↦ omega (arith, new.0)
        | inr old ↦ omega (arith, h.armed_before t j old.1)
      ];
      running_before = λ t j found. omega (arith, h.running_before t j found);
    }

-- A timer that stays armed when another, that of a key, goes.
pub kept_timer :
    (key : Text) (s : AtState) (t u : ℕ) (j : AtJob)
    → Tracked s
    → lookup key s.at_timers ≡ some t
    → lookup u (remove t s.armed) ≡ some j
    → (lookup (at_job_key j) s.at_timers ≡ some u) × (at_job_key j ≢ key)
kept_timer key s t u j h there found =
    let at = sym (lookup-remove t u s.armed) ∙ found in
    elim (Bool-cases (t == u)) [
      | inl gone ↦ absurd (cc (sym (if_true _ _ gone) ∙ at))
      | inr kept ↦
          let before = h.known u j (sym (if_false _ _ kept) ∙ at) in
          (
            before,
            λ same.
                let ids : some t ≡ some u =
                  sym there ∙ ap (λ n. lookup n s.at_timers) (sym same) ∙ before in
                absurd (ground (arith, kept, nat_beq_iff t u, ids)),
          )
    ]

-- It stays the one of its job's key.
kept-known :
    (key : Text) (s : AtState) (t u : ℕ) (j : AtJob)
    → Tracked s
    → lookup key s.at_timers ≡ some t
    → lookup u (remove t s.armed) ≡ some j
    → lookup (at_job_key j) (remove key s.at_timers) ≡ some u
kept-known key s t u j h there found =
    let kept = kept_timer key s t u j h there found in
    lookup-remove_ne key (at_job_key j) s.at_timers (λ same. kept.1 (sym same)) ∙ kept.0

pub remove_known_at-Tracked :
    (user id : Text) (s : AtState) (o : Option ℕ)
    → lookup (job_key user id) s.at_timers ≡ o
    → Tracked s
    → Tracked (remove_known_at user id s o).0
unfolding remove_known_at
remove_known_at-Tracked user id s none there h = h
remove_known_at-Tracked user id s (some t) there h = record {
  known = λ u j found. kept-known (job_key user id) s t u j h there found;
  no_other = λ u v j found at.
      h.no_other u v j found (remove_key_cases (job_key user id) (at_job_key j) v s.at_timers at);
  not_both = λ u j k found. h.not_both u j k (remove_cases t u j s.armed found).1;
  armed_before = λ u j found. h.armed_before u j (remove_cases t u j s.armed found).1;
  running_before = h.running_before;
}

pub fire_armed-Tracked :
    (t : ℕ) (s : AtState) (o : Option AtJob)
    → lookup t s.armed ≡ o
    → Tracked s
    → Tracked (fire_armed t s o)
unfolding fire_armed
fire_armed-Tracked t s none there h = h
fire_armed-Tracked t s (some job) there h = record {
  known = λ u j found. h.known u j (remove_cases t u j s.armed found).1;
  no_other = λ u v j found at. elim (insert_cases t u job j s.running found) [
    | inl new ↦
        let held : some v ≡ some t =
          sym at
          ∙ ap (λ (x : AtJob). lookup (at_job_key x) s.at_timers) (sym new.1)
          ∙ h.known t job there in
        cc (held, new.0)
    | inr old ↦ h.no_other u v j old.1 at
  ];
  not_both = λ u j k found also.
      let left = remove_cases t u j s.armed found in
      elim (insert_cases t u job k s.running also) [
        | inl new ↦ left.0 new.0
        | inr old ↦ h.not_both u j k left.1 old.1
      ];
  armed_before = λ u j found. h.armed_before u j (remove_cases t u j s.armed found).1;
  running_before = λ u j found. elim (insert_cases t u job j s.running found) [
    | inl new ↦ omega (arith, h.armed_before t job there, new.0)
    | inr old ↦ h.running_before u j old.1
  ];
}

-- The key of a timer that is running is no armed timer's.
apart_keys :
    (t u : ℕ) (job j : AtJob) (s : AtState)
    → lookup t s.running ≡ some job
    → lookup u s.armed ≡ some j
    → Tracked s
    → at_job_key job ≢ at_job_key j
apart_keys t u job j s runs found h = λ same.
    let own = h.no_other t u job runs (ap (λ n. lookup n s.at_timers) same ∙ h.known u j found) in
    h.not_both u j job found (ap (λ n. lookup n s.running) own ∙ runs)

pub forget-Tracked :
    (t : ℕ) (s : AtState) (o : Option AtJob)
    → lookup t s.running ≡ o
    → Tracked s
    → Tracked (forget_running t s o)
unfolding forget_running
forget-Tracked t s none there h = h
forget-Tracked t s (some job) there h = record {
  known = λ u j found.
      lookup-remove_ne (at_job_key job) (at_job_key j) s.at_timers
        (apart_keys t u job j s there found h)
      ∙ h.known u j found;
  no_other = λ u v j found at.
      h.no_other u v j (remove_cases t u j s.running found).1
        (remove_key_cases (at_job_key job) (at_job_key j) v s.at_timers at);
  not_both = λ u j k found also. h.not_both u j k found (remove_cases t u k s.running also).1;
  armed_before = h.armed_before;
  running_before = λ u j found. h.running_before u j (remove_cases t u j s.running found).1;
}

pub clean_fired-Tracked :
    (t : ℕ) (s : AtState) (o : Option AtJob) → Tracked s → Tracked (clean_leaving t s o)
unfolding clean_leaving
clean_fired-Tracked t s none h = h
clean_fired-Tracked t s (some job) h = record {
  known = h.known;
  no_other = h.no_other;
  not_both = h.not_both;
  armed_before = h.armed_before;
  running_before = h.running_before;
}

add_unknown_at-Tracked :
    (job : AtJob) (s : AtState) (o : Option ℕ)
    → lookup (at_job_key job) s.at_timers ≡ o
    → NoneRunning (at_job_key job) s
    → Tracked s
    → Tracked (add_unknown_at job s o).0
unfolding add_unknown_at
add_unknown_at-Tracked job s none fresh apart h = schedule-Tracked job s fresh apart h
add_unknown_at-Tracked job s (some t) there apart h = h

add_parsed_at-Tracked :
    (now : ℕ) (job : AtJob) (s : AtState) (o : Option ℕ)
    → NoneRunning (at_job_key job) s
    → Tracked s
    → Tracked (add_parsed_at now job s o).0
unfolding add_parsed_at
add_parsed_at-Tracked now job s none apart h = h
add_parsed_at-Tracked now job s (some run_at) apart h = elim (Bool-cases (ltb run_at now)) [
  | inl past ↦ rw past h
  | inr future ↦ rw future (add_unknown_at-Tracked job s _ refl apart h)
]

pub add_at_job-Tracked :
    (parse : Text → Option ℕ) (now : ℕ) (job : AtJob) (s : AtState)
    → NoneRunning (at_job_key job) s
    → Tracked s
    → Tracked (add_at_job parse now job s).0
unfolding add_at_job
add_at_job-Tracked parse now job s apart h = elim (Bool-cases (has_missing_field job)) [
  | inl missing ↦ rw missing h
  | inr whole ↦ rw whole (add_parsed_at-Tracked now job s _ apart h)
]
