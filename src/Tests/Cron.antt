-- ===== src/Tests/Cron.antt =====
-- Cron jobs over a library that keeps its entries in a list, by position.
use open_nipper.Prelude.{
  ◌≤◌, ℕ, zero, suc, ◌≡◌, ◌≢◌, refl, ap, ◌∙◌, true, false, Bool, Option, none, some, List, [], ◌∷◌,
  ◌++◌, Text, codes, ok, err, list_eq, nat_eq, ◌==◌, if◌then◌else◌, arith, length, is_empty,
  Bool-cases, inl, inr,
}
use open_nipper.Channels.Cron.{
  job_message, CronJob, cron_job_key, job_key, CronLib, IsLawful, new_scheduler, load_jobs,
  remove_job, Validator,
}
use open_nipper.Channels.Cron.Tracking.{add, removal, run, removed_stops}
use open_nipper.Prelude.GoMap.{lookup, insert, remove}
use open_nipper.Channels.Cron.AtJobs.{
  AtJob, AtState, at_job_key, no_at_jobs, remove_at_job, load_at_jobs, fire, forget, clean_fired,
  add_at_job, schedule_at_job,
}
use open_nipper.Channels.Cron.AtJobs.Once
use open_nipper.Channels.Cron.AtJobs.Stopping
use open_nipper.Channels.Cron.AtJobs.Invariant
use open_nipper.Channels.Cron.AtJobs.LateCleanup
use open_nipper.Models.Message.{NipperMessage}
use open_nipper.Gateway.Dedup.{is_duplicate}
use open_nipper.Gateway.Router.{handle_normalized_message, queue_mode_for}
use open_nipper.Gateway.Router.Frame.{submitted}
use open_nipper.Gateway.Router.Publishing.{item_of}
use open_nipper.Channels.Cron.Firing.{session_of_job, firing_published}
use open_nipper.Tests.Fixtures.{ann, closed_repo, router_env, idle}

abbrev Slots : Type 0
Slots = List (Option CronJob)

slot : ℕ → Slots → Option CronJob
slot k [] = none
slot zero (o ∷ c) = o
slot (suc k) (o ∷ c) = slot k c

clear : ℕ → Slots → Slots
clear k [] = []
clear zero (o ∷ c) = none ∷ c
clear (suc k) (o ∷ c) = o ∷ clear k c

append_slot : Text → CronJob → Slots → Option (Slots × ℕ)
append_slot schedule job c =
    if is_empty schedule then none else some (c ++ (some job ∷ []), length c)

abbrev slots : CronLib
slots = record {
  Cron = Slots;
  new = [];
  add_func = append_slot;
  remove_entry = clear;
  entry = slot;
}

slot-length : (c : Slots) → slot (length c) c ≡ none
unfolding slot
slot-length [] = refl
slot-length (o ∷ c) = slot-length c

slot-append :
    (k : ℕ) (c : Slots) (o : Option CronJob)
    → slot k (c ++ (o ∷ [])) ≡ (if length c == k then o else slot k c)
unfolding slot
slot-append zero [] o = refl
slot-append (suc k) [] o = ground arith
slot-append zero (p ∷ c) o = ground arith
slot-append (suc k) (p ∷ c) o = ground (arith, slot-append k c o)

slot-clear : (i k : ℕ) (c : Slots) → slot k (clear i c) ≡ (if i == k then none else slot k c)
unfolding slot clear
slot-clear i k [] = ground arith
slot-clear zero zero (o ∷ c) = ground arith
slot-clear zero (suc k) (o ∷ c) = ground arith
slot-clear (suc i) zero (o ∷ c) = ground arith
slot-clear (suc i) (suc k) (o ∷ c) = ground (arith, slot-clear i k c)

append_slot-length :
    (schedule : Text) (job : CronJob) (c c' : Slots) (i : ℕ)
    → append_slot schedule job c ≡ some (c', i)
    → (c' ≡ c ++ (some job ∷ [])) × (i ≡ length c)
unfolding append_slot
append_slot-length schedule job c c' i h = ground arith

slots-IsLawful : IsLawful slots
unfolding slot
slots-IsLawful = record {
  entry-new = λ k. refl;
  unused = λ schedule job c c' i h.
      ap (λ n. slot n c) (append_slot-length schedule job c c' i h).1 ∙ slot-length c;
  entry-add_func = λ schedule job c c' i k h.
      let (is, at) = append_slot-length schedule job c c' i h in
      cc (is, at, slot-append k c (some job));
  entry-remove_entry = slot-clear;
}

abbrev job_of : Text → CronJob
job_of id = record {
  id = id;
  schedule = codes "@daily";
  user_id = ann;
  prompt = codes "p";
  notify_channels = [];
}

abbrev anyone : Validator
anyone = none

removed_stops_example : cron_job_key (job_of (codes "b")) ≢ job_key ann (codes "a")
unfolding load_jobs remove_job run append_slot slot open_nipper.Prelude.GoMap.lookup
    open_nipper.Channels.Cron.add_job open_nipper.Prelude.GoMap.insert job_key
    open_nipper.Prelude.GoMap.remove clear
removed_stops_example =
    removed_stops slots slots-IsLawful anyone (job_of (codes "a") ∷ job_of (codes "b") ∷ [])
      (add (job_of (codes "c")) ∷ removal ann (codes "c") ∷ []) ann (codes "a") 1
      (job_of (codes "b")) ((λ h. absurd (ground (arith, h)), tt), (tt, tt)) refl

abbrev at_job_of : Text → AtJob
at_job_of id = record {
  id = id;
  run_at = codes "9";
  user_id = ann;
  prompt = codes "p";
  notify_channels = [];
}

-- Every time that is written is 9.
abbrev parse_nine : Text → Option ℕ
parse_nine text = some 9

removed_at_stops_example : at_job_key (at_job_of (codes "b")) ≢ job_key ann (codes "a")
unfolding Stopping.run remove_at_job lookup fire add_at_job schedule_at_job insert job_key remove
    Stopping.AreApart Invariant.NoneRunning forget clean_fired
removed_at_stops_example =
    Stopping.removed_at_stops parse_nine
      (Stopping.add 1 (at_job_of (codes "a"))
        ∷ Stopping.add 2 (at_job_of (codes "b"))
        ∷ Stopping.add 3 (at_job_of (codes "c"))
        ∷ Stopping.expire 2
        ∷ Stopping.forgotten 2
        ∷ Stopping.cleaned_up 2
        ∷ [])
      ann (codes "a") 1 (at_job_of (codes "b"))
      (
        λ t j h. absurd (cc h),
        (λ t j h. absurd (cc h), (λ t j h. absurd (cc h), (tt, (tt, (tt, tt))))),
      )
      refl

abbrev late_run : AtState
late_run =
    Stopping.run parse_nine (LateCleanup.events parse_nine (at_job_of (codes "a")) 1 2) no_at_jobs

late_cleanup_test :
    ((remove_at_job ann (codes "a") late_run).1 ≡ false)
    × (lookup 1 (remove_at_job ann (codes "a") late_run).0.armed ≡ some (at_job_of (codes "a")))
unfolding Stopping.run remove_at_job lookup fire add_at_job schedule_at_job insert job_key remove
    forget
late_cleanup_test = (refl, refl)

at_once_test :
    Once.times 1
      (Once.run parse_nine none
        (Once.load 1 (at_job_of (codes "a") ∷ at_job_of (codes "b") ∷ [])
          ∷ Once.expire 1
          ∷ Once.expire 1
          ∷ [])
        no_at_jobs).fired
    ≡ 1
unfolding Once.times Once.run load_at_jobs fire lookup open_nipper.Prelude.GoMap.insert
    open_nipper.Prelude.GoMap.remove
at_once_test = refl

-- The job fires for a user that the guard would refuse.
abbrev fired_message : NipperMessage
fired_message = job_message (job_of (codes "a")) (codes "m9") 5 (codes "5000") (codes "t")

firing_published_example :
    (id : Text) × ((handle_normalized_message
        (router_env closed_repo)
        5
        6
        true
        fired_message
        idle).1
      ≡ none)
    × (submitted
          (handle_normalized_message (router_env closed_repo) 5 6 true fired_message idle).0.actions
        ≡ submitted idle.actions
          ++ (item_of
                (router_env closed_repo)
                id
                6
                (record fired_message { session_key = session_of_job (job_of (codes "a")) })
              ∷ []))
unfolding is_duplicate lookup queue_mode_for job_message
firing_published_example =
    firing_published (job_of (codes "a")) (codes "m9") (codes "5000") (codes "t") 5
      (router_env closed_repo) 5 6 true idle refl refl refl refl refl refl
      (_, refl, λ acts item. refl)
