-- ===== src/Channels/Cron/Firing.antt =====
-- A job that fires, through the pipeline of the router.
use open_nipper.Prelude.{
  ℕ, ◌≡◌, refl, ap, ◌∙◌, Bool, false, Option, none, some, [], ◌∷◌, ◌++◌, Text, codes, is_empty, ok,
  list_eq, nat_eq, ◌==◌, inl, if_false,
}
use mathlib.Core.Path.{subst}
use open_nipper.Models.Channel.{cron}
use open_nipper.Models.Message.{NipperMessage}
use open_nipper.Session.Key.{build_session_key, sanitize_session_id}
use open_nipper.Gateway.Resolver.{resolve, derive_session_id, fallback_id}
use open_nipper.Gateway.Collect.{Router, RouterEnv}
use open_nipper.Gateway.Dedup.{by_message_id, is_duplicate}
use open_nipper.Gateway.Router.{
  with_defaults, identify, handle_normalized_message, dedup_strategy, derive_dedup_key,
}
use open_nipper.Gateway.Router.Frame.{identified, submitted}
use open_nipper.Gateway.Router.Publishing.{Accepts, item_of, is_collected, fresh_published}
use open_nipper.Channels.Cron.{CronJob, job_message}

-- The session key of all firings of a job.
abbrev pub session_of_job : CronJob → Text
session_of_job job = build_session_key job.user_id cron (sanitize_session_id job.id)

module _ (job : CronJob) (uid millis stamp : Text) (fired_at : ℕ) where
  abbrev msg : NipperMessage
  msg = job_message job uid fired_at millis stamp

  -- The raw key that the firing is checked for a duplicate with.
  abbrev pub firing_key : Text
  firing_key = codes "cron:" ++ (job.id ++ (codes ":" ++ millis))

  derive-job_message : is_empty job.id ≡ false → derive_session_id msg ≡ sanitize_session_id job.id
  unfolding derive_session_id job_message
  derive-job_message id =
      ap (λ (o : Option Text). elim o [ none ↦ fallback_id msg | some i ↦ i ])
        (if_false {A = Option Text} none (some (sanitize_session_id job.id)) id)

  resolve-job_message :
      is_empty job.user_id ≡ false → is_empty job.id ≡ false → resolve msg ≡ ok (session_of_job job)
  unfolding resolve job_message
  resolve-job_message user id =
      if_false _ _ user
      ∙ ap (λ s. ok (build_session_key job.user_id cron s)) (derive-job_message id)

  identified-job_message :
      (env : RouterEnv) (now : ℕ) (r : Router)
      → is_empty uid ≡ false
      → (fired_at == 0) ≡ false
      → is_empty job.user_id ≡ false
      → identified env now msg r ≡ (msg, r)
  unfolding identify with_defaults job_message
  identified-job_message env now r has_id timed user = rw (has_id, timed, user) refl

  -- A job that fires is published, in the session of its user and its identifier whenever it fires,
  -- without asking the allowlist guard: where it has a user and an identifier, its message an id and a
  -- time, the cron channel is not in collect mode, the publisher accepts, and no message of the
  -- user with this firing's key stands in the deduplicator.
  pub firing_published :
      (env : RouterEnv) (now later : ℕ) (notify : Bool) (r : Router)
      → is_empty uid ≡ false
      → (fired_at == 0) ≡ false
      → is_empty job.user_id ≡ false
      → is_empty job.id ≡ false
      → (is_duplicate r.dedup now later job.user_id by_message_id firing_key).1 ≡ false
      → is_collected env msg ≡ false
      → Accepts env
      → (id : Text) × ((handle_normalized_message env now later notify msg r).1 ≡ none)
        × (submitted (handle_normalized_message env now later notify msg r).0.actions
            ≡ submitted r.actions
              ++ (item_of env id later (record msg { session_key = (session_of_job job) }) ∷ []))
  unfolding dedup_strategy derive_dedup_key job_message
  firing_published env now later notify r has_id timed user id fresh mode accepts =
      let e = identified-job_message env now r has_id timed user in
      subst
        (λ (p : NipperMessage × Router).
          (item_id : Text) × ((handle_normalized_message env now later notify msg r).1 ≡ none)
          × (submitted (handle_normalized_message env now later notify msg r).0.actions
              ≡ submitted r.actions
                ++ (item_of env item_id later (record p.0 { session_key = (session_of_job job) })
                    ∷ [])))
        e
        (fresh_published env now later notify msg r (session_of_job job)
          (inl (ap (λ (p : NipperMessage × Router). p.0.channel_type == cron) e))
          (ap (λ (p : NipperMessage × Router). resolve p.0) e ∙ resolve-job_message user id)
          (ap
              (λ (p : NipperMessage × Router).
                (is_duplicate r.dedup now later p.0.user_id (dedup_strategy p.0)
                  (derive_dedup_key env.prompt_hash p.0)).1)
              e
            ∙ fresh)
          (ap (λ (p : NipperMessage × Router). is_collected env p.0) e ∙ mode) accepts)
