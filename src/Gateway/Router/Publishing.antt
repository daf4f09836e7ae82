-- ===== src/Gateway/Router/Publishing.antt =====
-- What an accepted message that was not seen before is sent as.
use open_nipper.Prelude.{
  nat_eq, list_eq, ℕ, ◌≡◌, refl, ap, ◌∙◌, if_false, Bool, true, false, none, some, [], ◌∷◌, ◌++◌,
  Text, ok, ◌==◌,
}
use mathlib.Core.List.{append-nil}
use open_nipper.Models.Message.{NipperMessage}
use open_nipper.Models.Queue.{collect, QueueItem}
use open_nipper.Gateway.Resolver.{resolve}
use open_nipper.Gateway.Registry.{register}
use open_nipper.Gateway.Dedup.{is_duplicate}
use open_nipper.Gateway.Collect.{Actions, published, notified, Router, RouterEnv}
use open_nipper.Gateway.Router.{
  queue_mode_for, dedup_strategy, derive_dedup_key, build_queue_item, send_control, after_publish,
  publish, enqueue, deduplicate, admit, admit_as, handle_normalized_message,
}
use open_nipper.Gateway.Router.Frame.{
  Passes, identified, handle_admits, submitted, submitted-append,
}

-- The publisher takes every item.
abbrev pub Accepts : RouterEnv → Type 0
Accepts env =
    (accepts : Actions → QueueItem → Bool) × (env.publisher ≡ some accepts)
    × ((acts : Actions) (item : QueueItem) → accepts acts item ≡ true)

-- The item of an accepted message.
abbrev pub item_of : RouterEnv → Text → ℕ → NipperMessage → QueueItem
item_of env id now m =
    let (mode, priority) = queue_mode_for env.config m.channel_type in
    build_queue_item id now m mode priority

abbrev pub is_collected : RouterEnv → NipperMessage → Bool
is_collected env m = (queue_mode_for env.config m.channel_type).0 == collect

submitted-control :
    (b : Bool) (now : ℕ) (m : NipperMessage) (item : QueueItem) (acts : Actions)
    → submitted (acts ++ published item true ∷ send_control b now m) ≡ submitted acts ++ item ∷ []
unfolding send_control submitted
submitted-control true now m item acts = submitted-append acts _
submitted-control false now m item acts = submitted-append acts _

publish_sends :
    (env : RouterEnv) (now : ℕ) (m : NipperMessage) (item : QueueItem) (r : Router)
    → Accepts env
    → ((publish env.publisher now m item r).1 ≡ none)
      × (submitted (publish env.publisher now m item r).0.actions
          ≡ submitted r.actions ++ item ∷ [])
unfolding publish after_publish
publish_sends env now m item r (accepts, given, always) =
    rw (given, always r.actions item) (refl, submitted-control _ now m item r.actions)

submitted-notified :
    (m : NipperMessage) (acts : Actions)
    → submitted (acts ++ notified m ∷ []) ≡ submitted acts ++ []
unfolding submitted
submitted-notified m acts = submitted-append acts _

enqueue_sends :
    (env : RouterEnv) (now : ℕ) (notify : Bool) (m : NipperMessage) (r : Router)
    → is_collected env m ≡ false
    → Accepts env
    → (id : Text) × ((enqueue env now notify m r).1 ≡ none)
      × (submitted (enqueue env now notify m r).0.actions
          ≡ submitted r.actions ++ item_of env id now m ∷ [])
unfolding enqueue
enqueue_sends env now true m r h a =
    let r1 = record r { actions = r.actions ++ notified m ∷ [] } in
    let (mode, priority) = queue_mode_for env.config m.channel_type in
    let item = build_queue_item (env.fresh_id r1.actions) now m mode priority in
    let (no_error, sent) = publish_sends env now m item r1 a in
    (
      env.fresh_id r1.actions,
      rw h no_error,
      rw h (sent ∙ ap (λ l. l ++ item ∷ []) (submitted-notified m r.actions ∙ append-nil _)),
    )
enqueue_sends env now false m r h a =
    let (mode, priority) = queue_mode_for env.config m.channel_type in
    let item = build_queue_item (env.fresh_id r.actions) now m mode priority in
    let (no_error, sent) = publish_sends env now m item r a in
    (env.fresh_id r.actions, rw h no_error, rw h sent)

admit_sends :
    (env : RouterEnv) (now later : ℕ) (notify : Bool) (m : NipperMessage) (r : Router) (key : Text)
    → resolve m ≡ ok key
    → (is_duplicate r.dedup now later m.user_id
        (dedup_strategy m)
        (derive_dedup_key env.prompt_hash m)).1
      ≡ false
    → is_collected env m ≡ false
    → Accepts env
    → (id : Text) × ((admit env now later notify m r).1 ≡ none)
      × (submitted (admit env now later notify m r).0.actions
          ≡ submitted r.actions ++ item_of env id later (record m { session_key = key }) ∷ [])
unfolding admit admit_as deduplicate dedup_strategy derive_dedup_key
admit_sends env now later notify m r key resolved fresh mode accepts =
    let keyed = record m { session_key = key } in
    let found =
      is_duplicate r.dedup now later m.user_id (dedup_strategy m)
        (derive_dedup_key env.prompt_hash m) in
    let registered = record r {
      registry = register now key m.delivery_context m.meta m.content.parts r.registry;
    } in
    let checked = record registered { dedup = found.0 } in
    let (id, no_error, sent) = enqueue_sends env later notify keyed checked mode accepts in
    let eq : admit env now later notify m r ≡ enqueue env later notify keyed checked =
      ap (λ o. admit_as env now later notify m o r) resolved ∙ if_false _ _ fresh in
    (id, ap (λ o. o.1) eq ∙ no_error, ap (λ o. submitted o.0.actions) eq ∙ sent)

-- A message that passes the guard, resolves to a session key and is not a duplicate, on a channel
-- whose mode is not collect, with a publisher that takes every item: the pipeline reports no error
-- and hands the publisher exactly one item, which holds the message with its session key, and the
-- mode and priority of its channel.
pub fresh_published :
    (env : RouterEnv) (now later : ℕ) (notify : Bool) (msg : NipperMessage) (r : Router)
    (key : Text)
    → Passes env now msg r
    → resolve (identified env now msg r).0 ≡ ok key
    → (let m = (identified env now msg r).0 in
        (is_duplicate r.dedup now later m.user_id
          (dedup_strategy m)
          (derive_dedup_key env.prompt_hash m)).1
        ≡ false)
    → is_collected env (identified env now msg r).0 ≡ false
    → Accepts env
    → (let out = handle_normalized_message env now later notify msg r in
        (id : Text) × (out.1 ≡ none)
        × (submitted out.0.actions
            ≡ submitted r.actions
              ++ item_of env id later (record (identified env now msg r).0 { session_key = key })
                ∷ []))
fresh_published env now later notify msg r key passes resolved fresh mode accepts =
    let m = (identified env now msg r).0 in
    let (s, same, eq) = handle_admits env now later notify msg r passes in
    let (id, no_error, sent) =
      admit_sends env now later notify m s key resolved (rw same.dedup fresh) mode accepts in
    (
      id,
      ap (λ o. o.1) eq ∙ no_error,
      ap (λ o. submitted o.0.actions) eq
          ∙ sent
          ∙ ap (λ l. l ++ item_of env id later (record m { session_key = key }) ∷ []) same.items,
    )
