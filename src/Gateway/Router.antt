-- ===== src/Gateway/Router.antt =====
-- internal/gateway/router.go: the pipeline of an inbound message. The state holds what the router
-- shares with others, its collect buffers, and what it did outside, the oldest action first.
pub mod Frame
pub mod Admission
pub mod Publishing
pub mod Orphans
pub mod Fallback
use open_nipper.Prelude.{
  ℕ, ◌+◌, ◌*◌, Bool, true, false, ◌&&◌, ◌||◌, not, Option, none, some, List, [], ◌∷◌, ◌++◌, map,
  Text, codes, is_empty, ◌==◌, nat_eq, list_eq, if◌then◌else◌, Dict, Result, ok, err, ℤ, pos,
  length, leb, positive_or,
}
use open_nipper.Prelude.GoMap.{lookup, insert, remove}
use open_nipper.Models.Channel.{ChannelType, ChannelMeta, whatsapp_meta, whatsapp, cron}
use open_nipper.Models.Message.{NipperMessage}
use open_nipper.Models.Queue.{
  QueueMode, collect, interrupt, queue, QueueItem, ControlMessage, interrupt_run, ChannelQueueMode,
  QueueConfig,
}
use open_nipper.Allowlist.{Repository, Rejection, check}
use open_nipper.Gateway.Resolver.{resolve, ResolveError}
use open_nipper.Gateway.Registry.{Registry, register}
use open_nipper.Gateway.Dedup.{
  Deduplicator, Strategy, by_message_id, by_prompt, no_strategy, is_duplicate,
}
use open_nipper.Gateway.Collect.{
  CollectBuffer, Action, Actions, audited, alias_added, notified, published, controlled, RouterEnv,
  Router, enqueue_collect,
}

abbrev or_fresh : Text → Text → Text
or_fresh id fresh = if is_empty id then fresh else id

-- Go's `IsZero` on a time, and the current time in its place.
abbrev or_now : ℕ → ℕ → ℕ
or_now t now = if t == 0 then now else t

unfoldable pub with_defaults : RouterEnv → ℕ → Router → NipperMessage → NipperMessage
with_defaults env now r msg = record msg {
  message_id = or_fresh msg.message_id (env.fresh_id r.actions);
  timestamp = or_now msg.timestamp now;
}

unfoldable pub contains : Text → List Text → Bool
contains c [] = false
contains c (x ∷ xs) = (x == c) || contains c xs

-- The loop of `resolveUser` that drops empty and repeated candidates.
unfoldable pub uniq_from : List Text → List Text → List Text
unfolding contains
uniq_from seen [] = []
uniq_from seen (c ∷ cs) =
    let skipped = uniq_from seen cs in
    let kept = c ∷ uniq_from (c ∷ seen) cs in
    if is_empty c || contains c seen then skipped else kept

unfoldable pub extra_candidates : ChannelType → Option ChannelMeta → List Text
extra_candidates ct (some (whatsapp_meta m)) =
    if ct == whatsapp then m.sender_jid ∷ m.chat_jid ∷ [] else []
extra_candidates ct _ = []

-- The first candidate that the datastore answers without an error, with the user it names.
unfoldable pub first_known : Repository → ChannelType → List Text → Option (Text × Text)
first_known repo ct [] = none
first_known repo ct (c ∷ cs) =
    let later = first_known repo ct cs in
    elim (repo.resolve_identity ct c) [ none ↦ later | some user ↦ some (c, user) ]

-- The user, or "" for an unknown identity, and the alias that is learnt.
unfoldable pub matched_user : NipperMessage → Option (Text × Text) → Text × Actions
matched_user msg none = ([], [])
matched_user msg (some (identity, user)) =
    if identity == msg.channel_identity
    then (user, [])
    else (user, alias_added user msg.channel_type msg.channel_identity ∷ [])

unfoldable pub resolve_user : Repository → NipperMessage → Text × Actions
unfolding uniq_from extra_candidates first_known matched_user
resolve_user repo msg =
    let candidates = msg.channel_identity ∷ extra_candidates msg.channel_type msg.meta in
    if is_empty msg.channel_identity
    then ([], [])
    else matched_user msg (first_known repo msg.channel_type (uniq_from [] candidates))

-- Step 2: a message that already has a user keeps it.
unfoldable pub identify : RouterEnv → NipperMessage → Router → NipperMessage × Router
identify env msg r =
    let (user, learnt) = resolve_user (env.repo r.actions) msg in
    if is_empty msg.user_id
    then (record msg { user_id = user }, record r { actions = r.actions ++ learnt })
    else (msg, r)

abbrev pub or_default_mode : Text → QueueMode
or_default_mode mode = if is_empty mode then queue else mode

abbrev configured_mode : Text → Option ChannelQueueMode → QueueMode × ℤ
configured_mode default_mode none = (or_default_mode default_mode, pos 0)
configured_mode default_mode (some ch) = (ch.mode, ch.priority)

unfoldable pub queue_mode_for : Option QueueConfig → ChannelType → QueueMode × ℤ
queue_mode_for none ct = (queue, pos 0)
queue_mode_for (some cfg) ct = configured_mode cfg.default_mode (lookup ct cfg.per_channel)

unfoldable pub dedup_strategy : NipperMessage → Strategy
dedup_strategy msg =
    if is_empty msg.origin_message_id
    then (if is_empty msg.content.text then no_strategy else by_prompt)
    else by_message_id

unfoldable pub derive_dedup_key : (Text → Text) → NipperMessage → Text
derive_dedup_key prompt_hash msg =
    if is_empty msg.origin_message_id
    then (if is_empty msg.content.text then [] else prompt_hash msg.content.text)
    else msg.origin_message_id

unfoldable pub build_queue_item : Text → ℕ → NipperMessage → QueueMode → ℤ → QueueItem
build_queue_item id now msg mode priority = record {
  id = id;
  message = msg;
  mode = mode;
  priority = priority;
  enqueued_at = now;
  collected_messages = [];
}

pub data RouteError : Type 0 where
  normalise_failed allowlist_failed : Text → RouteError
  unresolved no_publisher publish_failed : RouteError

-- A state, and the error that the pipeline returns.
abbrev pub Routed : Type 0
Routed = Router × Option RouteError

send_control : Bool → ℕ → NipperMessage → Actions
send_control true now msg =
    controlled msg.user_id (record {
      kind = interrupt_run;
      user_id = msg.user_id;
      session_key = msg.session_key;
      timestamp = now;
    })
    ∷ []
send_control false now msg = []

-- After PublishMessage, which succeeded or did not: step 10.
after_publish : ℕ → NipperMessage → QueueItem → Bool → Router → Routed
unfolding send_control
after_publish now msg item true r = (
  record r {
    actions = r.actions ++ published item true ∷ send_control (item.mode == interrupt) now msg;
  },
  none,
)
after_publish now msg item false r =
    (record r { actions = r.actions ++ published item false ∷ [] }, some publish_failed)

-- Step 9.
unfoldable pub publish :
    Option (Actions → QueueItem → Bool) → ℕ → NipperMessage → QueueItem → Router → Routed
unfolding after_publish
publish none now msg item r = (r, some no_publisher)
publish (some accepts) now msg item r = after_publish now msg item (accepts r.actions item) r

-- Steps 7 to 10. `notify` says whether `onAccepted` was given.
unfoldable pub enqueue : RouterEnv → ℕ → Bool → NipperMessage → Router → Routed
unfolding publish
enqueue env now notify msg r =
    let r' = if notify then record r { actions = r.actions ++ notified msg ∷ [] } else r in
    let (mode, priority) = queue_mode_for env.config msg.channel_type in
    if mode == collect
    then (enqueue_collect env.config now msg mode priority r', none)
    else publish env.publisher now msg
        (build_queue_item (env.fresh_id r'.actions) now msg mode priority) r'

-- Step 6; `checked` and `registered` are the clock readings of the deduplicator.
unfoldable pub deduplicate : RouterEnv → ℕ → ℕ → Bool → NipperMessage → Router → Routed
deduplicate env checked registered notify msg r =
    let (dedup, seen) =
      is_duplicate r.dedup checked registered msg.user_id (dedup_strategy msg)
        (derive_dedup_key env.prompt_hash msg) in
    let r' = record r { dedup = dedup } in
    if seen then (r', none) else enqueue env registered notify msg r'

-- Step 5, from the session key.
admit_as : RouterEnv → ℕ → ℕ → Bool → NipperMessage → Result ResolveError Text → Router → Routed
admit_as env now later notify msg (err e) r = (r, some unresolved)
admit_as env now later notify msg (ok key) r =
    deduplicate env now later notify (record msg { session_key = key })
      (record r {
        registry = register now key msg.delivery_context msg.meta msg.content.parts r.registry;
      })

-- Steps 4 and 5.
unfoldable pub admit : RouterEnv → ℕ → ℕ → Bool → NipperMessage → Router → Routed
unfolding admit_as
admit env now later notify msg r = admit_as env now later notify msg (resolve msg) r

-- What the guard answered; its audit entries are written before.
unfoldable pub after_check :
    RouterEnv → ℕ → ℕ → Bool → NipperMessage → List Rejection × Result Text Bool → Router → Routed
after_check env now later notify msg (entries, answer) r =
    let r' = record r { actions = r.actions ++ map audited entries } in
    elim answer [
      | err e ↦ (r', some (allowlist_failed e))
      | ok allowed ↦ if allowed then admit env now later notify msg r' else (r', none)
    ]

-- Step 3: the guard, which cron skips.
unfoldable pub guarded : RouterEnv → ℕ → ℕ → Bool → NipperMessage → Router → Routed
guarded env now later notify msg r =
    if msg.channel_type == cron
    then admit env now later notify msg r
    else after_check env now later notify msg
        (check (env.repo r.actions) msg.user_id msg.channel_type) r

unfoldable pub handle_normalized_message :
    RouterEnv → ℕ → ℕ → Bool → NipperMessage → Router → Routed
handle_normalized_message env now later notify msg r =
    let (msg', r') = identify env (with_defaults env now r msg) r in
    guarded env now later notify msg' r'

-- HandleMessage, from what the adapter's NormalizeInbound returned: an error, none for a message to
-- ignore, or a message. `notifies` says whether the adapter has NotifyInbound.
unfoldable pub handle_message :
    RouterEnv → ℕ → ℕ → Bool → Result Text (Option NipperMessage) → Router → Routed
handle_message env now later notifies (err e) r = (r, some (normalise_failed e))
handle_message env now later notifies (ok none) r = (r, none)
handle_message env now later notifies (ok (some msg)) r =
    handle_normalized_message env now later notifies msg r
