-- ===== src/Gateway/Collect.antt =====
-- internal/gateway/router.go: the state of the router, and the buffers of collect mode. A goroutine
-- that was started to flush a buffer is an entry of `flushing`, an armed timer the due time of the
-- buffer.
pub mod Conservation
pub mod Timers
pub mod Liveness
use open_nipper.Prelude.{
  ℕ, zero, ◌+◌, ◌*◌, Bool, true, false, Option, none, some, List, [], ◌∷◌, ◌++◌, Text, codes, ◌==◌,
  nat_eq, list_eq, if◌then◌else◌, Dict, ℤ, length, leb, positive_or,
}
use open_nipper.Prelude.GoMap.{lookup, insert, remove}
use open_nipper.Models.Message.{NipperMessage}
use open_nipper.Models.Queue.{QueueMode, QueueItem, ControlMessage, ChannelQueueMode, QueueConfig}
use open_nipper.Allowlist.{Repository, Rejection}
use open_nipper.Gateway.Registry.{Registry}
use open_nipper.Gateway.Dedup.{Deduplicator}

pub data Action : Type 0 where
  -- an audit entry of the guard
  audited : Rejection → Action
  -- AddIdentity: a user, a channel type and a channel identity
  alias_added : Text → Text → Text → Action
  -- NotifyInbound
  notified : NipperMessage → Action
  -- PublishMessage from the pipeline, and whether it succeeded
  published : QueueItem → Bool → Action
  -- PublishControl for a user, whose failure is only logged
  controlled : Text → ControlMessage → Action
  -- PublishMessage from the flush of a buffer, and whether it succeeded
  flushed : Text → QueueItem → Bool → Action
  -- the flush of a buffer without a publisher
  dropped : Text → List NipperMessage → Action

abbrev pub Actions : Type 0
Actions = List Action

-- `timer` is the time at which the timer fires, and none once it was stopped or has fired.
pub record CollectBuffer : Type 0 where
  pub msgs : List NipperMessage
  pub timer : Option ℕ
  pub cap : ℕ
  pub mode : QueueMode
  pub priority : ℤ

pub record Router : Type 0 where
  pub registry : Registry
  pub dedup : Deduplicator
  pub collect_buffers : Dict Text CollectBuffer
  pub flushing : List Text
  pub actions : Actions

-- What the router is given. The answers of others may depend on all that it did before.
pub record RouterEnv : Type 0 where
  pub repo : Actions → Repository
  -- none is the nil publisher; otherwise whether PublishMessage succeeds
  pub publisher : Option (Actions → QueueItem → Bool)
  pub config : Option QueueConfig
  -- uuid.New
  pub fresh_id : Actions → Text
  -- SHA-256 in hexadecimal
  pub prompt_hash : Text → Text

unfoldable pub buffer_key : NipperMessage → Text
buffer_key msg = msg.user_id ++ (codes ":" ++ msg.channel_type)

-- Two seconds, and a millisecond, in nanoseconds.
abbrev default_debounce : ℕ
default_debounce = 2 * 1000000000

abbrev millisecond : ℕ
millisecond = 1000000

abbrev pub default_cap : ℕ
default_cap = 5

abbrev config_of : Option QueueConfig → Text → Option ChannelQueueMode
config_of none ct = none
config_of (some cfg) ct = lookup ct cfg.per_channel

abbrev cap_of : Option ChannelQueueMode → ℕ
cap_of none = default_cap
cap_of (some ch) = positive_or default_cap ch.collect_cap

abbrev or_default_debounce : ℕ → ℕ
or_default_debounce ms = if ms == 0 then default_debounce else ms * millisecond

abbrev debounce_of : Option ChannelQueueMode → ℕ
debounce_of none = default_debounce
debounce_of (some ch) = or_default_debounce (positive_or 0 ch.debounce_ms)

unfoldable pub new_buffer : Option QueueConfig → ℕ → Text → QueueMode → ℤ → CollectBuffer
unfolding lookup
new_buffer config now ct mode priority = record {
  msgs = [];
  timer = some (now + debounce_of (config_of config ct));
  cap = cap_of (config_of config ct);
  mode = mode;
  priority = priority;
}

abbrev buffer_or : CollectBuffer → Option CollectBuffer → CollectBuffer
buffer_or fresh none = fresh
buffer_or fresh (some buf) = buf

-- What `enqueueCollect` does to the buffer of its key: append, and stop the timer at the cap.
unfoldable pub append_msg : NipperMessage → CollectBuffer → CollectBuffer
append_msg msg buf =
    let msgs = buf.msgs ++ msg ∷ [] in
    record buf { msgs = msgs; timer = if leb buf.cap (length msgs) then none else buf.timer }

abbrev pub is_full : CollectBuffer → Bool
is_full buf = leb buf.cap (length buf.msgs)

unfoldable pub enqueue_collect :
    Option QueueConfig → ℕ → NipperMessage → QueueMode → ℤ → Router → Router
enqueue_collect config now msg mode priority r =
    let key = buffer_key msg in
    let fresh = new_buffer config now msg.channel_type mode priority in
    let buf = append_msg msg (buffer_or fresh (lookup key r.collect_buffers)) in
    record r {
      collect_buffers = insert key buf r.collect_buffers;
      flushing = if is_full buf then r.flushing ++ key ∷ [] else r.flushing;
    }

-- The last message, after the first.
abbrev last_of : NipperMessage → List NipperMessage → NipperMessage
last_of m [] = m
last_of m (n ∷ ms) = last_of n ms

unfoldable pub collected_item :
    Text → ℕ → CollectBuffer → NipperMessage → List NipperMessage → QueueItem
collected_item id now buf m ms = record {
  id = id;
  message = last_of m ms;
  mode = buf.mode;
  priority = buf.priority;
  enqueued_at = now;
  collected_messages = m ∷ ms;
}

emission :
    Option (Actions → QueueItem → Bool) → Actions → Text → QueueItem → List NipperMessage → Action
emission none acts key item msgs = dropped key msgs
emission (some accepts) acts key item msgs = flushed key item (accepts acts item)

unfoldable pub publish_collected :
    RouterEnv → ℕ → Text → CollectBuffer → List NipperMessage → Router → Router
unfolding emission
publish_collected env now key buf [] r = r
publish_collected env now key buf (m ∷ ms) r =
    let item = collected_item (env.fresh_id r.actions) now buf m ms in
    record r {
      collect_buffers = remove key r.collect_buffers;
      actions = r.actions ++ emission env.publisher r.actions key item (m ∷ ms) ∷ [];
    }

unfoldable pub flush_found : RouterEnv → ℕ → Text → Option CollectBuffer → Router → Router
unfolding publish_collected
flush_found env now key none r = r
flush_found env now key (some buf) r = publish_collected env now key buf buf.msgs r

-- flushCollectBuffer
unfoldable pub flush_collect_buffer : RouterEnv → ℕ → Text → Router → Router
unfolding flush_found
flush_collect_buffer env now key r = flush_found env now key (lookup key r.collect_buffers) r
