-- ===== src/Gateway/Dispatcher.antt =====
-- internal/gateway/dispatcher.go: agent events are routed to the channel adapters. A method takes
-- the state and returns the new one; `HandleEvent` returns nil on every path, so it has no result.
pub mod Frame
pub mod Buffering
pub mod Conversation
pub mod Shown
pub mod Typing
pub mod Eviction
pub mod Subscribers
use open_nipper.Prelude.{
  ℕ, zero, suc, ◌+◌, ◌-◌, ◌*◌, Bool, true, false, ◌&&◌, ◌||◌, not, Option, none, some, List, [],
  ◌∷◌, ◌++◌, Text, codes, is_empty, ◌==◌, nat_eq, list_eq, if◌then◌else◌, Dict, ltb,
}
use open_nipper.Prelude.GoMap.{lookup, insert, remove, sweep}
use open_nipper.Models.Channel.{ChannelType, ChannelMeta, DeliveryContext}
use open_nipper.Models.Message.{ContentPart, NipperResponse}
use open_nipper.Models.Event.{
  NipperEvent, EventDelta, EventType, delta, tool_start, thinking, error, done,
}
use open_nipper.Gateway.Registry.{Registry, DeliveryEntry, peek, consume}
use open_nipper.Gateway.Delivery.{
  Effect, offered, typing_on, typing_off, streamed, Trace, Adapter, Env, deliver_with_retry,
  delta_or, final_text, done_response, assemble_response_from_event, assemble_error_response,
  broadcast,
}

pub record Accumulator : Type 0 where
  pub builder : Text
  pub created_at : ℕ
  pub user_id : Text
  pub event : Option NipperEvent

-- A subscriber is the identity of its Go channel. `trace` holds what the dispatcher did outside.
pub record Dispatcher : Type 0 where
  pub registry : Registry
  pub accumulators : Dict Text Accumulator
  pub typing_sent : Dict Text Bool
  pub ws_subscribers : Dict Text (List ℕ)
  pub trace : Trace

abbrev pub or_false : Option Bool → Bool
or_false none = false
or_false (some b) = b

-- d.typingSent[key]
unfoldable pub was_sent : Text → Dispatcher → Bool
was_sent key d = or_false (lookup key d.typing_sent)

abbrev builder_of : Option Accumulator → Text
builder_of none = []
builder_of (some acc) = acc.builder

-- The text accumulated for a session, which is empty where there is no accumulator.
unfoldable pub accumulated : Text → Dispatcher → Text
accumulated key d = builder_of (lookup key d.accumulators)

unfoldable pub append_trace : Trace → Dispatcher → Dispatcher
append_trace effects d = record d { trace = d.trace ++ effects }

abbrev or_no_subscribers : Option (List ℕ) → List ℕ
or_no_subscribers none = []
or_no_subscribers (some chs) = chs

unfoldable pub offers : NipperEvent → List ℕ → Trace
offers event [] = []
offers event (ch ∷ chs) = offered ch event ∷ offers event chs

unfoldable pub fan_out_to_web_socket : NipperEvent → Dispatcher → Dispatcher
unfolding offers append_trace
fan_out_to_web_socket event d =
    append_trace (offers event (or_no_subscribers (lookup event.session_key d.ws_subscribers))) d

unfoldable pub clear_accumulator : Text → Dispatcher → Dispatcher
clear_accumulator key d = record d { accumulators = remove key d.accumulators }

unfoldable pub maybe_send_typing_indicator :
    Adapter → Text → DeliveryContext → Option ChannelMeta → Dispatcher → Dispatcher
unfolding was_sent append_trace
maybe_send_typing_indicator adapter key dc meta d =
    let marked = record d { typing_sent = insert key true d.typing_sent } in
    if was_sent key d
    then d
    else if adapter.has_typing_indicator
    then append_trace (typing_on key dc meta ∷ []) marked
    else marked

unfoldable pub clear_typing_sent :
    Adapter → Text → DeliveryContext → Option ChannelMeta → Dispatcher → Dispatcher
unfolding was_sent append_trace
clear_typing_sent adapter key dc meta d =
    let cleared = record d { typing_sent = remove key d.typing_sent } in
    if was_sent key d && adapter.has_typing_remover
    then append_trace (typing_off key dc meta ∷ []) cleared
    else cleared

-- The accumulator of a session, which the first delta makes.
abbrev acc_or_new : ℕ → NipperEvent → Option Accumulator → Accumulator
acc_or_new now event none = record {
  builder = [];
  created_at = now;
  user_id = event.user_id;
  event = none;
}
acc_or_new now event (some acc) = acc

unfoldable pub accumulate : ℕ → NipperEvent → Dispatcher → Dispatcher
accumulate now event d =
    let acc = acc_or_new now event (lookup event.session_key d.accumulators) in
    record d {
      accumulators =
          insert event.session_key
            (record acc { builder = acc.builder ++ delta_or event.delta_text; event = some event })
            d.accumulators;
    }

unfoldable pub deliver : Env → ChannelType → Adapter → NipperResponse → Dispatcher → Dispatcher
deliver env ct adapter resp d = record d { trace = deliver_with_retry env ct adapter resp d.trace }

unfoldable pub handle_buffered_event :
    EventType → Env → ℕ → NipperEvent → Adapter → DeliveryEntry → Dispatcher → Dispatcher
unfolding accumulate deliver clear_accumulator accumulated
handle_buffered_event delta env now event adapter e d = accumulate now event d
handle_buffered_event error env now event adapter e d =
    let resp = assemble_error_response now (env.fresh_id d.trace) event e.context e.meta in
    clear_accumulator event.session_key (deliver env e.context.channel_type adapter resp d)
handle_buffered_event done env now event adapter e d =
    let text = final_text (accumulated event.session_key d) event in
    let resp = done_response now event e.context e.meta e.inbound_parts text in
    clear_accumulator event.session_key (deliver env e.context.channel_type adapter resp d)
handle_buffered_event _ env now event adapter e d = d

unfoldable pub handle_streaming_event :
    EventType → Env → ℕ → NipperEvent → Adapter → DeliveryEntry → Dispatcher → Dispatcher
unfolding deliver append_trace
handle_streaming_event done env now event adapter e d =
    let resp = assemble_response_from_event now event e.context e.meta e.inbound_parts in
    deliver env e.context.channel_type adapter resp d
handle_streaming_event _ env now event adapter e d =
    append_trace (streamed e.context.channel_type event ∷ []) d

unfoldable pub deliver_broadcast : Env → ℕ → NipperEvent → DeliveryContext → Dispatcher → Dispatcher
unfolding clear_accumulator accumulated
deliver_broadcast env now event dc d =
    let text = final_text (accumulated event.session_key d) event in
    clear_accumulator event.session_key
      (record d { trace = broadcast env now event text dc.notify_channels d.trace })

abbrev pub is_terminal : EventType → Bool
is_terminal done = true
is_terminal error = true
is_terminal _ = false

abbrev pub is_done : EventType → Bool
is_done done = true
is_done _ = false

abbrev starts_typing : EventType → Bool
starts_typing thinking = true
starts_typing tool_start = true
starts_typing _ = false

-- The typing indicator, before the event itself is handled.
unfoldable pub update_typing : NipperEvent → Adapter → DeliveryEntry → Dispatcher → Dispatcher
update_typing event adapter e d =
    if starts_typing event.kind
    then maybe_send_typing_indicator adapter event.session_key e.context e.meta d
    else if is_terminal event.kind
    then clear_typing_sent adapter event.session_key e.context e.meta d
    else d

unfoldable pub route_to_adapter :
    Env → ℕ → NipperEvent → DeliveryEntry → Option Adapter → Dispatcher → Dispatcher
unfolding update_typing
route_to_adapter env now event e none d = d
route_to_adapter env now event e (some adapter) d =
    if e.context.capabilities.supports_streaming
    then handle_streaming_event event.kind env now event adapter e (update_typing event adapter e d)
    else handle_buffered_event event.kind env now event adapter e (update_typing event adapter e d)

abbrev pub is_broadcast : DeliveryEntry → EventType → Bool
is_broadcast e kind = (e.context.reply_mode == codes "broadcast") && is_done kind

-- What HandleEvent does with the delivery entry that it found.
unfoldable pub route : Env → ℕ → NipperEvent → Option DeliveryEntry → Dispatcher → Dispatcher
unfolding route_to_adapter
route env now event none d = d
route env now event (some e) d =
    let d' = fan_out_to_web_socket event d in
    if is_broadcast e event.kind
    then deliver_broadcast env now event e.context d'
    else route_to_adapter env now event e (lookup e.context.channel_type env.adapters) d'

unfoldable pub handle_event : Env → ℕ → NipperEvent → Dispatcher → Dispatcher
unfolding route
handle_event env now event d =
    let (consumed, front) = consume event.session_key d.registry in
    if is_terminal event.kind
    then route env now event front (record d { registry = consumed })
    else route env now event (peek event.session_key d.registry) d

-- A nil event is dropped.
unfoldable pub receive : Env → ℕ → Option NipperEvent → Dispatcher → Dispatcher
receive env now none d = d
receive env now (some event) d = handle_event env now event d

unfoldable pub subscribe_web_socket : Text → ℕ → Dispatcher → Dispatcher
subscribe_web_socket key ch d = record d {
  ws_subscribers =
      insert key (or_no_subscribers (lookup key d.ws_subscribers) ++ ch ∷ []) d.ws_subscribers;
}

-- The loop of UnsubscribeWebSocket takes the first occurrence out.
remove_first : ℕ → List ℕ → List ℕ
remove_first ch [] = []
remove_first ch (x ∷ xs) = if x == ch then xs else x ∷ remove_first ch xs

abbrev put_subscribers : Text → List ℕ → Dict Text (List ℕ) → Dict Text (List ℕ)
put_subscribers key [] m = remove key m
put_subscribers key (ch ∷ chs) m = insert key (ch ∷ chs) m

unfoldable pub unsubscribe_web_socket : Text → ℕ → Dispatcher → Dispatcher
unfolding remove_first
unsubscribe_web_socket key ch d = record d {
  ws_subscribers =
      put_subscribers key (remove_first ch (or_no_subscribers (lookup key d.ws_subscribers)))
        d.ws_subscribers;
}

-- Five minutes, in nanoseconds.
abbrev pub accumulator_timeout : ℕ
accumulator_timeout = 300 * 1000000000

abbrev keep_recent : ℕ → Text → Accumulator → Option Accumulator
keep_recent cutoff key acc = if ltb acc.created_at cutoff then none else some acc

abbrev pub has_accumulator : Option Accumulator → Bool
has_accumulator none = false
has_accumulator (some acc) = true

abbrev keep_accumulating : Dict Text Accumulator → Text → Bool → Option Bool
keep_accumulating accs key sent = if has_accumulator (lookup key accs) then some sent else none

unfoldable pub evict_stale_accumulators : ℕ → Dispatcher → Dispatcher
evict_stale_accumulators now d =
    let accs = sweep (keep_recent (now - accumulator_timeout)) d.accumulators in
    record d { accumulators = accs; typing_sent = sweep (keep_accumulating accs) d.typing_sent }
