-- ===== src/Gateway/Dispatcher/Eviction.antt =====
-- The periodic eviction, and what it does to the typing indicators of sessions that still run.
use open_nipper.Prelude.{
  ℕ, ◌+◌, ◌-◌, ◌≡◌, refl, ap, ◌∙◌, Bool, true, false, ◌&&◌, Option, none, some, arith, Text, codes,
  ◌==◌, nat_eq, list_eq, list_beq_iff, if◌then◌else◌, if_true, if_false,
}
use open_nipper.Prelude.GoMap.{lookup, sweep, sweep_at, lookup-sweep, lookup-sweep-none, Unique}
use open_nipper.Models.Channel.{DeliveryContext, ChannelMeta}
use open_nipper.Models.Event.{NipperEvent, EventType, error, done}
use open_nipper.Gateway.Registry.{DeliveryEntry, peek, consume}
use open_nipper.Gateway.Registry.View.{consume-peek}
use open_nipper.Gateway.Delivery.{Env, Adapter, typing_off, streamed}
use open_nipper.Gateway.Dispatcher.{
  Dispatcher, was_sent, or_false, fan_out_to_web_socket, offers, or_no_subscribers, append_trace,
  clear_typing_sent, handle_buffered_event, handle_streaming_event, update_typing, route_to_adapter,
  route, handle_event, is_terminal, is_broadcast, evict_stale_accumulators, keep_accumulating,
  keep_recent, has_accumulator, accumulator_timeout,
}
use open_nipper.Gateway.Dispatcher.Shown.{
  toggled, toggled-append, toggled-offers, toggled-snoc, toggled-deliver,
}

-- The eviction keeps an accumulator exactly if it was made at most five minutes ago.
pub lookup-evict :
    (now : ℕ) (j : Text) (d : Dispatcher)
    → Unique d.accumulators
    → lookup j (evict_stale_accumulators now d).accumulators
      ≡ sweep_at (keep_recent (now - accumulator_timeout)) j (lookup j d.accumulators)
unfolding evict_stale_accumulators
lookup-evict now j d u = lookup-sweep (keep_recent (now - accumulator_timeout)) j d.accumulators u

-- A typing flag survives the eviction exactly if its session then has an accumulator.
pub was_sent-evict :
    (now : ℕ) (j : Text) (d : Dispatcher)
    → Unique d.typing_sent
    → was_sent j (evict_stale_accumulators now d)
      ≡ (has_accumulator (lookup j (evict_stale_accumulators now d).accumulators) && was_sent j d)
unfolding was_sent evict_stale_accumulators
was_sent-evict now j d u =
    let accs = sweep (keep_recent (now - accumulator_timeout)) d.accumulators in
    ap or_false (lookup-sweep (keep_accumulating accs) j d.typing_sent u)
    ∙ go (has_accumulator (lookup j accs)) (lookup j d.typing_sent)
  where
    go :
        (b : Bool) (o : Option Bool)
        → or_false (sweep_at (λ (k : Text) (sent : Bool). if b then some sent else none) j o)
          ≡ (b && or_false o)
    go true none = refl
    go true (some v) = refl
    go false none = refl
    go false (some v) = refl

-- Whether a `done` event removes the indicator of its session.
abbrev pub removals : Adapter → Text → Dispatcher → ℕ
removals adapter j d = if was_sent j d && adapter.has_typing_remover then 1 else 0

clear_removes :
    (adapter : Adapter) (j : Text) (dc : DeliveryContext) (meta : Option ChannelMeta)
    (d : Dispatcher)
    → toggled false j (clear_typing_sent adapter j dc meta d).trace
      ≡ toggled false j d.trace + removals adapter j d
unfolding clear_typing_sent append_trace
clear_removes adapter j dc meta d =
    ground (arith, toggled-snoc false j d.trace (typing_off j dc meta), list_beq_iff j j)

fan_out_removes :
    (j : Text) (event : NipperEvent) (d : Dispatcher)
    → toggled false j (fan_out_to_web_socket event d).trace ≡ toggled false j d.trace
unfolding fan_out_to_web_socket append_trace
fan_out_removes j event d =
    let chs = or_no_subscribers (lookup event.session_key d.ws_subscribers) in
    omega
      (arith, toggled-append false j d.trace (offers event chs), toggled-offers false j event chs)

-- Neither way to handle an event touches an indicator.
buffered_removes :
    (j : Text) (kind : EventType) (env : Env) (now : ℕ) (event : NipperEvent) (adapter : Adapter)
    (e : DeliveryEntry) (d : Dispatcher)
    → toggled false j (handle_buffered_event kind env now event adapter e d).trace
      ≡ toggled false j d.trace
unfolding handle_buffered_event
buffered_removes j error env now event adapter e d = toggled-deliver false j env _ adapter _ d.trace
buffered_removes j done env now event adapter e d = toggled-deliver false j env _ adapter _ d.trace
buffered_removes j _ env now event adapter e d = refl

streaming_removes :
    (j : Text) (kind : EventType) (env : Env) (now : ℕ) (event : NipperEvent) (adapter : Adapter)
    (e : DeliveryEntry) (d : Dispatcher)
    → toggled false j (handle_streaming_event kind env now event adapter e d).trace
      ≡ toggled false j d.trace
unfolding handle_streaming_event
streaming_removes j done env now event adapter e d = toggled-deliver false j env _ adapter _ d.trace
streaming_removes j _ env now event adapter e d =
    omega (arith, toggled-snoc false j d.trace (streamed e.context.channel_type event))

toggled-if :
    (on : Bool) (j : Text) (n : ℕ) (b : Bool) (x y : Dispatcher)
    → toggled on j x.trace ≡ n
    → toggled on j y.trace ≡ n
    → toggled on j (if b then x else y).trace ≡ n
toggled-if on j n true x y p q = p
toggled-if on j n false x y p q = q

terminal_typing :
    (event : NipperEvent) (adapter : Adapter) (e : DeliveryEntry) (d : Dispatcher)
    → event.kind ≡ done
    → update_typing event adapter e d
      ≡ clear_typing_sent adapter event.session_key e.context e.meta d
unfolding update_typing
terminal_typing event adapter e d h = rw h

route_removes :
    (env : Env) (now : ℕ) (event : NipperEvent) (e : DeliveryEntry) (adapter : Adapter)
    (d : Dispatcher)
    → event.kind ≡ done
    → toggled false event.session_key (route_to_adapter env now event e (some adapter) d).trace
      ≡ toggled false event.session_key d.trace + removals adapter event.session_key d
unfolding route_to_adapter
route_removes env now event e adapter d h =
    let j = event.session_key in
    let d' = update_typing event adapter e d in
    let cleared : toggled false j d'.trace ≡ toggled false j d.trace + removals adapter j d =
      ap (λ (s : Dispatcher). toggled false j s.trace) (terminal_typing event adapter e d h)
      ∙ clear_removes adapter j e.context e.meta d in
    toggled-if false j _ e.context.capabilities.supports_streaming _ _
      (streaming_removes j event.kind env now event adapter e d' ∙ cleared)
      (buffered_removes j event.kind env now event adapter e d' ∙ cleared)

-- The `done` of a message that is answered on its own channel.
pub record IsAnswered (env : Env) (event : NipperEvent) (e : DeliveryEntry) (adapter : Adapter)
    (d : Dispatcher) : Type 0 where
  pub ends : event.kind ≡ done
  pub front : peek event.session_key d.registry ≡ some e
  pub direct : (e.context.reply_mode == codes "broadcast") ≡ false
  pub found : lookup e.context.channel_type env.adapters ≡ some adapter

-- A `done` event that is answered on its own channel removes the typing indicator of its session
-- once, if it was shown and the adapter can remove it, and does not otherwise.
pub done_removes_indicator :
    (env : Env) (now : ℕ) (event : NipperEvent) (e : DeliveryEntry) (adapter : Adapter)
    (d : Dispatcher)
    → IsAnswered env event e adapter d
    → toggled false event.session_key (handle_event env now event d).trace
      ≡ toggled false event.session_key d.trace + removals adapter event.session_key d
unfolding handle_event route
done_removes_indicator env now event e adapter d a =
    let j = event.session_key in
    let taken : Dispatcher = record d { registry = (consume j d.registry).0 } in
    let offered_to = fan_out_to_web_socket event taken in
    let terminal : is_terminal event.kind ≡ true = rw a.ends in
    let direct : is_broadcast e event.kind ≡ false = rw a.direct in
    let path : handle_event env now event d
        ≡ route_to_adapter env now event e (some adapter) offered_to =
      if_true _ _ terminal
      ∙ ap (λ o. route env now event o taken) (consume-peek j d.registry ∙ a.front)
      ∙ if_false _ _ direct
      ∙ ap (λ o. route_to_adapter env now event e o offered_to) a.found in
    ap (λ (s : Dispatcher). toggled false j s.trace) path
    ∙ route_removes env now event e adapter offered_to a.ends
    ∙ unfold fan_out_to_web_socket append_trace was_sent in
      omega (arith, fan_out_removes j event taken)

-- After an eviction in the middle of a run without accumulated text, as every run of a streaming
-- channel is, the `done` event no longer removes the typing indicator, whether it was shown or not.
pub evict_leaves_indicator :
    (env : Env) (t now : ℕ) (event : NipperEvent) (e : DeliveryEntry) (adapter : Adapter)
    (d : Dispatcher)
    → Unique d.typing_sent
    → IsAnswered env event e adapter d
    → lookup event.session_key d.accumulators ≡ none
    → toggled false event.session_key
        (handle_event env now event (evict_stale_accumulators t d)).trace
      ≡ toggled false event.session_key d.trace
evict_leaves_indicator env t now event e adapter d u a silent =
    let j = event.session_key in
    let d' = evict_stale_accumulators t d in
    let a' : IsAnswered env event e adapter d' = record {
      ends = a.ends;
      front = unfold evict_stale_accumulators in a.front;
      direct = a.direct;
      found = a.found;
    } in
    let gone : lookup j d'.accumulators ≡ none =
      unfold evict_stale_accumulators in lookup-sweep-none _ j d.accumulators silent in
    let forgotten : was_sent j d' ≡ false = was_sent-evict t j d u ∙ rw gone in
    let same : d'.trace ≡ d.trace = unfold evict_stale_accumulators in refl in
    done_removes_indicator env now event e adapter d' a'
    ∙ rw forgotten (ground (arith, ap (toggled false j) same))
