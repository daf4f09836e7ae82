-- ===== src/Gateway/Dispatcher/Typing.antt =====
-- How often the typing indicator of a session is shown.
use open_nipper.Prelude.{
  ℕ, ◌+◌, ◌≤◌, ◌≡◌, refl, Bool, true, false, ◌&&◌, Option, none, some, List, [], ◌∷◌, arith, Text,
  ◌==◌, nat_eq, list_eq, list_beq_iff, if◌then◌else◌,
}
use open_nipper.Prelude.GoMap.{lookup, lookup-insert, lookup-remove}
use open_nipper.Models.Channel.{ChannelMeta, DeliveryContext}
use open_nipper.Models.Event.{NipperEvent, EventType, error, done}
use open_nipper.Gateway.Registry.{DeliveryEntry, peek, consume}
use open_nipper.Gateway.Delivery.{typing_on, typing_off, streamed, Env, Adapter}
use open_nipper.Gateway.Dispatcher.{
  Dispatcher, was_sent, fan_out_to_web_socket, or_no_subscribers, offers, append_trace,
  maybe_send_typing_indicator, clear_typing_sent, handle_buffered_event, handle_streaming_event,
  deliver_broadcast, is_terminal, update_typing, route_to_adapter, is_broadcast, route,
  handle_event, starts_typing,
}
use open_nipper.Gateway.Dispatcher.Buffering.{run}
use open_nipper.Gateway.Dispatcher.Shown.{
  toggled, toggled-append, toggled-offers, toggled-snoc, toggled-deliver, toggled-broadcast,
}

abbrev pub flag : Text → Dispatcher → ℕ
flag j d = if was_sent j d then 1 else 0

-- From one state to the next the indicator of j is shown at most as often as its flag is newly set,
-- where the flag was cleared at most n times.
record TypingStep (j : Text) (n : ℕ) (d d' : Dispatcher) : Type 0 where
  bound : toggled true j d'.trace + flag j d ≤ toggled true j d.trace + flag j d' + n

step_then :
    {j : Text} {n m : ℕ} {a b c : Dispatcher}
    → TypingStep j n a b
    → TypingStep j m b c
    → TypingStep j (n + m) a c
step_then p q = record { bound = omega (arith, p.bound, q.bound) }

quiet_then :
    {j : Text} {n : ℕ} {a b c : Dispatcher}
    → TypingStep j 0 a b
    → TypingStep j n b c
    → TypingStep j n a c
quiet_then p q = record { bound = omega (arith, p.bound, q.bound) }

step_then_quiet :
    {j : Text} {n : ℕ} {a b c : Dispatcher}
    → TypingStep j n a b
    → TypingStep j 0 b c
    → TypingStep j n a c
step_then_quiet p q = record { bound = omega (arith, p.bound, q.bound) }

step_if :
    {j : Text} {n : ℕ} {a x y : Dispatcher} (b : Bool)
    → (b ≡ true → TypingStep j n a x)
    → (b ≡ false → TypingStep j n a y)
    → TypingStep j n a (if b then x else y)
step_if true p q = p refl
step_if false p q = q refl

-- A step that leaves the flags alone and shows nothing.
quiet :
    (j : Text) (n : ℕ) (a b : Dispatcher)
    → toggled true j b.trace ≡ toggled true j a.trace
    → b.typing_sent ≡ a.typing_sent
    → TypingStep j n a b
unfolding was_sent
quiet j n a b s t = record { bound = rw t (omega (arith, s)) }

abbrev pub ends : Text → NipperEvent → ℕ
ends j event = if (event.session_key == j) && is_terminal event.kind then 1 else 0

module _ (env : Env) (now : ℕ) (event : NipperEvent) (j : Text) where
  maybe_send_step :
      (adapter : Adapter) (dc : DeliveryContext) (meta : Option ChannelMeta) (d : Dispatcher)
      (n : ℕ)
      → TypingStep j n d (maybe_send_typing_indicator adapter event.session_key dc meta d)
  unfolding maybe_send_typing_indicator append_trace was_sent
  maybe_send_step adapter dc meta d n = record {
    bound = ground (
      arith,
      toggled-snoc true j d.trace (typing_on event.session_key dc meta),
      lookup-insert event.session_key j true d.typing_sent,
      list_beq_iff event.session_key j,
    );
  }

  clear_step :
      (adapter : Adapter) (dc : DeliveryContext) (meta : Option ChannelMeta) (d : Dispatcher)
      → is_terminal event.kind ≡ true
      → TypingStep j (ends j event) d (clear_typing_sent adapter event.session_key dc meta d)
  unfolding clear_typing_sent append_trace was_sent
  clear_step adapter dc meta d t = record {
    bound = rw t (
        ground (
          arith,
          toggled-snoc true j d.trace (typing_off event.session_key dc meta),
          lookup-remove event.session_key j d.typing_sent,
          list_beq_iff event.session_key j,
        ));
  }

  update_step :
      (adapter : Adapter) (e : DeliveryEntry) (d : Dispatcher)
      → TypingStep j (ends j event) d (update_typing event adapter e d)
  unfolding update_typing
  update_step adapter e d =
      step_if (starts_typing event.kind)
        (λ _. maybe_send_step adapter e.context e.meta d (ends j event))
        (λ _.
          step_if (is_terminal event.kind) (clear_step adapter e.context e.meta d)
            (λ _. quiet j (ends j event) d d refl refl))

  fan_out_step : (n : ℕ) (d : Dispatcher) → TypingStep j n d (fan_out_to_web_socket event d)
  unfolding fan_out_to_web_socket append_trace
  fan_out_step n d =
      let chs = or_no_subscribers (lookup event.session_key d.ws_subscribers) in
      quiet j n d _
        (omega (
          arith,
          toggled-append true j d.trace (offers event chs),
          toggled-offers true j event chs,
        ))
        refl

  buffered_step :
      (kind : EventType) (adapter : Adapter) (e : DeliveryEntry) (d : Dispatcher)
      → TypingStep j 0 d (handle_buffered_event kind env now event adapter e d)
  unfolding handle_buffered_event
  buffered_step error adapter e d =
      quiet j 0 d _ (toggled-deliver true j env _ adapter _ d.trace) refl
  buffered_step done adapter e d =
      quiet j 0 d _ (toggled-deliver true j env _ adapter _ d.trace) refl
  buffered_step _ adapter e d = quiet j 0 d _ refl refl

  streaming_step :
      (kind : EventType) (adapter : Adapter) (e : DeliveryEntry) (d : Dispatcher)
      → TypingStep j 0 d (handle_streaming_event kind env now event adapter e d)
  unfolding handle_streaming_event
  streaming_step done adapter e d =
      quiet j 0 d _ (toggled-deliver true j env _ adapter _ d.trace) refl
  streaming_step _ adapter e d =
      quiet j 0 d _
        (omega (arith, toggled-snoc true j d.trace (streamed e.context.channel_type event))) refl

  to_adapter_step :
      (e : DeliveryEntry) (adapter : Option Adapter) (d : Dispatcher)
      → TypingStep j (ends j event) d (route_to_adapter env now event e adapter d)
  unfolding route_to_adapter
  to_adapter_step e none d = quiet j (ends j event) d d refl refl
  to_adapter_step e (some adapter) d =
      step_if e.context.capabilities.supports_streaming
        (λ _. step_then_quiet (update_step adapter e d) (streaming_step event.kind adapter e _))
        (λ _. step_then_quiet (update_step adapter e d) (buffered_step event.kind adapter e _))

  broadcast_step :
      (dc : DeliveryContext) (d : Dispatcher)
      → TypingStep j (ends j event) d (deliver_broadcast env now event dc d)
  unfolding deliver_broadcast
  broadcast_step dc d =
      quiet j (ends j event) d _
        (toggled-broadcast true j env now event _ dc.notify_channels d.trace) refl

  route_step :
      (front : Option DeliveryEntry) (d : Dispatcher)
      → TypingStep j (ends j event) d (route env now event front d)
  unfolding route
  route_step none d = quiet j (ends j event) d d refl refl
  route_step (some e) d =
      step_if (is_broadcast e event.kind)
        (λ _. quiet_then (fan_out_step 0 d) (broadcast_step e.context _))
        (λ _. quiet_then (fan_out_step 0 d) (to_adapter_step e _ _))

  handle_step : (d : Dispatcher) → TypingStep j (ends j event) d (handle_event env now event d)
  unfolding handle_event
  handle_step d =
      step_if (is_terminal event.kind)
        (λ _.
          quiet_then
            (quiet j 0 d (record d { registry = (consume event.session_key d.registry).0 }) refl
              refl)
            (route_step (consume event.session_key d.registry).1 _))
        (λ _. route_step (peek event.session_key d.registry) d)

-- How many events end a run of the session.
unfoldable pub endings : Text → List (ℕ × NipperEvent) → ℕ
endings j [] = 0
endings j ((now, event) ∷ es) = ends j event + endings j es

run_step :
    (env : Env) (j : Text) (es : List (ℕ × NipperEvent)) (d : Dispatcher)
    → TypingStep j (endings j es) d (run env es d)
unfolding run endings
run_step env j [] d = quiet j 0 d d refl refl
run_step env j ((now, event) ∷ es) d =
    step_then (handle_step env now event j d) (run_step env j es (handle_event env now event d))

-- Over any events, from a state in which the indicator of a session is not on, it is shown at most
-- once more than runs of the session have ended: once for each run.
pub shown_once_per_run :
    (env : Env) (j : Text) (es : List (ℕ × NipperEvent)) (d : Dispatcher)
    → was_sent j d ≡ false
    → toggled true j (run env es d).trace ≤ toggled true j d.trace + endings j es + 1
shown_once_per_run env j es d h = ground (arith, (run_step env j es d).bound)
