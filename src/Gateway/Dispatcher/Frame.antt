-- ===== src/Gateway/Dispatcher/Frame.antt =====
-- What handling an event leaves alone: everything, where no message of the session waits for a
-- response; and all of the other sessions.
use open_nipper.Prelude.{
  false, if◌then◌else◌, ℕ, ◌≡◌, refl, ◌∙◌, ◌≢◌, true, Option, none, some, arith, Text, nat_eq,
  list_eq, list_beq_iff, Bool-cases, inl, inr,
}
use open_nipper.Prelude.GoMap.{lookup, lookup-insert_ne, lookup-remove_ne}
use open_nipper.Models.Event.{NipperEvent, EventType, delta, error, done}
use open_nipper.Gateway.Registry.{DeliveryEntry, queue_of, peek, consume}
use open_nipper.Gateway.Registry.View.{queue-consume, consume-peek, consume_absent}
use open_nipper.Gateway.Delivery.{Trace, Env, Adapter}
use open_nipper.Gateway.Dispatcher.{
  Bool, Dispatcher, fan_out_to_web_socket, clear_accumulator, maybe_send_typing_indicator,
  clear_typing_sent, accumulate, handle_buffered_event, handle_streaming_event, deliver_broadcast,
  is_terminal, update_typing, route_to_adapter, is_broadcast, route, handle_event,
}

-- An event of a session without a waiting message changes nothing and has no effect outside.
pub handle_unknown :
    (env : Env) (now : ℕ) (event : NipperEvent) (d : Dispatcher)
    → peek event.session_key d.registry ≡ none
    → handle_event env now event d ≡ d
unfolding handle_event
handle_unknown env now event d h = elim (Bool-cases (is_terminal event.kind)) [
  | inl e ↦ rw e (
      rw (consume-peek event.session_key d.registry)
        (rw (h, consume_absent event.session_key d.registry h) (unfold route in refl)))
  | inr e ↦ rw e (rw h (unfold route in refl))
]

-- The state of one session.
pub record SameSession (j : Text) (a b : Dispatcher) : Type 0 where
  pub queue : queue_of j a.registry ≡ queue_of j b.registry
  pub accumulator : lookup j a.accumulators ≡ lookup j b.accumulators
  pub typing : lookup j a.typing_sent ≡ lookup j b.typing_sent

pub same_self : (j : Text) (d : Dispatcher) → SameSession j d d
same_self j d = record { queue = refl; accumulator = refl; typing = refl }

pub same_trans :
    (j : Text) {a b c : Dispatcher} → SameSession j a b → SameSession j b c → SameSession j a c
same_trans j p q = record {
  queue = p.queue ∙ q.queue;
  accumulator = p.accumulator ∙ q.accumulator;
  typing = p.typing ∙ q.typing;
}

pub same_if :
    (j : Text) (b : Bool) {x y d : Dispatcher}
    → SameSession j x d
    → SameSession j y d
    → SameSession j (if b then x else y) d
same_if j true p q = p
same_if j false p q = q

module _ (env : Env) (now : ℕ) (event : NipperEvent) (j : Text)
    (other : event.session_key ≢ j) where
  trace_same : (tr : Trace) (d : Dispatcher) → SameSession j (record d { trace = tr }) d
  trace_same tr d = record { queue = refl; accumulator = refl; typing = refl }

  clear_accumulator_same :
      (d : Dispatcher) → SameSession j (clear_accumulator event.session_key d) d
  unfolding clear_accumulator
  clear_accumulator_same d = record {
    queue = refl;
    accumulator = lookup-remove_ne event.session_key j d.accumulators other;
    typing = refl;
  }

  accumulate_same : (d : Dispatcher) → SameSession j (accumulate now event d) d
  unfolding accumulate
  accumulate_same d = record {
    queue = refl;
    accumulator = lookup-insert_ne event.session_key j _ d.accumulators other;
    typing = refl;
  }

  update_typing_same :
      (adapter : Adapter) (e : DeliveryEntry) (d : Dispatcher)
      → SameSession j (update_typing event adapter e d) d
  unfolding update_typing maybe_send_typing_indicator clear_typing_sent
  update_typing_same adapter e d = record {
    queue = ground arith;
    accumulator = ground arith;
    typing = ground (
      arith,
      lookup-insert_ne event.session_key j true d.typing_sent other,
      lookup-remove_ne event.session_key j d.typing_sent other,
    );
  }

  buffered_same :
      (kind : EventType) (adapter : Adapter) (e : DeliveryEntry) (d : Dispatcher)
      → SameSession j (handle_buffered_event kind env now event adapter e d) d
  unfolding handle_buffered_event
  buffered_same delta adapter e d = accumulate_same d
  buffered_same error adapter e d = same_trans j (clear_accumulator_same _) (trace_same _ d)
  buffered_same done adapter e d = same_trans j (clear_accumulator_same _) (trace_same _ d)
  buffered_same _ adapter e d = same_self j d

  streaming_same :
      (kind : EventType) (adapter : Adapter) (e : DeliveryEntry) (d : Dispatcher)
      → SameSession j (handle_streaming_event kind env now event adapter e d) d
  unfolding handle_streaming_event
  streaming_same done adapter e d = trace_same _ d
  streaming_same _ adapter e d = trace_same _ d

  to_adapter_same :
      (e : DeliveryEntry) (adapter : Option Adapter) (d : Dispatcher)
      → SameSession j (route_to_adapter env now event e adapter d) d
  unfolding route_to_adapter
  to_adapter_same e none d = same_self j d
  to_adapter_same e (some adapter) d =
      same_if j e.context.capabilities.supports_streaming
        (same_trans j (streaming_same event.kind adapter e _) (update_typing_same adapter e d))
        (same_trans j (buffered_same event.kind adapter e _) (update_typing_same adapter e d))

  fan_out_same : (d : Dispatcher) → SameSession j (fan_out_to_web_socket event d) d
  unfolding fan_out_to_web_socket
  fan_out_same d = trace_same _ d

  broadcast_same :
      (e : DeliveryEntry) (d : Dispatcher)
      → SameSession j (deliver_broadcast env now event e.context d) d
  unfolding deliver_broadcast
  broadcast_same e d = same_trans j (clear_accumulator_same _) (trace_same _ d)

  route_same :
      (front : Option DeliveryEntry) (d : Dispatcher)
      → SameSession j (route env now event front d) d
  unfolding route
  route_same none d = same_self j d
  route_same (some e) d =
      same_if j (is_broadcast e event.kind) (same_trans j (broadcast_same e _) (fan_out_same d))
        (same_trans j (to_adapter_same e _ _) (fan_out_same d))

  consumed_same :
      (d : Dispatcher)
      → SameSession j (record d { registry = (consume event.session_key d.registry).0 }) d
  consumed_same d = record {
    queue =
        ground
          (arith, queue-consume event.session_key j d.registry, list_beq_iff event.session_key j);
    accumulator = refl;
    typing = refl;
  }

  -- An event changes neither the queue nor the accumulator nor the typing flag of another session.
  pub handle_other : (d : Dispatcher) → SameSession j (handle_event env now event d) d
  unfolding handle_event
  handle_other d =
      same_if j (is_terminal event.kind)
        (same_trans j (route_same (consume event.session_key d.registry).1 _) (consumed_same d))
        (route_same (peek event.session_key d.registry) d)
