-- ===== src/Gateway/Dispatcher/Conversation.antt =====
-- A whole run on a channel without streaming, from its first delta to the response.
use open_nipper.Prelude.{
  ℕ, ◌≡◌, refl, ap, ◌∙◌, true, false, List, [], ◌++◌, arith, Text, codes, ◌==◌, nat_eq, list_eq,
  beq_refl,
}
use open_nipper.Prelude.GoMap.{lookup-remove_self}
use open_nipper.Models.Message.{NipperResponse}
use open_nipper.Models.Event.{NipperEvent, EventType, error, done}
use open_nipper.Gateway.Registry.{DeliveryEntry, queue_of, peek, consume}
use open_nipper.Gateway.Registry.View.{tail, queue-consume}
use open_nipper.Gateway.Delivery.{
  Env, Adapter, Trace, delivery_max_retries, final_text, done_response, assemble_error_response,
}
use open_nipper.Gateway.Delivery.Retry.{Attempts, deliver-Attempts}
use open_nipper.Gateway.Dispatcher.{
  Dispatcher, accumulated, fan_out_to_web_socket, handle_buffered_event, is_terminal, update_typing,
  handle_event, builder_of,
}
use open_nipper.Gateway.Dispatcher.Buffering.{
  run, deltas, IsOpen, IsBuffered, handle_close, typing_keeps_text, accumulated-run,
}

-- The state that a terminal event is handled in: its entry taken, the typing indicator removed.
abbrev closing : NipperEvent → Adapter → DeliveryEntry → Dispatcher → Dispatcher
closing event adapter e d =
    update_typing event adapter e (
      fan_out_to_web_socket event
        (record d { registry = (consume event.session_key d.registry).0 }))

terminal_clears_text :
    (kind : EventType) (env : Env) (now : ℕ) (event : NipperEvent) (adapter : Adapter)
    (e : DeliveryEntry) (d : Dispatcher)
    → is_terminal kind ≡ true
    → accumulated event.session_key (handle_buffered_event kind env now event adapter e d) ≡ []
unfolding handle_buffered_event
terminal_clears_text error env now event adapter e d h =
    unfold accumulated in ap builder_of (lookup-remove_self event.session_key d.accumulators)
terminal_clears_text done env now event adapter e d h =
    unfold accumulated in ap builder_of (lookup-remove_self event.session_key d.accumulators)
terminal_clears_text _ env now event adapter e d h = absurd (cc)

closing_queue :
    (event : NipperEvent) (adapter : Adapter) (e : DeliveryEntry) (d : Dispatcher)
    → queue_of event.session_key (closing event adapter e d).registry
      ≡ tail (queue_of event.session_key d.registry)
closing_queue event adapter e d =
    ap (queue_of event.session_key)
      (typing_keeps_text event.session_key event adapter e
        (record d { registry = (consume event.session_key d.registry).0 })).1
    ∙ ground (
      arith,
      queue-consume event.session_key event.session_key d.registry,
      beq_refl event.session_key,
    )

-- The end of a run: the response is sent from some point on, and nothing else after it; the text
-- of the session is cleared, and the entry at the front of its queue is gone.
pub record Closes (env : Env) (event : NipperEvent) (e : DeliveryEntry)
    (resp : Trace → NipperResponse) (d d' : Dispatcher) : Type 0 where
  pub sent_from : Trace
  pub sent :
      Attempts env e.context.channel_type (resp sent_from) delivery_max_retries sent_from d'.trace
  pub text_cleared : accumulated event.session_key d' ≡ []
  pub entry_taken :
      queue_of event.session_key d'.registry ≡ tail (queue_of event.session_key d.registry)

module _ (env : Env) (now : ℕ) (event : NipperEvent) (adapter : Adapter) (e : DeliveryEntry)
    (d : Dispatcher) where
  done_step :
      Closes env event e
        (λ _.
          done_response now event e.context e.meta e.inbound_parts
            (final_text (accumulated event.session_key (closing event adapter e d)) event))
        d
        (handle_buffered_event done env now event adapter e (closing event adapter e d))
  unfolding handle_buffered_event
  done_step = record {
    sent_from = (closing event adapter e d).trace;
    sent = deliver-Attempts env e.context.channel_type adapter _ _;
    text_cleared =
        terminal_clears_text done env now event adapter e (closing event adapter e d) refl;
    entry_taken = closing_queue event adapter e d;
  }

  error_step :
      Closes env event e
        (λ before. assemble_error_response now (env.fresh_id before) event e.context e.meta)
        d
        (handle_buffered_event error env now event adapter e (closing event adapter e d))
  unfolding handle_buffered_event
  error_step = record {
    sent_from = (closing event adapter e d).trace;
    sent = deliver-Attempts env e.context.channel_type adapter _ _;
    text_cleared =
        terminal_clears_text error env now event adapter e (closing event adapter e d) refl;
    entry_taken = closing_queue event adapter e d;
  }

closing_text :
    (event : NipperEvent) (adapter : Adapter) (e : DeliveryEntry) (d : Dispatcher)
    → accumulated event.session_key (closing event adapter e d) ≡ accumulated event.session_key d
closing_text event adapter e d =
    (typing_keeps_text event.session_key event adapter e
      (record d { registry = (consume event.session_key d.registry).0 })).0
    ∙ unfold accumulated in refl

open_run-IsBuffered :
    (env : Env) (j : Text) (es : List (ℕ × NipperEvent)) (e : DeliveryEntry) (adapter : Adapter)
    (d : Dispatcher)
    → IsBuffered env j e adapter d
    → IsOpen j es
    → IsBuffered env j e adapter (run env es d)
open_run-IsBuffered env j es e adapter d b h = record {
  front = unfold peek in rw (accumulated-run env j es e adapter d b h).1 (unfold peek in b.front);
  buffered = b.buffered;
  found = b.found;
}

-- A run on a channel without streaming: events of any sessions, none of which ends the run of this
-- session, and then its `done`. The response that is sent to the entry at the front of the queue
-- has the texts of the session's deltas, in order, or the text of the `done` event where they are
-- empty. It is attempted at most three times, the text is cleared, and the entry is consumed.
pub done_sends_deltas :
    (env : Env) (now : ℕ) (event : NipperEvent) (es : List (ℕ × NipperEvent)) (e : DeliveryEntry)
    (adapter : Adapter) (d : Dispatcher)
    → IsBuffered env event.session_key e adapter d
    → IsOpen event.session_key es
    → event.kind ≡ done
    → (e.context.reply_mode == codes "broadcast") ≡ false
    → accumulated event.session_key d ≡ []
    → Closes env event e
        (λ _.
          done_response now event e.context e.meta e.inbound_parts
            (final_text (deltas event.session_key es) event))
        (run env es d)
        (handle_event env now event (run env es d))
done_sends_deltas env now event es e adapter d b h ends direct fresh =
    let d' = run env es d in
    let b' = open_run-IsBuffered env event.session_key es e adapter d b h in
    let text : accumulated event.session_key (closing event adapter e d')
        ≡ deltas event.session_key es =
      closing_text event adapter e d'
      ∙ (accumulated-run env event.session_key es e adapter d b h).0
      ∙ ap (λ t. t ++ deltas event.session_key es) fresh in
    let same =
      handle_close env now event e adapter d' b' (rw ends) (rw ends (ground arith))
      ∙ ap (λ k. handle_buffered_event k env now event adapter e (closing event adapter e d'))
          ends in
    rw same (rw (← text) (done_step env now event adapter e d'))

-- An `error` event on such a channel sends its message, or a default one, to the entry at the front
-- of the queue; the text collected so far is dropped, and the entry is consumed.
pub error_sends_message :
    (env : Env) (now : ℕ) (event : NipperEvent) (e : DeliveryEntry) (adapter : Adapter)
    (d : Dispatcher)
    → IsBuffered env event.session_key e adapter d
    → event.kind ≡ error
    → Closes env event e
        (λ before. assemble_error_response now (env.fresh_id before) event e.context e.meta)
        d
        (handle_event env now event d)
error_sends_message env now event e adapter d b ends =
    let same =
      handle_close env now event e adapter d b (rw ends) (rw ends (ground arith))
      ∙ ap (λ k. handle_buffered_event k env now event adapter e (closing event adapter e d))
          ends in
    rw same (error_step env now event adapter e d)
