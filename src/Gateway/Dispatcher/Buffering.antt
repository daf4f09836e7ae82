-- ===== src/Gateway/Dispatcher/Buffering.antt =====
-- The text of a run on a channel without streaming.
use open_nipper.Prelude.{
  none, ◌≢◌, inr, list_beq_iff, inl, sym, Bool-cases, ℕ, ◌≡◌, refl, ap, ◌∙◌, Bool, true, false,
  ◌&&◌, some, List, [], ◌∷◌, ◌++◌, arith, Text, All, codes, ◌==◌, nat_eq, list_eq, if◌then◌else◌,
  if_true, if_false,
}
use open_nipper.Prelude.GoMap.{lookup-insert_self, lookup}
use open_nipper.Models.Event.{NipperEvent, EventType, delta, error, done}
use mathlib.Core.List.{append-nil, append_assoc}
use open_nipper.Gateway.Registry.{queue_of, DeliveryEntry, peek, consume}
use open_nipper.Gateway.Registry.View.{consume-peek}
use open_nipper.Gateway.Delivery.{Env, Adapter, delta_or}
use open_nipper.Gateway.Dispatcher.Frame.{handle_other}
use open_nipper.Gateway.Dispatcher.{
  builder_of, acc_or_new, Accumulator, Option, accumulate, Dispatcher, accumulated,
  fan_out_to_web_socket, maybe_send_typing_indicator, clear_typing_sent, handle_buffered_event,
  is_terminal, is_done, update_typing, route_to_adapter, is_broadcast, route, handle_event,
}

-- The events are handled in order, each at its own time.
unfoldable pub run : Env → List (ℕ × NipperEvent) → Dispatcher → Dispatcher
run env [] d = d
run env ((now, event) ∷ es) d = run env es (handle_event env now event d)

abbrev pub delta_text : NipperEvent → EventType → Text
delta_text event delta = delta_or event.delta_text
delta_text event _ = []

-- The texts of a session's deltas, one after the other.
unfoldable pub deltas : Text → List (ℕ × NipperEvent) → Text
deltas j [] = []
deltas j ((now, event) ∷ es) =
    (if event.session_key == j then delta_text event event.kind else []) ++ deltas j es

-- No event ends a run of the session.
abbrev pub IsOpen : Text → List (ℕ × NipperEvent) → Type 0
IsOpen j = All (λ p. ((p.1.session_key == j) && is_terminal p.1.kind) ≡ false)

-- The next response of the session goes to `e`, on a channel without streaming that has `adapter`.
pub record IsBuffered (env : Env) (j : Text) (e : DeliveryEntry) (adapter : Adapter)
    (d : Dispatcher) : Type 0 where
  pub front : peek j d.registry ≡ some e
  pub buffered : e.context.capabilities.supports_streaming ≡ false
  pub found : lookup e.context.channel_type env.adapters ≡ some adapter

not_broadcast :
    (b : Bool) (kind : EventType) → is_terminal kind ≡ false → (b && is_done kind) ≡ false
not_broadcast true done h = absurd (cc)
not_broadcast false done h = refl
not_broadcast true _ h = refl
not_broadcast false _ h = refl

module _ (env : Env) (now : ℕ) (event : NipperEvent) (e : DeliveryEntry) (adapter : Adapter)
    (d : Dispatcher) (b : IsBuffered env event.session_key e adapter d) where
  route_buffered :
      (d' : Dispatcher)
      → is_broadcast e event.kind ≡ false
      → route env now event (some e) d'
        ≡ handle_buffered_event event.kind env now event adapter e
            (update_typing event adapter e (fan_out_to_web_socket event d'))
  unfolding route route_to_adapter
  route_buffered d' h =
      if_false _ _ h
      ∙ ap (λ o. route_to_adapter env now event e o (fan_out_to_web_socket event d')) b.found
      ∙ if_false _ _ b.buffered

  handle_open :
      is_terminal event.kind ≡ false
      → handle_event env now event d
        ≡ handle_buffered_event event.kind env now event adapter e
            (update_typing event adapter e (fan_out_to_web_socket event d))
  unfolding handle_event
  handle_open h =
      if_false _ _ h
      ∙ ap (λ o. route env now event o d) b.front
      ∙ route_buffered d (not_broadcast (e.context.reply_mode == codes "broadcast") event.kind h)

  pub handle_close :
      is_terminal event.kind ≡ true
      → is_broadcast e event.kind ≡ false
      → handle_event env now event d
        ≡ handle_buffered_event event.kind env now event adapter e (
            update_typing event adapter e (
              fan_out_to_web_socket event
                (record d { registry = (consume event.session_key d.registry).0 })))
  unfolding handle_event
  handle_close t h =
      if_true _ _ t
      ∙ ap
          (λ o.
            route env now event o
              (record d { registry = (consume event.session_key d.registry).0 }))
          (consume-peek event.session_key d.registry ∙ b.front)
      ∙ route_buffered _ h

pub typing_keeps_text :
    (j : Text) (event : NipperEvent) (adapter : Adapter) (e : DeliveryEntry) (d : Dispatcher)
    → (accumulated j (update_typing event adapter e (fan_out_to_web_socket event d))
        ≡ accumulated j d)
      × ((update_typing event adapter e (fan_out_to_web_socket event d)).registry ≡ d.registry)
unfolding update_typing maybe_send_typing_indicator clear_typing_sent fan_out_to_web_socket
    accumulated
typing_keeps_text j event adapter e d = ground arith

accumulate_text :
    (now : ℕ) (event : NipperEvent) (d : Dispatcher)
    → accumulated event.session_key (accumulate now event d)
      ≡ accumulated event.session_key d ++ delta_or event.delta_text
unfolding accumulate accumulated
accumulate_text now event d =
    ap builder_of (lookup-insert_self event.session_key _ d.accumulators)
    ∙ go (lookup event.session_key d.accumulators)
  where
    go :
        (o : Option Accumulator)
        → (acc_or_new now event o).builder ++ delta_or event.delta_text
          ≡ builder_of o ++ delta_or event.delta_text
    go none = refl
    go (some acc) = refl

buffered_text :
    (kind : EventType) (env : Env) (now : ℕ) (event : NipperEvent) (adapter : Adapter)
    (e : DeliveryEntry) (d : Dispatcher)
    → is_terminal kind ≡ false
    → (accumulated event.session_key (handle_buffered_event kind env now event adapter e d)
        ≡ accumulated event.session_key d ++ delta_text event kind)
      × ((handle_buffered_event kind env now event adapter e d).registry ≡ d.registry)
unfolding handle_buffered_event
buffered_text delta env now event adapter e d h =
    (accumulate_text now event d, unfold accumulate in refl)
buffered_text error env now event adapter e d h = absurd (cc)
buffered_text done env now event adapter e d h = absurd (cc)
buffered_text _ env now event adapter e d h =
    (sym (append-nil (accumulated event.session_key d)), refl)

-- One event of the session itself.
own_text :
    (env : Env) (now : ℕ) (event : NipperEvent) (e : DeliveryEntry) (adapter : Adapter)
    (d : Dispatcher)
    → IsBuffered env event.session_key e adapter d
    → is_terminal event.kind ≡ false
    → (accumulated event.session_key (handle_event env now event d)
        ≡ accumulated event.session_key d ++ delta_text event event.kind)
      × ((handle_event env now event d).registry ≡ d.registry)
own_text env now event e adapter d b h =
    let d' = update_typing event adapter e (fan_out_to_web_socket event d) in
    let same = handle_open env now event e adapter d b h in
    let step = buffered_text event.kind env now event adapter e d' h in
    let kept = typing_keeps_text event.session_key event adapter e d in
    (
      ap (accumulated event.session_key) same
          ∙ step.0
          ∙ ap (λ t. t ++ delta_text event event.kind) kept.0,
      ap (λ (s : Dispatcher). s.registry) same ∙ step.1 ∙ kept.1,
    )

-- What one event of any session does to the text and to the queue of session j.
step_text :
    (env : Env) (j : Text) (now : ℕ) (event : NipperEvent) (e : DeliveryEntry) (adapter : Adapter)
    (d : Dispatcher)
    → IsBuffered env j e adapter d
    → ((event.session_key == j) && is_terminal event.kind) ≡ false
    → (accumulated j (handle_event env now event d)
        ≡ accumulated j d ++ (if event.session_key == j then delta_text event event.kind else []))
      × (queue_of j (handle_event env now event d).registry ≡ queue_of j d.registry)
step_text env j now event e adapter d b h = elim (Bool-cases (event.session_key == j)) [
  | inl own ↦
      let same : event.session_key ≡ j = (list_beq_iff event.session_key j).0 own in
      let b' : IsBuffered env event.session_key e adapter d = rw same b in
      let open' : is_terminal event.kind ≡ false = ground arith in
      let step = own_text env now event e adapter d b' open' in
      (rw own (rw (← same) step.0), ap (queue_of j) step.1)
  | inr foreign ↦
      let apart : event.session_key ≢ j =
        λ same. ground (arith, (list_beq_iff event.session_key j).1 same) in
      let other = handle_other env now event j apart d in
      (
        rw foreign (unfold accumulated in ap builder_of other.accumulator ∙ sym (append-nil _)),
        other.queue,
      )
]

-- While no event ends the run of a buffered session, whatever other sessions do, its accumulated
-- text grows by exactly the texts of its deltas, in order, and its queue stays as it is.
pub accumulated-run :
    (env : Env) (j : Text) (es : List (ℕ × NipperEvent)) (e : DeliveryEntry) (adapter : Adapter)
    (d : Dispatcher)
    → IsBuffered env j e adapter d
    → IsOpen j es
    → (accumulated j (run env es d) ≡ accumulated j d ++ deltas j es)
      × (queue_of j (run env es d).registry ≡ queue_of j d.registry)
unfolding run deltas
accumulated-run env j [] e adapter d b h = (sym (append-nil (accumulated j d)), refl)
accumulated-run env j ((now, event) ∷ es) e adapter d b h =
    let step = step_text env j now event e adapter d b h.0 in
    let d' = handle_event env now event d in
    let b' : IsBuffered env j e adapter d' = record {
      front = unfold peek in rw step.1 (unfold peek in b.front);
      buffered = b.buffered;
      found = b.found;
    } in
    let rest = accumulated-run env j es e adapter d' b' h.1 in
    (
      rest.0 ∙ ap (λ t. t ++ deltas j es) step.0 ∙ append_assoc (accumulated j d) _ (deltas j es),
      rest.1 ∙ step.1,
    )
