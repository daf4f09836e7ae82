-- ===== src/Gateway/Collect/Conservation.antt =====
-- The messages of a collect buffer, through any sequence of collecting and flushing.
use open_nipper.Prelude.{
  ℕ, ◌≡◌, refl, sym, ap, ◌∙◌, Bool, Option, none, some, List, [], ◌∷◌, ◌++◌, arith, Text, ℤ, ◌==◌,
  nat_eq, list_eq, list_beq_iff, if◌then◌else◌, Bool-cases, inl, inr,
}
use mathlib.Core.List.{append_assoc, append-nil}
use open_nipper.Prelude.GoMap.{
  lookup, remove, lookup-insert_self, lookup-insert_ne, lookup-remove_self, lookup-remove_ne,
}
use open_nipper.Models.Message.{NipperMessage}
use open_nipper.Models.Queue.{QueueMode, QueueItem, QueueConfig}
use open_nipper.Gateway.Collect.{
  Dict, Action, Actions, flushed, dropped, CollectBuffer, Router, RouterEnv, buffer_key, new_buffer,
  append_msg, buffer_or, enqueue_collect, collected_item, emission, publish_collected, flush_found,
  flush_collect_buffer,
}

-- A message is collected, or a buffer is flushed: by its timer, or by the goroutine started at the
-- cap, at any later time.
pub data Step : Type 0 where
  collected : ℕ → NipperMessage → QueueMode → ℤ → Step
  flush : ℕ → Text → Step

unfoldable pub perform : RouterEnv → Step → Router → Router
perform env (collected now msg mode priority) r = enqueue_collect env.config now msg mode priority r
perform env (flush now key) r = flush_collect_buffer env now key r

unfoldable pub run : RouterEnv → List Step → Router → Router
unfolding perform
run env [] r = r
run env (s ∷ ss) r = run env ss (perform env s r)

abbrev pub left_by : Text → Action → List NipperMessage
left_by j (flushed key item success) = if key == j then item.collected_messages else []
left_by j (dropped key msgs) = if key == j then msgs else []
left_by j _ = []

-- The messages that left the buffer of a key, in order: those of the published items, and those
-- that were dropped for want of a publisher.
unfoldable pub left : Text → Actions → List NipperMessage
left j [] = []
left j (a ∷ acts) = left_by j a ++ left j acts

abbrev pub msgs_of : Option CollectBuffer → List NipperMessage
msgs_of none = []
msgs_of (some buf) = buf.msgs

unfoldable pub buffered : Text → Router → List NipperMessage
buffered j r = msgs_of (lookup j r.collect_buffers)

abbrev pub arriving : Text → Step → List NipperMessage
arriving j (collected now msg mode priority) = if buffer_key msg == j then msg ∷ [] else []
arriving j (flush now key) = []

unfoldable pub arrivals : Text → List Step → List NipperMessage
arrivals j [] = []
arrivals j (s ∷ ss) = arriving j s ++ arrivals j ss

left-snoc :
    (j : Text) (acts : Actions) (a : Action) → left j (acts ++ a ∷ []) ≡ left j acts ++ left_by j a
unfolding left
left-snoc j [] a = append-nil (left_by j a)
left-snoc j (b ∷ acts) a =
    ap (λ l. left_by j b ++ l) (left-snoc j acts a)
    ∙ sym (append_assoc (left_by j b) (left j acts) (left_by j a))

enqueue_conserves :
    (j : Text) (config : Option QueueConfig) (now : ℕ) (msg : NipperMessage) (mode : QueueMode)
    (priority : ℤ) (r : Router)
    → buffered j (enqueue_collect config now msg mode priority r)
      ≡ buffered j r ++ (if buffer_key msg == j then msg ∷ [] else [])
unfolding buffered enqueue_collect append_msg
enqueue_conserves j config now msg mode priority r = elim (Bool-cases (buffer_key msg == j)) [
  | inl own ↦
      let same : buffer_key msg ≡ j = (list_beq_iff (buffer_key msg) j).0 own in
      rw own (
        rw (← same) (
          ap msgs_of (lookup-insert_self (buffer_key msg) _ r.collect_buffers)
          ∙ go (lookup (buffer_key msg) r.collect_buffers)))
  | inr foreign ↦ rw foreign (
      ap msgs_of (
        lookup-insert_ne (buffer_key msg) j _ r.collect_buffers
          (λ same. ground (arith, (list_beq_iff (buffer_key msg) j).1 same)))
      ∙ sym (append-nil _))
]
  where
    go :
        (o : Option CollectBuffer)
        → (buffer_or (new_buffer config now msg.channel_type mode priority) o).msgs ++ msg ∷ []
          ≡ msgs_of o ++ msg ∷ []
    go none = unfold new_buffer in refl
    go (some buf) = refl

left_by-emission :
    (j : Text) (publisher : Option (Actions → QueueItem → Bool)) (acts : Actions) (key id : Text)
    (now : ℕ) (buf : CollectBuffer) (m : NipperMessage) (ms : List NipperMessage)
    → left_by j (emission publisher acts key (collected_item id now buf m ms) (m ∷ ms))
      ≡ (if key == j then m ∷ ms else [])
unfolding emission collected_item
left_by-emission j none acts key id now buf m ms = refl
left_by-emission j (some accepts) acts key id now buf m ms = refl

after_remove :
    (j key : Text) (ms : List NipperMessage) (buffers : Dict Text CollectBuffer)
    → msgs_of (lookup key buffers) ≡ ms
    → (if key == j then ms else []) ++ msgs_of (lookup j (remove key buffers))
      ≡ msgs_of (lookup j buffers)
after_remove j key ms buffers h = elim (Bool-cases (key == j)) [
  | inl own ↦
      let same : key ≡ j = (list_beq_iff key j).0 own in
      rw own (
        rw (← same)
          (ap (λ o. ms ++ msgs_of o) (lookup-remove_self key buffers) ∙ append-nil ms ∙ sym h))
  | inr foreign ↦ rw foreign (
      ap msgs_of
        (lookup-remove_ne key j buffers (λ same. ground (arith, (list_beq_iff key j).1 same))))
]

publish_conserves :
    (env : RouterEnv) (j : Text) (now : ℕ) (key : Text) (buf : CollectBuffer)
    (ms : List NipperMessage) (r : Router)
    → msgs_of (lookup key r.collect_buffers) ≡ ms
    → left j (publish_collected env now key buf ms r).actions
        ++ buffered j (publish_collected env now key buf ms r)
      ≡ left j r.actions ++ buffered j r
unfolding publish_collected buffered
publish_conserves env j now key buf [] r h = refl
publish_conserves env j now key buf (m ∷ ms) r h =
    ap (λ l. l ++ msgs_of (lookup j (remove key r.collect_buffers)))
      (left-snoc j r.actions _
        ∙ ap (λ l. left j r.actions ++ l)
            (left_by-emission j env.publisher r.actions key (env.fresh_id r.actions) now buf m ms))
    ∙ append_assoc (left j r.actions) _ _
    ∙ ap (λ l. left j r.actions ++ l) (after_remove j key (m ∷ ms) r.collect_buffers h)

found_conserves :
    (env : RouterEnv) (j : Text) (now : ℕ) (key : Text) (o : Option CollectBuffer) (r : Router)
    → lookup key r.collect_buffers ≡ o
    → left j (flush_found env now key o r).actions ++ buffered j (flush_found env now key o r)
      ≡ left j r.actions ++ buffered j r
unfolding flush_found
found_conserves env j now key none r e = refl
found_conserves env j now key (some buf) r e =
    publish_conserves env j now key buf buf.msgs r (ap msgs_of e)

perform_conserves :
    (env : RouterEnv) (j : Text) (s : Step) (r : Router)
    → left j (perform env s r).actions ++ buffered j (perform env s r)
      ≡ (left j r.actions ++ buffered j r) ++ arriving j s
unfolding perform left enqueue_collect buffered
perform_conserves env j (collected now msg mode priority) r =
    ap (λ l. left j r.actions ++ l) (enqueue_conserves j env.config now msg mode priority r)
    ∙ sym (append_assoc (left j r.actions) _ _)
perform_conserves env j (flush now key) r =
    unfold flush_collect_buffer in
    (found_conserves env j now key (lookup key r.collect_buffers) r refl ∙ sym (append-nil _))

-- For every buffer key, after any sequence of collected messages and flushes, the messages that left
-- the buffer followed by those still in it are those at the start followed by the messages collected
-- under the key since, in their order: none is lost, repeated or reordered, whichever flush comes
-- first. A flush that fails or has no publisher counts as leaving.
pub messages_conserved :
    (env : RouterEnv) (j : Text) (ss : List Step) (r : Router)
    → left j (run env ss r).actions ++ buffered j (run env ss r)
      ≡ (left j r.actions ++ buffered j r) ++ arrivals j ss
unfolding run arrivals
messages_conserved env j [] r = sym (append-nil _)
messages_conserved env j (s ∷ ss) r =
    messages_conserved env j ss (perform env s r)
    ∙ ap (λ l. l ++ arrivals j ss) (perform_conserves env j s r)
    ∙ append_assoc (left j r.actions ++ buffered j r) (arriving j s) (arrivals j ss)
