-- ===== src/Tests/Runs.antt =====
-- The dispatcher on concrete events.
use open_nipper.Prelude.{list_eq, nat_eq, ◌+◌, ◌≤◌, ◌≡◌, refl, true, [], ◌∷◌, ◌++◌, codes}
use open_nipper.Prelude.GoMap.{lookup}
use open_nipper.Models.Channel.{whatsapp}
use open_nipper.Models.Event.{error, done}
use open_nipper.Gateway.Registry.{queue_of}
use open_nipper.Gateway.Delivery.{
  delivery_max_retries, deliver_with_retry, done_response, final_text, assemble_error_response,
}
use open_nipper.Gateway.Delivery.Retry.{Attempts, deliver-Attempts}
use open_nipper.Gateway.Dispatcher.{Dispatcher, accumulated, handle_event, was_sent}
use open_nipper.Gateway.Dispatcher.Buffering.{run, deltas, IsBuffered, accumulated-run}
use open_nipper.Gateway.Dispatcher.Conversation.{Closes, done_sends_deltas, error_sends_message}
use open_nipper.Gateway.Dispatcher.Shown.{toggled}
use open_nipper.Gateway.Dispatcher.Typing.{endings, shown_once_per_run}
use open_nipper.Gateway.Dispatcher.Eviction.{removals, IsAnswered}
use open_nipper.Tests.Fixtures.{key, other_key, entry, adapter, env, waiting, event_of, hello}

waiting-IsBuffered : IsBuffered env key entry adapter waiting
unfolding open_nipper.Gateway.Registry.peek lookup
waiting-IsBuffered = record { front = refl; buffered = refl; found = refl }

done_sends_deltas_example :
    Closes env
      (event_of done [])
      entry
      (λ tr.
        done_response 4
          (event_of done [])
          entry.context
          entry.meta
          entry.inbound_parts
          (final_text (deltas key hello) (event_of done [])))
      (run env hello waiting)
      (handle_event env 4 (event_of done []) (run env hello waiting))
unfolding accumulated lookup
done_sends_deltas_example =
    done_sends_deltas env 4 (event_of done []) hello entry adapter waiting waiting-IsBuffered
      (refl, (refl, (refl, tt))) refl refl refl

error_sends_message_example :
    Closes env
      (event_of error [])
      entry
      (λ before.
        assemble_error_response 4
          (env.fresh_id before)
          (event_of error [])
          entry.context
          entry.meta)
      waiting
      (handle_event env 4 (event_of error []) waiting)
error_sends_message_example =
    error_sends_message env 4 (event_of error []) entry adapter waiting waiting-IsBuffered refl

accumulated-run_example :
    (accumulated key (run env hello waiting) ≡ accumulated key waiting ++ deltas key hello)
    × (queue_of key (run env hello waiting).registry ≡ queue_of key waiting.registry)
accumulated-run_example =
    accumulated-run env key hello entry adapter waiting waiting-IsBuffered
      (refl, (refl, (refl, tt)))

deltas_test : deltas key hello ≡ codes "hello"
unfolding deltas
deltas_test = refl

deliver-Attempts_example :
    Attempts env whatsapp
      (done_response 4
        (event_of done [])
        entry.context
        entry.meta
        entry.inbound_parts
        (codes "hello"))
      delivery_max_retries
      []
      (deliver_with_retry env whatsapp adapter
        (done_response 4
          (event_of done [])
          entry.context
          entry.meta
          entry.inbound_parts
          (codes "hello"))
        [])
deliver-Attempts_example =
    deliver-Attempts env whatsapp adapter
      (done_response 4 (event_of done []) entry.context entry.meta entry.inbound_parts
        (codes "hello"))
      []

shown_once_per_run_example :
    toggled true key (run env hello waiting).trace
    ≤ toggled true key waiting.trace + endings key hello + 1
unfolding was_sent lookup
shown_once_per_run_example = shown_once_per_run env key hello waiting refl

abbrev empty_dispatcher : Dispatcher
empty_dispatcher = record {
  registry = [];
  accumulators = [];
  typing_sent = [];
  ws_subscribers = [];
  trace = [];
}

-- A run that has shown its typing indicator and has no text yet.
abbrev typing : Dispatcher
typing = record waiting { typing_sent = (key, true) ∷ (other_key, true) ∷ [] }

typing-IsAnswered : IsAnswered env (event_of done []) entry adapter typing
unfolding open_nipper.Gateway.Registry.peek lookup
typing-IsAnswered = record { ends = refl; front = refl; direct = refl; found = refl }

removals_test : removals adapter key typing ≡ 1
unfolding was_sent lookup
removals_test = refl

abbrev watched : Dispatcher
watched = record waiting { ws_subscribers = (key, 7 ∷ []) ∷ [] }
