-- ===== src/Tests/Messages.antt =====
-- The router on concrete messages.
use open_nipper.Prelude.{
  false, ◌==◌, some, if◌then◌else◌, arith, ◌≡◌, refl, true, none, List, [], ◌∷◌, ◌++◌, Text, codes,
  pos, inl, inr,
}
use open_nipper.Models.Queue.{collect}
use open_nipper.Gateway.Registry.{queue_of}
use open_nipper.Gateway.Registry.View.{new_entry}
use open_nipper.Gateway.Resolver.{resolve}
use open_nipper.Gateway.Collect.Conservation.{
  Step, collected, flush, run, left, buffered, arrivals, messages_conserved,
}
use open_nipper.Prelude.GoMap.{lookup}
use open_nipper.Session.Key.{build_session_key, sanitize_session_id}
use open_nipper.Gateway.Dedup.{is_duplicate, build_key}
use open_nipper.Gateway.Router.{
  identify, with_defaults, dedup_strategy, derive_dedup_key, queue_mode_for,
  handle_normalized_message,
}
use open_nipper.Gateway.Router.Frame.{IsQuiet, SameCore, Passes, submitted}
use open_nipper.Gateway.Router.Admission.{unpermitted_stops}
use open_nipper.Gateway.Router.Publishing.{item_of, fresh_published}
use open_nipper.Gateway.Router.Orphans.{duplicate_leaves_entry}
use open_nipper.Gateway.Router.{resolve_user}
use open_nipper.Gateway.Router.{extra_candidates}
use open_nipper.Gateway.Router.Fallback
use open_nipper.Allowlist.{Repository}
use open_nipper.Prelude.{list_eq, nat_eq, if◌then◌else◌}
use open_nipper.Models.Message.{NipperMessage}
use open_nipper.Models.Channel.{whatsapp_meta}
use open_nipper.Gateway.Collect.{
  alias_added, CollectBuffer, Router, enqueue_collect, append_msg, new_buffer, buffer_key,
}
use open_nipper.Gateway.Collect.Timers.{System, Flush, collects, first, later, due_of}
use open_nipper.Gateway.Collect.Liveness.{IsDelivered, collected_leave}
use open_nipper.Models.Channel.{whatsapp}
use open_nipper.Tests.Fixtures.{
  ann, context, message, open_repo, closed_repo, router_env, idle, seen,
}

abbrev route_key : Text
route_key = codes "user:ann:channel:whatsapp:session:123"

abbrev collecting : List Step
collecting =
    collected 1 message collect (pos 0)
    ∷ flush 2 (codes "ann:whatsapp")
    ∷ collected 3 message collect (pos 0)
    ∷ []

messages_conserved_example :
    left (codes "ann:whatsapp") (run (router_env open_repo) collecting idle).actions
      ++ buffered (codes "ann:whatsapp") (run (router_env open_repo) collecting idle)
    ≡ (left (codes "ann:whatsapp") idle.actions ++ buffered (codes "ann:whatsapp") idle)
      ++ arrivals (codes "ann:whatsapp") collecting
messages_conserved_example =
    messages_conserved (router_env open_repo) (codes "ann:whatsapp") collecting idle

open-Passes : Passes (router_env open_repo) 1 message idle
unfolding identify with_defaults
open-Passes = inr (refl, refl, inl refl)

seen-Passes : Passes (router_env open_repo) 1 message seen
unfolding identify with_defaults
seen-Passes = inr (refl, refl, inl refl)

closed_stops : ¬ Passes (router_env closed_repo) 1 message idle
unfolding identify with_defaults
closed_stops (inl h) = absurd (cc (h))
closed_stops (inr h) = let enabled = h.1 in absurd (cc (enabled))

unpermitted_stops_example :
    SameCore idle (handle_normalized_message (router_env closed_repo) 1 2 true message idle).0
    × IsQuiet (handle_normalized_message (router_env closed_repo) 1 2 true message idle).1
unpermitted_stops_example =
    unpermitted_stops (router_env closed_repo) 1 2 true message idle closed_stops

fresh_published_example :
    (id : Text) × ((handle_normalized_message (router_env open_repo) 1 2 true message idle).1
      ≡ none)
    × (submitted (handle_normalized_message (router_env open_repo) 1 2 true message idle).0.actions
        ≡ submitted idle.actions
          ++ item_of (router_env open_repo) id 2 (record message { session_key = route_key }) ∷ [])
unfolding resolve identify with_defaults build_session_key sanitize_session_id is_duplicate
    dedup_strategy derive_dedup_key lookup queue_mode_for
fresh_published_example =
    fresh_published (router_env open_repo) 1 2 true message idle route_key open-Passes refl refl
      refl (_, refl, λ acts item. refl)

duplicate_leaves_entry_example :
    ((handle_normalized_message (router_env open_repo) 1 2 true message seen).1 ≡ none)
    × (submitted (handle_normalized_message (router_env open_repo) 1 2 true message seen).0.actions
        ≡ submitted seen.actions)
    × (queue_of route_key
          (handle_normalized_message (router_env open_repo) 1 2 true message seen).0.registry
        ≡ queue_of route_key seen.registry ++ new_entry 1 context none [] ∷ [])
unfolding resolve identify with_defaults build_session_key sanitize_session_id is_duplicate
    dedup_strategy derive_dedup_key lookup build_key
duplicate_leaves_entry_example =
    duplicate_leaves_entry (router_env open_repo) 1 2 true message seen route_key seen-Passes refl
      refl

-- The datastore knows the sender only, whose identifier stands twice in the message.
abbrev sender : Text
sender = codes "s@lid"

abbrev sender_repo : Repository
sender_repo = record open_repo {
  resolve_identity = λ ct id. if id == sender then some ann else none;
}

abbrev from_sender : NipperMessage
from_sender = record message {
  meta = some (
      whatsapp_meta (record {
        wuzapi_user_id = [];
        wuzapi_instance_name = [];
        wuzapi_base_url = [];
        chat_jid = sender;
        sender_jid = sender;
        message_id = [];
        push_name = [];
        is_group = false;
        is_from_me = false;
        quoted_message_id = [];
        quoted_participant = [];
        has_media = false;
        media_type = [];
        s3_url = [];
        media_key = [];
      }));
}

resolve_user_lem_example :
    resolve_user sender_repo from_sender ≡ (ann, alias_added ann whatsapp (codes "123") ∷ [])
unfolding Fallback.resolved Fallback.by_own Fallback.first_answer Fallback.by_other
    Fallback.answer_of Fallback.or_later extra_candidates
resolve_user_lem_example = Fallback.resolve_user_lem sender_repo from_sender

-- The router after one message was put in a buffer.
abbrev one_collected : Router
one_collected = enqueue_collect none 5 message collect (pos 0) idle

abbrev collected_buffer : CollectBuffer
collected_buffer = append_msg message (new_buffer none 5 whatsapp collect (pos 0))

abbrev collected_system : System
collected_system = record { router = one_collected; orphans = [] }

collected_leave_example :
    (s : System) × Flush (router_env open_repo) 2000000005 (buffer_key message) collected_system s
    × IsDelivered (buffer_key message) collected_buffer one_collected s.router
unfolding enqueue_collect lookup open_nipper.Prelude.GoMap.insert buffer_key new_buffer append_msg
    due_of
collected_leave_example =
    collected_leave (router_env open_repo) collected_system 2000000005 (buffer_key message)
      collected_buffer
      (later (first (record { router = idle; orphans = [] }) refl)
        (collects 5 message collect (pos 0)))
      refl (omega arith)
