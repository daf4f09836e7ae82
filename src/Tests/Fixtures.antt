-- ===== src/Tests/Fixtures.antt =====
-- A user, a channel, and what passes between them.
use open_nipper.Strings.Search.{IsColonFree}
use open_nipper.Prelude.{refl, ℕ, true, false, none, some, List, [], ◌∷◌, Text, codes, ok}
use open_nipper.Models.Channel.{DeliveryContext, whatsapp_capabilities, whatsapp}
use open_nipper.Models.Message.{NipperMessage}
use open_nipper.Models.Event.{NipperEvent, EventType, delta, thinking}
use open_nipper.Allowlist.{Repository}
use open_nipper.Gateway.Registry.{DeliveryEntry}
use open_nipper.Gateway.Delivery.{Adapter, Env}
use open_nipper.Gateway.Dispatcher.{Dispatcher}
use open_nipper.Gateway.Collect.{Router, RouterEnv}

abbrev pub ann : Text
ann = codes "ann"

pub ann-IsColonFree : IsColonFree ann
ann-IsColonFree = (refl, (refl, (refl, tt)))

abbrev pub bob : Text
bob = codes "bob"

pub bob-IsColonFree : IsColonFree bob
bob-IsColonFree = (refl, (refl, (refl, tt)))

pub whatsapp-IsColonFree : IsColonFree whatsapp
whatsapp-IsColonFree = (refl, (refl, (refl, (refl, (refl, (refl, (refl, (refl, tt))))))))

abbrev pub key : Text
key = codes "user:ann:channel:whatsapp:session:s1"

abbrev pub other_key : Text
other_key = codes "user:bob:channel:whatsapp:session:s2"

abbrev pub context : DeliveryContext
context = record {
  channel_type = whatsapp;
  channel_id = codes "c1";
  reply_mode = codes "reply";
  thread_id = [];
  notify_channels = [];
  capabilities = whatsapp_capabilities;
}

abbrev pub entry : DeliveryEntry
entry = record { context = context; meta = none; inbound_parts = []; created_at = 1 }

abbrev pub adapter : Adapter
adapter = record {
  has_typing_indicator = true;
  has_typing_remover = true;
  delivers = λ tr resp. true;
}

abbrev pub env : Env
env = record {
  adapters = (whatsapp, adapter) ∷ [];
  cancelled = λ tr. false;
  fresh_id = λ tr. codes "r1";
}

abbrev pub waiting : Dispatcher
waiting = record {
  registry = (key, entry ∷ []) ∷ [];
  accumulators = [];
  typing_sent = [];
  ws_subscribers = [];
  trace = [];
}

abbrev pub event_of : EventType → Text → NipperEvent
event_of kind text = record {
  event_id = codes "e1";
  kind = kind;
  session_key = key;
  response_id = codes "r1";
  timestamp = 0;
  delta_text = some (record { text = text });
  tool_info = none;
  skill_info = none;
  thinking_text = none;
  failure = none;
  context_usage = none;
  user_id = ann;
}

abbrev pub hello : List (ℕ × NipperEvent)
hello =
    (1, event_of delta (codes "hel"))
    ∷ (2, event_of thinking [])
    ∷ (3, event_of delta (codes "lo"))
    ∷ []

abbrev pub message : NipperMessage
message = record {
  message_id = codes "m1";
  origin_message_id = codes "o1";
  user_id = ann;
  session_key = [];
  channel_type = whatsapp;
  channel_identity = codes "123";
  content = record { text = codes "hi"; parts = [] };
  delivery_context = context;
  meta = none;
  timestamp = 1;
  dedupe_key = [];
}

abbrev pub open_repo : Repository
open_repo = record {
  resolve_identity = λ ct id. some ann;
  is_user_enabled = λ user. ok true;
  is_allowed = λ user ct. ok true;
}

abbrev pub closed_repo : Repository
closed_repo = record {
  resolve_identity = λ ct id. some ann;
  is_user_enabled = λ user. ok false;
  is_allowed = λ user ct. ok true;
}

abbrev pub router_env : Repository → RouterEnv
router_env repo = record {
  repo = λ acts. repo;
  publisher = some (λ acts item. true);
  config = none;
  fresh_id = λ acts. codes "q1";
  prompt_hash = λ text. text;
}

abbrev pub idle : Router
idle = record {
  registry = [];
  dedup = record { entries = []; default_window = 10 };
  collect_buffers = [];
  flushing = [];
  actions = [];
}

-- The router after the message was seen.
abbrev pub seen : Router
seen = record {
  registry = [];
  dedup = record { entries = (codes "ann:message-id:o1", 100) ∷ []; default_window = 10 };
  collect_buffers = [];
  flushing = [];
  actions = [];
}
