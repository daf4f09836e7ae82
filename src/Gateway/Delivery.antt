-- ===== src/Gateway/Delivery.antt =====
-- internal/gateway/dispatcher.go: the responses that the dispatcher assembles, and how it delivers
-- one. What reaches the outside is a list of effects, the oldest first. A channel adapter is
-- described by its optional interfaces and by whether a delivery succeeds, which may depend on all
-- that happened before.
pub mod Retry
use open_nipper.Prelude.{
  ℕ, zero, suc, Bool, true, false, ◌&&◌, ◌||◌, not, Option, none, some, List, [], ◌∷◌, ◌++◌, Text,
  codes, is_empty, ◌==◌, nat_eq, list_eq, if◌then◌else◌, Dict,
}
use open_nipper.Prelude.GoMap.{lookup}
use open_nipper.Strings.{cut_at, has_prefix, to_lower, trim_space}
use open_nipper.Models.Channel.{
  ChannelType, ChannelMeta, whatsapp_meta, slack_meta, DeliveryContext, WhatsAppMeta, SlackMeta,
  no_capabilities, whatsapp, slack,
}
use open_nipper.Models.Message.{ContentPart, NipperResponse}
use open_nipper.Models.Event.{NipperEvent, EventDelta, EventError}

pub data Effect : Type 0 where
  -- a non-blocking send to a WebSocket subscriber
  offered : ℕ → NipperEvent → Effect
  -- SendTypingIndicator and RemoveTypingIndicator, for a session
  typing_on typing_off : Text → DeliveryContext → Option ChannelMeta → Effect
  -- DeliverEvent
  streamed : ChannelType → NipperEvent → Effect
  -- DeliverResponse, and whether it succeeded
  attempted : ChannelType → NipperResponse → Bool → Effect

abbrev pub Trace : Type 0
Trace = List Effect

pub record Adapter : Type 0 where
  pub has_typing_indicator : Bool
  pub has_typing_remover : Bool
  pub delivers : Trace → NipperResponse → Bool

-- What the dispatcher is given: the adapters, whether the context is done when a retry waits, and
-- the identifiers that `uuid.New` makes.
pub record Env : Type 0 where
  pub adapters : Dict ChannelType Adapter
  pub cancelled : Trace → Bool
  pub fresh_id : Trace → Text

-- The loop of `deliverWithRetry`, over the attempts that are left.
unfoldable pub retry : Env → ChannelType → Adapter → NipperResponse → ℕ → Trace → Trace
retry env ct adapter resp zero tr = tr
retry env ct adapter resp (suc left) tr =
    let success = adapter.delivers tr resp in
    let tr' : Trace = tr ++ attempted ct resp success ∷ [] in
    let again = retry env ct adapter resp left tr' in
    if success || (left == 0 || env.cancelled tr') then tr' else again

abbrev pub delivery_max_retries : ℕ
delivery_max_retries = 3

unfoldable pub deliver_with_retry : Env → ChannelType → Adapter → NipperResponse → Trace → Trace
unfolding retry
deliver_with_retry env ct adapter resp tr = retry env ct adapter resp delivery_max_retries tr

abbrev pub delta_or : Option EventDelta → Text
delta_or none = []
delta_or (some d) = d.text

is_image : ContentPart → Bool
is_image p =
    (p.kind == codes "image") || has_prefix (codes "image/") (to_lower (trim_space p.mime_type))

image_part : ContentPart → ContentPart
image_part p = record {
  kind = codes "image";
  text = [];
  url = p.url;
  mime_type = p.mime_type;
  caption = [];
  transcript = [];
  latitude = codes "0";
  longitude = codes "0";
  address = [];
}

unfoldable pub first_image : List ContentPart → List ContentPart
unfolding is_image image_part
first_image [] = []
first_image (p ∷ ps) =
    if not (is_empty p.url) && is_image p then image_part p ∷ [] else first_image ps

unfoldable pub outbound_media_parts : DeliveryContext → List ContentPart → List ContentPart
unfolding first_image
outbound_media_parts dc parts = if dc.channel_type == whatsapp then first_image parts else []

-- The response to a `done` event, with the text found for it.
unfoldable pub done_response :
    ℕ
    → NipperEvent
    → DeliveryContext
    → Option ChannelMeta
    → List ContentPart
    → Text
    → NipperResponse
unfolding outbound_media_parts
done_response now event dc meta parts text = record {
  response_id = event.response_id;
  session_key = event.session_key;
  user_id = event.user_id;
  channel_type = dc.channel_type;
  channel_identity = [];
  text = text;
  parts = outbound_media_parts dc parts;
  delivery_context = dc;
  meta = meta;
  origin_message_id = [];
  timestamp = now;
  context_usage = event.context_usage;
}

-- assembleResponseFromEvent
unfoldable pub assemble_response_from_event :
    ℕ → NipperEvent → DeliveryContext → Option ChannelMeta → List ContentPart → NipperResponse
unfolding done_response
assemble_response_from_event now event dc meta parts =
    done_response now event dc meta parts (delta_or event.delta_text)

-- The text of a final response: what was accumulated, or else the text of the event.
abbrev pub final_text : Text → NipperEvent → Text
final_text accumulated event =
    if is_empty accumulated then delta_or event.delta_text else accumulated

abbrev pub default_error_text : Text
default_error_text = codes "An error occurred while processing your message."

abbrev pub error_text : Option EventError → Text
error_text none = default_error_text
error_text (some e) = if is_empty e.message then default_error_text else e.message

unfoldable pub assemble_error_response :
    ℕ → Text → NipperEvent → DeliveryContext → Option ChannelMeta → NipperResponse
assemble_error_response now id event dc meta = record {
  response_id = id;
  session_key = event.session_key;
  user_id = event.user_id;
  channel_type = dc.channel_type;
  channel_identity = [];
  text = error_text event.failure;
  parts = [];
  delivery_context = dc;
  meta = meta;
  origin_message_id = [];
  timestamp = now;
  context_usage = none;
}

whatsapp_target : Text → WhatsAppMeta
whatsapp_target id = record {
  wuzapi_user_id = [];
  wuzapi_instance_name = [];
  wuzapi_base_url = [];
  chat_jid = id;
  sender_jid = id;
  message_id = [];
  push_name = [];
  is_group = false;
  is_from_me = false;
  quoted_message_id = [];
  quoted_participant = [];
  has_media = false;
  media_type = [];
  s3_url = [];
  media_key = [];
}

slack_target : Text → SlackMeta
slack_target id = record {
  team_id = [];
  channel_id = id;
  slack_user_id = [];
  thread_ts = [];
  message_ts = [];
  app_id = [];
  bot_id = [];
  bot_token = [];
}

broadcast_meta : ChannelType → Text → Option ChannelMeta
unfolding whatsapp_target slack_target
broadcast_meta ct id =
    if ct == whatsapp
    then some (whatsapp_meta (whatsapp_target id))
    else if ct == slack
    then some (slack_meta (slack_target id))
    else none

unfoldable pub broadcast_response : ℕ → NipperEvent → Text → ChannelType → Text → NipperResponse
unfolding broadcast_meta
broadcast_response now event text ct id = record {
  response_id = event.response_id;
  session_key = event.session_key;
  user_id = event.user_id;
  channel_type = ct;
  channel_identity = [];
  text = text;
  parts = [];
  delivery_context = record {
    channel_type = ct;
    channel_id = id;
    reply_mode = [];
    thread_id = [];
    notify_channels = [];
    capabilities = no_capabilities;
  };
  meta = broadcast_meta ct id;
  origin_message_id = [];
  timestamp = now;
  context_usage = event.context_usage;
}

unfoldable pub send_broadcast :
    Env → ℕ → NipperEvent → Text → ChannelType → Text → Option Adapter → Trace → Trace
send_broadcast env now event text ct id none tr = tr
send_broadcast env now event text ct id (some adapter) tr =
    deliver_with_retry env ct adapter (broadcast_response now event text ct id) tr

-- One target of the form channelType:channelId; another form is skipped.
unfoldable pub broadcast_one : Env → ℕ → NipperEvent → Text → Option (Text × Text) → Trace → Trace
unfolding send_broadcast
broadcast_one env now event text none tr = tr
broadcast_one env now event text (some (ct, id)) tr =
    send_broadcast env now event text ct id (lookup ct env.adapters) tr

-- The loop of `deliverBroadcast` over the targets.
unfoldable pub broadcast : Env → ℕ → NipperEvent → Text → List Text → Trace → Trace
unfolding broadcast_one
broadcast env now event text [] tr = tr
broadcast env now event text (target ∷ targets) tr =
    broadcast env now event text targets
      (broadcast_one env now event text (cut_at (codes ":") target) tr)
