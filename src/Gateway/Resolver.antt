-- ===== src/Gateway/Resolver.antt =====
-- internal/gateway/resolver.go: the session key of an inbound message.
pub mod Keys
use open_nipper.Prelude.{
  ◌≡◌, Bool, true, false, Option, none, some, ◌++◌, Text, codes, is_empty, ◌==◌, nat_eq, list_eq,
  if◌then◌else◌, Result, ok, err,
}
use open_nipper.Models.Channel.{
  ChannelMeta, whatsapp_meta, slack_meta, cron_meta, mqtt_meta, rabbitmq_meta, raw_meta, SlackMeta,
  RabbitMqMeta, whatsapp, slack, cron, mqtt, rabbitmq,
}
use open_nipper.Models.Message.{NipperMessage}
use open_nipper.Session.Key.{build_session_key, sanitize_session_id}

-- The sanitized form of an identifier that is there.
abbrev pub sanitized : Text → Option Text
sanitized id = if is_empty id then none else some (sanitize_session_id id)

whatsapp_id : Option ChannelMeta → Option Text
whatsapp_id (some (whatsapp_meta m)) = sanitized m.chat_jid
whatsapp_id _ = none

slack_id : Option ChannelMeta → Option Text
slack_id (some (slack_meta m)) =
    if is_empty m.channel_id
    then none
    else if is_empty m.thread_ts
    then some (sanitize_session_id m.channel_id)
    else some (sanitize_session_id (m.channel_id ++ (codes "-" ++ m.thread_ts)))
slack_id _ = none

cron_id : Option ChannelMeta → Option Text
cron_id (some (cron_meta m)) = sanitized m.job_id
cron_id _ = none

mqtt_id : Option ChannelMeta → Option Text
mqtt_id (some (mqtt_meta m)) = sanitized m.client_id
mqtt_id _ = none

rabbitmq_id : Option ChannelMeta → Option Text
rabbitmq_id (some (rabbitmq_meta m)) =
    if is_empty m.correlation_id then sanitized m.routing_key else sanitized m.correlation_id
rabbitmq_id _ = none

-- The `switch` of `deriveSessionID`, where it returns.
channel_id : NipperMessage → Option Text
unfolding whatsapp_id slack_id cron_id mqtt_id rabbitmq_id
channel_id msg =
    if msg.channel_type == whatsapp
    then whatsapp_id msg.meta
    else if msg.channel_type == slack
    then slack_id msg.meta
    else if msg.channel_type == cron
    then cron_id msg.meta
    else if msg.channel_type == mqtt
    then mqtt_id msg.meta
    else if msg.channel_type == rabbitmq
    then rabbitmq_id msg.meta
    else none

abbrev pub fallback_id : NipperMessage → Text
fallback_id msg =
    if is_empty msg.channel_identity
    then sanitize_session_id msg.message_id
    else sanitize_session_id msg.channel_identity

unfoldable pub derive_session_id : NipperMessage → Text
unfolding channel_id
derive_session_id msg = elim (channel_id msg) [ none ↦ fallback_id msg | some id ↦ id ]

pub data ResolveError : Type 0 where
  no_user : ResolveError

unfoldable pub resolve : NipperMessage → Result ResolveError Text
unfolding derive_session_id
resolve msg =
    if is_empty msg.user_id
    then err no_user
    else ok (build_session_key msg.user_id msg.channel_type (derive_session_id msg))
