-- ===== src/Gateway/Resolver/Keys.antt =====
-- What a resolved session key names.
use open_nipper.Prelude.{
  ◌∷◌, ◌≡◌, false, Option, none, some, arith, Text, is_empty, ok, err, Bool-cases, inl, inr,
  if◌then◌else◌, Bool, true, [], ◌∷◌,
}
use open_nipper.Models.Channel.{
  ChannelMeta, whatsapp_meta, slack_meta, cron_meta, mqtt_meta, rabbitmq_meta,
}
use open_nipper.Models.Message.{NipperMessage}
use open_nipper.Session.Key.{build_session_key, parse_session_key, parsed}
use open_nipper.Strings.Search.{IsColonFree}
use open_nipper.Session.Key.Safe.{IsClean}
use open_nipper.Session.Key.Parse.{parse-build}
use open_nipper.Session.Key.Sanitize.{sanitize-IsClean}
use open_nipper.Gateway.Resolver.{
  true, Bool, derive_session_id, channel_id, fallback_id, sanitized, whatsapp_id, slack_id, cron_id,
  mqtt_id, rabbitmq_id, resolve, no_user,
}

abbrev AllClean : Option Text → Type 0
AllClean none = Unit
AllClean (some s) = IsClean s

sanitized-AllClean : (id : Text) → AllClean (sanitized id)
sanitized-AllClean [] = tt
sanitized-AllClean (c ∷ s) = sanitize-IsClean (c ∷ s)

whatsapp_id-AllClean : (meta : Option ChannelMeta) → AllClean (whatsapp_id meta)
unfolding whatsapp_id
whatsapp_id-AllClean (some (whatsapp_meta m)) = sanitized-AllClean m.chat_jid
whatsapp_id-AllClean _ = tt

slack_id-AllClean : (meta : Option ChannelMeta) → AllClean (slack_id meta)
unfolding slack_id
slack_id-AllClean (some (slack_meta m)) = grind (arith, sanitize-IsClean)
slack_id-AllClean _ = tt

cron_id-AllClean : (meta : Option ChannelMeta) → AllClean (cron_id meta)
unfolding cron_id
cron_id-AllClean (some (cron_meta m)) = sanitized-AllClean m.job_id
cron_id-AllClean _ = tt

mqtt_id-AllClean : (meta : Option ChannelMeta) → AllClean (mqtt_id meta)
unfolding mqtt_id
mqtt_id-AllClean (some (mqtt_meta m)) = sanitized-AllClean m.client_id
mqtt_id-AllClean _ = tt

AllClean-if :
    (b : Bool) (x y : Option Text) → AllClean x → AllClean y → AllClean (if b then x else y)
AllClean-if true x y p q = p
AllClean-if false x y p q = q

rabbitmq_id-AllClean : (meta : Option ChannelMeta) → AllClean (rabbitmq_id meta)
unfolding rabbitmq_id
rabbitmq_id-AllClean (some (rabbitmq_meta m)) =
    AllClean-if (is_empty m.correlation_id) _ _ (sanitized-AllClean m.routing_key)
      (sanitized-AllClean m.correlation_id)
rabbitmq_id-AllClean _ = tt

channel_id-AllClean : (msg : NipperMessage) → AllClean (channel_id msg)
unfolding channel_id
channel_id-AllClean msg = ground (
  arith,
  whatsapp_id-AllClean msg.meta,
  slack_id-AllClean msg.meta,
  cron_id-AllClean msg.meta,
  mqtt_id-AllClean msg.meta,
  rabbitmq_id-AllClean msg.meta,
)

id_or : Text → Option Text → Text
id_or s o = elim o [ none ↦ s | some id ↦ id ]

or_fallback-IsClean : (o : Option Text) (s : Text) → AllClean o → IsClean s → IsClean (id_or s o)
unfolding id_or
or_fallback-IsClean none s p q = q
or_fallback-IsClean (some id) s p q = p

fallback_id-IsClean : (msg : NipperMessage) → IsClean (fallback_id msg)
fallback_id-IsClean msg = elim (Bool-cases (is_empty msg.channel_identity)) [
  | inl e ↦ rw e (sanitize-IsClean msg.message_id)
  | inr e ↦ rw e (sanitize-IsClean msg.channel_identity)
]

-- Whatever the channel and its metadata, the derived session id is a file name component.
pub derive-IsClean : (msg : NipperMessage) → IsClean (derive_session_id msg)
unfolding derive_session_id id_or
derive-IsClean msg =
    or_fallback-IsClean (channel_id msg) (fallback_id msg) (channel_id-AllClean msg)
      (fallback_id-IsClean msg)

-- A message whose user and channel type are not empty and have no colon resolves, and its session
-- key parses to its user, its channel type and its session id.
pub parse-resolve :
    (msg : NipperMessage)
    → is_empty msg.user_id ≡ false
    → is_empty msg.channel_type ≡ false
    → IsColonFree msg.user_id
    → IsColonFree msg.channel_type
    → (key : Text) × (resolve msg ≡ ok key)
      × (parse_session_key key ≡ parsed msg.user_id msg.channel_type (derive_session_id msg))
unfolding resolve
parse-resolve msg eu ec hu hc = (
  build_session_key msg.user_id msg.channel_type (derive_session_id msg),
  rw eu,
  parse-build msg.user_id msg.channel_type (derive_session_id msg) hu hc eu ec
      (derive-IsClean msg).not_empty,
)

-- A message without a user does not resolve.
resolve_no_user : (msg : NipperMessage) → is_empty msg.user_id ≡ true → resolve msg ≡ err no_user
unfolding resolve
resolve_no_user msg h = rw h

-- Two messages with the same session key have the same user, channel type and session id, where
-- their users and channel types are not empty and have no colon.
pub resolve_injective :
    (m n : NipperMessage) {key : Text}
    → is_empty m.channel_type ≡ false
    → is_empty n.channel_type ≡ false
    → IsColonFree m.user_id
    → IsColonFree n.user_id
    → IsColonFree m.channel_type
    → IsColonFree n.channel_type
    → resolve m ≡ ok key
    → resolve n ≡ ok key
    → (m.user_id ≡ n.user_id)
      × (m.channel_type ≡ n.channel_type)
      × (derive_session_id m ≡ derive_session_id n)
resolve_injective m n {key} em en hm hn cm cn p q = elim (Bool-cases (is_empty m.user_id)) [
  | inl none_m ↦ absurd (cc (resolve_no_user m none_m))
  | inr some_m ↦ elim (Bool-cases (is_empty n.user_id)) [
    | inl none_n ↦ absurd (cc (resolve_no_user n none_n))
    | inr some_n ↦
        let (k, rk, pk) = parse-resolve m some_m em hm cm in
        let (l, rl, pl) = parse-resolve n some_n en hn cn in (cc, cc, cc)
  ]
]
