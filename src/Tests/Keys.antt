-- ===== src/Tests/Keys.antt =====
-- Session keys of concrete users, channels and texts.
use open_nipper.Prelude.{[], Text, ◌≡◌, refl, codes, ok}
use open_nipper.Models.Channel.{whatsapp}
use open_nipper.Session.Key.{build_session_key, parse_session_key, parsed, sanitize_session_id}
use open_nipper.Session.Key.Safe.{IsClean}
use open_nipper.Session.Key.Parse.{parse-build}
use open_nipper.Session.Key.Sanitize.{sanitize-IsClean}
use open_nipper.Gateway.Resolver.{derive_session_id, resolve}
use open_nipper.Gateway.Resolver.Keys.{derive-IsClean, parse-resolve, resolve_injective}
use open_nipper.Tests.Fixtures.{ann-IsColonFree, whatsapp-IsColonFree, ann, message}

parse-build_example :
    parse_session_key (build_session_key ann (whatsapp) (codes "s1"))
    ≡ parsed ann (whatsapp) (codes "s1")
parse-build_example =
    parse-build ann (whatsapp) (codes "s1") ann-IsColonFree whatsapp-IsColonFree refl refl refl

sanitize-IsClean_example : IsClean (sanitize_session_id (codes "../a b"))
sanitize-IsClean_example = sanitize-IsClean (codes "../a b")

sanitize_test : sanitize_session_id (codes "../a b") ≡ codes "ab"
unfolding sanitize_session_id
sanitize_test = refl

derive-IsClean_example : IsClean (derive_session_id message)
derive-IsClean_example = derive-IsClean message

parse-resolve_example :
    (k : Text) × (resolve message ≡ ok k)
    × (parse_session_key k ≡ parsed ann (codes "whatsapp") (derive_session_id message))
parse-resolve_example = parse-resolve message refl refl ann-IsColonFree whatsapp-IsColonFree

resolve_injective_example :
    (ann ≡ ann)
    × (message.channel_type ≡ message.channel_type)
    × (derive_session_id message ≡ derive_session_id (record message { origin_message_id = [] }))
unfolding resolve build_session_key sanitize_session_id
resolve_injective_example =
    resolve_injective message (record message { origin_message_id = [] })
      {key = codes "user:ann:channel:whatsapp:session:123"} refl refl ann-IsColonFree
      ann-IsColonFree whatsapp-IsColonFree whatsapp-IsColonFree refl refl
