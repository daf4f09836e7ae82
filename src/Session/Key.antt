-- ===== src/Session/Key.antt =====
-- pkg/session/key.go: the session key and its parts.
pub mod Parse
pub mod Sanitize
pub mod Safe
use open_nipper.Strings.{after_prefix, cut_at, is_space, between}
use open_nipper.Prelude.{
  ℕ, zero, suc, ◌+◌, ◌≡◌, refl, Bool, true, false, ◌&&◌, ◌||◌, Option, none, some, List, [], ◌∷◌,
  ◌++◌, Text, codes, is_empty, ◌==◌, nat_eq, leb, if◌then◌else◌,
}

abbrev pub user_prefix : Text
user_prefix = codes "user:"

abbrev pub chan_marker : Text
chan_marker = codes ":channel:"

abbrev pub sess_marker : Text
sess_marker = codes ":session:"

unfoldable pub build_session_key : Text → Text → Text → Text
build_session_key user_id channel_type session_id =
    user_prefix ++ (user_id ++ (chan_marker ++ (channel_type ++ (sess_marker ++ session_id))))

pub data KeyError : Type 0 where
  missing_prefix missing_channel missing_session empty_component : KeyError

pub data ParsedKey : Type 0 where
  parsed : Text → Text → Text → ParsedKey
  invalid : KeyError → ParsedKey

check_parts : Text → Text → Text → ParsedKey
check_parts user_id channel_type session_id =
    if is_empty user_id || (is_empty channel_type || is_empty session_id)
    then invalid empty_component
    else parsed user_id channel_type session_id

cut_session : Text → Option (Text × Text) → ParsedKey
unfolding check_parts
cut_session user_id none = invalid missing_session
cut_session user_id (some (channel_type, session_id)) = check_parts user_id channel_type session_id

cut_channel : Option (Text × Text) → ParsedKey
unfolding cut_session
cut_channel none = invalid missing_channel
cut_channel (some (user_id, rest)) = cut_session user_id (cut_at sess_marker rest)

cut_prefix : Option Text → ParsedKey
unfolding cut_channel
cut_prefix none = invalid missing_prefix
cut_prefix (some rest) = cut_channel (cut_at chan_marker rest)

unfoldable pub parse_session_key : Text → ParsedKey
unfolding cut_prefix
parse_session_key key = cut_prefix (after_prefix user_prefix key)

-- The characters that are kept.
unfoldable pub is_safe : ℕ → Bool
unfolding between
is_safe c =
    (c == b'-')
    || ((c == b'_') || (between b'a' b'z' c || (between b'A' b'Z' c || between b'0' b'9' c)))

unfoldable pub replace_unsafe : Text → Text
unfolding is_safe is_space
replace_unsafe [] = []
replace_unsafe (c ∷ s) =
    let rest = replace_unsafe s in
    if is_safe c then c ∷ rest else if is_space c then rest else b'-' ∷ rest

unfoldable pub trim_left : Text → Text
trim_left [] = []
trim_left (c ∷ s) = if c == b'-' then trim_left s else c ∷ s

-- c goes in front of what is left of the text behind it, unless all of it was trimmed.
abbrev pub cons_trimmed : ℕ → Text → Text
cons_trimmed c [] = if c == b'-' then [] else c ∷ []
cons_trimmed c (d ∷ s) = c ∷ d ∷ s

unfoldable pub trim_right : Text → Text
trim_right [] = []
trim_right (c ∷ s) = cons_trimmed c (trim_right s)

-- strings.Trim(s, "-")
unfoldable pub trim : Text → Text
unfolding trim_left trim_right
trim s = trim_right (trim_left s)

abbrev pub default_id : Text
default_id = codes "default"

abbrev pub or_default : Text → Text
or_default [] = default_id
or_default (c ∷ s) = c ∷ s

unfoldable pub sanitize_session_id : Text → Text
unfolding replace_unsafe trim
sanitize_session_id s = if is_empty s then default_id else or_default (trim (replace_unsafe s))
