-- ===== src/Session/Key/Parse.antt =====
-- Building a key and parsing it.
use open_nipper.Prelude.{◌≡◌, refl, false, Option, none, some, ◌++◌, arith, Text, codes, is_empty}
use open_nipper.Session.Key.{
  build_session_key, parse_session_key, check_parts, cut_prefix, cut_channel, cut_session, parsed,
  user_prefix, chan_marker, sess_marker,
}
use open_nipper.Strings.{after_prefix, cut_at}
use open_nipper.Strings.Search.{
  IsColonFree, after_prefix-append, append_of_after_prefix, cut_at-append, append_of_cut_at,
}

-- A key built from a user and a channel type without colons, and from a session id, none of them
-- empty, parses to the three parts it was built from.
pub parse-build :
    (u c s : Text)
    → IsColonFree u
    → IsColonFree c
    → is_empty u ≡ false
    → is_empty c ≡ false
    → is_empty s ≡ false
    → parse_session_key (build_session_key u c s) ≡ parsed u c s
unfolding parse_session_key build_session_key
parse-build u c s hu hc eu ec es =
    rw (after_prefix-append user_prefix, cut_at-append (codes "channel:") u _ hu)
      (rw (cut_at-append (codes "session:") c s hc) (rw (eu, ec, es)))

check_parts-parsed :
    (u' c' s' u c s : Text)
    → check_parts u' c' s' ≡ parsed u c s
    → (u' ≡ u)
      × (c' ≡ c)
      × (s' ≡ s)
      × (is_empty u ≡ false)
      × (is_empty c ≡ false)
      × (is_empty s ≡ false)
unfolding check_parts
check_parts-parsed u' c' s' u c s h = ground arith

-- The three parts of a key, and that none of them is empty.
abbrev pub IsBuilt : Text → Text → Text → Text → Type 0
IsBuilt key u c s =
    (build_session_key u c s ≡ key)
    × (is_empty u ≡ false)
    × (is_empty c ≡ false)
    × (is_empty s ≡ false)

cut_session-IsBuilt :
    (u' : Text) (o : Option (Text × Text)) (rest u c s : Text)
    → ((l r : Text) → o ≡ some (l, r) → rest ≡ l ++ (sess_marker ++ r))
    → cut_session u' o ≡ parsed u c s
    → IsBuilt (user_prefix ++ (u' ++ (chan_marker ++ rest))) u c s
unfolding cut_session build_session_key
cut_session-IsBuilt u' none rest u c s cut h = absurd (cc)
cut_session-IsBuilt u' (some (l, r)) rest u c s cut h =
    let parts = check_parts-parsed u' l r u c s h in
    (cc (cut l r refl, parts.0, parts.1, parts.2), parts.3, parts.4, parts.5)

cut_channel-IsBuilt :
    (o : Option (Text × Text)) (rest u c s : Text)
    → ((l r : Text) → o ≡ some (l, r) → rest ≡ l ++ (chan_marker ++ r))
    → cut_channel o ≡ parsed u c s
    → IsBuilt (user_prefix ++ rest) u c s
unfolding cut_channel
cut_channel-IsBuilt none rest u c s cut h = absurd (cc)
cut_channel-IsBuilt (some (l, r)) rest u c s cut h =
    rw (cut l r refl)
      (cut_session-IsBuilt l (cut_at sess_marker r) r u c s (append_of_cut_at sess_marker r) h)

cut_prefix-IsBuilt :
    (o : Option Text) (key u c s : Text)
    → ((r : Text) → o ≡ some r → key ≡ user_prefix ++ r)
    → cut_prefix o ≡ parsed u c s
    → IsBuilt key u c s
unfolding cut_prefix
cut_prefix-IsBuilt none key u c s cut h = absurd (cc)
cut_prefix-IsBuilt (some r) key u c s cut h =
    rw (cut r refl)
      (cut_channel-IsBuilt (cut_at chan_marker r) r u c s (append_of_cut_at chan_marker r) h)

-- A key that parses is rebuilt from its parts, and none of the parts is empty.
pub build-parse : (key u c s : Text) → parse_session_key key ≡ parsed u c s → IsBuilt key u c s
unfolding parse_session_key
build-parse key u c s h =
    cut_prefix-IsBuilt (after_prefix user_prefix key) key u c s
      (append_of_after_prefix user_prefix key) h
