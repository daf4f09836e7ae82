-- ===== src/Datastore/Cache/Keys.antt =====
-- The keys of different queries.
use open_nipper.Prelude.{
  ◌||◌, ◌≢◌, if◌then◌else◌, ◌==◌, ◌≡◌, refl, sym, ap, ◌∙◌, Option, none, some, [], ◌++◌, arith,
  Text, codes, list_eq, nat_eq, Bool, true,
}
use open_nipper.Strings.{cut_at}
use open_nipper.Strings.Search.{IsColonFree, cut_at-append, colon_split}
use open_nipper.Datastore.Backend.{
  Value, Query, identity, allowed, user_enabled, policy, agent_token,
}
use open_nipper.Datastore.Cache.{
  Cached, a_text, a_flag, a_policy, an_agent, key_of, identity_key, allowed_key, user_enabled_key,
  policy_key, agent_token_key, wrap, unwrap,
}

-- The name in front of the first colon.
unfoldable pub kind_of : Query → Text
kind_of (identity ct id) = codes "identity"
kind_of (allowed user ct) = codes "allowed"
kind_of (user_enabled user) = codes "user_enabled"
kind_of (policy user kind) = codes "policy"
kind_of (agent_token hash) = codes "agent_token"

-- What follows it.
unfoldable pub rest_of : Query → Text
rest_of (identity ct id) = ct ++ (codes ":" ++ id)
rest_of (allowed user ct) = user ++ (codes ":" ++ ct)
rest_of (user_enabled user) = user
rest_of (policy user kind) = user ++ (codes ":" ++ kind)
rest_of (agent_token hash) = hash

kind_of-IsColonFree : (q : Query) → IsColonFree (kind_of q)
unfolding kind_of
kind_of-IsColonFree (identity ct id) = ground arith
kind_of-IsColonFree (allowed user ct) = ground arith
kind_of-IsColonFree (user_enabled user) = ground arith
kind_of-IsColonFree (policy user kind) = ground arith
kind_of-IsColonFree (agent_token hash) = ground arith

key_of_lem : (q : Query) → key_of q ≡ kind_of q ++ (codes ":" ++ rest_of q)
unfolding key_of identity_key allowed_key user_enabled_key policy_key agent_token_key kind_of
    rest_of
key_of_lem (identity ct id) = refl
key_of_lem (allowed user ct) = refl
key_of_lem (user_enabled user) = refl
key_of_lem (policy user kind) = refl
key_of_lem (agent_token hash) = refl

pub key_parts :
    (p q : Query) → key_of p ≡ key_of q → (kind_of p ≡ kind_of q) × (rest_of p ≡ rest_of q)
key_parts p q e =
    colon_split (kind_of p) (kind_of q) (rest_of p) (rest_of q) (kind_of-IsColonFree p)
      (kind_of-IsColonFree q) (sym (key_of_lem p) ∙ e ∙ key_of_lem q)

-- The first of the two parts of a query has no colon.
abbrev pub IsPlain : Query → Type 0
IsPlain (identity ct id) = IsColonFree ct
IsPlain (allowed user ct) = IsColonFree user
IsPlain (user_enabled user) = Unit
IsPlain (policy user kind) = IsColonFree user
IsPlain (agent_token hash) = Unit

-- The query that a key was made of.
two_parts : (Text → Text → Query) → Option (Text × Text) → Option Query
two_parts f none = none
two_parts f (some (l, r)) = some (f l r)

decode : Text → Text → Option Query
unfolding two_parts
decode kind rest =
    if kind == codes "identity"
    then two_parts identity (cut_at (codes ":") rest)
    else if kind == codes "allowed"
    then two_parts allowed (cut_at (codes ":") rest)
    else if kind == codes "user_enabled"
    then some (user_enabled rest)
    else if kind == codes "policy"
    then two_parts policy (cut_at (codes ":") rest)
    else some (agent_token rest)

decode_lem : (q : Query) → IsPlain q → decode (kind_of q) (rest_of q) ≡ some q
unfolding decode kind_of rest_of two_parts
decode_lem (identity ct id) h = rw (cut_at-append [] ct id h)
decode_lem (allowed user ct) h = rw (cut_at-append [] user ct h)
decode_lem (user_enabled user) h = refl
decode_lem (policy user kind) h = rw (cut_at-append [] user kind h)
decode_lem (agent_token hash) h = refl

pub key_of_injective : (p q : Query) → IsPlain p → IsPlain q → key_of p ≡ key_of q → p ≡ q
key_of_injective p q hp hq e =
    let (kinds, rests) = key_parts p q e in
    let same : some p ≡ some q =
      sym (decode_lem p hp)
      ∙ ap (λ k. decode k (rest_of p)) kinds
      ∙ ap (decode (kind_of q)) rests
      ∙ decode_lem q hq in
    cc same

-- A value has the type that the reads of a kind assert.
unfoldable pub fits : Text → Cached → Bool
fits kind (a_text x) = kind == codes "identity"
fits kind (a_flag x) = (kind == codes "allowed") || (kind == codes "user_enabled")
fits kind (a_policy x) = kind == codes "policy"
fits kind (an_agent x) = kind == codes "agent_token"

pub fits-wrap : (q : Query) (x : Value q) → fits (kind_of q) (wrap q x) ≡ true
unfolding fits kind_of wrap
fits-wrap (identity ct id) x = refl
fits-wrap (allowed user ct) x = refl
fits-wrap (user_enabled user) x = refl
fits-wrap (policy user kind) x = refl
fits-wrap (agent_token hash) x = refl

pub unwrap-wrap : (q : Query) (x : Value q) → unwrap q (wrap q x) ≡ some x
unfolding unwrap wrap
unwrap-wrap (identity ct id) x = refl
unwrap-wrap (allowed user ct) x = refl
unwrap-wrap (user_enabled user) x = refl
unwrap-wrap (policy user kind) x = refl
unwrap-wrap (agent_token hash) x = refl

pub unwrap-fits : (q : Query) (v : Cached) → fits (kind_of q) v ≡ true → unwrap q v ≢ none
unfolding fits kind_of unwrap
unwrap-fits (identity ct id) (a_text x) h = λ e. absurd (ground (arith, e, h))
unwrap-fits (identity ct id) (a_flag x) h = λ e. absurd (ground (arith, e, h))
unwrap-fits (identity ct id) (a_policy x) h = λ e. absurd (ground (arith, e, h))
unwrap-fits (identity ct id) (an_agent x) h = λ e. absurd (ground (arith, e, h))
unwrap-fits (allowed user ct) (a_text x) h = λ e. absurd (ground (arith, e, h))
unwrap-fits (allowed user ct) (a_flag x) h = λ e. absurd (ground (arith, e, h))
unwrap-fits (allowed user ct) (a_policy x) h = λ e. absurd (ground (arith, e, h))
unwrap-fits (allowed user ct) (an_agent x) h = λ e. absurd (ground (arith, e, h))
unwrap-fits (user_enabled user) (a_text x) h = λ e. absurd (ground (arith, e, h))
unwrap-fits (user_enabled user) (a_flag x) h = λ e. absurd (ground (arith, e, h))
unwrap-fits (user_enabled user) (a_policy x) h = λ e. absurd (ground (arith, e, h))
unwrap-fits (user_enabled user) (an_agent x) h = λ e. absurd (ground (arith, e, h))
unwrap-fits (policy user kind) (a_text x) h = λ e. absurd (ground (arith, e, h))
unwrap-fits (policy user kind) (a_flag x) h = λ e. absurd (ground (arith, e, h))
unwrap-fits (policy user kind) (a_policy x) h = λ e. absurd (ground (arith, e, h))
unwrap-fits (policy user kind) (an_agent x) h = λ e. absurd (ground (arith, e, h))
unwrap-fits (agent_token hash) (a_text x) h = λ e. absurd (ground (arith, e, h))
unwrap-fits (agent_token hash) (a_flag x) h = λ e. absurd (ground (arith, e, h))
unwrap-fits (agent_token hash) (a_policy x) h = λ e. absurd (ground (arith, e, h))
unwrap-fits (agent_token hash) (an_agent x) h = λ e. absurd (ground (arith, e, h))
