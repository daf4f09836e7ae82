-- ===== src/Gateway/Router/Fallback.antt =====
-- The identifiers of a WhatsApp message that stand in for its own.
use open_nipper.Prelude.{
  ◌≡◌, refl, sym, ap, ◌∙◌, true, false, ◌||◌, Option, none, some, List, [], ◌∷◌, Text, nat_eq,
  list_eq, ◌==◌, beq_refl, list_beq_iff, is_empty, if◌then◌else◌, if_true, if_false, Bool-cases,
  inl, inr, arith,
}
use open_nipper.Models.Channel.{ChannelType}
use open_nipper.Models.Message.{NipperMessage}
use open_nipper.Allowlist.{Repository}
use open_nipper.Gateway.Collect.{Actions, alias_added}
use open_nipper.Gateway.Router.{
  resolve_user, uniq_from, extra_candidates, first_known, matched_user, contains,
}

-- An empty identifier is not asked for.
unfoldable pub answer_of : Repository → ChannelType → Text → Option Text
answer_of repo ct id = if is_empty id then none else repo.resolve_identity ct id

unfoldable pub or_later : Option Text → Option Text → Option Text
or_later none later = later
or_later (some user) later = some user

-- The first answer for a list of identifiers, each asked for as often as it stands there.
unfoldable pub first_answer : Repository → ChannelType → List Text → Option Text
unfolding answer_of or_later
first_answer repo ct [] = none
first_answer repo ct (id ∷ ids) = or_later (answer_of repo ct id) (first_answer repo ct ids)

-- The user that another identifier names learns the message's own.
unfoldable pub by_other : NipperMessage → Option Text → Text × Actions
by_other msg none = ([], [])
by_other msg (some user) = (user, alias_added user msg.channel_type msg.channel_identity ∷ [])

unfoldable pub by_own : NipperMessage → Option Text → Option Text → Text × Actions
unfolding by_other
by_own msg (some user) other = (user, [])
by_own msg none other = by_other msg other

-- Whose a message is: its own identity is asked for, and only if that has no answer the others.
unfoldable pub resolved : Repository → NipperMessage → Text × Actions
unfolding by_own
resolved repo msg =
    if is_empty msg.channel_identity
    then ([], [])
    else by_own msg (repo.resolve_identity msg.channel_type msg.channel_identity)
        (first_answer repo msg.channel_type (extra_candidates msg.channel_type msg.meta))

module _ (repo : Repository) (ct : ChannelType) where
  -- No identifier of a list has an answer.
  abbrev Silent : List Text → Type 0
  Silent seen = (id : Text) → contains id seen ≡ true → repo.resolve_identity ct id ≡ none

  more-Silent :
      (id : Text) (seen : List Text)
      → repo.resolve_identity ct id ≡ none
      → Silent seen
      → Silent (id ∷ seen)
  unfolding contains
  more-Silent id seen h quiet j there = elim (Bool-cases (id == j)) [
    | inl same ↦ ap (repo.resolve_identity ct) (sym ((list_beq_iff id j).0 same)) ∙ h
    | inr other ↦ quiet j (sym (ap (λ b. b || contains j seen) other) ∙ there)
  ]

  skipped_answer :
      (id : Text) (seen : List Text)
      → Silent seen
      → (is_empty id || contains id seen) ≡ true
      → answer_of repo ct id ≡ none
  unfolding answer_of
  skipped_answer id seen quiet h = elim (Bool-cases (is_empty id)) [
    | inl no_text ↦ if_true _ _ no_text
    | inr named ↦ if_false _ _ named ∙ quiet id (sym (ap (λ b. b || contains id seen) named) ∙ h)
  ]

  kept_answer :
      (id : Text) (seen : List Text)
      → (is_empty id || contains id seen) ≡ false
      → answer_of repo ct id ≡ repo.resolve_identity ct id
  unfolding answer_of
  kept_answer id seen h = if_false {b = is_empty id} _ _ (ground (arith, h))

  first_step :
      (id : Text) (ids : List Text) (o : Option Text)
      → repo.resolve_identity ct id ≡ o
      → first_known repo ct (id ∷ ids)
        ≡ elim o [ none ↦ first_known repo ct ids | some user ↦ some (id, user) ]
  unfolding first_known
  first_step id ids o h =
      ap (λ p. elim p [ none ↦ first_known repo ct ids | some user ↦ some (id, user) ]) h

  -- Identifiers after some that had no answer, the message's own among them.
  module _ (msg : NipperMessage) where
    not_own :
        (id user : Text)
        → repo.resolve_identity ct msg.channel_identity ≡ none
        → repo.resolve_identity ct id ≡ some user
        → (id == msg.channel_identity) ≡ false
    not_own id user silent h = elim (Bool-cases (id == msg.channel_identity)) [
      | inl same ↦ absurd (cc (silent, h, (list_beq_iff id msg.channel_identity).0 same))
      | inr other ↦ other
    ]

    later_answers :
        (ids seen : List Text)
        → Silent seen
        → repo.resolve_identity ct msg.channel_identity ≡ none
        → matched_user msg (first_known repo ct (uniq_from seen ids))
          ≡ by_other msg (first_answer repo ct ids)
    unfolding first_known uniq_from matched_user first_answer by_other
    later_answers [] seen quiet silent = refl
    later_answers (id ∷ ids) seen quiet silent =
        elim (Bool-cases (is_empty id || contains id seen)) [
          | inl skip ↦
              ap (λ cs. matched_user msg (first_known repo ct cs)) (if_true _ _ skip)
              ∙ later_answers ids seen quiet silent
              ∙ ap (λ o. by_other msg (or_later o (first_answer repo ct ids)))
                  (sym (skipped_answer id seen quiet skip))
          | inr keep ↦
              ap (λ cs. matched_user msg (first_known repo ct cs)) (if_false _ _ keep)
              ∙ kept (repo.resolve_identity ct id) refl
                  (λ h. later_answers ids (id ∷ seen) (more-Silent id seen h quiet) silent)
              ∙ ap (λ o. by_other msg (or_later o (first_answer repo ct ids)))
                  (sym (kept_answer id seen keep))
        ]
      where
        kept :
            (o : Option Text)
            → repo.resolve_identity ct id ≡ o
            → (repo.resolve_identity ct id ≡ none
                → matched_user msg (first_known repo ct (uniq_from (id ∷ seen) ids))
                  ≡ by_other msg (first_answer repo ct ids))
            → matched_user msg (first_known repo ct (id ∷ uniq_from (id ∷ seen) ids))
              ≡ by_other msg (or_later o (first_answer repo ct ids))
        kept none h later =
            ap (matched_user msg) (first_step id (uniq_from (id ∷ seen) ids) none h) ∙ later h
        kept (some user) h later =
            ap (matched_user msg) (first_step id (uniq_from (id ∷ seen) ids) (some user) h)
            ∙ if_false _ _ (not_own id user silent h)

first_kept :
    (c : Text) (cs : List Text)
    → is_empty c ≡ false
    → uniq_from [] (c ∷ cs) ≡ c ∷ uniq_from (c ∷ []) cs
unfolding uniq_from contains
first_kept c cs named = rw named refl

none_seen : (repo : Repository) (ct : ChannelType) → Silent repo ct []
unfolding contains
none_seen repo ct id there = absurd (cc there)

own_or_other :
    (repo : Repository) (msg : NipperMessage) (o : Option Text)
    → repo.resolve_identity msg.channel_type msg.channel_identity ≡ o
    → matched_user msg (
        first_known repo msg.channel_type (
          msg.channel_identity
          ∷ uniq_from (msg.channel_identity ∷ []) (extra_candidates msg.channel_type msg.meta)))
      ≡ by_own msg o
          (first_answer repo msg.channel_type (extra_candidates msg.channel_type msg.meta))
unfolding by_own matched_user
own_or_other repo msg none h =
    let own = msg.channel_identity in
    ap (matched_user msg) (first_step repo msg.channel_type own _ none h)
    ∙ later_answers repo msg.channel_type msg (extra_candidates msg.channel_type msg.meta)
        (own ∷ []) (more-Silent repo msg.channel_type own [] h (none_seen repo msg.channel_type)) h
own_or_other repo msg (some user) h =
    let own = msg.channel_identity in
    ap (matched_user msg) (first_step repo msg.channel_type own _ (some user) h)
    ∙ if_true _ _ (beq_refl own)

-- For every message and datastore: without a channel identity there is no user. Otherwise, where the
-- datastore answers for the message's own identity without an error, the user is its answer and no
-- identity is learnt; where it does not, the user is the first answer for the message's other
-- identifiers, the empty ones left out, and the message's own identity is learnt for that user; and
-- without any answer there is no user. Identifiers that repeat make no difference.
pub resolve_user_lem :
    (repo : Repository) (msg : NipperMessage) → resolve_user repo msg ≡ resolved repo msg
unfolding resolve_user resolved
resolve_user_lem repo msg =
    let others = extra_candidates msg.channel_type msg.meta in
    elim (Bool-cases (is_empty msg.channel_identity)) [
      | inl unnamed ↦ if_true _ _ unnamed ∙ sym (if_true _ _ unnamed)
      | inr named ↦
          if_false _ _ named
          ∙ ap (λ cs. matched_user msg (first_known repo msg.channel_type cs))
              (first_kept msg.channel_identity others named)
          ∙ own_or_other repo msg _ refl
          ∙ sym (if_false _ _ named)
    ]
