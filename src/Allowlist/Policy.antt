-- ===== src/Allowlist/Policy.antt =====
-- Who is let in, and what is written to the audit log.
use open_nipper.Prelude.{
  ℕ, ◌≡◌, refl, ◌↔◌, ◌⊎◌, inl, inr, Bool, true, false, Text, is_empty, Result, ok, err, arith,
  length, Bool-cases,
}
use open_nipper.Allowlist.{
  Repository, check, check_enabled, check_channel, check_wildcard, wildcard,
}

-- A known, enabled user with an entry for the channel, or else for every channel.
abbrev pub IsPermitted : Repository → Text → Text → Type 0
IsPermitted repo user ct =
    (is_empty user ≡ false)
    × (repo.is_user_enabled user ≡ ok true)
    × ((repo.is_allowed user ct ≡ ok true)
        ⊎ ((repo.is_allowed user ct ≡ ok false) × (repo.is_allowed user wildcard ≡ ok true)))

wildcard_ok :
    (user ct : Text) (r : Result Text Bool) → (check_wildcard user ct r).1 ≡ ok true → r ≡ ok true
unfolding check_wildcard
wildcard_ok user ct (ok true) h = refl
wildcard_ok user ct (ok false) h = absurd (cc)
wildcard_ok user ct (err e) h = absurd (cc)

channel_ok :
    (repo : Repository) (user ct : Text) (r : Result Text Bool)
    → (check_channel repo user ct r).1 ≡ ok true
    → (r ≡ ok true) ⊎ ((r ≡ ok false) × (repo.is_allowed user wildcard ≡ ok true))
unfolding check_channel
channel_ok repo user ct (ok true) h = inl refl
channel_ok repo user ct (ok false) h =
    inr (refl, wildcard_ok user ct (repo.is_allowed user wildcard) h)
channel_ok repo user ct (err e) h = absurd (cc)

enabled_ok :
    (repo : Repository) (user ct : Text) (r : Result Text Bool)
    → (check_enabled repo user ct r).1 ≡ ok true
    → (r ≡ ok true) × ((check_channel repo user ct (repo.is_allowed user ct)).1 ≡ ok true)
unfolding check_enabled
enabled_ok repo user ct (ok true) h = (refl, h)
enabled_ok repo user ct (ok false) h = absurd (cc)
enabled_ok repo user ct (err e) h = absurd (cc)

IsPermitted-of_check :
    (repo : Repository) (user ct : Text)
    → (check repo user ct).1 ≡ ok true
    → IsPermitted repo user ct
unfolding check
IsPermitted-of_check repo user ct h = elim (Bool-cases (is_empty user)) [
  | inl e ↦ absurd (cc (h, e))
  | inr e ↦
      let rest : (check_enabled repo user ct (repo.is_user_enabled user)).1 ≡ ok true =
        ground arith in
      let enabled = enabled_ok repo user ct (repo.is_user_enabled user) rest in
      (e, enabled.0, channel_ok repo user ct (repo.is_allowed user ct) enabled.1)
]

check_of_permitted :
    (repo : Repository) (user ct : Text)
    → IsPermitted repo user ct
    → (check repo user ct).1 ≡ ok true
unfolding check
check_of_permitted repo user ct h = ground arith

-- A message is let in exactly if its user is known and enabled and the allowlist has an active
-- entry for the user and the channel, or has an inactive or no such entry and an active wildcard.
pub check_iff :
    (repo : Repository) (user ct : Text)
    → ((check repo user ct).1 ≡ ok true) ↔ IsPermitted repo user ct
check_iff repo user ct = (IsPermitted-of_check repo user ct, check_of_permitted repo user ct)

-- How many audit entries a result goes with.
abbrev pub entries_for : Result Text Bool → ℕ
entries_for (ok false) = 1
entries_for _ = 0

-- Exactly a rejection writes an audit entry, and one: an admission or a datastore error writes none.
pub audits_rejections :
    (repo : Repository) (user ct : Text)
    → length (check repo user ct).0 ≡ entries_for (check repo user ct).1
unfolding check
audits_rejections repo user ct = ground arith
