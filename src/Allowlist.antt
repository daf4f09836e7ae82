-- ===== src/Allowlist.antt =====
-- internal/allowlist/guard.go: whether a message may enter the pipeline. The datastore is what it
-- answers to the three queries of the pipeline; an error is its text.
pub mod Policy
use open_nipper.Prelude.{
  Bool, true, false, Option, none, some, List, [], ◌∷◌, Text, codes, is_empty, Result, ok, err,
  if◌then◌else◌,
}

pub record Repository : Type 0 where
  -- by channel type and channel identity; an error is `none`, and `some []` is how the datastore
  -- answers for an identity that it does not know
  pub resolve_identity : Text → Text → Option Text
  pub is_user_enabled : Text → Result Text Bool
  pub is_allowed : Text → Text → Result Text Bool

pub data RejectionReason : Type 0 where
  unknown_identity user_disabled not_in_allowlist : RejectionReason

-- The audit entry of `writeRejection`: the channel identity is not part of it. Whether writing it
-- succeeds is only logged.
pub record Rejection : Type 0 where
  pub reason : RejectionReason
  pub channel_type : Text
  pub target_user_id : Text

-- The result of a check, beside the audit entries that it writes.
abbrev pub Checked : Type 0
Checked = List Rejection × Result Text Bool

abbrev pub reject : RejectionReason → Text → Text → Checked
reject reason ct user =
    (record { reason = reason; channel_type = ct; target_user_id = user } ∷ [], ok false)

abbrev pub wildcard : Text
wildcard = codes "*"

-- After the wildcard entry was asked for.
check_wildcard : Text → Text → Result Text Bool → Checked
check_wildcard user ct (err e) = ([], err e)
check_wildcard user ct (ok true) = ([], ok true)
check_wildcard user ct (ok false) = reject not_in_allowlist ct user

-- After the entry of the channel was asked for.
check_channel : Repository → Text → Text → Result Text Bool → Checked
unfolding check_wildcard
check_channel repo user ct (err e) = ([], err e)
check_channel repo user ct (ok true) = ([], ok true)
check_channel repo user ct (ok false) = check_wildcard user ct (repo.is_allowed user wildcard)

-- After it was asked whether the user is enabled.
check_enabled : Repository → Text → Text → Result Text Bool → Checked
unfolding check_channel
check_enabled repo user ct (err e) = ([], err e)
check_enabled repo user ct (ok false) = reject user_disabled ct user
check_enabled repo user ct (ok true) = check_channel repo user ct (repo.is_allowed user ct)

unfoldable pub check : Repository → Text → Text → Checked
unfolding check_enabled
check repo user ct =
    if is_empty user
    then reject unknown_identity ct user
    else check_enabled repo user ct (repo.is_user_enabled user)
