-- ===== src/Gateway/Dedup.antt =====
-- internal/gateway/dedup.go: messages seen within a window. A method takes the readings of the
-- clock that it makes and returns the new state beside its result.
pub mod Window
pub mod KeySpace
pub mod Eviction
use open_nipper.Prelude.{
  ℕ, ◌+◌, Bool, true, false, ◌||◌, Option, none, some, [], ◌++◌, Text, codes, is_empty, ltb,
  list_eq, nat_eq, if◌then◌else◌, Dict,
}
use open_nipper.Prelude.GoMap
use open_nipper.Prelude.GoMap.{lookup, insert, remove, sweep}

pub data Strategy : Type 0 where
  by_message_id by_prompt no_strategy : Strategy

abbrev pub strategy_text : Strategy → Text
strategy_text by_message_id = codes "message-id"
strategy_text by_prompt = codes "prompt"
strategy_text no_strategy = codes "none"

abbrev pub is_none : Strategy → Bool
is_none no_strategy = true
is_none _ = false

-- An entry is its expiry time.
pub record Deduplicator : Type 0 where
  pub entries : Dict Text ℕ
  pub default_window : ℕ

pub new_deduplicator : ℕ → Deduplicator
new_deduplicator window = record { entries = []; default_window = window }

unfoldable pub build_key : Text → Strategy → Text → Text
build_key user_id strategy raw_key =
    user_id ++ (codes ":" ++ (strategy_text strategy ++ (codes ":" ++ raw_key)))

-- The body of IsDuplicate under the lock: `checked` and `registered` are its two clock readings.
-- `delete` before the assignment leaves what the assignment alone leaves.
pub check_entry : Deduplicator → Text → ℕ → ℕ → Option ℕ → Deduplicator × Bool
check_entry d key checked registered none =
    (record d { entries = insert key (registered + d.default_window) d.entries }, false)
check_entry d key checked registered (some expires_at) =
    if ltb checked expires_at then (d, true) else (
      record d { entries = insert key (registered + d.default_window) (remove key d.entries) },
      false,
    )

unfoldable pub is_duplicate : Deduplicator → ℕ → ℕ → Text → Strategy → Text → Deduplicator × Bool
unfolding check_entry
is_duplicate d checked registered user_id strategy raw_key =
    if is_none strategy || is_empty raw_key
    then (d, false)
    else (let key = build_key user_id strategy raw_key in
        check_entry d key checked registered (lookup key d.entries))

abbrev keep_unexpired : ℕ → Text → ℕ → Option ℕ
keep_unexpired now key expires_at = if ltb expires_at now then none else some expires_at

-- now.After(e.expiresAt)
unfoldable pub evict_expired : Deduplicator → ℕ → Deduplicator
evict_expired d now = record d { entries = sweep (keep_unexpired now) d.entries }

-- Len
pub size : Deduplicator → ℕ
size d = GoMap.count d.entries
