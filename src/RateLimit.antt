-- ===== src/RateLimit.antt =====
-- internal/ratelimit/limiter.go: at most a number of events for each key in a sliding window. The
-- clock readings are arguments, as in `allowAt`; a negative `max` denies as 0 does.
pub mod History
pub mod Promise
pub mod Matches
pub mod Sliding
use open_nipper.Prelude.{
  ℕ, ◌+◌, ◌-◌, Bool, true, false, Option, none, some, List, [], ◌∷◌, ◌++◌, Text, ltb, leb, length,
  if◌then◌else◌, Dict, list_eq, nat_eq,
}
use open_nipper.Prelude.GoMap.{lookup, insert, remove, sweep}

-- A window is its events, the oldest first.
pub record Limiter : Type 0 where
  pub windows : Dict Text (List ℕ)
  pub max : ℕ
  pub window : ℕ

unfoldable pub new_limiter : ℕ → ℕ → Limiter
new_limiter max window = record { windows = []; max = max; window = window }

abbrev or_empty : Option (List ℕ) → List ℕ
or_empty none = []
or_empty (some events) = events

unfoldable pub events_of : Text → Limiter → List ℕ
events_of key l = or_empty (lookup key l.windows)

-- Drops the events before the cutoff, up to the first that is not.
unfoldable pub prune : ℕ → List ℕ → List ℕ
prune cutoff [] = []
prune cutoff (e ∷ es) = let rest = prune cutoff es in if ltb e cutoff then rest else e ∷ es

-- `now.Add(-l.window)`: no event is before 0.
abbrev pub cutoff_at : ℕ → ℕ → ℕ
cutoff_at window now = now - window

-- The retry-after hint: the subtraction stops at 0, as the source's does.
abbrev pub hint : ℕ → ℕ → List ℕ → ℕ
hint window now [] = window
hint window now (e ∷ es) = (e + window) - now

-- allowAt
unfoldable pub allow : Text → ℕ → Limiter → Limiter × (Bool × ℕ)
unfolding events_of prune
allow key now l =
    let events = prune (cutoff_at l.window now) (events_of key l) in
    if leb l.max (length events)
    then (record l { windows = insert key events l.windows }, (false, hint l.window now events))
    else (record l { windows = insert key (events ++ now ∷ []) l.windows }, (true, 0))

unfoldable pub reset : Text → Limiter → Limiter
reset key l = record l { windows = remove key l.windows }

count_found : Text → ℕ → Option (List ℕ) → Limiter → Limiter × ℕ
count_found key now none l = (l, 0)
count_found key now (some events) l =
    let kept = prune (cutoff_at l.window now) events in
    (record l { windows = insert key kept l.windows }, length kept)

-- countAt
unfoldable pub count : Text → ℕ → Limiter → Limiter × ℕ
unfolding count_found
count key now l = count_found key now (lookup key l.windows) l

abbrev pub non_empty : List ℕ → Option (List ℕ)
non_empty [] = none
non_empty (e ∷ es) = some (e ∷ es)

-- cleanupAt
unfoldable pub cleanup : ℕ → Limiter → Limiter
cleanup now l = record l {
  windows = sweep (λ key events. non_empty (prune (cutoff_at l.window now) events)) l.windows;
}
