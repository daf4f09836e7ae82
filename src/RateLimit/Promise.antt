-- ===== src/RateLimit/Promise.antt =====
-- What the calls of a limiter answer, and what they promise in terms of all admitted events.
use open_nipper.Prelude.{
  ℕ, ◌≤◌, Bool, true, false, List, [], ◌∷◌, ◌++◌, Text, leb, length, if◌then◌else◌, list_eq, nat_eq,
  ◌==◌,
}
use open_nipper.RateLimit.{Limiter, cutoff_at, hint, allow, reset, count, cleanup}
use open_nipper.RateLimit.History.{since}

pub data Call : Type 0 where
  allow_call count_call : Text → ℕ → Call
  cleanup_call : ℕ → Call
  reset_call : Text → Call

-- The clock reading of a call, which is the last one where it has none.
abbrev pub time : ℕ → Call → ℕ
time t (allow_call key now) = now
time t (count_call key now) = now
time t (cleanup_call now) = now
time t (reset_call key) = t

pub data Answer : Type 0 where
  -- whether the event is admitted, and the retry-after hint
  admitted : Bool → ℕ → Answer
  counted : ℕ → Answer
  no_answer : Answer

unfoldable pub perform : Limiter → Call → Limiter × Answer
perform l (allow_call key now) =
    let (l1, answer) = allow key now l in (l1, admitted answer.0 answer.1)
perform l (count_call key now) = let (l1, n) = count key now l in (l1, counted n)
perform l (cleanup_call now) = (cleanup now l, no_answer)
perform l (reset_call key) = (reset key l, no_answer)

unfoldable pub answers : Limiter → List Call → List Answer
unfolding perform
answers l [] = []
answers l (c ∷ cs) = (perform l c).1 ∷ answers (perform l c).0 cs

-- For each key, all its events that were admitted since its last reset.
abbrev pub History : Type 0
History = Text → List ℕ

unfoldable pub update : Text → List ℕ → History → History
update key es h j = if key == j then es else h j

-- What each call promises: an event is admitted exactly if fewer than `max` were admitted in the
-- window that ends now.
unfoldable pub promise : ℕ → ℕ → History → Call → History × Answer
promise max window h (allow_call key now) =
    let recent = since (cutoff_at window now) (h key) in
    if leb max (length recent)
    then (h, admitted false (hint window now recent))
    else (update key (h key ++ now ∷ []) h, admitted true 0)
promise max window h (count_call key now) =
    (h, counted (length (since (cutoff_at window now) (h key))))
promise max window h (cleanup_call now) = (h, no_answer)
promise max window h (reset_call key) = (update key [] h, no_answer)

unfoldable pub promised : ℕ → ℕ → History → List Call → List Answer
unfolding promise
promised max window h [] = []
promised max window h (c ∷ cs) =
    (promise max window h c).1 ∷ promised max window (promise max window h c).0 cs

-- The clock readings do not go back.
abbrev pub IsTimed : ℕ → List Call → Type 0
IsTimed t [] = Unit
IsTimed t (c ∷ cs) = (t ≤ time t c) × IsTimed (time t c) cs
