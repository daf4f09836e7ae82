-- ===== src/Tests/Limits.antt =====
-- The rate limiter and the tool call limit on concrete calls.
use open_nipper.Prelude.{
  ◌+◌, ℕ, ◌-◌, ◌≡◌, refl, Bool, true, false, some, List, [], ◌∷◌, Text, codes, arith,
}
use open_nipper.RateLimit.{Limiter, new_limiter, allow}
use open_nipper.RateLimit.Promise.{Call, allow_call, cleanup_call, answers, promised}
use open_nipper.RateLimit.Sliding.{limits_sliding_window}
use open_nipper.Agent.ToolDedup
use open_nipper.Agent.ToolDedup.{limit_of, calls_of}
use open_nipper.Agent.ToolDedup.Limit
use open_nipper.Agent.ToolDedup.Limit.{runs, occurrences, min, runs_limited}
use open_nipper.Tests.Fixtures.{ann}

abbrev calls : List Call
calls =
    allow_call ann 1
    ∷ allow_call ann 2
    ∷ allow_call ann 11
    ∷ cleanup_call 12
    ∷ allow_call ann 12
    ∷ []

limits_sliding_window_example : answers (new_limiter 2 10) calls ≡ promised 2 10 (λ key. []) calls
limits_sliding_window_example =
    limits_sliding_window 2 10 calls
      (ground arith, (ground arith, (ground arith, (ground arith, (ground arith, tt)))))

abbrev full : Limiter
full = record { windows = (ann, 1 ∷ 2 ∷ []) ∷ []; max = 2; window = 10 }

-- The hint of a refused event at time 3, and the answer at the time it names.
hint_test : (allow ann 3 full).1 ≡ (false, 8)
unfolding allow open_nipper.Prelude.GoMap.lookup
hint_test = refl

hinted_test : (allow ann (3 + 8) full).1.0 ≡ false
unfolding allow open_nipper.Prelude.GoMap.lookup
hinted_test = refl

abbrev fetch : Limit.Call Text
fetch = record { info = some (codes "skill_exec"); inner = λ args. args; args = codes "{}" }

runs_limited_example :
    runs (λ text. text) (codes "skill_exec", codes "{}") (fetch ∷ fetch ∷ fetch ∷ []) []
    ≡ min
        (occurrences (λ text. text) (codes "skill_exec", codes "{}") (fetch ∷ fetch ∷ fetch ∷ []))
        (limit_of (codes "skill_exec") - calls_of (codes "skill_exec", codes "{}") [])
runs_limited_example =
    runs_limited (λ text. text) (codes "skill_exec", codes "{}") (fetch ∷ fetch ∷ fetch ∷ []) []

runs_test : runs (λ text. text) (codes "skill_exec", codes "{}") (fetch ∷ fetch ∷ fetch ∷ []) [] ≡ 2
unfolding runs ToolDedup.invoke open_nipper.Prelude.GoMap.lookup open_nipper.Prelude.GoMap.insert
runs_test = refl
