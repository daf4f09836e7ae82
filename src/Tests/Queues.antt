-- ===== src/Tests/Queues.antt =====
-- The registry, and the allowlist, on concrete entries.
use open_nipper.Prelude.{
  ◌≡◌, ◌↔◌, ◌+◌, refl, Bool, true, false, none, some, ok, List, [], ◌∷◌, ◌++◌, length, arith,
}
use open_nipper.Models.Channel.{whatsapp}
use open_nipper.Allowlist.{check}
use open_nipper.Allowlist.Policy.{check_iff, IsPermitted}
use open_nipper.Gateway.Registry.{Registry, queue_of, consume, keep_fresh, evict_older_than, size}
use open_nipper.Gateway.Registry.Fifo.{Step, arrive, respond, run, responses, arrivals, fifo}
use open_nipper.Gateway.Registry.Tidy.{IsTidy}
use open_nipper.Tests.Fixtures.{ann, key, other_key, context, entry, open_repo}

abbrev two_sessions : Registry
two_sessions = (key, entry ∷ record entry { created_at = 5 } ∷ []) ∷ (other_key, entry ∷ []) ∷ []

two_sessions-IsTidy : IsTidy two_sessions
unfolding open_nipper.Prelude.GoMap.lookup
two_sessions-IsTidy = record {
  unique = (refl, (refl, tt));
  no_empty = ((λ h. absurd (cc (h))), ((λ h. absurd (cc (h))), tt));
}

abbrev traffic : List Step
traffic = respond key ∷ arrive 9 key context none [] ∷ respond other_key ∷ respond key ∷ []

fifo_example :
    responses key two_sessions traffic ++ queue_of key (run two_sessions traffic)
    ≡ queue_of key two_sessions ++ arrivals key traffic
fifo_example = fifo key two_sessions traffic

evict_test : (evict_older_than 3 two_sessions).1 ≡ 2
unfolding evict_older_than open_nipper.Prelude.GoMap.total open_nipper.Gateway.Registry.count_stale
evict_test = refl

check_iff_example :
    ((check open_repo ann whatsapp).1 ≡ ok true) ↔ IsPermitted open_repo ann whatsapp
check_iff_example = check_iff open_repo ann whatsapp
