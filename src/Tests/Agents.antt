-- ===== src/Tests/Agents.antt =====
-- Heartbeats and tools of concrete agents.
use open_nipper.Prelude.{list_eq, nat_eq, ◌≡◌, refl, true, some, List, [], ◌∷◌, Text, codes}
use open_nipper.Prelude.GoMap.{lookup}
use open_nipper.Gateway.Heartbeats.{entry_at, record_heartbeat}
use open_nipper.Gateway.Heartbeats.Staleness.{
  Call, heartbeat, mark, run, any_stale, after_stale, status_until_next,
}
use open_nipper.Agent.ToolDedup.Wrap.{BaseTool, invokable}
use open_nipper.Tests.Fixtures.{ann}

abbrev later : List Call
later = heartbeat 3 (codes "a2") ann (codes "ok") ∷ mark 8 5 ∷ mark 9 5 ∷ []

status_until_next_example :
    lookup (codes "a1") (run later (record_heartbeat 2 (codes "a1") ann (codes "ok") []))
    ≡ some (after_stale (any_stale 2 later) (entry_at 2 (codes "a1") ann (codes "ok")))
status_until_next_example =
    status_until_next 2 (codes "a1") ann (codes "ok") later [] tt (refl, (refl, (refl, tt)))

stale_test : any_stale 2 later ≡ true
unfolding any_stale
stale_test = refl

abbrev tools : List (BaseTool Text)
tools =
    invokable
      (record { info = some (record { name = codes "bash"; desc = [] }); inner = λ args. args })
    ∷ []
