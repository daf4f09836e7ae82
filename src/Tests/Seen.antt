-- ===== src/Tests/Seen.antt =====
-- The deduplicator on concrete messages.
use open_nipper.Prelude.{◌+◌, ℕ, ◌≡◌, ◌≢◌, refl, true, false, [], ◌∷◌, codes, ltb, arith}
use open_nipper.Gateway.Dedup.{
  Deduplicator, by_message_id, by_prompt, build_key, is_duplicate, evict_expired,
}
use open_nipper.Gateway.Dedup.Window.{check, evict, run, suppressed_within_window}
use open_nipper.Gateway.Dedup.Eviction.{evict_transparent}
use open_nipper.Gateway.Dedup.KeySpace.{users_independent}
use open_nipper.Tests.Fixtures.{ann, bob, ann-IsColonFree, bob-IsColonFree}

abbrev fresh : Deduplicator
fresh = record { entries = []; default_window = 10 }

abbrev used : Deduplicator
used = record { entries = (codes "ann:message-id:o1", 12) ∷ []; default_window = 10 }

suppressed_within_window_example :
    (is_duplicate
      (run
        (is_duplicate fresh 1 2 ann by_message_id (codes "o1")).0
        (check 5 5 bob by_prompt (codes "x") ∷ evict 11 ∷ []))
      8
      8
      ann
      by_message_id
      (codes "o1")).1
    ≡ ltb 8 (2 + 10)
unfolding is_duplicate build_key open_nipper.Prelude.GoMap.lookup
suppressed_within_window_example =
    suppressed_within_window fresh 1 2 ann by_message_id (codes "o1")
      (check 5 5 bob by_prompt (codes "x") ∷ evict 11 ∷ []) 8 8 tt refl refl
      (ground arith, (ground arith, tt))

evict_transparent_example :
    (is_duplicate (evict_expired used 12) 12 13 ann by_message_id (codes "o1")).1
    ≡ (is_duplicate used 12 13 ann by_message_id (codes "o1")).1
unfolding open_nipper.Prelude.GoMap.lookup
evict_transparent_example =
    evict_transparent used 12 12 13 ann by_message_id (codes "o1") (refl, tt) (ground arith)

ann_is_not_bob : ann ≢ bob
ann_is_not_bob h = ground arith

users_independent_example :
    (is_duplicate
      (is_duplicate fresh 1 2 ann by_prompt (codes "x")).0
      3
      4
      bob
      by_prompt
      (codes "x")).1
    ≡ (is_duplicate fresh 3 4 bob by_prompt (codes "x")).1
users_independent_example =
    users_independent fresh 1 2 3 4 ann bob by_prompt by_prompt (codes "x") (codes "x")
      ann_is_not_bob ann-IsColonFree bob-IsColonFree

-- A repeated message is seen before the end of its window, and not at the end.
duplicate_test : (is_duplicate used 11 11 ann by_message_id (codes "o1")).1 ≡ true
unfolding is_duplicate build_key open_nipper.Prelude.GoMap.lookup
duplicate_test = refl

expired_test : (is_duplicate used 12 12 ann by_message_id (codes "o1")).1 ≡ false
unfolding is_duplicate build_key open_nipper.Prelude.GoMap.lookup
expired_test = refl
