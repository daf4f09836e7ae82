-- ===== src/Gateway/Dedup/Eviction.antt =====
-- The background eviction.
use open_nipper.Prelude.{
  ℕ, ◌≤◌, ◌≡◌, refl, ap, sym, ◌∙◌, ◌||◌, Option, none, some, arith, Text, is_empty, list_eq, nat_eq,
  Bool-cases, inl, inr,
}
use open_nipper.Prelude.GoMap.{lookup, Unique, lookup-sweep, sweep_at}
use open_nipper.Gateway.Dedup.{
  Deduplicator, Strategy, is_none, build_key, is_duplicate, evict_expired, keep_unexpired,
}
use open_nipper.Gateway.Dedup.Window.{is_duplicate_tracked, is_duplicate_untracked}
use open_nipper.Gateway.Dedup.KeySpace.{answer, check_entry-answer}

answer_swept :
    (key : Text) (o : Option ℕ) (t now : ℕ)
    → t ≤ now
    → answer (sweep_at (keep_unexpired t) key o) now ≡ answer o now
unfolding answer
answer_swept key none t now h = refl
answer_swept key (some x) t now h = ground arith

lookup-evict :
    (d : Deduplicator) (t : ℕ) (key : Text)
    → Unique d.entries
    → lookup key (evict_expired d t).entries
      ≡ sweep_at (keep_unexpired t) key (lookup key d.entries)
unfolding evict_expired
lookup-evict d t key unique = lookup-sweep (keep_unexpired t) key d.entries unique

-- An eviction never changes whether a message that is checked at the same time or later is a
-- duplicate, where every key stands once.
pub evict_transparent :
    (d : Deduplicator) (t now later : ℕ) (u : Text) (s : Strategy) (k : Text)
    → Unique d.entries
    → t ≤ now
    → (is_duplicate (evict_expired d t) now later u s k).1 ≡ (is_duplicate d now later u s k).1
evict_transparent d t now later u s k unique h =
    let d' = evict_expired d t in
    let key = build_key u s k in
    elim (Bool-cases (is_none s || is_empty k)) [
      | inl e ↦
          rw (
            is_duplicate_untracked d now later u s k e,
            is_duplicate_untracked d' now later u s k e,
          )
      | inr e ↦
          rw (is_duplicate_tracked d now later u s k e, is_duplicate_tracked d' now later u s k e)
            (check_entry-answer d' key now later _
              ∙ ap (λ o. answer o now) (lookup-evict d t key unique)
              ∙ answer_swept key (lookup key d.entries) t now h
              ∙ sym (check_entry-answer d key now later _))
    ]
