-- ===== src/Gateway/Dedup/Window.antt =====
-- The window in which a message is suppressed.
use open_nipper.Prelude.{
  ℕ, ◌+◌, ◌<◌, ◌≡◌, refl, false, ◌||◌, Option, none, some, List, [], ◌∷◌, arith, Text, is_empty,
  ltb, lt→ltb, list_eq, nat_eq, list_beq_iff, All, Bool-cases, inl, inr,
}
use open_nipper.Prelude.GoMap.{
  lookup, remove, lookup-insert, lookup-remove, Unique, insert-Unique, remove-Unique, sweep-Unique,
  lookup-sweep,
}
use open_nipper.Gateway.Dedup.{
  true, Deduplicator, Strategy, is_none, build_key, is_duplicate, check_entry, evict_expired,
  keep_unexpired,
}

-- What can happen to the deduplicator: a message is checked, or the ticker of `cleanupLoop` fires.
pub data Call : Type 0 where
  check : ℕ → ℕ → Text → Strategy → Text → Call
  evict : ℕ → Call

-- The reading of the clock that decides whether an entry has expired.
abbrev pub time : Call → ℕ
time (check checked registered u s k) = checked
time (evict now) = now

unfoldable pub perform : Deduplicator → Call → Deduplicator
perform d (check checked registered u s k) = (is_duplicate d checked registered u s k).0
perform d (evict now) = evict_expired d now

unfoldable pub run : Deduplicator → List Call → Deduplicator
unfolding perform
run d [] = d
run d (c ∷ cs) = run (perform d c) cs

abbrev pub IsTracked : Strategy → Text → Type 0
IsTracked s k = (is_none s || is_empty k) ≡ false

pub is_duplicate_tracked :
    (d : Deduplicator) (t t' : ℕ) (u : Text) (s : Strategy) (k : Text)
    → IsTracked s k
    → is_duplicate d t t' u s k
      ≡ check_entry d (build_key u s k) t t' (lookup (build_key u s k) d.entries)
unfolding is_duplicate
is_duplicate_tracked d t t' u s k h = rw h

pub is_duplicate_untracked :
    (d : Deduplicator) (t t' : ℕ) (u : Text) (s : Strategy) (k : Text)
    → (is_none s || is_empty k) ≡ true
    → is_duplicate d t t' u s k ≡ (d, false)
unfolding is_duplicate
is_duplicate_untracked d t t' u s k h = rw h

check_entry-Unique :
    (d : Deduplicator) (key : Text) (t t' : ℕ) (o : Option ℕ)
    → Unique d.entries
    → Unique (check_entry d key t t' o).0.entries
unfolding check_entry
check_entry-Unique d key t t' none h = insert-Unique key _ d.entries h
check_entry-Unique d key t t' (some x) h = elim (Bool-cases (ltb t x)) [
  | inl e ↦ rw e h
  | inr e ↦ rw e (insert-Unique key _ _ (remove-Unique key d.entries h))
]

pub perform-Unique : (d : Deduplicator) (c : Call) → Unique d.entries → Unique (perform d c).entries
unfolding perform
perform-Unique d (check t t' u s k) h = elim (Bool-cases (is_none s || is_empty k)) [
  | inl e ↦ rw (is_duplicate_untracked d t t' u s k e, perform) h
  | inr e ↦
      rw (is_duplicate_tracked d t t' u s k e, perform)
        (check_entry-Unique d (build_key u s k) t t' _ h)
]
perform-Unique d (evict now) h =
    unfold evict_expired in sweep-Unique (keep_unexpired now) d.entries h

check_entry_keeps :
    (d : Deduplicator) (key other : Text) (t t' x : ℕ) (o : Option ℕ)
    → lookup key d.entries ≡ o
    → lookup other d.entries ≡ some x
    → t < x
    → lookup other (check_entry d key t t' o).0.entries ≡ some x
unfolding check_entry
check_entry_keeps d key other t t' x none p q h =
    ground
      (arith, list_beq_iff key other, lookup-insert key other (t' + d.default_window) d.entries)
check_entry_keeps d key other t t' x (some y) p q h = ground (
  arith,
  list_beq_iff key other,
  lookup-insert key other (t' + d.default_window) (remove key d.entries),
  lookup-remove key other d.entries,
  lt→ltb t x,
)

perform_keeps :
    (d : Deduplicator) (c : Call) (key : Text) (x : ℕ)
    → Unique d.entries
    → lookup key d.entries ≡ some x
    → time c < x
    → lookup key (perform d c).entries ≡ some x
unfolding perform
perform_keeps d (check t t' u s k) key x v q h = elim (Bool-cases (is_none s || is_empty k)) [
  | inl e ↦ rw (is_duplicate_untracked d t t' u s k e, perform) q
  | inr e ↦
      rw (is_duplicate_tracked d t t' u s k e, perform)
        (check_entry_keeps d (build_key u s k) key t t' x _ refl q h)
]
perform_keeps d (evict now) key x v q h =
    unfold evict_expired in
    rw (lookup-sweep (keep_unexpired now) key d.entries v) (rw q (ground arith))

run_keeps :
    (d : Deduplicator) (cs : List Call) (key : Text) (x : ℕ)
    → Unique d.entries
    → lookup key d.entries ≡ some x
    → All (λ c. time c < x) cs
    → lookup key (run d cs).entries ≡ some x
unfolding run
run_keeps d [] key x v q h = q
run_keeps d (c ∷ cs) key x v q h =
    run_keeps (perform d c) cs key x (perform-Unique d c v) (perform_keeps d c key x v q h.0) h.1

check_entry_registers :
    (d : Deduplicator) (key : Text) (t t' : ℕ) (o : Option ℕ)
    → (check_entry d key t t' o).1 ≡ false
    → lookup key (check_entry d key t t' o).0.entries ≡ some (t' + d.default_window)
unfolding check_entry
check_entry_registers d key t t' none h =
    ground (arith, list_beq_iff key key, lookup-insert key key (t' + d.default_window) d.entries)
check_entry_registers d key t t' (some y) h = ground (
  arith,
  list_beq_iff key key,
  lookup-insert key key (t' + d.default_window) (remove key d.entries),
)

check_entry_answer :
    (d : Deduplicator) (key : Text) (t t' x : ℕ)
    → lookup key d.entries ≡ some x
    → (check_entry d key t t' (lookup key d.entries)).1 ≡ ltb t x
unfolding check_entry
check_entry_answer d key t t' x h = rw h (ground arith)

-- Once a message was registered at time t', then whatever is checked or evicted before
-- t' + window, the same message is reported as a duplicate exactly if it is checked before
-- t' + window.
pub suppressed_within_window :
    (d : Deduplicator) (t t' : ℕ) (u : Text) (s : Strategy) (k : Text) (cs : List Call)
    (now later : ℕ)
    → Unique d.entries
    → IsTracked s k
    → (is_duplicate d t t' u s k).1 ≡ false
    → All (λ c. time c < t' + d.default_window) cs
    → (is_duplicate (run (is_duplicate d t t' u s k).0 cs) now later u s k).1
      ≡ ltb now (t' + d.default_window)
suppressed_within_window d t t' u s k cs now later v tracked fresh before =
    let key = build_key u s k in
    let d' = (is_duplicate d t t' u s k).0 in
    let same = is_duplicate_tracked d t t' u s k tracked in
    let registered : lookup key d'.entries ≡ some (t' + d.default_window) =
      rw same (check_entry_registers d key t t' (lookup key d.entries) (rw same at fresh)) in
    let unique : Unique d'.entries = unfold perform in perform-Unique d (check t t' u s k) v in
    let kept = run_keeps d' cs key (t' + d.default_window) unique registered before in
    rw (is_duplicate_tracked (run d' cs) now later u s k tracked)
      (check_entry_answer (run d' cs) key now later (t' + d.default_window) kept)
