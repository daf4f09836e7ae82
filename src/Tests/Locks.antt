-- ===== src/Tests/Locks.antt =====
-- The session lock: a call that waits for another process, one that never returns, and interleavings.
use open_nipper.Prelude.{ℕ, zero, ◌*◌, ◌≡◌, refl, false, none, some, arith}
use open_nipper.Session.Lock.{Rounds, exists, acquired_at, finds_stale, lock, lock_file_is_stale}
use open_nipper.Session.Lock.Waiting.{Returns, Sleeps, lock-Returns}
use open_nipper.Session.Lock.System.{
  System, begin, take, refused, Reach, start, later, Step, holding,
}
use open_nipper.Session.Lock.Exclusion.{CarefulStep, mutual_exclusion, both_hold}

-- Another process holds the lock all along; every round sleeps for 100 milliseconds.
abbrev held_by_other : Rounds
held_by_other = record {
  link = λ n. exists;
  file = λ n. some (record { content = acquired_at 0; mod_time = 0 });
  stale_clock = λ n. 0;
  clock = λ n. 100 * n;
  cancelled = λ n. false;
}

held_by_other-fresh : (n : ℕ) → finds_stale held_by_other n ≡ false
unfolding finds_stale lock_file_is_stale
held_by_other-fresh n = refl

held_by_other-Sleeps : Sleeps held_by_other
held_by_other-Sleeps n = ground (arith, held_by_other-fresh n)

lock-Returns_example : Returns (lock 102 held_by_other 0)
lock-Returns_example =
    lock-Returns held_by_other 0 0 102 held_by_other-Sleeps (ground arith)
      (λ m h. held_by_other-fresh m) (ground arith)

-- The file is there, cannot be read, and cannot be removed.
abbrev stuck : Rounds
stuck = record {
  link = λ n. exists;
  file = λ n. none;
  stale_clock = λ n. 100 * n;
  clock = λ n. 100 * n;
  cancelled = λ n. false;
}

one_holds : (s : System) × Reach CarefulStep s × (s.pc 0 ≡ holding)
one_holds =
    let r1 = later start (begin 0 refl, tt) in
    let r2 = later r1 (take 0 0 refl refl, tt) in
    let r3 = later r2 (begin 1 refl, tt) in
    let r4 = later r3 (refused 1 0 (record { owner = 0; since = 0 }) refl refl, tt) in (_, r4, refl)

mutual_exclusion_example : zero ≡ zero
mutual_exclusion_example = mutual_exclusion one_holds.1 0 0 one_holds.2 one_holds.2

both_hold_example :
    (s : System) × Reach Step s × (s.pc 0 ≡ holding) × (s.pc 1 ≡ holding) × (s.now ≡ 0)
both_hold_example = both_hold 0 1 (λ h. ground arith)
