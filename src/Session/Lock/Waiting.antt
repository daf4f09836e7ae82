-- ===== src/Session/Lock/Waiting.antt =====
-- How long a call of Lock waits.
use open_nipper.Prelude.{
  ℕ, zero, suc, ◌+◌, ◌*◌, ◌<◌, ◌≤◌, ◌≡◌, refl, true, false, Option, none, some, ltb, arith,
  Bool-cases, inl, inr, if◌then◌else◌,
}
use open_nipper.Session.Lock.{
  LockOutcome, LinkResult, linked, exists, link_error, Rounds, lock_max_wait, lock_retry_base,
  finds_stale, next_delay, lock_loop, lock, timed_out, cancelled_out, after_link, after_exists,
  acquired, failed,
}

-- A round that does not find a stale lock file sleeps for the least delay or longer, and the clock
-- does not go back.
abbrev pub Sleeps : Rounds → Type 0
Sleeps env =
    (n : ℕ) → env.clock n + (if finds_stale env n then 0 else lock_retry_base) ≤ env.clock (suc n)

abbrev pub Returns : Option LockOutcome → Type 0
Returns r = (o : LockOutcome) × (r ≡ some o)

Returns-after_link :
    (l : LinkResult) (rest : Option LockOutcome) → Returns rest → Returns (after_link l rest)
Returns-after_link linked rest h = (acquired, refl)
Returns-after_link link_error rest h = (failed, refl)
Returns-after_link exists rest h = h

module _ (env : Rounds) (deadline : ℕ) (sleeps : Sleeps env) where
  round_waits :
      (n : ℕ) (retry wait : Option LockOutcome)
      → finds_stale env n ≡ false
      → (env.clock n ≤ deadline → Returns wait)
      → Returns (after_exists env deadline n retry wait)
  round_waits n retry wait fresh rest = rw fresh (elim (Bool-cases (ltb deadline (env.clock n))) [
    | inl late ↦ (timed_out, rw late refl)
    | inr early ↦ rw early (elim (Bool-cases (env.cancelled n)) [
      | inl done ↦ (cancelled_out, rw done refl)
      | inr going ↦ rw going (rest (ground (arith, early)))
    ])
  ])

  fresh_rounds :
      (fuel n delay : ℕ)
      → ((m : ℕ) → n ≤ m → finds_stale env m ≡ false)
      → deadline < env.clock n + lock_retry_base * fuel
      → Returns (lock_loop (suc fuel) env deadline n delay)
  unfolding lock_loop
  fresh_rounds zero n delay fresh enough =
      Returns-after_link (env.link n) _
        (round_waits n _ _ (fresh n (omega arith)) (λ early. absurd (omega arith)))
  fresh_rounds (suc fuel) n delay fresh enough = Returns-after_link (env.link n) _ (
      round_waits n _ _ (fresh n (omega arith)) (λ early.
        fresh_rounds fuel (suc n) (next_delay delay) (λ m later. fresh m (omega arith))
          (ground (arith, sleeps n, fresh n (omega arith)))))

  -- The rounds that may find a stale file are those before k.
  all_rounds :
      (j fuel n delay k : ℕ)
      → n + j ≡ k
      → ((m : ℕ) → k ≤ m → finds_stale env m ≡ false)
      → deadline ≤ env.clock n + lock_max_wait
      → j + 102 ≤ fuel
      → Returns (lock_loop fuel env deadline n delay)
  unfolding lock_loop
  all_rounds j zero n delay k at_k fresh begun enough = absurd (omega arith)
  all_rounds zero (suc fuel) n delay k at_k fresh begun enough =
      fresh_rounds fuel n delay (λ m later. fresh m (omega arith)) (omega arith)
  all_rounds (suc j) (suc fuel) n delay k at_k fresh begun enough =
      let next : (d : ℕ) → Returns (lock_loop fuel env deadline (suc n) d) = λ d.
        all_rounds j fuel (suc n) d k (omega arith) fresh (ground (arith, sleeps n))
          (omega arith) in
      Returns-after_link (env.link n) _ (elim (Bool-cases (finds_stale env n)) [
        | inl stale ↦ rw stale (next delay)
        | inr ok ↦ round_waits n _ _ ok (λ early. next (next_delay delay))
      ])

-- Lock returns: if no lock file is found stale from round k on, every sleep lasts its least time and
-- the clock does not go back, then k + 102 rounds are enough, whatever else the file system and the
-- context answer.
pub lock-Returns :
    (env : Rounds) (start k fuel : ℕ)
    → Sleeps env
    → start ≤ env.clock 0
    → ((m : ℕ) → k ≤ m → finds_stale env m ≡ false)
    → k + 102 ≤ fuel
    → Returns (lock fuel env start)
unfolding lock
lock-Returns env start k fuel sleeps begun fresh enough =
    all_rounds env (start + lock_max_wait) sleeps k fuel 0 lock_retry_base k (omega arith) fresh
      (omega arith) enough

loop_spins :
    (fuel : ℕ) (env : Rounds) (deadline n delay : ℕ)
    → ((m : ℕ) → env.link m ≡ exists)
    → ((m : ℕ) → finds_stale env m ≡ true)
    → lock_loop fuel env deadline n delay ≡ none
unfolding lock_loop
loop_spins zero env deadline n delay taken stale = refl
loop_spins (suc fuel) env deadline n delay taken stale =
    rw (taken n) (rw (stale n) (loop_spins fuel env deadline (suc n) delay taken stale))

-- While the lock file stays in place and is found stale, as when it cannot be removed, Lock never
-- returns: neither its deadline nor a cancelled context ends it.
pub lock_spins :
    (env : Rounds) (start fuel : ℕ)
    → ((m : ℕ) → env.link m ≡ exists)
    → ((m : ℕ) → finds_stale env m ≡ true)
    → lock fuel env start ≡ none
unfolding lock
lock_spins env start fuel taken stale =
    loop_spins fuel env (start + lock_max_wait) 0 lock_retry_base taken stale
