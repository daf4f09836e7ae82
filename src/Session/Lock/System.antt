-- ===== src/Session/Lock/System.antt =====
-- pkg/session/lock.go: processes that lock and unlock one session, interleaved at their accesses to
-- the file system. A process that writes its lock file puts the time at which its call began there.
use open_nipper.Prelude.{
  ℕ, ◌+◌, ◌≡◌, Bool, true, false, Option, none, some, if◌then◌else◌, nat_eq, ◌==◌,
}
use open_nipper.Session.Lock.{LockFile, acquired_at, lock_file_is_stale}

-- Where a process stands: outside, before `os.Link`, before `lockFileIsStale`, before `os.Remove` of a
-- file found stale, and with the lock.
pub data Pc : Type 0 where
  idle : Pc
  trying checking removing : ℕ → Pc
  holding : Pc

-- The lock file, whose owner is the process that linked it.
pub record Held : Type 0 where
  pub owner : ℕ
  pub since : ℕ

pub record System : Type 0 where
  pub file : Option Held
  pub pc : ℕ → Pc
  pub now : ℕ

abbrev pub update : (ℕ → Pc) → ℕ → Pc → ℕ → Pc
update f i p j = if i == j then p else f j

abbrev pub as_lock_file : Option Held → Option LockFile
as_lock_file none = none
as_lock_file (some h) = some (record { content = acquired_at h.since; mod_time = h.since })

abbrev pub is_stale : System → Bool
is_stale s = lock_file_is_stale s.now (as_lock_file s.file)

abbrev pub move : System → ℕ → Pc → System
move s i p = record s { pc = update s.pc i p }

pub data Step (s : System) : System → Type 0 where
  begin : (i : ℕ) → s.pc i ≡ idle → Step s (move s i (trying s.now))
  take :
      (i t : ℕ)
      → s.pc i ≡ trying t
      → s.file ≡ none
      → Step s (record (move s i holding) { file = some (record { owner = i; since = t }) })
  refused :
      (i t : ℕ) (h : Held) → s.pc i ≡ trying t → s.file ≡ some h → Step s (move s i (checking t))
  wait : (i t : ℕ) → s.pc i ≡ checking t → is_stale s ≡ false → Step s (move s i (trying t))
  give_up : (i t : ℕ) → s.pc i ≡ checking t → is_stale s ≡ false → Step s (move s i idle)
  see_stale : (i t : ℕ) → s.pc i ≡ checking t → is_stale s ≡ true → Step s (move s i (removing t))
  remove : (i t : ℕ) → s.pc i ≡ removing t → Step s (record (move s i (trying t)) { file = none })
  unlock : (i : ℕ) → s.pc i ≡ holding → Step s (record (move s i idle) { file = none })
  tick : (d : ℕ) → Step s (record s { now = s.now + d })

abbrev pub init : System
init = record { file = none; pc = λ i. idle; now = 0 }

pub data Reach (R : System → System → Type 0) : System → Type 0 where
  start : Reach R init
  later : {s t : System} → Reach R s → R s t → Reach R t
