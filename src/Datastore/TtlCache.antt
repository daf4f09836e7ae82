-- ===== src/Datastore/TtlCache.antt =====
-- The cache of github.com/patrickmn/go-cache, as far as the repository uses it, and what it documents.
pub mod Memory
use open_nipper.Prelude.{
  ℕ, ◌+◌, ◌≤◌, ◌≡◌, Option, none, some, Text, ltb, if◌then◌else◌, list_eq, nat_eq, ◌==◌,
}

pub record TtlCache (V : Type 0) : Type 1 where
  pub Entries : Type 0
  pub empty : Entries
  -- at a time
  pub get : ℕ → Text → Entries → Option V
  -- at a time, with a time to live
  pub set : ℕ → Text → V → ℕ → Entries → Entries
  pub delete : Text → Entries → Entries
  pub flush : Entries → Entries

-- Get finds what was set last and is not expired, deleted or flushed since.
pub record IsLawful {V : Type 0} (C : TtlCache V) : Type 0 where
  pub get-empty : (now : ℕ) (k : Text) → C.get now k C.empty ≡ none
  pub get-set :
      (now : ℕ) (j : Text) (t : ℕ) (k : Text) (v : V) (ttl : ℕ) (c : C.Entries)
      → C.get now j (C.set t k v ttl c)
        ≡ (if k == j then (if ltb (t + ttl) now then none else some v) else C.get now j c)
  pub get-delete :
      (now : ℕ) (j k : Text) (c : C.Entries)
      → C.get now j (C.delete k c) ≡ (if k == j then none else C.get now j c)
  pub get-flush : (now : ℕ) (k : Text) (c : C.Entries) → C.get now k (C.flush c) ≡ none
