-- ===== src/Datastore/TtlCache/Memory.antt =====
-- A cache that meets the laws: an association list of values with their expiry times.
use open_nipper.Prelude.{
  false, true, Bool, ℕ, ◌+◌, ◌≡◌, refl, ap, ◌∙◌, Option, none, some, [], Text, ltb, if◌then◌else◌,
  Dict, list_eq, nat_eq, ◌==◌,
}
use open_nipper.Prelude.GoMap.{lookup, insert, remove, lookup-insert, lookup-remove}
use open_nipper.Datastore.TtlCache.{TtlCache, IsLawful}

abbrev pub unexpired : {V : Type 0} → ℕ → Option (V × ℕ) → Option V
unexpired now none = none
unexpired now (some (v, expires)) = if ltb expires now then none else some v

abbrev pub memory : (V : Type 0) → TtlCache V
memory V = record {
  Entries = Dict Text (V × ℕ);
  empty = [];
  get = λ now k c. unexpired now (lookup k c);
  set = λ t k v ttl c. insert k (v, t + ttl) c;
  delete = remove;
  flush = λ c. [];
}

unexpired-if :
    {V : Type 0} (now : ℕ) (b : Bool) (x y : Option (V × ℕ))
    → unexpired now (if b then x else y) ≡ (if b then unexpired now x else unexpired now y)
unexpired-if now true x y = refl
unexpired-if now false x y = refl

pub memory-IsLawful : (V : Type 0) → IsLawful (memory V)
unfolding lookup
memory-IsLawful V = record {
  get-empty = λ now k. refl;
  get-set = λ now j t k v ttl c.
      ap (unexpired now) (lookup-insert k j (v, t + ttl) c)
      ∙ unexpired-if now (k == j) (some (v, t + ttl)) (lookup j c);
  get-delete = λ now j k c.
      ap (unexpired now) (lookup-remove k j c) ∙ unexpired-if now (k == j) none (lookup j c);
  get-flush = λ now k c. refl;
}
