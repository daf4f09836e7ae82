-- ===== src/Datastore/Cache/Wildcard.antt =====
-- The wildcard entry of a user's allowlist, and the answers that the cache keeps of it.
use open_nipper.Prelude.{
  ℕ, ◌≡◌, ◌≢◌, refl, ap, ◌∙◌, inl, inr, Bool, false, Option, none, some, Text, ok, ◌==◌, list_eq,
  nat_eq, list_beq_iff, Bool-cases, if_false,
}
use open_nipper.Allowlist.{wildcard}
use open_nipper.Datastore.Backend.{allowed, set_allowed, Backend}
use open_nipper.Datastore.TtlCache.{TtlCache, IsLawful}
use open_nipper.Datastore.Cache.{
  Cached, a_flag, CachedRepository, allowed_key, key_of, unwrap, asserted, after_get, after_write,
  cached_read, cached_write, invalidation, invalidate,
}
use open_nipper.Datastore.Cache.Keys.{IsPlain, key_of_injective}

other_key :
    (user ct : Text)
    → IsPlain (allowed user ct)
    → ct ≢ wildcard
    → (key_of (allowed user wildcard) == key_of (allowed user ct)) ≡ false
other_key user ct plain narrow =
    elim (Bool-cases (key_of (allowed user wildcard) == key_of (allowed user ct))) [
      | inl same ↦
          let keys =
            (list_beq_iff (key_of (allowed user wildcard)) (key_of (allowed user ct))).0 same in
          absurd (
            narrow
              (cc (key_of_injective (allowed user wildcard) (allowed user ct) plain plain keys)))
      | inr other ↦ other
    ]

module _ (B : Backend) (C : TtlCache Cached) (laws : IsLawful C) where
  get-after_wildcard :
      (now : ℕ) (c : C.Entries) (user ct by : Text) (on : Bool) (d : B.Db × Option Text)
      → IsPlain (allowed user ct)
      → ct ≢ wildcard
      → C.get now
          (key_of (allowed user ct))
          (after_write B C (set_allowed user wildcard on by) c d).0.cache
        ≡ C.get now (key_of (allowed user ct)) c
  unfolding after_write invalidation invalidate key_of
  get-after_wildcard now c user ct by on (db, some e) plain narrow = refl
  get-after_wildcard now c user ct by on (db, none) plain narrow =
      laws.get-delete now (key_of (allowed user ct)) (allowed_key user wildcard) c
      ∙ if_false _ _ (other_key user ct plain narrow)

  -- While the cache holds whether a user may use a channel type, other than the wildcard, the cached
  -- read still gives that answer after SetAllowed of the user's wildcard entry, whatever was set and
  -- whatever the database now answers, where the user has no colon and the cache keeps what was set.
  pub wildcard_stale :
      (now : ℕ) (r : CachedRepository B C) (user ct by : Text) (on known : Bool)
      → IsPlain (allowed user ct)
      → ct ≢ wildcard
      → C.get now (key_of (allowed user ct)) r.cache ≡ some (a_flag known)
      → (cached_read B C now
          (cached_write B C r (set_allowed user wildcard on by)).0
          (allowed user ct)).1
        ≡ some (ok known)
  unfolding cached_read cached_write after_get asserted unwrap
  wildcard_stale now r user ct by on known plain narrow found =
      let w = set_allowed user wildcard on by in
      let held =
        get-after_wildcard now r.cache user ct by on (B.write r.inner w) plain narrow ∙ found in
      ap (λ o. (after_get B C now (allowed user ct) (cached_write B C r w).0 o).1) held
