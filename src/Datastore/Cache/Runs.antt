-- ===== src/Datastore/Cache/Runs.antt =====
-- The operations on a cached repository in sequence, with time that passes between them.
use open_nipper.Prelude.{
  ℕ, ◌+◌, ◌≤◌, ◌≡◌, refl, sym, ◌∙◌, ◌⊎◌, inl, inr, Bool, true, false, Option, none, some, List, [],
  ◌∷◌, arith, Text, Result, ok, err, ltb, if◌then◌else◌, if_true, if_false, Bool-cases, ◌==◌,
  list_eq, nat_eq, list_beq_iff,
}
use open_nipper.Datastore.Backend.{Query, Value, Write, Backend}
use open_nipper.Datastore.TtlCache.{TtlCache, IsLawful}
use open_nipper.Datastore.Cache.{
  Cached, CachedRepository, Invalidation, keep, drop, drop_all, key_of, ttl_of, wrap, invalidation,
  after_miss, after_get, cached_read, invalidate, after_write, cached_write,
}

pub data Op : Type 0 where
  read : Query → Op
  write : Write → Op
  wait : ℕ → Op

module _ (B : Backend) (C : TtlCache Cached) where
  pub record State : Type 0 where
    pub now : ℕ
    pub repo : CachedRepository B C

  unfoldable pub step : State → Op → State
  step s (read q) = record { now = s.now; repo = (cached_read B C s.now s.repo q).0 }
  step s (write w) = record { now = s.now; repo = (cached_write B C s.repo w).0 }
  step s (wait d) = record { now = s.now + d; repo = s.repo }

  abbrev pub start : ℕ → B.Db → State
  start t db = record { now = t; repo = record { inner = db; cache = C.empty } }

  -- The last operation stands first.
  unfoldable pub run : State → List Op → State
  unfolding step
  run s [] = s
  run s (o ∷ os) = step (run s os) o

  -- A key was set by the last operation, a read that missed.
  pub record Stored (s : State) (o : Op) (at : ℕ) (j : Text) (v : Cached) : Type 0 where
    pub query : Query
    pub answer : Value query
    pub was_read : o ≡ read query
    pub is_key : key_of query ≡ j
    pub asked : B.ask s.repo.inner query ≡ ok answer
    pub is_value : v ≡ wrap query answer
    pub in_time : at ≤ s.now + ttl_of query

  module _ (laws : IsLawful C) where
    if_none :
        (b : Bool) (o : Option Cached) (v : Cached) → (if b then none else o) ≡ some v → o ≡ some v
    if_none true o v h = absurd (cc h)
    if_none false o v h = h

    get-invalidate :
        (i : Invalidation) (at : ℕ) (j : Text) (v : Cached) (c : C.Entries)
        → C.get at j (invalidate B C i c) ≡ some v
        → C.get at j c ≡ some v
    unfolding invalidate
    get-invalidate keep at j v c h = h
    get-invalidate drop_all at j v c h = absurd (cc (laws.get-flush at j c, h))
    get-invalidate (drop k) at j v c h = if_none (k == j) _ v (sym (laws.get-delete at j k c) ∙ h)

    get-after_write :
        (w : Write) (at : ℕ) (j : Text) (v : Cached) (c : C.Entries) (r : B.Db × Option Text)
        → C.get at j (after_write B C w c r).0.cache ≡ some v
        → C.get at j c ≡ some v
    unfolding after_write
    get-after_write w at j v c (db, some e) h = h
    get-after_write w at j v c (db, none) h = get-invalidate (invalidation w) at j v c h

    get-after_miss :
        (s : State) (q : Query) (at : ℕ) (j : Text) (v : Cached) (r : Result Text (Value q))
        → B.ask s.repo.inner q ≡ r
        → C.get at j (after_miss B C s.now q s.repo r).0.cache ≡ some v
        → (C.get at j s.repo.cache ≡ some v) ⊎ Stored s (read q) at j v
    unfolding after_miss
    get-after_miss s q at j v (err e) asked h = inl h
    get-after_miss s q at j v (ok x) asked h =
        let found =
          sym (laws.get-set at j s.now (key_of q) (wrap q x) (ttl_of q) s.repo.cache) ∙ h in
        elim (Bool-cases (key_of q == j)) [
          | inr other ↦ inl (sym (if_false _ _ other) ∙ found)
          | inl same ↦
              let kept = sym (if_true _ _ same) ∙ found in
              elim (Bool-cases (ltb (s.now + ttl_of q) at)) [
                | inl late ↦ absurd (cc (sym (if_true _ _ late) ∙ kept))
                | inr early ↦
                    let is = sym (if_false _ _ early) ∙ kept in
                    inr (record {
                      query = q;
                      answer = x;
                      was_read = refl;
                      is_key = (list_beq_iff _ _).0 same;
                      asked = asked;
                      is_value = sym (cc is);
                      in_time = ground (arith, early);
                    })
              ]
        ]

    get-after_get :
        (s : State) (q : Query) (at : ℕ) (j : Text) (v : Cached) (o : Option Cached)
        → C.get at j (after_get B C s.now q s.repo o).0.cache ≡ some v
        → (C.get at j s.repo.cache ≡ some v) ⊎ Stored s (read q) at j v
    unfolding after_get
    get-after_get s q at j v (some x) h = inl h
    get-after_get s q at j v none h = get-after_miss s q at j v _ refl h

    -- What a key holds was there before the last operation, or that operation stored it.
    pub get-step :
        (s : State) (o : Op) (at : ℕ) (j : Text) (v : Cached)
        → C.get at j (step s o).repo.cache ≡ some v
        → (C.get at j s.repo.cache ≡ some v) ⊎ Stored s o at j v
    unfolding step cached_read cached_write
    get-step s (read q) at j v h = get-after_get s q at j v _ h
    get-step s (write w) at j v h = inl (get-after_write w at j v s.repo.cache _ h)
    get-step s (wait d) at j v h = inl h
