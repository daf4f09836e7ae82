-- ===== src/Datastore/Cache/Recent.antt =====
-- How old the answers of the cached reads may be.
use open_nipper.Prelude.{
  ℕ, ◌+◌, ◌≤◌, ◌≡◌, ◌≢◌, refl, sym, ap, ◌∙◌, inl, inr, true, Option, none, some, List, [], ◌∷◌,
  ◌++◌, arith, Text, Result, ok, err, All,
}
use mathlib.Core.Path.{subst}
use open_nipper.Datastore.Backend.{Query, Value, Backend}
use open_nipper.Datastore.TtlCache.{TtlCache, IsLawful}
use open_nipper.Datastore.Cache.{
  Cached, CachedRepository, key_of, ttl_of, wrap, unwrap, asserted, after_miss, after_get,
  cached_read,
}
use open_nipper.Datastore.Cache.Keys.{
  kind_of, key_parts, fits, fits-wrap, unwrap-fits, unwrap-wrap, IsPlain, key_of_injective,
}
use open_nipper.Datastore.Cache.Runs.{Op, read, write, wait, start, run, get-step}

-- The reads among the operations are of plain queries.
abbrev pub IsPlainOp : Op → Type 0
IsPlainOp (read q) = IsPlain q
IsPlainOp (write w) = Unit
IsPlainOp (wait d) = Unit

module _ (B : Backend) (C : TtlCache Cached) where
  asserted-some : (q : Query) (o : Option (Value q)) → o ≢ none → asserted B C q o ≢ none
  unfolding asserted
  asserted-some q none h e = h refl
  asserted-some q (some x) h e = absurd (cc e)

  module _ (laws : IsLawful C) (t : ℕ) (db : B.Db) where
    -- What a key holds has the type that the reads of the key assert.
    cache-fits :
        (ops : List Op) (q : Query) (at : ℕ) (v : Cached)
        → C.get at (key_of q) (run B C (start B C t db) ops).repo.cache ≡ some v
        → fits (kind_of q) v ≡ true
    unfolding run
    cache-fits [] q at v h = absurd (cc (h, laws.get-empty at (key_of q)))
    cache-fits (o ∷ ops) q at v h =
        elim (get-step B C laws (run B C (start B C t db) ops) o at (key_of q) v h) [
          | inl before ↦ cache-fits ops q at v before
          | inr stored ↦
              ap (λ u. fits (kind_of q) u) stored.is_value
              ∙ ap (λ k. fits k (wrap stored.query stored.answer))
                  (sym (key_parts stored.query q stored.is_key).0)
              ∙ fits-wrap stored.query stored.answer
        ]

    typed_get :
        (r : CachedRepository B C) (now : ℕ) (q : Query) (o : Option Cached)
        → ((v : Cached) → o ≡ some v → fits (kind_of q) v ≡ true)
        → (after_get B C now q r o).1 ≢ none
    unfolding after_get after_miss
    typed_get r now q (some v) h = asserted-some q (unwrap q v) (unwrap-fits q v (h v refl))
    typed_get r now q none h = typed_miss (B.ask r.inner q)
      where
        typed_miss : (a : Result Text (Value q)) → (after_miss B C now q r a).1 ≢ none
        typed_miss (ok x) e = absurd (cc e)
        typed_miss (err m) e = absurd (cc e)

    -- No type assertion of a cached read fails, whatever was read and written before it, where the
    -- cache keeps what was set.
    pub reads-typed :
        (ops : List Op) (now : ℕ) (q : Query)
        → (cached_read B C now (run B C (start B C t db) ops).repo q).1 ≢ none
    unfolding cached_read
    reads-typed ops now q =
        typed_get (run B C (start B C t db) ops).repo now q _ (λ v. cache-fits ops q now v)

    -- The database answered so in a state that the run passed through no longer than the time to live
    -- before.
    pub record AnsweredBefore (ops : List Op) (now : ℕ) (q : Query) (x : Value q) : Type 0 where
      pub earlier : List Op
      pub later : List Op
      pub splits : ops ≡ later ++ earlier
      pub in_time : now ≤ (run B C (start B C t db) earlier).now + ttl_of q
      pub answered : B.ask (run B C (start B C t db) earlier).repo.inner q ≡ ok x

    push_op :
        {o : Op} {ops : List Op} {now : ℕ} {q : Query} {x : Value q}
        → AnsweredBefore ops now q x
        → AnsweredBefore (o ∷ ops) now q x
    push_op {o} b = record {
      earlier = b.earlier;
      later = o ∷ b.later;
      splits = ap (λ l. o ∷ l) b.splits;
      in_time = b.in_time;
      answered = b.answered;
    }

    cache-recent :
        (ops : List Op) (q : Query) (at : ℕ) (v : Cached)
        → All IsPlainOp ops
        → IsPlain q
        → C.get at (key_of q) (run B C (start B C t db) ops).repo.cache ≡ some v
        → (x : Value q) × (v ≡ wrap q x) × AnsweredBefore ops at q x
    unfolding run
    cache-recent [] q at v plain hq h = absurd (cc (h, laws.get-empty at (key_of q)))
    cache-recent (o ∷ ops) q at v plain hq h =
        elim (get-step B C laws (run B C (start B C t db) ops) o at (key_of q) v h) [
          | inl before ↦
              let (x, is, b) = cache-recent ops q at v plain.1 hq before in (x, is, push_op b)
          | inr stored ↦
              let same =
                key_of_injective stored.query q (subst IsPlainOp stored.was_read plain.0) hq
                  stored.is_key in
              subst (λ p. (x : Value p) × (v ≡ wrap p x) × AnsweredBefore (o ∷ ops) at p x) same
                (
                  stored.answer,
                  stored.is_value,
                  record {
                    earlier = ops;
                    later = o ∷ [];
                    splits = refl;
                    in_time = stored.in_time;
                    answered = stored.asked;
                  },
                )
        ]

    recent_get :
        (ops : List Op) (now : ℕ) (q : Query) (x : Value q) (o : Option Cached)
        → ((v : Cached) → o ≡ some v → (y : Value q) × (v ≡ wrap q y) × AnsweredBefore ops now q y)
        → (run B C (start B C t db) ops).now ≡ now
        → (after_get B C now q (run B C (start B C t db) ops).repo o).1 ≡ some (ok x)
        → AnsweredBefore ops now q x
    unfolding after_get after_miss
    recent_get ops now q x (some v) h here e =
        let (y, is, b) = h v refl in
        let found : some (ok y) ≡ some (ok x) =
          sym (ap (asserted B C q) (ap (unwrap q) is ∙ unwrap-wrap q y)) ∙ e in
        subst (λ z. AnsweredBefore ops now q z) (cc found) b
    recent_get ops now q x none h here e = recent_miss _ refl e
      where
        recent_miss :
            (a : Result Text (Value q))
            → B.ask (run B C (start B C t db) ops).repo.inner q ≡ a
            → (after_miss B C now q (run B C (start B C t db) ops).repo a).1 ≡ some (ok x)
            → AnsweredBefore ops now q x
        recent_miss (err m) asked e = absurd (cc e)
        recent_miss (ok y) asked e = record {
          earlier = ops;
          later = [];
          splits = refl;
          in_time = omega arith;
          answered = cc (asked, e);
        }

    -- What a cached read answers is what the database answered to it in a state of the run that is no
    -- older than its time to live, 300 seconds for a policy and 60 seconds for the rest, whatever was
    -- written since, where the first parts of the queries have no colon and the cache keeps what was
    -- set.
    pub reads_recent :
        (ops : List Op) (q : Query) (x : Value q)
        → All IsPlainOp ops
        → IsPlain q
        → (cached_read B C
            (run B C (start B C t db) ops).now
            (run B C (start B C t db) ops).repo
            q).1
          ≡ some (ok x)
        → AnsweredBefore ops (run B C (start B C t db) ops).now q x
    unfolding cached_read
    reads_recent ops q x plain hq e =
        recent_get ops (run B C (start B C t db) ops).now q x _
          (λ v h. cache-recent ops q _ v plain hq h) refl e
