-- ===== src/Datastore/Cache/Coherent.antt =====
-- When the cached reads answer as the database does.
use open_nipper.Prelude.{
  ℕ, ◌≡◌, refl, sym, ap, ◌∙◌, inl, inr, Bool, true, false, Option, none, some, List, [], ◌∷◌, arith,
  Text, Result, ok, err, All, not, ◌==◌, list_eq, nat_eq, list_beq_iff, beq_refl, Bool-cases,
  if_true,
}
use mathlib.Core.Path.{subst}
use open_nipper.Datastore.Backend.{
  Query, identity, allowed, user_enabled, policy, agent_token, Value, Write, add_identity,
  remove_identity, set_allowed, remove_allowed, create_user, update_user, delete_user,
  set_user_policy, delete_user_policy, provision_agent, rotate_agent_token, update_agent_status,
  set_agent_rmq_username, revoke_agent, delete_agent, Backend, IsFramed, touches, is_identity,
  is_allowed, is_enabled_of, is_policy,
}
use open_nipper.Allowlist.{wildcard}
use open_nipper.Datastore.TtlCache.{TtlCache, IsLawful}
use open_nipper.Datastore.Cache.{
  Cached, CachedRepository, Invalidation, keep, drop, drop_all, key_of, identity_key, wrap, unwrap,
  asserted, after_miss, after_get, after_write, cached_read, cached_write, invalidation, invalidate,
}
use open_nipper.Datastore.Cache.Keys.{unwrap-wrap, IsPlain, key_of_injective}
use open_nipper.Datastore.Cache.Runs.{Op, read, write, wait, State, step, start, run, get-step}

-- The writes that leave nothing behind: not those that remove an identity or a user, create a user or
-- an agent, name an agent's broker user, or set or remove the wildcard entry of a user.
unfoldable pub is_covered : Write → Bool
is_covered (remove_identity id) = false
is_covered (create_user req) = false
is_covered (delete_user user) = false
is_covered (provision_agent req) = false
is_covered (set_agent_rmq_username id name) = false
is_covered (set_allowed user ct on by) = not (ct == wildcard)
is_covered (remove_allowed user ct) = not (ct == wildcard)
is_covered _ = true

abbrev pub IsCoveredOp : Op → Type 0
IsCoveredOp (read q) = IsPlain q
IsCoveredOp (write w) = is_covered w ≡ true
IsCoveredOp (wait d) = Unit

identity_found : (ct id : Text) (q : Query) → is_identity ct id q ≡ true → q ≡ identity ct id
unfolding is_identity
identity_found ct id (identity c i) h = ground (arith, list_beq_iff ct c, list_beq_iff id i)
identity_found ct id (allowed user c) h = absurd (cc h)
identity_found ct id (user_enabled user) h = absurd (cc h)
identity_found ct id (policy user kind) h = absurd (cc h)
identity_found ct id (agent_token hash) h = absurd (cc h)

allowed_found :
    (user ct : Text) (q : Query)
    → not (ct == wildcard) ≡ true
    → is_allowed user ct q ≡ true
    → q ≡ allowed user ct
unfolding is_allowed
allowed_found user ct (allowed u c) narrow h =
    ground (arith, list_beq_iff user u, list_beq_iff ct c)
allowed_found user ct (identity c i) narrow h = absurd (cc h)
allowed_found user ct (user_enabled u) narrow h = absurd (cc h)
allowed_found user ct (policy u kind) narrow h = absurd (cc h)
allowed_found user ct (agent_token hash) narrow h = absurd (cc h)

enabled_found : (user : Text) (q : Query) → is_enabled_of user q ≡ true → q ≡ user_enabled user
unfolding is_enabled_of
enabled_found user (user_enabled u) h = ground (arith, list_beq_iff user u)
enabled_found user (identity c i) h = absurd (cc h)
enabled_found user (allowed u c) h = absurd (cc h)
enabled_found user (policy u kind) h = absurd (cc h)
enabled_found user (agent_token hash) h = absurd (cc h)

policy_found : (user kind : Text) (q : Query) → is_policy user kind q ≡ true → q ≡ policy user kind
unfolding is_policy
policy_found user kind (policy u k) h = ground (arith, list_beq_iff user u, list_beq_iff kind k)
policy_found user kind (identity c i) h = absurd (cc h)
policy_found user kind (allowed u c) h = absurd (cc h)
policy_found user kind (user_enabled u) h = absurd (cc h)
policy_found user kind (agent_token hash) h = absurd (cc h)

is_dropped : Invalidation → Text → Bool
is_dropped keep j = false
is_dropped drop_all j = true
is_dropped (drop k) j = k == j

dropped :
    (p q : Query) (i : Invalidation) → i ≡ drop (key_of p) → q ≡ p → is_dropped i (key_of q) ≡ true
unfolding is_dropped
dropped p q i is same =
    subst (λ u. is_dropped u (key_of q) ≡ true) (sym is)
      (subst (λ u. (key_of p == key_of u) ≡ true) (sym same) (beq_refl (key_of p)))

-- A covered write drops the key of every answer that it may change.
touched-dropped :
    (w : Write) (q : Query)
    → is_covered w ≡ true
    → touches w q ≡ true
    → is_dropped (invalidation w) (key_of q) ≡ true
unfolding touches is_covered invalidation is_dropped identity_key key_of
touched-dropped (add_identity user ct id) q h t =
    dropped (identity ct id) q _ refl (identity_found ct id q t)
touched-dropped (remove_identity id) q h t = absurd (cc h)
touched-dropped (set_allowed user ct on by) q h t =
    dropped (allowed user ct) q _ refl (allowed_found user ct q h t)
touched-dropped (remove_allowed user ct) q h t =
    dropped (allowed user ct) q _ refl (allowed_found user ct q h t)
touched-dropped (create_user req) q h t = absurd (cc h)
touched-dropped (update_user user req) q h t =
    dropped (user_enabled user) q _ refl (enabled_found user q t)
touched-dropped (delete_user user) q h t = absurd (cc h)
touched-dropped (set_user_policy user kind p) q h t =
    dropped (policy user kind) q _ refl (policy_found user kind q t)
touched-dropped (delete_user_policy user kind) q h t =
    dropped (policy user kind) q _ refl (policy_found user kind q t)
touched-dropped (provision_agent req) q h t = absurd (cc h)
touched-dropped (rotate_agent_token id hash prefix) q h t = refl
touched-dropped (update_agent_status id status meta) q h t = refl
touched-dropped (set_agent_rmq_username id name) q h t = absurd (cc h)
touched-dropped (revoke_agent id) q h t = refl
touched-dropped (delete_agent id) q h t = refl

module _ (B : Backend) (C : TtlCache Cached) (framed : IsFramed B) (laws : IsLawful C) where
  get-dropped :
      (i : Invalidation) (at : ℕ) (j : Text) (c : C.Entries)
      → is_dropped i j ≡ true
      → C.get at j (invalidate B C i c) ≡ none
  unfolding invalidate is_dropped
  get-dropped keep at j c h = absurd (cc h)
  get-dropped drop_all at j c h = laws.get-flush at j c
  get-dropped (drop k) at j c h = laws.get-delete at j k c ∙ if_true _ _ h

  -- What the cache holds of a query is what the database answers.
  record Agrees (r : CachedRepository B C) (q : Query) (v : Cached) : Type 0 where
    answer : Value q
    is_value : v ≡ wrap q answer
    asked : B.ask r.inner q ≡ ok answer

  -- It still agrees after an operation that leaves the answer as it was.
  unchanged :
      (r r' : CachedRepository B C) (q : Query) (v : Cached)
      → B.ask r'.inner q ≡ B.ask r.inner q
      → Agrees r q v
      → Agrees r' q v
  unchanged r r' q v same a = record {
    answer = a.answer;
    is_value = a.is_value;
    asked = same ∙ a.asked;
  }

  write-Agrees :
      (r : CachedRepository B C) (w : Write) (q : Query) (at : ℕ) (v : Cached)
      (d : B.Db × Option Text)
      → B.write r.inner w ≡ d
      → is_covered w ≡ true
      → (C.get at (key_of q) r.cache ≡ some v → Agrees r q v)
      → C.get at (key_of q) (after_write B C w r.cache d).0.cache ≡ some v
      → Agrees r q v
      → Agrees (after_write B C w r.cache d).0 q v
  unfolding after_write
  write-Agrees r w q at v (db, some e) written h before found a =
      unchanged r _ q v
        (subst (λ d. B.ask d.0 q ≡ B.ask r.inner q) written
          (framed.failed r.inner w e q (ap (λ d. d.1) written)))
        a
  write-Agrees r w q at v (db, none) written h before found a = elim (Bool-cases (touches w q)) [
    | inl touched ↦ absurd (
        cc (
          get-dropped (invalidation w) at (key_of q) r.cache (touched-dropped w q h touched),
          found,
        ))
    | inr apart ↦
        unchanged r _ q v
          (subst (λ d. B.ask d.0 q ≡ B.ask r.inner q) written (framed.untouched r.inner w q apart))
          a
  ]

  inner-after_get :
      (now : ℕ) (p : Query) (r : CachedRepository B C) (o : Option Cached)
      → (after_get B C now p r o).0.inner ≡ r.inner
  unfolding after_get after_miss
  inner-after_get now p r (some v) = refl
  inner-after_get now p r none = after_ask (B.ask r.inner p)
    where
      after_ask : (a : Result Text (Value p)) → (after_miss B C now p r a).0.inner ≡ r.inner
      after_ask (ok x) = refl
      after_ask (err e) = refl

  read_frame : (s : State B C) (p : Query) → (step B C s (read p)).repo.inner ≡ s.repo.inner
  unfolding step cached_read
  read_frame s p = inner-after_get s.now p s.repo _

  step-Agrees :
      (s : State B C) (o : Op) (q : Query) (at : ℕ) (v : Cached)
      → IsCoveredOp o
      → C.get at (key_of q) (step B C s o).repo.cache ≡ some v
      → Agrees s.repo q v
      → Agrees (step B C s o).repo q v
  unfolding step cached_write
  step-Agrees s (read p) q at v h found a =
      unchanged s.repo _ q v (ap (λ d. B.ask d q) (read_frame s p)) a
  step-Agrees s (write w) q at v h found a = write-Agrees s.repo w q at v _ refl h (λ _. a) found a
  step-Agrees s (wait d) q at v h found a = a

  module _ (t : ℕ) (db : B.Db) where
    cache-Agrees :
        (ops : List Op) (q : Query) (at : ℕ) (v : Cached)
        → All IsCoveredOp ops
        → IsPlain q
        → C.get at (key_of q) (run B C (start B C t db) ops).repo.cache ≡ some v
        → Agrees (run B C (start B C t db) ops).repo q v
    unfolding run
    cache-Agrees [] q at v plain hq h = absurd (cc (h, laws.get-empty at (key_of q)))
    cache-Agrees (o ∷ ops) q at v plain hq h =
        let s = run B C (start B C t db) ops in
        elim (get-step B C laws s o at (key_of q) v h) [
          | inl before ↦
              step-Agrees s o q at v plain.0 h (cache-Agrees ops q at v plain.1 hq before)
          | inr stored ↦
              let same =
                key_of_injective stored.query q (subst IsCoveredOp stored.was_read plain.0) hq
                  stored.is_key in
              subst (λ p. Agrees (step B C s o).repo p v) same
                (record {
                  answer = stored.answer;
                  is_value = stored.is_value;
                  asked =
                      subst (λ p. B.ask (step B C s p).repo.inner stored.query ≡ ok stored.answer)
                        (sym stored.was_read)
                        (ap (λ d. B.ask d stored.query) (read_frame s stored.query) ∙ stored.asked);
                })
        ]

    agreeing_get :
        (r : CachedRepository B C) (now : ℕ) (q : Query) (o : Option Cached)
        → ((v : Cached) → o ≡ some v → Agrees r q v)
        → (after_get B C now q r o).1 ≡ some (B.ask r.inner q)
    unfolding after_get after_miss
    agreeing_get r now q (some v) h =
        let a = h v refl in
        ap (asserted B C q) (ap (unwrap q) a.is_value ∙ unwrap-wrap q a.answer)
        ∙ ap some (sym a.asked)
    agreeing_get r now q none h = as_asked (B.ask r.inner q)
      where
        as_asked : (a : Result Text (Value q)) → (after_miss B C now q r a).1 ≡ some a
        as_asked (ok x) = refl
        as_asked (err e) = refl

    -- A cached read answers exactly as the database does, errors included, where the writes before it
    -- were not those that remove an identity or a user, create a user or an agent, set an agent's
    -- broker user, or set or remove the wildcard entry of a user, the first parts of the queries have no colon, a write of the database that fails
    -- changes no answer and one that succeeds only those it touches, and the cache keeps what was set.
    pub reads_coherent :
        (ops : List Op) (now : ℕ) (q : Query)
        → All IsCoveredOp ops
        → IsPlain q
        → (cached_read B C now (run B C (start B C t db) ops).repo q).1
          ≡ some (B.ask (run B C (start B C t db) ops).repo.inner q)
    unfolding cached_read
    reads_coherent ops now q plain hq =
        agreeing_get (run B C (start B C t db) ops).repo now q _
          (λ v h. cache-Agrees ops q now v plain hq h)
