-- ===== src/Session/Store/Listing.antt =====
-- The index after a session was changed.
use open_nipper.Prelude.{
  ◌≡◌, ◌<◌, ◌+◌, refl, ap, ◌∙◌, Option, none, some, List, [], ◌∷◌, Text, Result, ok, err, arith,
  if◌then◌else◌, Bool-cases, inl, inr, list_eq, nat_eq, ◌==◌, if_true, lt→ltb, list_beq_iff,
}
use open_nipper.Session.Types.{Session}
use open_nipper.Session.Store.Disk.{
  IndexEntry, SessionIndex, index_of, UserStore, StoreError, Env, write_index,
}
use open_nipper.Session.Store.Index.{
  put_entry, session_to_index_entry, changed_index, store_index, upsert_index, with_cache,
  load_index, from_cache, refresh_index_cache, index_cache_ttl,
}

-- The first entry of a session.
unfoldable pub find_entry : Text → List IndexEntry → Option IndexEntry
find_entry id [] = none
find_entry id (x ∷ xs) = let rest = find_entry id xs in if x.session_id == id then some x else rest

pub find-put_entry :
    (e : IndexEntry) (id : Text) (xs : List IndexEntry)
    → find_entry id (put_entry e xs) ≡ (if e.session_id == id then some e else find_entry id xs)
unfolding find_entry put_entry
find-put_entry e id [] = refl
find-put_entry e id (x ∷ xs) = ground (
  arith,
  list_beq_iff x.session_id e.session_id,
  list_beq_iff x.session_id id,
  list_beq_iff e.session_id id,
  find-put_entry e id xs,
)

stored_listing :
    (env : Env) (user : Text) (sess : Session) (r : UserStore × Result StoreError SessionIndex)
    → (store_index env user sess r).1 ≡ none
    → (idx : SessionIndex) × (r.1 ≡ ok idx)
      × ((store_index env user sess r).0.index ≡ some (index_of (changed_index env user sess idx)))
      × ((store_index env user sess r).0.cached
          ≡ some (record {
            index = changed_index env user sess idx;
            expires_at = env.now + index_cache_ttl;
          }))
unfolding store_index with_cache
stored_listing env user sess (us, err e) = λ h. absurd (cc h)
stored_listing env user sess (us, ok idx) = elim (Bool-cases (env.fails write_index)) [
  | inl w ↦ rw w (λ h. absurd (cc h))
  | inr w ↦ rw w (λ h. (idx, refl, refl, refl))
]

load_cached :
    (env reader : Env) (user : Text) (us : UserStore) (idx : SessionIndex)
    → us.cached ≡ some (record { index = idx; expires_at = env.now + index_cache_ttl })
    → reader.now < env.now + index_cache_ttl
    → (load_index reader user us).1 ≡ ok idx
unfolding load_index from_cache
load_cached env reader user us idx cached early =
    ap (λ c. (from_cache reader user us c).1) cached
    ∙ ap (λ (p : UserStore × Result StoreError SessionIndex). p.1) (if_true _ _ (lt→ltb _ _ early))

-- For 45 seconds after a session was put in the index, the index that is listed has the session as it
-- was put there, and every other session as the index had it before.
pub listed_after_upsert :
    (env reader : Env) (user id : Text) (sess : Session) (us : UserStore)
    → (upsert_index env user sess us).1 ≡ none
    → reader.now < env.now + index_cache_ttl
    → (before after : SessionIndex) × ((refresh_index_cache env user
          (record us { cached = none })).1
        ≡ ok before)
      × ((load_index reader user (upsert_index env user sess us).0).1 ≡ ok after)
      × (find_entry id after.sessions ≡ (
          if sess.id == id
          then some (session_to_index_entry sess)
          else find_entry id before.sessions))
unfolding upsert_index changed_index session_to_index_entry
listed_after_upsert env reader user id sess us done early =
    let (idx, read, file, cached) =
      stored_listing env user sess (refresh_index_cache env user (record us { cached = none }))
        done in
    (
      idx,
      changed_index env user sess idx,
      read,
      load_cached env reader user (upsert_index env user sess us).0
          (changed_index env user sess idx) cached early,
      find-put_entry (session_to_index_entry sess) id idx.sessions,
    )
