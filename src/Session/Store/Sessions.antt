-- ===== src/Session/Store/Sessions.antt =====
-- Creating a session, and what is read of it.
use open_nipper.Prelude.{
  ◌≡◌, sym, ap, ◌∙◌, true, false, Option, none, some, Text, ok, if◌then◌else◌, Bool-cases, inl, inr,
  list_eq, nat_eq, is_empty,
}
use open_nipper.Prelude.GoMap.{lookup, insert, lookup-insert_self}
use open_nipper.Strings.Search.{IsColonFree}
use open_nipper.Session.Key.{parsed, parse_session_key}
use open_nipper.Session.Key.Parse.{parse-build}
use open_nipper.Session.Types.{Session, CreateSessionRequest}
use open_nipper.Session.Store.Disk.{
  meta_of, UserStore, Store, StoreError, Env, write_meta, create_transcript, make_dir,
  make_archive_dir, read_meta,
}
use open_nipper.Session.Store.Index.{upsert_index}
use open_nipper.Session.Store.Frame.{files_of, files-upsert_index}
use open_nipper.Session.Store.{
  user_store, new_session, after_index, create_files, create_for_user, create_session, decoded,
  read_session, get_session, or_empty, or_nothing,
}

-- What a creation that succeeded left, and that it returned the session.
record Created (sess new : Session) (us us' : UserStore) : Type 0 where
  returned : sess ≡ new
  meta_there : lookup new.id us'.metas ≡ some (meta_of new)
  lines_there : lookup new.id us'.transcripts ≡ some (or_empty (lookup new.id us.transcripts))

Created-after_index :
    (new : Session) (us us2 : UserStore) (r : UserStore × Option StoreError) (sess : Session)
    → files_of r.0 ≡ files_of us2
    → lookup new.id us2.metas ≡ some (meta_of new)
    → lookup new.id us2.transcripts ≡ some (or_empty (lookup new.id us.transcripts))
    → (after_index new r).1 ≡ ok sess
    → Created sess new us (after_index new r).0
unfolding after_index
Created-after_index new us us2 (us3, some e) sess same meta lines done = absurd (cc done)
Created-after_index new us us2 (us3, none) sess same meta lines done = record {
  returned = cc done;
  meta_there = ap (λ f. lookup new.id f.1) same ∙ meta;
  lines_there = ap (λ f. lookup new.id f.2) same ∙ lines;
}

Created-create_files :
    (env : Env) (new : Session) (us : UserStore) (sess : Session)
    → (create_files env new us).1 ≡ ok sess
    → Created sess new us (create_files env new us).0
unfolding create_files
Created-create_files env new us sess = elim (Bool-cases (env.fails write_meta)) [
  | inl w ↦ rw w (λ h. absurd (cc h))
  | inr w ↦ elim (Bool-cases (env.fails create_transcript)) [
    | inl c ↦ rw (w, c) (λ h. absurd (cc h))
    | inr c ↦
        rw (w, c)
          (Created-after_index new us
            (record us {
              metas = insert new.id (meta_of new) us.metas;
              transcripts = insert new.id (or_empty (lookup new.id us.transcripts)) us.transcripts;
            })
            (upsert_index env new.user_id new _) sess (files-upsert_index env new.user_id new _)
            (lookup-insert_self new.id (meta_of new) us.metas)
            (lookup-insert_self new.id (or_empty (lookup new.id us.transcripts)) us.transcripts))
  ]
]

-- The id of a request's session.
abbrev pub id_of : Env → CreateSessionRequest → Text
id_of env req = if is_empty req.session_id then env.fresh_id else req.session_id

Created-create_for_user :
    (env : Env) (req : CreateSessionRequest) (us : UserStore) (sess : Session)
    → (create_for_user env req us).1 ≡ ok sess
    → Created sess (new_session env req (id_of env req)) us (create_for_user env req us).0
unfolding create_for_user
Created-create_for_user env req us sess = elim (Bool-cases (env.fails make_dir)) [
  | inl d ↦ rw d (λ h. absurd (cc h))
  | inr d ↦ elim (Bool-cases (env.fails make_archive_dir)) [
    | inl a ↦ rw (d, a) (λ h. absurd (cc h))
    | inr a ↦
        rw (d, a)
          (λ h.
            let made =
              Created-create_files env (new_session env req (id_of env req))
                (record us { made = true }) sess h in
            record {
              returned = made.returned;
              meta_there = made.meta_there;
              lines_there = made.lines_there;
            })
  ]
]

get_made :
    (reader : Env) (key user ct id : Text) (us : UserStore) (st : Store) (sess : Session)
    → parse_session_key key ≡ parsed user ct id
    → reader.fails read_meta ≡ false
    → lookup id us.metas ≡ some (meta_of sess)
    → (get_session reader key (insert user us st)).1 ≡ ok sess
unfolding get_session read_session user_store decoded
get_made reader key user ct id us st sess named reads there =
    rw named (rw (lookup-insert_self user us st) (rw reads (ap decoded there)))

lookup-user_store :
    (user id : Text) (us : UserStore) (st : Store)
    → lookup id (user_store user (insert user us st)).transcripts ≡ lookup id us.transcripts
unfolding user_store
lookup-user_store user id us st =
    ap (λ o. lookup id (or_nothing o).transcripts) (lookup-insert_self user us st)

-- What a creation that succeeded returns is what is read back with its key, where the user and the
-- channel type have no colon, no part of the key is empty, and the meta file can be read. The
-- transcript is empty, or the one that the session id had.
pub create_then_get :
    (env reader : Env) (req : CreateSessionRequest) (sess : Session) (st : Store)
    → IsColonFree req.user_id
    → IsColonFree req.channel_type
    → is_empty req.user_id ≡ false
    → is_empty req.channel_type ≡ false
    → is_empty (id_of env req) ≡ false
    → reader.fails read_meta ≡ false
    → (create_session env req st).1 ≡ ok sess
    → ((get_session reader sess.key (create_session env req st).0).1 ≡ ok sess)
      × (lookup sess.id (user_store req.user_id (create_session env req st).0).transcripts
          ≡ some (or_empty (lookup sess.id (user_store req.user_id st).transcripts)))
unfolding create_session new_session
create_then_get env reader req sess st hu hc eu ec ei reads = rw eu (λ done.
    let new = new_session env req (id_of env req) in
    let us = user_store req.user_id st in
    let us' = (create_for_user env req us).0 in
    let made = Created-create_for_user env req us sess done in
    let named = parse-build req.user_id req.channel_type (id_of env req) hu hc eu ec ei in
    let same = made.returned in
    (
      ap (λ (s : Session). (get_session reader s.key (insert req.user_id us' st)).1) same
          ∙ get_made reader new.key req.user_id req.channel_type new.id us' st new named reads
              made.meta_there
          ∙ ap ok (sym same),
      ap
            (λ (s : Session).
              lookup s.id (user_store req.user_id (insert req.user_id us' st)).transcripts)
            same
          ∙ lookup-user_store req.user_id new.id us' st
          ∙ made.lines_there
          ∙ ap (λ (s : Session). some (or_empty (lookup s.id us.transcripts))) (sym same),
    ))
