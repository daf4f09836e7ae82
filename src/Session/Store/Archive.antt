-- ===== src/Session/Store/Archive.antt =====
-- pkg/session/store.go: archiving a session, and resetting one.
use open_nipper.Prelude.{
  Option, none, some, List, [], ◌++◌, Text, codes, Result, ok, err, if◌then◌else◌, list_eq, nat_eq,
}
use open_nipper.Prelude.GoMap.{lookup, insert, remove}
use open_nipper.Session.Types.{archived, Session, CreateSessionRequest}
use open_nipper.Session.Store.Disk.{
  MetaFile, meta_of, meta_corrupt, Line, UserStore, Store, make_archive_dir, read_meta, write_meta,
  take_lock, move_transcript, StoreError, not_found, call_failed, Env,
}
use open_nipper.Session.Store.Index.{upsert_index}
use open_nipper.Session.Store.{
  Did, on_key, cannot_lock, create_for_user, read_session, save_session,
}

unfoldable pub archive_name : Env → Text → Text
archive_name env id = id ++ (codes "-" ++ (env.stamp env.now ++ codes ".jsonl"))

-- The rename replaces an archive of the same name; a missing transcript is no error.
move_lines : Text → Text → UserStore → Option (List Line) → UserStore
move_lines name id us none = us
move_lines name id us (some lines) = record us {
  transcripts = remove id us.transcripts;
  archives = insert name lines us.archives;
}

-- The meta file after the transcript was moved: one that does not decode, or cannot be written, stays,
-- and is no error.
mark_archived : Env → Text → Text → UserStore → Option MetaFile → UserStore
mark_archived env user id us none = us
mark_archived env user id us (some meta_corrupt) = us
mark_archived env user id us (some (meta_of sess)) =
    let changed = record sess { status = archived; updated_at = env.now } in
    if env.fails write_meta
    then (upsert_index env user changed us).0
    else save_session env user id changed us

after_move : Env → Text → Text → UserStore → Did (Unit {0})
unfolding mark_archived
after_move env user id us =
    if env.fails read_meta
    then (us, err (call_failed read_meta))
    else (mark_archived env user id us (lookup id us.metas), ok tt)

unfoldable pub archive_for_user : Env → Text → Text → UserStore → Did (Unit {0})
unfolding move_lines after_move
archive_for_user env user id us =
    if cannot_lock env us
    then (us, err (call_failed take_lock))
    else if env.fails make_archive_dir
    then (us, err (call_failed make_archive_dir))
    else if env.fails move_transcript
    then (us, err (call_failed move_transcript))
    else after_move env user id (move_lines (archive_name env id) id us (lookup id us.transcripts))

-- ArchiveSession
unfoldable pub archive_session : Env → Text → Store → Store × Result StoreError (Unit {0})
unfolding archive_for_user
archive_session env key = on_key key (λ user ct id us. archive_for_user env user id us)

-- The request for the session that follows one that was read.
abbrev pub successor : Text → Text → Option Session → CreateSessionRequest
successor user ct none = record {
  user_id = user;
  session_id = [];
  channel_type = ct;
  model = [];
  channel_meta = none;
}
successor user ct (some old) = record {
  user_id = user;
  session_id = [];
  channel_type = ct;
  model = old.metadata.model;
  channel_meta = old.metadata.channel_meta;
}

key_of_new : Did Session → Did Text
key_of_new (us, err e) = (us, err e)
key_of_new (us, ok sess) = (us, ok sess.key)

-- The archiving and the creation meet environments of their own.
after_archive : Env → Text → Text → Option Session → Did (Unit {0}) → Did Text
unfolding key_of_new
after_archive later user ct old (us, err e) = (us, err e)
after_archive later user ct old (us, ok done) =
    key_of_new (create_for_user later (successor user ct old) us)

after_read_old : Env → Env → Text → Text → Text → UserStore → Result StoreError Session → Did Text
unfolding after_archive
after_read_old env later user ct id us (err not_found) =
    after_archive later user ct none (archive_for_user env user id us)
after_read_old env later user ct id us (err e) = (us, err e)
after_read_old env later user ct id us (ok old) =
    after_archive later user ct (some old) (archive_for_user env user id us)

unfoldable pub reset_for_user : Env → Env → Text → Text → Text → UserStore → Did Text
unfolding after_read_old
reset_for_user env later user ct id us =
    after_read_old env later user ct id us (read_session env id us)

-- ResetSession
unfoldable pub reset_session : Env → Env → Text → Store → Store × Result StoreError Text
unfolding reset_for_user
reset_session env later key = on_key key (λ user ct id us. reset_for_user env later user ct id us)
