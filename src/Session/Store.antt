-- ===== src/Session/Store.antt =====
-- pkg/session/store.go: the sessions of the users in files, and the cached index.
pub mod Disk
pub mod Index
pub mod Frame
pub mod Archive
pub mod Transcript
pub mod Listing
pub mod Sessions
pub mod Paths
use open_nipper.Prelude.{
  map, ℕ, ◌+◌, Bool, true, false, ◌||◌, not, Option, none, some, List, [], ◌∷◌, ◌++◌, Text, codes,
  is_empty, Result, ok, err, ltb, if◌then◌else◌, list_eq, nat_eq, Dict,
}
use open_nipper.Prelude.GoMap.{lookup, insert, remove}
use open_nipper.Session.Key.{
  KeyError, ParsedKey, parsed, invalid, build_session_key, parse_session_key,
}
use open_nipper.Session.Types.{
  SessionStatus, active, archived, ContextUsage, SessionMetadata, Session, TranscriptLine,
  CreateSessionRequest,
}
use open_nipper.Session.Store.Disk.{
  MetaFile, meta_of, meta_corrupt, Line, blank, malformed, entry, UserStore, Store, Call, make_dir,
  make_archive_dir, read_meta, write_meta, create_transcript, take_lock, open_transcript,
  write_transcript, move_transcript, StoreError, bad_key, user_required, not_found, call_failed,
  meta_undecoded, line_too_long, Env, SessionIndex,
}
use open_nipper.Session.Store.Index.{
  upsert_index, load_index, rebuild_index, index_entry_to_session, no_usage,
}

abbrev pub nothing_yet : UserStore
nothing_yet = record {
  made = false;
  metas = [];
  transcripts = [];
  archives = [];
  index = none;
  cached = none;
}

abbrev pub or_nothing : Option UserStore → UserStore
or_nothing none = nothing_yet
or_nothing (some us) = us

unfoldable pub user_store : Text → Store → UserStore
user_store user st = or_nothing (lookup user st)

-- What an operation does to the files of one user, and what it returns.
abbrev pub Did : Type 0 → Type 0
Did A = UserStore × Result StoreError A

abbrev pub on_parsed :
    {A : Type 0}
    → ParsedKey
    → (Text → Text → Text → UserStore → Did A)
    → Store
    → Store × Result StoreError A
on_parsed (invalid e) f st = (st, err (bad_key e))
on_parsed (parsed user ct id) f st =
    (insert user (f user ct id (user_store user st)).0 st, (f user ct id (user_store user st)).1)

-- The user, the channel type and the session id of a key.
abbrev pub on_key :
    {A : Type 0}
    → Text
    → (Text → Text → Text → UserStore → Did A)
    → Store
    → Store × Result StoreError A
on_key key f st = on_parsed (parse_session_key key) f st

unfoldable pub new_session : Env → CreateSessionRequest → Text → Session
new_session env req id = record {
  key = build_session_key req.user_id req.channel_type id;
  id = id;
  user_id = req.user_id;
  channel_type = req.channel_type;
  status = active;
  metadata = record {
    model = req.model;
    compaction_level = [];
    compaction_count = 0;
    message_count = 0;
    context_usage = no_usage;
    last_activity_at = env.now;
    channel_meta = req.channel_meta;
  };
  created_at = env.now;
  updated_at = env.now;
}

-- The transcript file is made unless there is one.
abbrev pub or_empty : Option (List Line) → List Line
or_empty none = []
or_empty (some lines) = lines

unfoldable pub after_index : Session → UserStore × Option StoreError → Did Session
after_index sess (us, none) = (us, ok sess)
after_index sess (us, some e) = (us, err e)

unfoldable pub create_files : Env → Session → UserStore → Did Session
unfolding after_index
create_files env sess us =
    let with_meta = record us { metas = insert sess.id (meta_of sess) us.metas } in
    let with_transcript = record with_meta {
      transcripts = insert sess.id (or_empty (lookup sess.id us.transcripts)) us.transcripts;
    } in
    if env.fails write_meta
    then (us, err (call_failed write_meta))
    else if env.fails create_transcript
    then (with_meta, err (call_failed create_transcript))
    else after_index sess (upsert_index env sess.user_id sess with_transcript)

unfoldable pub create_for_user : Env → CreateSessionRequest → UserStore → Did Session
unfolding create_files
create_for_user env req us =
    let id = if is_empty req.session_id then env.fresh_id else req.session_id in
    let made = record us { made = true } in
    if env.fails make_dir
    then (us, err (call_failed make_dir))
    else if env.fails make_archive_dir
    then (made, err (call_failed make_archive_dir))
    else create_files env (new_session env req id) made

-- CreateSession
unfoldable pub create_session :
    Env → CreateSessionRequest → Store → Store × Result StoreError Session
unfolding create_for_user new_session
create_session env req st = if is_empty req.user_id then (st, err user_required) else (
  insert req.user_id (create_for_user env req (user_store req.user_id st)).0 st,
  (create_for_user env req (user_store req.user_id st)).1,
)

unfoldable pub decoded : Option MetaFile → Result StoreError Session
decoded none = err not_found
decoded (some meta_corrupt) = err meta_undecoded
decoded (some (meta_of sess)) = ok sess

-- Reading a meta file; a missing one is found to be missing before anything else may fail.
unfoldable pub read_session : Env → Text → UserStore → Result StoreError Session
unfolding decoded
read_session env id us =
    if env.fails read_meta then err (call_failed read_meta) else decoded (lookup id us.metas)

-- GetSession
unfoldable pub get_session : Env → Text → Store → Store × Result StoreError Session
unfolding read_session
get_session env key = on_key key (λ user ct id us. (us, read_session env id us))

sessions_of : UserStore × Result StoreError SessionIndex → Did (List Session)
sessions_of (us, err e) = (us, err e)
sessions_of (us, ok idx) = (us, ok (map index_entry_to_session idx.sessions))

-- ListSessions
unfoldable pub list_sessions : Env → Text → Store → Store × Result StoreError (List Session)
unfolding sessions_of
list_sessions env user st = (
  insert user (sessions_of (load_index env user (user_store user st))).0 st,
  (sessions_of (load_index env user (user_store user st))).1,
)

abbrev pub prepend :
    TranscriptLine
    → Result StoreError (List TranscriptLine)
    → Result StoreError (List TranscriptLine)
prepend t (err e) = err e
prepend t (ok ts) = ok (t ∷ ts)

-- The scan of a transcript: blank and malformed lines are skipped, and a line that is too long ends it
-- with an error.
unfoldable pub scan : Env → List Line → Result StoreError (List TranscriptLine)
scan env [] = ok []
scan env (blank ∷ lines) = scan env lines
scan env (malformed ∷ lines) = scan env lines
scan env (entry t ∷ lines) =
    let rest = scan env lines in if env.is_too_long t then err line_too_long else prepend t rest

unfoldable pub scan_file : Env → Option (List Line) → Result StoreError (List TranscriptLine)
unfolding scan
scan_file env none = err not_found
scan_file env (some lines) = scan env lines

unfoldable pub read_transcript : Env → Text → UserStore → Result StoreError (List TranscriptLine)
unfolding scan_file
read_transcript env id us =
    if env.fails open_transcript
    then err (call_failed open_transcript)
    else scan_file env (lookup id us.transcripts)

-- LoadTranscript
unfoldable pub load_transcript :
    Env → Text → Store → Store × Result StoreError (List TranscriptLine)
unfolding read_transcript
load_transcript env key = on_key key (λ user ct id us. (us, read_transcript env id us))

-- The lock is a file in the sessions directory.
abbrev pub cannot_lock : Env → UserStore → Bool
cannot_lock env us = env.fails take_lock || not us.made

unfoldable pub append_line : Env → TranscriptLine → Text → UserStore → Did (Unit {0})
append_line env line id us =
    let lines = or_empty (lookup id us.transcripts) in
    if cannot_lock env us
    then (us, err (call_failed take_lock))
    else if env.fails open_transcript
    then (us, err (call_failed open_transcript))
    else if env.fails write_transcript
    then (
      record us { transcripts = insert id lines us.transcripts },
      err (call_failed write_transcript),
    )
    else (record us { transcripts = insert id (lines ++ (entry line ∷ [])) us.transcripts }, ok tt)

-- AppendTranscript
unfoldable pub append_transcript :
    Env → Text → TranscriptLine → Store → Store × Result StoreError (Unit {0})
unfolding append_line
append_transcript env key line = on_key key (λ user ct id us. append_line env line id us)

-- Writes a changed session to the meta file of an id; an error of the index is dropped.
unfoldable pub save_session : Env → Text → Text → Session → UserStore → UserStore
save_session env user id sess us =
    (upsert_index env user sess (record us { metas = insert id (meta_of sess) us.metas })).0

unfoldable pub after_read_meta :
    Env → SessionMetadata → Text → Text → UserStore → Result StoreError Session → Did (Unit {0})
unfolding save_session
after_read_meta env metadata user id us (err e) = (us, err e)
after_read_meta env metadata user id us (ok sess) =
    if env.fails write_meta then (us, err (call_failed write_meta)) else (
      save_session env user id (record sess { metadata = metadata; updated_at = env.now }) us,
      ok tt,
    )

unfoldable pub update_for_user : Env → SessionMetadata → Text → Text → UserStore → Did (Unit {0})
unfolding after_read_meta
update_for_user env metadata user id us =
    after_read_meta env metadata user id us (read_session env id us)

-- UpdateMeta
unfoldable pub update_meta :
    Env → Text → SessionMetadata → Store → Store × Result StoreError (Unit {0})
unfolding update_for_user
update_meta env key metadata = on_key key (λ user ct id us. update_for_user env metadata user id us)

-- UpdateIndex
unfoldable pub update_index : Env → Text → Store → Store × Option StoreError
update_index env user st = (
  insert user (rebuild_index env user (user_store user st)).0 st,
  (rebuild_index env user (user_store user st)).1,
)
