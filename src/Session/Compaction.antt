-- ===== src/Session/Compaction.antt =====
-- pkg/session/compaction.go: the older lines of a transcript are moved to the archive. Another
-- process may work on the files of the user while the new transcript is written.
pub mod Conservation
pub mod Kept
use open_nipper.Prelude.{
  ℕ, ◌+◌, ◌-◌, Bool, true, false, Option, none, some, List, [], ◌∷◌, ◌++◌, map, Text, codes, Result,
  ok, err, ltb, leb, if◌then◌else◌, list_eq, nat_eq, length,
}
use open_nipper.Prelude.Lists.{take, drop}
use open_nipper.Prelude.GoMap.{lookup, insert}
use open_nipper.Session.Types.{SessionMetadata, Session, TranscriptLine}
use open_nipper.Session.Store.Disk.{
  Line, entry, UserStore, Store, make_archive_dir, create_archive, write_archive, write_rest,
  take_lock, move_transcript, StoreError, keep_too_small, archive_exists, call_failed, Env,
}
use open_nipper.Session.Store.{
  Did, on_key, cannot_lock, read_transcript, read_session, update_for_user,
}

pub record CompactionResult : Type 0 where
  pub original_line_count : ℕ
  pub archived_line_count : ℕ
  pub remaining_line_count : ℕ
  pub compaction_count : ℕ
  pub compacted : Bool

unfoldable pub should_compact : ℕ → ℕ → Bool
should_compact line_count max_lines = ltb max_lines line_count

abbrev pub compact_name : Env → Text → Text
compact_name env id = id ++ (codes "-compact-" ++ (env.compact_stamp env.now ++ codes ".jsonl"))

unfoldable pub with_archive : Env → Text → List TranscriptLine → UserStore → UserStore
with_archive env id lines us = record us {
  archives = insert (compact_name env id) (map entry lines) us.archives;
}

-- The archive file must not exist before.
unfoldable pub create_compaction_archive :
    Env
    → Text
    → List TranscriptLine
    → UserStore
    → Option (List Line)
    → UserStore × Option StoreError
unfolding with_archive
create_compaction_archive env id lines us (some old) = (us, some archive_exists)
create_compaction_archive env id lines us none =
    if env.fails create_archive
    then (us, some (call_failed create_archive))
    else if env.fails write_archive
    then (with_archive env id (take env.written lines) us, some (call_failed write_archive))
    else (with_archive env id lines us, none)

unfoldable pub write_compaction_archive :
    Env → Text → List TranscriptLine → UserStore → UserStore × Option StoreError
unfolding create_compaction_archive
write_compaction_archive env id lines us =
    if env.fails make_archive_dir
    then (us, some (call_failed make_archive_dir))
    else create_compaction_archive env id lines us (lookup (compact_name env id) us.archives)

-- The lock is held for the rename only, after the temporary file was written.
unfoldable pub rename_over :
    Env → Text → List TranscriptLine → UserStore → UserStore × Option StoreError
rename_over env id lines us =
    if cannot_lock env us
    then (us, some (call_failed take_lock))
    else if env.fails move_transcript
    then (us, some (call_failed move_transcript))
    else (record us { transcripts = insert id (map entry lines) us.transcripts }, none)

unfoldable pub rewrite_transcript :
    Env
    → (UserStore → UserStore)
    → Text
    → List TranscriptLine
    → UserStore
    → UserStore × Option StoreError
unfolding rename_over
rewrite_transcript env meanwhile id lines us =
    if env.fails write_rest
    then (us, some (call_failed write_rest))
    else rename_over env id lines (meanwhile us)

unfoldable pub result_of : List TranscriptLine → ℕ → SessionMetadata → CompactionResult
result_of lines keep metadata = record {
  original_line_count = length lines;
  archived_line_count = length lines - keep;
  remaining_line_count = length (drop (length lines - keep) lines);
  compaction_count = metadata.compaction_count;
  compacted = true;
}

unfoldable pub after_update :
    List TranscriptLine → ℕ → SessionMetadata → Did (Unit {0}) → Did CompactionResult
unfolding result_of
after_update lines keep metadata (us, err e) = (us, err e)
after_update lines keep metadata (us, ok done) = (us, ok (result_of lines keep metadata))

abbrev pub counted : ℕ → SessionMetadata → SessionMetadata
counted kept metadata = record metadata {
  compaction_count = metadata.compaction_count + 1;
  message_count = kept;
}

unfoldable pub count_compaction :
    Env
    → Text
    → Text
    → List TranscriptLine
    → ℕ
    → UserStore
    → Result StoreError Session
    → Did CompactionResult
unfolding after_update
count_compaction env user id lines keep us (err e) = (us, err e)
count_compaction env user id lines keep us (ok sess) =
    let metadata = counted (length (drop (length lines - keep) lines)) sess.metadata in
    after_update lines keep metadata (update_for_user env metadata user id us)

unfoldable pub after_rewrite :
    Env
    → Text
    → Text
    → List TranscriptLine
    → ℕ
    → UserStore × Option StoreError
    → Did CompactionResult
unfolding count_compaction
after_rewrite later user id lines keep (us, some e) = (us, err e)
after_rewrite later user id lines keep (us, none) =
    count_compaction later user id lines keep us (read_session later id us)

unfoldable pub after_archive :
    Env
    → Env
    → (UserStore → UserStore)
    → Text
    → Text
    → List TranscriptLine
    → ℕ
    → UserStore × Option StoreError
    → Did CompactionResult
unfolding after_rewrite
after_archive env later meanwhile user id lines keep (us, some e) = (us, err e)
after_archive env later meanwhile user id lines keep (us, none) =
    after_rewrite later user id lines keep
      (rewrite_transcript env meanwhile id (drop (length lines - keep) lines) us)

unfoldable pub not_needed : List TranscriptLine → CompactionResult
not_needed lines = record {
  original_line_count = length lines;
  archived_line_count = 0;
  remaining_line_count = length lines;
  compaction_count = 0;
  compacted = false;
}

unfoldable pub after_load :
    Env
    → Env
    → (UserStore → UserStore)
    → Text
    → Text
    → ℕ
    → UserStore
    → Result StoreError (List TranscriptLine)
    → Did CompactionResult
unfolding after_archive not_needed
after_load env later meanwhile user id keep us (err e) = (us, err e)
after_load env later meanwhile user id keep us (ok lines) =
    if leb (length lines) keep
    then (us, ok (not_needed lines))
    else after_archive env later meanwhile user id lines keep
        (write_compaction_archive env id (take (length lines - keep) lines) us)

unfoldable pub compact_for_user :
    Env → Env → (UserStore → UserStore) → ℕ → Text → Text → UserStore → Did CompactionResult
unfolding after_load
compact_for_user env later meanwhile keep user id us =
    after_load env later meanwhile user id keep us (read_transcript env id us)

-- Compact. The calls on the metadata at its end meet an environment of their own.
unfoldable pub compact :
    Env
    → Env
    → (UserStore → UserStore)
    → Text
    → ℕ
    → Store
    → Store × Result StoreError CompactionResult
unfolding compact_for_user
compact env later meanwhile key keep st =
    if ltb keep 1
    then (st, err keep_too_small)
    else on_key key (λ user ct id us. compact_for_user env later meanwhile keep user id us) st
