-- ===== src/Session/Store/Disk.antt =====
-- What the store keeps: the files of each user and the cached index. A file holds what decoding it
-- gives. Files are found by the user and the session id, not by a path. That is what the source does
-- where user ids are single segments of a path and session ids have no slash, the scope of this model;
-- it does not see that an id such as x/../bob leads to the files of another user. Session/Store/Paths
-- has the paths themselves, for any ids.
use open_nipper.Prelude.{ℕ, Bool, Option, List, Text, Dict}
use open_nipper.Session.Types.{Session, SessionStatus, TranscriptLine}
use open_nipper.Session.Key.{KeyError}

pub record IndexEntry : Type 0 where
  pub session_id : Text
  pub session_key : Text
  pub channel_type : Text
  pub status : SessionStatus
  pub model : Text
  pub message_count : ℕ
  pub created_at : ℕ
  pub updated_at : ℕ

pub record SessionIndex : Type 0 where
  pub user_id : Text
  pub sessions : List IndexEntry
  pub updated_at : ℕ

pub record CacheEntry : Type 0 where
  pub index : SessionIndex
  pub expires_at : ℕ

pub data MetaFile : Type 0 where
  meta_of : Session → MetaFile
  meta_corrupt : MetaFile

pub data IndexFile : Type 0 where
  index_of : SessionIndex → IndexFile
  index_corrupt : IndexFile

-- A line of a transcript: of white space only or not JSON, either short enough to be scanned, or a
-- message.
pub data Line : Type 0 where
  blank malformed : Line
  entry : TranscriptLine → Line

-- One user's sessions directory, for an id that is one segment of a path, if it was made: the meta files and the transcripts by session id, the
-- archive by file name, and sessions.json. The cached index is the store's.
pub record UserStore : Type 0 where
  pub made : Bool
  pub metas : Dict Text MetaFile
  pub transcripts : Dict Text (List Line)
  pub archives : Dict Text (List Line)
  pub index : Option IndexFile
  pub cached : Option CacheEntry

-- By user.
abbrev pub Store : Type 0
Store = Dict Text UserStore

-- The calls of the file system and of the lock within an operation, and of compaction's.
pub data Call : Type 0 where
  make_dir make_archive_dir read_meta write_meta create_transcript read_index write_index take_lock
        open_transcript write_transcript move_transcript read_dir create_archive write_archive
        write_rest :
      Call

pub data StoreError : Type 0 where
  bad_key : KeyError → StoreError
  user_required not_found keep_too_small archive_exists : StoreError
  call_failed : Call → StoreError
  -- a file that does not decode, or a line that is too long for the scanner
  meta_undecoded index_undecoded line_too_long : StoreError

-- What an operation meets: which calls fail for another reason than a missing or an existing file, the
-- clock, the identifier that is made, a time as it stands in a file's
-- name, and which messages are
-- too long to be read again.
pub record Env : Type 0 where
  pub fails : Call → Bool
  -- when the meta files are scanned
  pub unreadable : Text → Bool
  pub now : ℕ
  pub fresh_id : Text
  pub stamp : ℕ → Text
  pub compact_stamp : ℕ → Text
  -- the lines that a write of an archive that fails has written
  pub written : ℕ
  pub is_too_long : TranscriptLine → Bool
