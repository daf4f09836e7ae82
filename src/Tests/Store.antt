-- ===== src/Tests/Store.antt =====
-- The session store: sessions that are created, written, compacted and listed.
use open_nipper.Prelude.{
  ◌≡◌, refl, true, false, Bool, none, some, [], ◌∷◌, ◌++◌, Text, codes, ok, list_eq, nat_eq, ◌==◌,
  if◌then◌else◌, pos, arith, length, ltb,
}
use open_nipper.Prelude.GoMap.{lookup, insert}
use open_nipper.Session.Key.{parsed, parse_session_key}
use open_nipper.Session.Key.Parse.{parse-build}
use open_nipper.Session.Types.{CreateSessionRequest, TranscriptLine}
use open_nipper.Session.Store.Disk.{Call, write_rest, Env, Store, UserStore, SessionIndex}
use open_nipper.Session.Store.{
  create_session, get_session, append_transcript, load_transcript, user_store, scan, or_empty,
  or_nothing, read_transcript, new_session, nothing_yet,
}
use open_nipper.Session.Store.Index.{
  upsert_index, refresh_index_cache, load_index, session_to_index_entry,
}
use open_nipper.Session.Store.Sessions.{create_then_get}
use open_nipper.Session.Store.Transcript.{append_then_load}
use open_nipper.Session.Store.Listing.{find_entry, listed_after_upsert}
use open_nipper.Session.Compaction.{CompactionResult, compact, compact_for_user}
use open_nipper.Session.Compaction.Conservation.{KeepsLines, KeepsArchive, compact_loses_nothing}
use open_nipper.Session.Compaction.Kept.{IsCompacted, compacted_transcript}
use open_nipper.Tests.Fixtures.{ann, ann-IsColonFree, whatsapp-IsColonFree, key}
use open_nipper.Models.Channel.{whatsapp}

-- Nothing fails, and messages of more than five characters are too long.
abbrev calm : Env
calm = record {
  fails = λ call. false;
  unreadable = λ id. false;
  now = 7;
  fresh_id = codes "s9";
  stamp = λ t. codes "t";
  compact_stamp = λ t. codes "u";
  written = 0;
  is_too_long = λ line. ltb 5 (length line.content);
}

abbrev line_of : Text → TranscriptLine
line_of text = record {
  role = codes "user";
  content = text;
  timestamp = 1;
  run_id = [];
  token_count = pos 0;
}

abbrev request : CreateSessionRequest
request = record {
  user_id = ann;
  session_id = codes "s1";
  channel_type = whatsapp;
  model = codes "m";
  channel_meta = none;
}

abbrev created : Store
created = (create_session calm request []).0

abbrev with_lines : Store
with_lines =
    (append_transcript calm key (line_of (codes "b"))
      (append_transcript calm key (line_of (codes "a")) created).0).0

key_parses : parse_session_key key ≡ parsed ann whatsapp (codes "s1")
unfolding open_nipper.Session.Key.build_session_key
key_parses =
    parse-build ann whatsapp (codes "s1") ann-IsColonFree whatsapp-IsColonFree refl refl refl

create_then_get_example :
    ((get_session calm key created).1 ≡ ok (new_session calm request (codes "s1")))
    × (lookup (codes "s1") (user_store ann created).transcripts
        ≡ some (or_empty (lookup (codes "s1") (user_store ann []).transcripts)))
unfolding create_session get_session upsert_index refresh_index_cache user_store lookup
    open_nipper.Session.Key.build_session_key
create_then_get_example =
    create_then_get calm calm request (new_session calm request (codes "s1")) [] ann-IsColonFree
      whatsapp-IsColonFree refl refl refl refl refl

append_then_load_example :
    (load_transcript calm key (append_transcript calm key (line_of (codes "c")) with_lines).0).1
    ≡ ok ((line_of (codes "a") ∷ line_of (codes "b") ∷ []) ++ (line_of (codes "c") ∷ []))
unfolding append_transcript create_session scan lookup user_store parse_session_key
    open_nipper.Strings.after_prefix open_nipper.Strings.cut_at insert upsert_index
    refresh_index_cache
append_then_load_example =
    append_then_load calm calm key ann whatsapp (codes "s1") (line_of (codes "c")) with_lines
      (line_of (codes "a") ∷ line_of (codes "b") ∷ []) key_parses refl refl refl refl

-- The new transcript cannot be written.
is_write_rest : Call → Bool
is_write_rest write_rest = true
is_write_rest _ = false

compact_loses_nothing_example :
    KeepsLines
      (record calm { fails = is_write_rest })
      calm
      ann
      (codes "s1")
      (line_of (codes "a") ∷ line_of (codes "b") ∷ [])
      (user_store ann with_lines)
      (user_store ann
        (compact (record calm { fails = is_write_rest }) calm (λ us. us) key 1 with_lines).0)
    × KeepsArchive
        (record calm { fails = is_write_rest })
        calm
        ann
        (codes "s1")
        (user_store ann with_lines)
        (user_store ann
          (compact (record calm { fails = is_write_rest }) calm (λ us. us) key 1 with_lines).0)
unfolding append_transcript create_session read_transcript is_write_rest lookup user_store
    parse_session_key open_nipper.Strings.after_prefix open_nipper.Strings.cut_at insert
    upsert_index refresh_index_cache
compact_loses_nothing_example =
    compact_loses_nothing (record calm { fails = is_write_rest }) calm key ann whatsapp (codes "s1")
      1 with_lines (line_of (codes "a") ∷ line_of (codes "b") ∷ []) key_parses refl

-- Another process appends a line meanwhile.
abbrev appending : UserStore → UserStore
appending us =
    user_store ann (append_transcript calm key (line_of (codes "c")) (insert ann us [])).0

abbrev compacted : CompactionResult
compacted = record {
  original_line_count = 2;
  archived_line_count = 1;
  remaining_line_count = 1;
  compaction_count = 1;
  compacted = true;
}

compacted_transcript_example :
    IsCompacted calm calm appending ann
      (codes "s1")
      (line_of (codes "a") ∷ line_of (codes "b") ∷ [])
      1
      (compact_for_user calm calm appending 1 ann (codes "s1") (user_store ann with_lines))
      compacted
    × (compacted.remaining_line_count ≡ 1)
unfolding append_transcript create_session read_transcript compact_for_user lookup user_store
    parse_session_key open_nipper.Strings.after_prefix open_nipper.Strings.cut_at insert
    upsert_index refresh_index_cache open_nipper.Session.Compaction.write_compaction_archive
    open_nipper.Session.Compaction.rewrite_transcript open_nipper.Session.Store.read_session
    open_nipper.Session.Store.update_for_user
compacted_transcript_example =
    compacted_transcript calm calm appending ann (codes "s1")
      (line_of (codes "a") ∷ line_of (codes "b") ∷ []) 1 (user_store ann with_lines) compacted refl
      refl refl

listed_after_upsert_example :
    (before after : SessionIndex) × ((refresh_index_cache calm ann
        (record nothing_yet { cached = none })).1
      ≡ ok before)
    × ((load_index
          (record calm { now = 51 })
          ann
          (upsert_index calm ann (new_session calm request (codes "s1")) nothing_yet).0).1
        ≡ ok after)
    × (find_entry (codes "s1") after.sessions ≡ (
        if (new_session calm request (codes "s1")).id == codes "s1"
        then some (session_to_index_entry (new_session calm request (codes "s1")))
        else find_entry (codes "s1") before.sessions))
unfolding upsert_index refresh_index_cache
listed_after_upsert_example =
    listed_after_upsert calm (record calm { now = 51 }) ann (codes "s1")
      (new_session calm request (codes "s1")) nothing_yet refl (ground arith)
