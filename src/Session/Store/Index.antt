-- ===== src/Session/Store/Index.antt =====
-- pkg/session/store.go: sessions.json and its cache.
use open_nipper.Prelude.{
  pos, ◌&&◌, ◌||◌, not, ℕ, ◌+◌, Bool, true, false, Option, none, some, List, [], ◌∷◌, ◌++◌, Text,
  codes, is_empty, Result, ok, err, ltb, if◌then◌else◌, list_eq, nat_eq, ◌==◌,
}
use open_nipper.Session.Types.{ContextUsage, Session}
use open_nipper.Session.Store.Disk.{
  IndexEntry, SessionIndex, CacheEntry, MetaFile, meta_of, meta_corrupt, IndexFile, index_of,
  index_corrupt, UserStore, read_index, write_index, read_dir, StoreError, call_failed,
  index_undecoded, Env,
}

-- Go's zero value.
abbrev pub no_usage : ContextUsage
no_usage = record {
  input_tokens = pos 0;
  output_tokens = pos 0;
  cache_read_tokens = pos 0;
  context_window = pos 0;
  usage_percent = codes "0";
}

abbrev pub index_cache_ttl : ℕ
index_cache_ttl = 45

unfoldable pub session_to_index_entry : Session → IndexEntry
session_to_index_entry sess = record {
  session_id = sess.id;
  session_key = sess.key;
  channel_type = sess.channel_type;
  status = sess.status;
  model = sess.metadata.model;
  message_count = sess.metadata.message_count;
  created_at = sess.created_at;
  updated_at = sess.updated_at;
}

unfoldable pub index_entry_to_session : IndexEntry → Session
index_entry_to_session e = record {
  key = e.session_key;
  id = e.session_id;
  user_id = [];
  channel_type = e.channel_type;
  status = e.status;
  metadata = record {
    model = e.model;
    compaction_level = [];
    compaction_count = 0;
    message_count = e.message_count;
    context_usage = no_usage;
    last_activity_at = 0;
    channel_meta = none;
  };
  created_at = e.created_at;
  updated_at = e.updated_at;
}

unfoldable pub with_cache : Env → SessionIndex → UserStore → UserStore
with_cache env idx us = record us {
  cached = some (record { index = idx; expires_at = env.now + index_cache_ttl });
}

unfoldable pub read_index_file :
    Env → Text → UserStore → Option IndexFile → UserStore × Result StoreError SessionIndex
unfolding with_cache
read_index_file env user us none =
    (us, ok (record { user_id = user; sessions = []; updated_at = 0 }))
read_index_file env user us (some index_corrupt) = (us, err index_undecoded)
read_index_file env user us (some (index_of idx)) = (with_cache env idx us, ok idx)

unfoldable pub refresh_index_cache :
    Env → Text → UserStore → UserStore × Result StoreError SessionIndex
unfolding read_index_file
refresh_index_cache env user us =
    if env.fails read_index
    then (us, err (call_failed read_index))
    else read_index_file env user us us.index

unfoldable pub from_cache :
    Env → Text → UserStore → Option CacheEntry → UserStore × Result StoreError SessionIndex
from_cache env user us none = refresh_index_cache env user us
from_cache env user us (some c) =
    if ltb env.now c.expires_at then (us, ok c.index) else refresh_index_cache env user us

unfoldable pub load_index : Env → Text → UserStore → UserStore × Result StoreError SessionIndex
unfolding from_cache
load_index env user us = from_cache env user us us.cached

-- The first entry of the session is replaced, if there is one.
unfoldable pub replace_entry : IndexEntry → List IndexEntry → List IndexEntry
replace_entry e [] = []
replace_entry e (x ∷ xs) =
    let rest = replace_entry e xs in if x.session_id == e.session_id then e ∷ xs else x ∷ rest

-- It is replaced, or put at the end.
unfoldable pub put_entry : IndexEntry → List IndexEntry → List IndexEntry
put_entry e [] = e ∷ []
put_entry e (x ∷ xs) =
    let rest = put_entry e xs in if x.session_id == e.session_id then e ∷ xs else x ∷ rest

-- The cached index shares its entries with the one that is changed, so a replacement shows in it before
-- the file is written.
share_replaced : IndexEntry → Option CacheEntry → Option CacheEntry
share_replaced e none = none
share_replaced e (some c) =
    some (record c { index = record c.index { sessions = replace_entry e c.index.sessions } })

unfoldable pub changed_index : Env → Text → Session → SessionIndex → SessionIndex
changed_index env user sess idx = record {
  user_id = if is_empty idx.user_id then user else idx.user_id;
  sessions = put_entry (session_to_index_entry sess) idx.sessions;
  updated_at = env.now;
}

unfoldable pub store_index :
    Env
    → Text
    → Session
    → UserStore × Result StoreError SessionIndex
    → UserStore × Option StoreError
unfolding share_replaced changed_index with_cache
store_index env user sess (us, err e) = (us, some e)
store_index env user sess (us, ok idx) =
    let new = changed_index env user sess idx in
    if env.fails write_index
    then (
      record us { cached = share_replaced (session_to_index_entry sess) us.cached },
      some (call_failed write_index),
    )
    else (with_cache env new (record us { index = some (index_of new) }), none)

unfoldable pub upsert_index : Env → Text → Session → UserStore → UserStore × Option StoreError
unfolding store_index
upsert_index env user sess us =
    store_index env user sess (refresh_index_cache env user (record us { cached = none }))

-- Go's order of strings, on code points.
text_leb : Text → Text → Bool
text_leb [] t = true
text_leb (c ∷ s) [] = false
text_leb (c ∷ s) (d ∷ t) = ltb c d || ((c == d) && text_leb s t)

abbrev meta_name : Text → Text
meta_name id = id ++ codes ".meta.json"

insert_file : Text × MetaFile → List (Text × MetaFile) → List (Text × MetaFile)
unfolding text_leb
insert_file f [] = f ∷ []
insert_file f (g ∷ fs) =
    let rest = insert_file f fs in
    if text_leb (meta_name f.0) (meta_name g.0) then f ∷ g ∷ fs else g ∷ rest

-- `os.ReadDir` sorts by file name.
sort_files : List (Text × MetaFile) → List (Text × MetaFile)
unfolding insert_file
sort_files [] = []
sort_files (f ∷ fs) = insert_file f (sort_files fs)

scan_metas : Env → List (Text × MetaFile) → List IndexEntry
scan_metas env [] = []
scan_metas env ((id, meta_corrupt) ∷ fs) = scan_metas env fs
scan_metas env ((id, meta_of sess) ∷ fs) =
    let rest = scan_metas env fs in
    if env.unreadable id then rest else session_to_index_entry sess ∷ rest

-- rebuildIndex, which leaves nothing in the cache.
unfoldable pub rebuild_index : Env → Text → UserStore → UserStore × Option StoreError
unfolding scan_metas sort_files
rebuild_index env user us =
    let dropped = record us { cached = none } in
    let idx : SessionIndex = record {
      user_id = user;
      sessions = scan_metas env (sort_files us.metas);
      updated_at = env.now;
    } in
    if not us.made
    then (dropped, none)
    else if env.fails read_dir
    then (dropped, some (call_failed read_dir))
    else if env.fails write_index
    then (dropped, some (call_failed write_index))
    else (record dropped { index = some (index_of idx) }, none)
