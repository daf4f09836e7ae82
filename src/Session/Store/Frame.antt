-- ===== src/Session/Store/Frame.antt =====
-- What an operation on the session store leaves as it was.
use open_nipper.Prelude.{
  ◌≡◌, refl, ap, ◌∙◌, Bool, Option, none, some, List, Text, Result, ok, err, Dict, Bool-cases, inl,
  inr,
}
use open_nipper.Session.Types.{Session, SessionMetadata}
use open_nipper.Session.Store.Disk.{
  Line, MetaFile, IndexFile, index_of, index_corrupt, UserStore, StoreError, SessionIndex, Env,
  read_index, write_index, write_meta,
}
use open_nipper.Session.Store.Index.{
  upsert_index, store_index, refresh_index_cache, read_index_file, with_cache,
}
use open_nipper.Session.Store.{save_session, after_read_meta, update_for_user}

-- The transcripts and the archive, and the meta files.
abbrev pub lines_of : UserStore → Dict Text (List Line) × Dict Text (List Line)
lines_of us = (us.transcripts, us.archives)

-- A function of the files that does not look at the index or its cache.
abbrev pub files_of :
    UserStore → Bool × Dict Text MetaFile × Dict Text (List Line) × Dict Text (List Line)
files_of us = (us.made, us.metas, us.transcripts, us.archives)

files-read_index_file :
    (env : Env) (user : Text) (us : UserStore) (o : Option IndexFile)
    → files_of (read_index_file env user us o).0 ≡ files_of us
unfolding read_index_file with_cache
files-read_index_file env user us none = refl
files-read_index_file env user us (some index_corrupt) = refl
files-read_index_file env user us (some (index_of idx)) = refl

pub files-refresh_index_cache :
    (env : Env) (user : Text) (us : UserStore)
    → files_of (refresh_index_cache env user us).0 ≡ files_of us
unfolding refresh_index_cache
files-refresh_index_cache env user us = elim (Bool-cases (env.fails read_index)) [
  | inl e ↦ rw e refl
  | inr e ↦ rw e (files-read_index_file env user us us.index)
]

files-store_index :
    (env : Env) (user : Text) (sess : Session) (r : UserStore × Result StoreError SessionIndex)
    → files_of (store_index env user sess r).0 ≡ files_of r.0
unfolding store_index with_cache
files-store_index env user sess (us, err e) = refl
files-store_index env user sess (us, ok idx) = elim (Bool-cases (env.fails write_index)) [
  | inl e ↦ rw e refl
  | inr e ↦ rw e refl
]

-- The index and its cache change alone.
pub files-upsert_index :
    (env : Env) (user : Text) (sess : Session) (us : UserStore)
    → files_of (upsert_index env user sess us).0 ≡ files_of us
unfolding upsert_index
files-upsert_index env user sess us =
    files-store_index env user sess _
    ∙ files-refresh_index_cache env user (record us { cached = none })

lines-after_read_meta :
    (env : Env) (metadata : SessionMetadata) (user id : Text) (us : UserStore)
    (r : Result StoreError Session)
    → lines_of (after_read_meta env metadata user id us r).0 ≡ lines_of us
unfolding after_read_meta save_session
lines-after_read_meta env metadata user id us (err e) = refl
lines-after_read_meta env metadata user id us (ok sess) = elim (Bool-cases (env.fails write_meta)) [
  | inl e ↦ rw e refl
  | inr e ↦ rw e (ap (λ f. (f.2, f.3)) (files-upsert_index env user _ _))
]

pub lines-update_for_user :
    (env : Env) (metadata : SessionMetadata) (user id : Text) (us : UserStore)
    → lines_of (update_for_user env metadata user id us).0 ≡ lines_of us
unfolding update_for_user
lines-update_for_user env metadata user id us = lines-after_read_meta env metadata user id us _
