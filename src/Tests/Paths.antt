-- ===== src/Tests/Paths.antt =====
-- Paths of sessions' files.
use open_nipper.Prelude.{
  ◌==◌, list_eq, nat_eq, ap, true, ◌≢◌, ◌≡◌, refl, false, Text, codes, [], ◌∷◌,
}
use open_nipper.Session.Store.Paths.{Segments, is_component, archive_dir}
use open_nipper.Session.Store.Paths.Names.{
  transcript_file, lock_file, meta_file, index_file, path_of,
}
use open_nipper.Session.Store.Paths.Apart.{Place, in_sessions, place_path, paths_apart}
use open_nipper.Tests.Fixtures.{ann, bob}

abbrev home : Segments
home = codes ".open-nipper" ∷ codes "root" ∷ []

-- The files of ann's session and of bob's session of the same name.
paths_apart_example :
    place_path home ann (in_sessions (meta_file (codes "s1")))
    ≢ place_path home bob (in_sessions (meta_file (codes "s1")))
unfolding is_component open_nipper.Session.Store.Paths.has_slash
paths_apart_example =
    paths_apart home ann bob (in_sessions (meta_file (codes "s1")))
      (in_sessions (meta_file (codes "s1"))) refl refl refl refl
      (λ same.
        let users : true ≡ false = ap (λ (p : Text × Place). ann == p.0) same in absurd (cc users))

path_test :
    path_of home ann (lock_file (codes "s1"))
    ≡ codes "s1.jsonl.lock" ∷ codes "sessions" ∷ ann ∷ codes "users" ∷ home
unfolding path_of open_nipper.Session.Store.Paths.lock_path open_nipper.Session.Store.Paths.join
    open_nipper.Session.Store.Paths.sessions_dir open_nipper.Session.Store.Paths.user_dir
path_test = refl

archive_test :
    archive_dir home ann ≡ codes "archive" ∷ codes "sessions" ∷ ann ∷ codes "users" ∷ home
unfolding archive_dir open_nipper.Session.Store.Paths.join
    open_nipper.Session.Store.Paths.sessions_dir open_nipper.Session.Store.Paths.user_dir
archive_test = refl

escape_test : path_of home (codes "x/../bob") index_file ≡ path_of home bob index_file
unfolding path_of open_nipper.Session.Store.Paths.index_path
    open_nipper.Session.Store.Paths.sessions_dir open_nipper.Session.Store.Paths.user_dir
    open_nipper.Session.Store.Paths.join
escape_test = refl

session_escape_test :
    path_of home ann (transcript_file (codes "../../bob/sessions/s1"))
    ≡ path_of home bob (transcript_file (codes "s1"))
unfolding path_of open_nipper.Session.Store.Paths.transcript_path
    open_nipper.Session.Store.Paths.sessions_dir open_nipper.Session.Store.Paths.user_dir
    open_nipper.Session.Store.Paths.join
session_escape_test = refl
