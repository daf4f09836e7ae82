-- ===== src/Session/Store/Paths.antt =====
-- pkg/session/store.go: where the files of a session are. A directory or file is the list of its path's
-- segments, the last first, below a base path that is rooted and clean.
pub mod Names
pub mod Apart
pub mod Escape
use open_nipper.Prelude.{
  ℕ, Bool, true, false, ◌&&◌, ◌||◌, not, List, [], ◌∷◌, ◌++◌, Text, codes, is_empty, ◌==◌, nat_eq,
  list_eq, if◌then◌else◌,
}

abbrev pub Segments : Type 0
Segments = List Text

abbrev with_char : ℕ → List Text → List Text
with_char c [] = (c ∷ []) ∷ []
with_char c (word ∷ words) = (c ∷ word) ∷ words

-- The parts between the slashes.
unfoldable pub split : Text → List Text
split [] = [] ∷ []
split (c ∷ s) = let rest = split s in if c == b'/' then [] ∷ rest else with_char c rest

abbrev parent : Segments → Segments
parent [] = []
parent (segment ∷ path) = path

unfoldable pub enter : Text → Segments → Segments
enter segment path =
    if is_empty segment || segment == codes "."
    then path
    else if segment == codes ".."
    then parent path
    else segment ∷ path

unfoldable pub walk : List Text → Segments → Segments
unfolding enter
walk [] path = path
walk (segment ∷ segments) path = walk segments (enter segment path)

-- filepath.Join of a clean rooted path and one more element.
unfoldable pub join : Segments → Text → Segments
unfolding split walk
join path element = walk (split element) path

unfoldable pub user_dir : Segments → Text → Segments
user_dir base user = join (join base (codes "users")) user

unfoldable pub sessions_dir : Segments → Text → Segments
sessions_dir base user = join (user_dir base user) (codes "sessions")

unfoldable pub archive_dir : Segments → Text → Segments
archive_dir base user = join (sessions_dir base user) (codes "archive")

unfoldable pub transcript_path : Segments → Text → Text → Segments
transcript_path base user id = join (sessions_dir base user) (id ++ codes ".jsonl")

unfoldable pub lock_path : Segments → Text → Text → Segments
lock_path base user id = join (sessions_dir base user) (id ++ codes ".jsonl.lock")

unfoldable pub meta_path : Segments → Text → Text → Segments
meta_path base user id = join (sessions_dir base user) (id ++ codes ".meta.json")

unfoldable pub index_path : Segments → Text → Segments
index_path base user = join (sessions_dir base user) (codes "sessions.json")

unfoldable pub has_slash : Text → Bool
has_slash [] = false
has_slash (c ∷ s) = let rest = has_slash s in (c == b'/') || rest

-- One segment of a path: what a directory's entry may be called.
unfoldable pub is_component : Text → Bool
unfolding has_slash
is_component s =
    not (is_empty s) && (not (s == codes ".") && (not (s == codes "..") && not (has_slash s)))
