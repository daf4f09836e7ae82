-- ===== src/Session/Store/Paths/Escape.antt =====
-- User ids that are more than one segment of a path.
use open_nipper.Prelude.{
  ◌≡◌, refl, ap, ◌∙◌, true, false, [], ◌∷◌, ◌++◌, Text, codes, ◌==◌, nat_eq, if_false,
}
use open_nipper.Session.Store.Paths.{
  Segments, split, with_char, enter, walk, join, user_dir, sessions_dir, transcript_path, lock_path,
  meta_path, index_path, has_slash, is_component,
}
use open_nipper.Session.Store.Paths.Names.{
  File, transcript_file, lock_file, meta_file, index_file, path_of, neither, enter_component,
  unslashed,
}

split_first : (s t : Text) → has_slash s ≡ false → split (s ++ (codes "/" ++ t)) ≡ s ∷ split t
unfolding split has_slash
split_first [] t h = refl
split_first (c ∷ s) t h =
    if_false _ _ (neither (c == b'/') (has_slash s) h).0
    ∙ ap (with_char c) (split_first s t (neither (c == b'/') (has_slash s) h).1)

-- Down into a segment, up again, and on.
join_up :
    (path : Segments) (x v : Text)
    → is_component x ≡ true
    → join path (x ++ (codes "/" ++ (codes "../" ++ v))) ≡ join path v
unfolding join walk enter has_slash
join_up path x v h =
    ap (λ segments. walk segments path) (split_first x (codes "../" ++ v) (unslashed x h))
    ∙ ap (walk (split (codes "../" ++ v))) (enter_component x path h)
    ∙ ap (λ segments. walk segments (x ∷ path)) (split_first (codes "..") v refl)

sessions_dir_up :
    (base : Segments) (x v : Text)
    → is_component x ≡ true
    → sessions_dir base (x ++ (codes "/" ++ (codes "../" ++ v))) ≡ sessions_dir base v
unfolding sessions_dir user_dir
sessions_dir_up base x v h =
    ap (λ d. join d (codes "sessions")) (join_up (join base (codes "users")) x v h)

-- The user id x/../v has the same files as the user id v, for every segment x.
pub path_escapes :
    (base : Segments) (x v : Text) (f : File)
    → is_component x ≡ true
    → path_of base (x ++ (codes "/" ++ (codes "../" ++ v))) f ≡ path_of base v f
unfolding path_of transcript_path lock_path meta_path index_path
path_escapes base x v (transcript_file id) h =
    ap (λ d. join d (id ++ codes ".jsonl")) (sessions_dir_up base x v h)
path_escapes base x v (lock_file id) h =
    ap (λ d. join d (id ++ codes ".jsonl.lock")) (sessions_dir_up base x v h)
path_escapes base x v (meta_file id) h =
    ap (λ d. join d (id ++ codes ".meta.json")) (sessions_dir_up base x v h)
path_escapes base x v index_file h =
    ap (λ d. join d (codes "sessions.json")) (sessions_dir_up base x v h)
