-- ===== src/Session/Store/Paths/Apart.antt =====
-- Which files of which sessions share a path.
use open_nipper.Prelude.{
  ◌≡◌, ◌≢◌, refl, sym, ap, ◌∙◌, true, ◌∷◌, arith, Text, codes, nat_eq, list_eq,
}
use open_nipper.Session.Store.Paths.{Segments, archive_dir, join, has_slash, is_component}
use open_nipper.Session.Store.Paths.Names.{
  File, IsPlainFile, path_of, last_char, name_of, join_component, sessions_dir-component,
  path_of-component, names_apart,
}

-- Where a file of a user is: among the sessions, or by its name in the archive.
pub data Place : Type 0 where
  in_sessions : File → Place
  in_archive : Text → Place

unfoldable pub place_path : Segments → Text → Place → Segments
unfolding path_of
place_path base user (in_sessions f) = path_of base user f
place_path base user (in_archive name) = join (archive_dir base user) name

abbrev pub IsPlain : Place → Type 0
IsPlain (in_sessions f) = IsPlainFile f
IsPlain (in_archive name) = is_component name ≡ true

in_archive-component :
    (base : Segments) (user name : Text)
    → is_component user ≡ true
    → is_component name ≡ true
    → join (archive_dir base user) name
      ≡ name ∷ codes "archive" ∷ codes "sessions" ∷ user ∷ codes "users" ∷ base
unfolding archive_dir is_component has_slash
in_archive-component base user name h named =
    ap (λ d. join (join d (codes "archive")) name) (sessions_dir-component base user h)
    ∙ ap (λ d. join d name)
        (join_component (codes "archive") (codes "sessions" ∷ user ∷ codes "users" ∷ base) refl)
    ∙ join_component name _ named

segments_apart :
    (name other : Text) (p q : Segments) → name ∷ codes "archive" ∷ p ≢ other ∷ codes "sessions" ∷ q
unfolding last_char
segments_apart name other p q e =
    let dirs : codes "archive" ≡ codes "sessions" = cc e in
    absurd (omega (arith, ap (last_char 0) dirs))

same_place :
    (base : Segments) (u v : Text) (f g : Place)
    → is_component u ≡ true
    → is_component v ≡ true
    → IsPlain f
    → IsPlain g
    → place_path base u f ≡ place_path base v g
    → ◌≡◌ {A = Text × Place} (u, f) (v, g)
unfolding place_path
same_place base u v (in_sessions f) (in_sessions g) hu hv pf pg same =
    let e = sym (path_of-component base u f hu pf) ∙ same ∙ path_of-component base v g hv pg in
    let users : u ≡ v = cc e in cc (users, names_apart f g (cc e))
same_place base u v (in_archive n) (in_archive m) hu hv pf pg same =
    let e =
      sym (in_archive-component base u n hu pf) ∙ same ∙ in_archive-component base v m hv pg in
    let users : u ≡ v = cc e in let names : n ≡ m = cc e in cc (users, names)
same_place base u v (in_archive n) (in_sessions g) hu hv pf pg same = absurd (
    segments_apart n (name_of g) _ _
      (sym (in_archive-component base u n hu pf) ∙ same ∙ path_of-component base v g hv pg))
same_place base u v (in_sessions f) (in_archive m) hu hv pf pg same = absurd (
    segments_apart m (name_of f) _ _
      (sym (in_archive-component base v m hv pg) ∙ sym same ∙ path_of-component base u f hu pf))

-- No two files of the store have the same path: not those of two users, nor two of one user, of the
-- transcripts, locks, metadata, index and archives. The user ids and the names in the archive are single
-- segments of a path, and the session ids have no slash.
pub paths_apart :
    (base : Segments) (u v : Text) (f g : Place)
    → is_component u ≡ true
    → is_component v ≡ true
    → IsPlain f
    → IsPlain g
    → ◌≢◌ {A = Text × Place} (u, f) (v, g)
    → place_path base u f ≢ place_path base v g
paths_apart base u v f g hu hv pf pg apart same = apart (same_place base u v f g hu hv pf pg same)
