-- ===== src/Session/Store/Paths/Names.antt =====
-- The names and the paths of the files of a session.
use open_nipper.Prelude.{
  ℕ, ◌≡◌, ◌≢◌, refl, sym, ap, ◌∙◌, inl, inr, Bool, true, false, ◌||◌, [], ◌∷◌, ◌++◌, arith, Text,
  codes, is_empty, ◌==◌, nat_eq, list_eq, list_beq_iff, if_false, Bool-cases,
}
use mathlib.Core.List.{append_cancel_right, append_assoc}
use open_nipper.Session.Store.Paths.{
  Segments, split, enter, walk, join, user_dir, sessions_dir, transcript_path, lock_path, meta_path,
  index_path, with_char, has_slash, is_component,
}

-- The files of a user that are not in the archive.
pub data File : Type 0 where
  transcript_file lock_file meta_file : Text → File
  index_file : File

unfoldable pub path_of : Segments → Text → File → Segments
path_of base user (transcript_file id) = transcript_path base user id
path_of base user (lock_file id) = lock_path base user id
path_of base user (meta_file id) = meta_path base user id
path_of base user index_file = index_path base user

-- A session id without a slash.
abbrev pub IsPlainFile : File → Type 0
IsPlainFile (transcript_file id) = has_slash id ≡ false
IsPlainFile (lock_file id) = has_slash id ≡ false
IsPlainFile (meta_file id) = has_slash id ≡ false
IsPlainFile index_file = Unit

pub neither : (a b : Bool) → (a || b) ≡ false → (a ≡ false) × (b ≡ false)
neither a b h = ground (arith, h)

split_whole : (s : Text) → has_slash s ≡ false → split s ≡ s ∷ []
unfolding split has_slash
split_whole [] h = refl
split_whole (c ∷ s) h =
    if_false _ _ (neither (c == b'/') (has_slash s) h).0
    ∙ ap (with_char c) (split_whole s (neither (c == b'/') (has_slash s) h).1)

has_slash-append :
    (s t : Text) → has_slash s ≡ false → has_slash t ≡ false → has_slash (s ++ t) ≡ false
unfolding has_slash
has_slash-append [] t h k = k
has_slash-append (c ∷ s) t h k = ground (arith, has_slash-append s t)

pub enter_component : (s : Text) (path : Segments) → is_component s ≡ true → enter s path ≡ s ∷ path
unfolding enter is_component
enter_component s path h = ground (arith, h)

pub unslashed : (s : Text) → is_component s ≡ true → has_slash s ≡ false
unfolding is_component
unslashed s h = ground (arith, h)

pub join_component : (s : Text) (path : Segments) → is_component s ≡ true → join path s ≡ s ∷ path
unfolding join walk
join_component s path h =
    ap (λ segments. walk segments path) (split_whole s (unslashed s h)) ∙ enter_component s path h

unfoldable pub last_char : ℕ → Text → ℕ
last_char d [] = d
last_char d (c ∷ s) = last_char c s

last_char-append : (d : ℕ) (s t : Text) → last_char d (s ++ t) ≡ last_char (last_char d s) t
unfolding last_char
last_char-append d [] t = refl
last_char-append d (c ∷ s) t = last_char-append c s t

empty_end : (s : Text) → is_empty s ≡ true → last_char 0 s ≡ 0
unfolding last_char
empty_end [] h = refl
empty_end (c ∷ s) h = absurd (cc h)

-- A text that ends in another character than a dot is a segment, if it has no slash.
ending-component :
    (s : Text) (c : ℕ)
    → has_slash s ≡ false
    → last_char 0 s ≡ c
    → c ≢ 0
    → c ≢ b'.'
    → is_component s ≡ true
unfolding is_component last_char
ending-component s c whole ends some_char no_dot = elim (Bool-cases (is_empty s)) [
  | inl e ↦ absurd (some_char (sym ends ∙ empty_end s e))
  | inr named ↦ elim (Bool-cases (s == codes ".")) [
    | inl one ↦ absurd (no_dot (sym ends ∙ ap (last_char 0) ((list_beq_iff s (codes ".")).0 one)))
    | inr other ↦ elim (Bool-cases (s == codes "..")) [
      | inl two ↦
          absurd (no_dot (sym ends ∙ ap (last_char 0) ((list_beq_iff s (codes "..")).0 two)))
      | inr neither_dots ↦ rw (named, other, neither_dots, whole) refl
    ]
  ]
]

-- The name of a file in its directory.
unfoldable pub name_of : File → Text
name_of (transcript_file id) = id ++ codes ".jsonl"
name_of (lock_file id) = id ++ codes ".jsonl.lock"
name_of (meta_file id) = id ++ codes ".meta.json"
name_of index_file = codes "sessions.json"

name-component : (f : File) → IsPlainFile f → is_component (name_of f) ≡ true
unfolding name_of last_char has_slash is_component
name-component (transcript_file id) plain =
    ending-component (id ++ codes ".jsonl") b'l' (has_slash-append id (codes ".jsonl") plain refl)
      (last_char-append 0 id (codes ".jsonl")) (λ e. absurd (omega (arith, e)))
      (λ e. absurd (omega (arith, e)))
name-component (lock_file id) plain =
    ending-component (id ++ codes ".jsonl.lock") b'k'
      (has_slash-append id (codes ".jsonl.lock") plain refl)
      (last_char-append 0 id (codes ".jsonl.lock")) (λ e. absurd (omega (arith, e)))
      (λ e. absurd (omega (arith, e)))
name-component (meta_file id) plain =
    ending-component (id ++ codes ".meta.json") b'n'
      (has_slash-append id (codes ".meta.json") plain refl)
      (last_char-append 0 id (codes ".meta.json")) (λ e. absurd (omega (arith, e)))
      (λ e. absurd (omega (arith, e)))
name-component index_file plain = refl

path_of-name :
    (base : Segments) (user : Text) (f : File)
    → path_of base user f ≡ join (sessions_dir base user) (name_of f)
unfolding path_of name_of transcript_path lock_path meta_path index_path
path_of-name base user (transcript_file id) = refl
path_of-name base user (lock_file id) = refl
path_of-name base user (meta_file id) = refl
path_of-name base user index_file = refl

pub sessions_dir-component :
    (base : Segments) (user : Text)
    → is_component user ≡ true
    → sessions_dir base user ≡ codes "sessions" ∷ user ∷ codes "users" ∷ base
unfolding sessions_dir user_dir is_component has_slash
sessions_dir-component base user h =
    ap (λ d. join (join d user) (codes "sessions")) (join_component (codes "users") base refl)
    ∙ ap (λ d. join d (codes "sessions")) (join_component user (codes "users" ∷ base) h)
    ∙ join_component (codes "sessions") _ refl

pub path_of-component :
    (base : Segments) (user : Text) (f : File)
    → is_component user ≡ true
    → IsPlainFile f
    → path_of base user f ≡ name_of f ∷ codes "sessions" ∷ user ∷ codes "users" ∷ base
path_of-component base user f h plain =
    path_of-name base user f
    ∙ ap (λ d. join d (name_of f)) (sessions_dir-component base user h)
    ∙ join_component (name_of f) _ (name-component f plain)

-- How it ends.
ending : File → ℕ
ending (transcript_file id) = b'l'
ending (lock_file id) = b'k'
ending (meta_file id) = b'n'
ending index_file = b'n'

end-name : (f : File) → last_char 0 (name_of f) ≡ ending f
unfolding name_of last_char ending
end-name (transcript_file id) = last_char-append 0 id (codes ".jsonl")
end-name (lock_file id) = last_char-append 0 id (codes ".jsonl.lock")
end-name (meta_file id) = last_char-append 0 id (codes ".meta.json")
end-name index_file = refl

same_end : (f g : File) → name_of f ≡ name_of g → ending f ≡ ending g
same_end f g h = sym (end-name f) ∙ ap (last_char 0) h ∙ end-name g

-- No session's meta file is called as the index.
meta_not_index : (id : Text) → name_of (meta_file id) ≢ name_of index_file
unfolding name_of last_char
meta_not_index id h =
    let cut =
      append_cancel_right (id ++ codes ".meta") (codes "sessions") (codes ".json")
        (append_assoc id (codes ".meta") (codes ".json") ∙ h) in
    absurd (omega (arith, sym (last_char-append 0 id (codes ".meta")) ∙ ap (last_char 0) cut))

-- Files with one name are the same.
pub names_apart : (f g : File) → name_of f ≡ name_of g → f ≡ g
unfolding name_of ending
names_apart (transcript_file i) (transcript_file j) h =
    ap transcript_file (append_cancel_right i j (codes ".jsonl") h)
names_apart (lock_file i) (lock_file j) h =
    ap lock_file (append_cancel_right i j (codes ".jsonl.lock") h)
names_apart (meta_file i) (meta_file j) h =
    ap meta_file (append_cancel_right i j (codes ".meta.json") h)
names_apart index_file index_file h = refl
names_apart (meta_file i) index_file h = absurd (meta_not_index i h)
names_apart index_file (meta_file j) h = absurd (meta_not_index j (sym h))
names_apart (transcript_file i) (lock_file j) h =
    absurd (omega (arith, same_end (transcript_file i) (lock_file j) h))
names_apart (transcript_file i) (meta_file j) h =
    absurd (omega (arith, same_end (transcript_file i) (meta_file j) h))
names_apart (transcript_file i) index_file h =
    absurd (omega (arith, same_end (transcript_file i) index_file h))
names_apart (lock_file i) (transcript_file j) h =
    absurd (omega (arith, same_end (lock_file i) (transcript_file j) h))
names_apart (lock_file i) (meta_file j) h =
    absurd (omega (arith, same_end (lock_file i) (meta_file j) h))
names_apart (lock_file i) index_file h = absurd (omega (arith, same_end (lock_file i) index_file h))
names_apart (meta_file i) (transcript_file j) h =
    absurd (omega (arith, same_end (meta_file i) (transcript_file j) h))
names_apart (meta_file i) (lock_file j) h =
    absurd (omega (arith, same_end (meta_file i) (lock_file j) h))
names_apart index_file (transcript_file j) h =
    absurd (omega (arith, same_end index_file (transcript_file j) h))
names_apart index_file (lock_file j) h = absurd (omega (arith, same_end index_file (lock_file j) h))
