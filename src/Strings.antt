-- ===== src/Strings.antt =====
-- What the program uses of Go's packages `strings` and `unicode`.
pub mod Search
use open_nipper.Prelude.{
  ℕ, zero, suc, ◌+◌, ◌≡◌, refl, Bool, true, false, ◌&&◌, ◌||◌, Option, none, some, List, [], ◌∷◌,
  ◌++◌, Text, codes, is_empty, ◌==◌, nat_eq, leb, if◌then◌else◌,
}

-- strings.HasPrefix, with what stands behind the prefix.
unfoldable pub after_prefix : Text → Text → Option Text
after_prefix [] s = some s
after_prefix (p ∷ ps) [] = none
after_prefix (p ∷ ps) (c ∷ s) = if c == p then after_prefix ps s else none

abbrev pub push_left : ℕ → Option (Text × Text) → Option (Text × Text)
push_left c none = none
push_left c (some (left, right)) = some (c ∷ left, right)

abbrev pub first_or : Option Text → Option (Text × Text) → Option (Text × Text)
first_or none later = later
first_or (some rest) later = some ([], rest)

-- strings.Index with the two slices that the code cuts there: what stands in front of the first
-- occurrence of the marker, and what stands behind it.
unfoldable pub cut_at : Text → Text → Option (Text × Text)
cut_at marker [] = first_or (after_prefix marker []) none
cut_at marker (c ∷ s) = first_or (after_prefix marker (c ∷ s)) (push_left c (cut_at marker s))

unfoldable pub between : ℕ → ℕ → ℕ → Bool
between lo hi c = leb lo c && leb c hi

-- unicode.IsSpace
unfoldable pub is_space : ℕ → Bool
unfolding between
is_space c =
    between 9 13 c
    || ((c == 32)
        || ((c == 0x85)
            || ((c == 0xA0)
                || ((c == 0x1680)
                    || (between 0x2000 0x200A c
                        || (between 0x2028 0x2029 c
                            || ((c == 0x202F) || ((c == 0x205F) || (c == 0x3000)))))))))

-- strings.TrimSpace
unfoldable pub trim_space_left : Text → Text
unfolding is_space
trim_space_left [] = []
trim_space_left (c ∷ s) = if is_space c then trim_space_left s else c ∷ s

unfoldable pub cons_unless_space : ℕ → Text → Text
unfolding is_space
cons_unless_space c [] = if is_space c then [] else c ∷ []
cons_unless_space c (d ∷ s) = c ∷ d ∷ s

unfoldable pub trim_space_right : Text → Text
unfolding cons_unless_space
trim_space_right [] = []
trim_space_right (c ∷ s) = cons_unless_space c (trim_space_right s)

unfoldable pub trim_space : Text → Text
unfolding trim_space_left trim_space_right
trim_space s = trim_space_right (trim_space_left s)

-- unicode.ToLower where its result is ASCII: the letters A to Z, U+0130 and U+212A. The program
-- compares lowered text with ASCII text only, so other letters may stay as they are.
unfoldable pub lower : ℕ → ℕ
unfolding between
lower c =
    if between b'A' b'Z' c
    then c + 32
    else if c == 0x130
    then b'i'
    else if c == 0x212A
    then b'k'
    else c

unfoldable pub to_lower : Text → Text
unfolding lower
to_lower [] = []
to_lower (c ∷ s) = lower c ∷ to_lower s

-- strings.HasPrefix(s, prefix)
unfoldable pub has_prefix : Text → Text → Bool
unfolding after_prefix
has_prefix prefix s = elim (after_prefix prefix s) [ none ↦ false | some rest ↦ true ]
