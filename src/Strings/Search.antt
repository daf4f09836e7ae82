-- ===== src/Strings/Search.antt =====
-- Prefixes and first occurrences.
use open_nipper.Prelude.{
  inr, inl, ℕ, ◌≡◌, refl, sym, ap, ◌∙◌, codes, ◌⊎◌, inl, inr, false, Option, none, some, [], ◌∷◌,
  ◌++◌, arith, Text, All, ◌==◌, nat_eq, nat_beq_iff,
}
use open_nipper.Strings.{after_prefix, cut_at, push_left, first_or}

-- No character of the text is a colon.
abbrev pub IsColonFree : Text → Type 0
IsColonFree = All (λ c. (c == b':') ≡ false)

pub after_prefix-append : (p s : Text) → after_prefix p (p ++ s) ≡ some s
unfolding after_prefix
after_prefix-append [] s = refl
after_prefix-append (c ∷ p) s = ground (arith, nat_beq_iff c c, after_prefix-append p s)

pub append_of_after_prefix : (p s r : Text) → after_prefix p s ≡ some r → s ≡ p ++ r
unfolding after_prefix
append_of_after_prefix [] s r h = ground arith
append_of_after_prefix (c ∷ p) [] r h = ground arith
append_of_after_prefix (c ∷ p) (d ∷ s) r h = ground (arith, append_of_after_prefix p s r)

push_left-some :
    (c : ℕ) (o : Option (Text × Text)) (l r : Text)
    → push_left c o ≡ some (l, r)
    → (t : Text) × (o ≡ some (t, r)) × (l ≡ c ∷ t)
push_left-some c none l r h = absurd (cc)
push_left-some c (some (t, r')) l r h = (t, ground arith, ground arith)

first_or-some :
    (o : Option Text) (later : Option (Text × Text)) (l r : Text)
    → first_or o later ≡ some (l, r)
    → ((o ≡ some r) × (l ≡ [])) ⊎ (later ≡ some (l, r))
first_or-some none later l r h = inr h
first_or-some (some rest) later l r h = inl (ground arith, ground arith)

pub append_of_cut_at : (m s l r : Text) → cut_at m s ≡ some (l, r) → s ≡ l ++ (m ++ r)
unfolding cut_at
append_of_cut_at m [] l r h = ground (arith, append_of_after_prefix m [] r)
append_of_cut_at m (c ∷ s) l r h =
    elim (first_or-some (after_prefix m (c ∷ s)) (push_left c (cut_at m s)) l r h) [
      | inl here ↦ cc (append_of_after_prefix m (c ∷ s) r here.0, here.1)
      | inr later ↦
          let (t, found, eq) = push_left-some c (cut_at m s) l r later in
          cc (append_of_cut_at m s t r found, eq)
    ]

-- A marker that begins with a colon is found behind a text without colons.
pub cut_at-append :
    (m l r : Text) → IsColonFree l → cut_at (b':' ∷ m) (l ++ ((b':' ∷ m) ++ r)) ≡ some (l, r)
unfolding cut_at after_prefix
cut_at-append m [] r h = rw (after_prefix-append m r)
cut_at-append m (c ∷ l) r h = rw (h.0, cut_at, after_prefix) (rw (cut_at-append m l r h.1))

-- Texts that are equal are equal on both sides of their first colons.
pub colon_split :
    (l l' r r' : Text)
    → IsColonFree l
    → IsColonFree l'
    → l ++ (codes ":" ++ r) ≡ l' ++ (codes ":" ++ r')
    → (l ≡ l') × (r ≡ r')
colon_split l l' r r' h h' e =
    let same : some (l, r) ≡ some (l', r') =
      sym (cut_at-append [] l r h) ∙ ap (cut_at (codes ":")) e ∙ cut_at-append [] l' r' h' in
    (cc same, cc same)
