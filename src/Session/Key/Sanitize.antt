-- ===== src/Session/Key/Sanitize.antt =====
-- What sanitizing makes of any text.
use open_nipper.Prelude.{ℕ, ◌≡◌, refl, true, false, [], ◌∷◌, arith, Text, ◌==◌, nat_eq, ap}
use open_nipper.Session.Key.{
  is_safe, replace_unsafe, trim_left, trim_right, cons_trimmed, or_default, default_id,
  sanitize_session_id,
}
use open_nipper.Session.Key.Safe.{IsClean, AllSafe, starts_with_dash, ends_with_dash}

replace_unsafe-AllSafe : (s : Text) → AllSafe (replace_unsafe s)
unfolding replace_unsafe
replace_unsafe-AllSafe [] = tt
replace_unsafe-AllSafe (c ∷ s) = ground (arith, replace_unsafe-AllSafe s)

trim_left-AllSafe : (s : Text) → AllSafe s → AllSafe (trim_left s)
unfolding trim_left
trim_left-AllSafe [] h = tt
trim_left-AllSafe (c ∷ s) h = ground (arith, trim_left-AllSafe s)

starts-trim_left : (s : Text) → starts_with_dash (trim_left s) ≡ false
unfolding trim_left
starts-trim_left [] = refl
starts-trim_left (c ∷ s) = ground (arith, starts-trim_left s)

cons_trimmed-AllSafe :
    (c : ℕ) (s : Text) → is_safe c ≡ true → AllSafe s → AllSafe (cons_trimmed c s)
cons_trimmed-AllSafe c [] p h = ground arith
cons_trimmed-AllSafe c (d ∷ s) p h = (p, h)

trim_right-AllSafe : (s : Text) → AllSafe s → AllSafe (trim_right s)
unfolding trim_right
trim_right-AllSafe [] h = tt
trim_right-AllSafe (c ∷ s) h = cons_trimmed-AllSafe c (trim_right s) h.0 (trim_right-AllSafe s h.1)

ends-cons_trimmed :
    (c : ℕ) (s : Text) → ends_with_dash s ≡ false → ends_with_dash (cons_trimmed c s) ≡ false
ends-cons_trimmed c [] h = ground arith
ends-cons_trimmed c (d ∷ s) h = h

ends-trim_right : (s : Text) → ends_with_dash (trim_right s) ≡ false
unfolding trim_right
ends-trim_right [] = refl
ends-trim_right (c ∷ s) = ends-cons_trimmed c (trim_right s) (ends-trim_right s)

starts-cons_trimmed :
    (c : ℕ) (s : Text) → (c == b'-') ≡ false → starts_with_dash (cons_trimmed c s) ≡ false
starts-cons_trimmed c [] h = ground arith
starts-cons_trimmed c (d ∷ s) h = h

starts-trim_right :
    (s : Text) → starts_with_dash s ≡ false → starts_with_dash (trim_right s) ≡ false
unfolding trim_right
starts-trim_right [] h = refl
starts-trim_right (c ∷ s) h = starts-cons_trimmed c (trim_right s) h

or_default-IsClean :
    (s : Text)
    → AllSafe s
    → starts_with_dash s ≡ false
    → ends_with_dash s ≡ false
    → IsClean (or_default s)
unfolding is_safe
or_default-IsClean [] h p q = ground arith
or_default-IsClean (c ∷ s) h p q = record { not_empty = refl; safe = h; first = p; last = q }

default-IsClean : IsClean default_id
unfolding is_safe
default-IsClean = ground arith

-- Whatever the text, its sanitized form is a file name component: not empty, made of ASCII
-- letters, digits, dashes and underscores, with no dash at either end.
pub sanitize-IsClean : (s : Text) → IsClean (sanitize_session_id s)
unfolding sanitize_session_id
sanitize-IsClean [] = default-IsClean
sanitize-IsClean (c ∷ s) =
    let trimmed = trim_left (replace_unsafe (c ∷ s)) in
    or_default-IsClean (trim_right trimmed)
      (trim_right-AllSafe trimmed (trim_left-AllSafe _ (replace_unsafe-AllSafe (c ∷ s))))
      (starts-trim_right trimmed (starts-trim_left (replace_unsafe (c ∷ s))))
      (ends-trim_right trimmed)

replace_unsafe_safe : (s : Text) → AllSafe s → replace_unsafe s ≡ s
unfolding replace_unsafe
replace_unsafe_safe [] h = refl
replace_unsafe_safe (c ∷ s) h = rw (h.0, replace_unsafe) (ap (◌∷◌ c) (replace_unsafe_safe s h.1))

trim_left_clean : (s : Text) → starts_with_dash s ≡ false → trim_left s ≡ s
unfolding trim_left
trim_left_clean [] h = refl
trim_left_clean (c ∷ s) h = rw h

trim_right_clean : (s : Text) → ends_with_dash s ≡ false → trim_right s ≡ s
unfolding trim_right
trim_right_clean [] h = refl
trim_right_clean (c ∷ []) h = rw h
trim_right_clean (c ∷ d ∷ s) h = ap (cons_trimmed c) (trim_right_clean (d ∷ s) h)

clean_fixed : (s : Text) → IsClean s → sanitize_session_id s ≡ s
unfolding sanitize_session_id
clean_fixed [] h = absurd (cc (h.not_empty))
clean_fixed (c ∷ s) h =
    rw (replace_unsafe_safe (c ∷ s) h.safe, trim_left_clean (c ∷ s) h.first)
      (rw (trim_right_clean (c ∷ s) h.last))

-- Sanitizing twice is sanitizing once.
pub sanitize_idem : (s : Text) → sanitize_session_id (sanitize_session_id s) ≡ sanitize_session_id s
sanitize_idem s = clean_fixed (sanitize_session_id s) (sanitize-IsClean s)
