-- ===== src/Session/Key/Safe.antt =====
-- Texts that sanitizing leaves as they are.
use open_nipper.Prelude.{
  ℕ, ◌≡◌, Bool, true, false, [], ◌∷◌, arith, Text, All, is_empty, ◌==◌, nat_eq,
}
use open_nipper.Session.Key.{is_safe}
use open_nipper.Strings.Search.{IsColonFree}

abbrev pub starts_with_dash : Text → Bool
starts_with_dash [] = false
starts_with_dash (c ∷ s) = c == b'-'

abbrev pub ends_with_dash : Text → Bool
ends_with_dash [] = false
ends_with_dash (c ∷ []) = c == b'-'
ends_with_dash (c ∷ d ∷ s) = ends_with_dash (d ∷ s)

abbrev pub AllSafe : Text → Type 0
AllSafe = All (λ c. is_safe c ≡ true)

-- A file name component: not empty, of safe characters, with no dash at either end.
pub record IsClean (s : Text) : Type 0 where
  pub not_empty : is_empty s ≡ false
  pub safe : AllSafe s
  pub first : starts_with_dash s ≡ false
  pub last : ends_with_dash s ≡ false

colon_unsafe : (c : ℕ) → is_safe c ≡ true → (c == b':') ≡ false
unfolding is_safe
colon_unsafe c h = ground arith

pub AllSafe-IsColonFree : (s : Text) → AllSafe s → IsColonFree s
AllSafe-IsColonFree [] h = tt
AllSafe-IsColonFree (c ∷ s) h = (colon_unsafe c h.0, AllSafe-IsColonFree s h.1)
