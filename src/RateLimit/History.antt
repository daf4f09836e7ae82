-- ===== src/RateLimit/History.antt =====
-- Pruning a sorted list of events, against counting those since a time.
use open_nipper.Prelude.{
  ℕ, ◌≤◌, ◌≡◌, refl, List, [], ◌∷◌, ◌++◌, ltb, if◌then◌else◌, list_eq, nat_eq, All, arith,
  Bool-cases, inl, inr,
}
use open_nipper.RateLimit.{prune}

-- All events from a time on, wherever they stand.
unfoldable pub since : ℕ → List ℕ → List ℕ
since c [] = []
since c (e ∷ es) = let rest = since c es in if ltb e c then rest else e ∷ rest

abbrev pub IsSorted : List ℕ → Type 0
IsSorted [] = Unit
IsSorted (e ∷ es) = All (λ x. e ≤ x) es × IsSorted es

since-All : (c : ℕ) (es : List ℕ) → All (λ x. c ≤ x) es → since c es ≡ es
unfolding since
since-All c [] h = refl
since-All c (e ∷ es) h = ground (arith, since-All c es)

All-weaken : (c d : ℕ) (es : List ℕ) → c ≤ d → All (λ x. d ≤ x) es → All (λ x. c ≤ x) es
All-weaken c d [] h a = tt
All-weaken c d (e ∷ es) h a = (ground arith, All-weaken c d es h a.1)

-- On a sorted history, pruning what an earlier cutoff left gives what the later cutoff leaves.
pub prune-since : (c d : ℕ) (es : List ℕ) → IsSorted es → c ≤ d → prune d (since c es) ≡ since d es
unfolding prune since
prune-since c d [] s h = refl
prune-since c d (e ∷ es) s h = elim (Bool-cases (ltb e c)) [
  | inl p ↦ ground (arith, prune-since c d es)
  | inr p ↦ elim (Bool-cases (ltb e d)) [
    | inl q ↦ ground (arith, prune-since c d es)
    | inr q ↦ ground (
      arith,
      since-All c es (All-weaken c e es (ground arith) s.0),
      since-All d es (All-weaken d e es (ground arith) s.0),
    )
  ]
]

pub since-snoc : (c t : ℕ) (es : List ℕ) → c ≤ t → since c (es ++ t ∷ []) ≡ since c es ++ t ∷ []
unfolding since
since-snoc c t [] h = ground arith
since-snoc c t (e ∷ es) h = ground (arith, since-snoc c t es)

pub All-snoc :
    (t : ℕ) (es : List ℕ) (u : ℕ) → All (λ x. x ≤ t) es → t ≤ u → All (λ x. x ≤ u) (es ++ u ∷ [])
All-snoc t [] u a h = (ground arith, tt)
All-snoc t (e ∷ es) u a h = (ground arith, All-snoc t es u a.1 h)

pub All-later : (t u : ℕ) (es : List ℕ) → t ≤ u → All (λ x. x ≤ t) es → All (λ x. x ≤ u) es
All-later t u [] h a = tt
All-later t u (e ∷ es) h a = (ground arith, All-later t u es h a.1)

pub IsSorted-snoc :
    (es : List ℕ) (u : ℕ) → All (λ x. x ≤ u) es → IsSorted es → IsSorted (es ++ u ∷ [])
IsSorted-snoc [] u a s = (tt, tt)
IsSorted-snoc (e ∷ es) u a s = (extend es s.0, IsSorted-snoc es u a.1 s.1)
  where
    extend : (xs : List ℕ) → All (λ x. e ≤ x) xs → All (λ x. e ≤ x) (xs ++ u ∷ [])
    extend [] b = (a.0, tt)
    extend (x ∷ xs) b = (b.0, extend xs b.1)
