-- ===== src/Prelude/GoMap.antt =====
-- A Go map as an association list. Go's iteration order is unspecified; what the program computes
-- by iterating is stated through `lookup`, which does not see the order.
use Prim.Native.Nat.{ℕ, ◌+◌}
use mathlib.Core.Path.{◌≡◌, refl}
use mathlib.Core.Logic.{◌≢◌}
use mathlib.Core.Option.{Option, none, some}
use mathlib.Core.List.{List, [], ◌∷◌}
use native.Mathlib.Omega.{arith}
use open_nipper.Prelude.Tests.{if◌then◌else◌}
use open_nipper.Prelude.Equality.{Eq, ◌==◌}

abbrev pub Dict {ℓ κ} : Type ℓ → Type κ → Type (ℓ ⊔ κ)
Dict K V = List (K × V)

abbrev pub size_at {ℓ} : {V : Type ℓ} → (V → ℕ) → Option V → ℕ
size_at size none = 0
size_at size (some v) = size v

module _ {ℓ κ} {K : Type ℓ} {V : Type κ} ⦃e : Eq K⦄ where
  -- x, ok := d[a]
  unfoldable pub lookup : K → Dict K V → Option V
  lookup a [] = none
  lookup a ((b, x) ∷ d) = if b == a then some x else lookup a d

  -- d[a] = x
  unfoldable pub insert : K → V → Dict K V → Dict K V
  insert a x [] = (a, x) ∷ []
  insert a x ((b, y) ∷ d) = if b == a then (a, x) ∷ d else (b, y) ∷ insert a x d

  -- delete(d, a)
  unfoldable pub remove : K → Dict K V → Dict K V
  remove a [] = []
  remove a ((b, x) ∷ d) = let rest = remove a d in if b == a then rest else (b, x) ∷ rest

  -- for a, x := range d { delete d[a], or d[a] = x' }
  unfoldable pub sweep : (K → V → Option V) → Dict K V → Dict K V
  sweep f [] = []
  sweep f ((b, x) ∷ d) =
      let rest = sweep f d in elim (f b x) [ none ↦ rest | some y ↦ (b, y) ∷ rest ]

  -- Every key stands once.
  abbrev pub Unique : Dict K V → Type κ
  Unique [] = Unit
  Unique ((a, x) ∷ d) = (lookup a d ≡ none) × Unique d

  abbrev pub sweep_at : (K → V → Option V) → K → Option V → Option V
  sweep_at f a none = none
  sweep_at f a (some x) = f a x

  pub lookup-insert :
      (a b : K) (x : V) (d : Dict K V)
      → lookup b (insert a x d) ≡ (if a == b then some x else lookup b d)
  unfolding lookup insert
  lookup-insert a b x [] = refl
  lookup-insert a b x ((z, y) ∷ d) =
      ground (arith, e.agrees_iff a b, e.agrees_iff z a, e.agrees_iff z b, lookup-insert a b x d)

  pub lookup-remove :
      (a b : K) (d : Dict K V) → lookup b (remove a d) ≡ (if a == b then none else lookup b d)
  unfolding lookup remove
  lookup-remove a b [] = ground arith
  lookup-remove a b ((z, y) ∷ d) =
      ground (arith, e.agrees_iff a b, e.agrees_iff z a, e.agrees_iff z b, lookup-remove a b d)

  pub lookup-insert_self : (a : K) (x : V) (d : Dict K V) → lookup a (insert a x d) ≡ some x
  lookup-insert_self a x d = ground (arith, lookup-insert a a x d, e.agrees_iff a a)

  pub lookup-insert_ne :
      (a b : K) (x : V) (d : Dict K V) → a ≢ b → lookup b (insert a x d) ≡ lookup b d
  lookup-insert_ne a b x d h = ground (arith, lookup-insert a b x d, e.agrees_iff a b)

  pub lookup-remove_self : (a : K) (d : Dict K V) → lookup a (remove a d) ≡ none
  lookup-remove_self a d = ground (arith, lookup-remove a a d, e.agrees_iff a a)

  pub lookup-remove_ne : (a b : K) (d : Dict K V) → a ≢ b → lookup b (remove a d) ≡ lookup b d
  lookup-remove_ne a b d h = ground (arith, lookup-remove a b d, e.agrees_iff a b)

  pub lookup-sweep-none :
      (f : K → V → Option V) (a : K) (d : Dict K V)
      → lookup a d ≡ none
      → lookup a (sweep f d) ≡ none
  unfolding lookup sweep
  lookup-sweep-none f a [] h = refl
  lookup-sweep-none f a ((b, x) ∷ d) h = ground (arith, lookup-sweep-none f a d)

  pub lookup-sweep :
      (f : K → V → Option V) (a : K) (d : Dict K V)
      → Unique d
      → lookup a (sweep f d) ≡ sweep_at f a (lookup a d)
  unfolding lookup sweep
  lookup-sweep f a [] h = refl
  lookup-sweep f a ((b, x) ∷ d) h =
      ground (arith, e.agrees_iff b a, lookup-sweep f a d, lookup-sweep-none f a d)

  pub insert-Unique : (a : K) (x : V) (d : Dict K V) → Unique d → Unique (insert a x d)
  unfolding lookup insert
  insert-Unique a x [] h = ground arith
  insert-Unique a x ((b, y) ∷ d) h =
      ground (arith, e.agrees_iff b a, e.agrees_iff a b, insert-Unique a x d, lookup-insert a b x d)

  pub remove-Unique : (a : K) (d : Dict K V) → Unique d → Unique (remove a d)
  unfolding remove
  remove-Unique a [] h = tt
  remove-Unique a ((b, y) ∷ d) h = ground (arith, remove-Unique a d, lookup-remove a b d)

  pub sweep-Unique : (f : K → V → Option V) (d : Dict K V) → Unique d → Unique (sweep f d)
  unfolding sweep
  sweep-Unique f [] h = tt
  sweep-Unique f ((b, y) ∷ d) h = ground (arith, sweep-Unique f d, lookup-sweep-none f b d)

  pub remove_absent : (a : K) (d : Dict K V) → lookup a d ≡ none → remove a d ≡ d
  unfolding lookup remove
  remove_absent a [] h = refl
  remove_absent a ((b, x) ∷ d) h = ground (arith, remove_absent a d)

  -- The total of a measure over the values.
  unfoldable pub total : (V → ℕ) → Dict K V → ℕ
  total size [] = 0
  total size ((a, x) ∷ d) = size x + total size d

  pub total-insert :
      (size : V → ℕ) (a : K) (x : V) (d : Dict K V)
      → total size (insert a x d) + size_at size (lookup a d) ≡ total size d + size x
  unfolding lookup insert total
  total-insert size a x [] = omega arith
  total-insert size a x ((b, y) ∷ d) = ground (arith, total-insert size a x d)

  pub total-remove :
      (size : V → ℕ) (a : K) (d : Dict K V)
      → Unique d
      → total size (remove a d) + size_at size (lookup a d) ≡ total size d
  unfolding lookup remove total
  total-remove size a [] h = omega arith
  total-remove size a ((b, y) ∷ d) h =
      ground (arith, e.agrees_iff b a, total-remove size a d, remove_absent a d)

  -- len(d)
  abbrev pub count : Dict K V → ℕ
  count [] = 0
  count (p ∷ d) = count d + 1
