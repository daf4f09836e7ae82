-- ===== src/Prelude/Ints.antt =====
-- Go's `int` where a value may be negative: configuration numbers, exit codes, priorities. No
-- operation of the modelled code adds or multiplies them, so none can overflow.
use Prim.Native.Nat.{ℕ}
use mathlib.Core.Bool.{Bool, true}
use open_nipper.Prelude.Tests.{leb, ltb, if◌then◌else◌}

pub data ℤ : Type 0 where
  pos : ℕ → ℤ
  negsuc : ℕ → ℤ

-- i <= n, for a length n
abbrev pub int_leb : ℤ → ℕ → Bool
int_leb (pos i) n = leb i n
int_leb (negsuc i) n = true

-- The value of i if i > 0, and d otherwise.
abbrev pub positive_or : ℕ → ℤ → ℕ
positive_or d (pos i) = if ltb 0 i then i else d
positive_or d (negsuc i) = d
