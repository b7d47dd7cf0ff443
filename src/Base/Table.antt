-- ===== src/Base/Table.antt =====
-- Finite tables: a test that holds of every number below a bound, decided by evaluation.
use Prim.Native.Nat.{ℕ, zero, suc, ◌<◌}
use mathlib.Core.Path.{◌≡◌}
use mathlib.Core.Bool.{Bool, true, ◌&&◌}
use native.Mathlib.Omega.{arith}

unfoldable pub all_below : (bound : ℕ) (test : ℕ → Bool) → Bool
all_below zero test = true
all_below (suc last) test = all_below last test && test last

-- What a table that came out true says of one of its numbers.
pub all_below_sound :
    (bound : ℕ) (test : ℕ → Bool) (row : ℕ)
    → all_below bound test ≡ true
    → row < bound
    → test row ≡ true
unfolding all_below
all_below_sound zero test row checked inside = absurd (omega arith)
all_below_sound (suc last) test row checked inside = ground (all_below_sound last test row, arith)
