-- ===== src/Prelude/Table.antt =====
-- Checks of every value of a small range, by evaluation.
use Prim.Native.Nat.{ℕ, zero, suc, ◌<◌}
use mathlib.Core.Path.{◌≡◌}
use mathlib.Core.Bool.{Bool, true, ◌&&◌}
use native.Mathlib.Omega.{arith}

unfoldable pub all_below : ℕ → (ℕ → Bool) → Bool
all_below zero p = true
all_below (suc n) p = p n && all_below n p

pub all_below_sound : (k : ℕ) (p : ℕ → Bool) (n : ℕ) → all_below k p ≡ true → n < k → p n ≡ true
unfolding all_below
all_below_sound zero p n h lt = absurd (omega arith)
all_below_sound (suc k) p n h lt = ground (arith, all_below_sound k p n)
