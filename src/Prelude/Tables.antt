-- ===== src/Prelude/Tables.antt =====
-- Facts about all small numbers, by evaluation.
use Prim.Native.Nat.{ℕ, zero, suc, ◌<◌}
use mathlib.Core.Path.{◌≡◌}
use mathlib.Core.Bool.{Bool, true, ◌&&◌}
use native.Mathlib.Omega.{arith}
use rtcp.Prelude.Tests.{◌==◌}

unfoldable pub all_below : ℕ → (ℕ → Bool) → Bool
all_below zero p = true
all_below (suc n) p = p n && all_below n p

all_below_lem : (n : ℕ) (p : ℕ → Bool) (x : ℕ) → all_below n p ≡ true → x < n → p x ≡ true
unfolding all_below
all_below_lem zero p x h lt = absurd (omega arith)
all_below_lem (suc n) p x h lt = ground (arith, all_below_lem n p x)

-- A table of the values of `f` that are their own arguments.
pub table_lem : (n : ℕ) (f : ℕ → ℕ) (x : ℕ) → all_below n (λ y. f y == y) ≡ true → x < n → f x ≡ x
table_lem n f x h lt = let e = all_below_lem n (λ y. f y == y) x h lt in ground (arith, e)
