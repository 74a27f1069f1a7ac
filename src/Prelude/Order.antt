-- ===== src/Prelude/Order.antt =====
-- The order of the native numbers is well founded, for loops without fuel and strong induction.
use Prim.Native.Nat.{ℕ, zero, suc, ◌<◌}
use mathlib.Core.WellFounded.{Acc, WellFounded}
use native.Mathlib.Omega.{arith}

Acc-lt : (k n : ℕ) → n < k → Acc ◌<◌ n
Acc-lt zero n h = absurd (omega arith)
Acc-lt (suc k) n h = Acc.intro n (λ m hm. Acc-lt k m (omega arith))

unfoldable pub lt_wf : WellFounded ◌<◌
unfolding Acc-lt
lt_wf = record { apply = λ n. Acc-lt (suc n) n (omega arith) }
