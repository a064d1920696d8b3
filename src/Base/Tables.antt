-- ===== src/Base/Tables.antt =====
-- A statement about all bytes, proved by evaluating it at each one.
use Prim.Native.Nat.{ℕ, zero, suc, ◌<◌}
use mathlib.Core.Path.{◌≡◌}
use mathlib.Core.Bool.{Bool, true, ◌&&◌}
use native.Mathlib.Omega.{arith}

unfoldable pub holds_below : ℕ → (ℕ → Bool) → Bool
holds_below zero test = true
holds_below (suc n) test = test n && holds_below n test

pub holds_below_at :
    (n : ℕ) (test : ℕ → Bool) (b : ℕ) → holds_below n test ≡ true → b < n → test b ≡ true
unfolding holds_below
holds_below_at zero test b h lt = absurd (omega arith)
holds_below_at (suc n) test b h lt = ground (arith, holds_below_at n test b)
