-- ===== src/Base/Enumerate.antt =====
-- A test that passes at every number below a small bound, found out by running it.
use Prim.Native.Nat.{ℕ, zero, suc, ◌<◌}
use mathlib.Core.Path.{◌≡◌}
use mathlib.Core.Bool.{Bool, true, cond, false}
use native.Mathlib.Omega.{arith}

unfoldable pub passes : (ℕ → Bool) → ℕ → Bool
passes test zero = true
passes test (suc bound) = cond (test bound) (passes test bound) false

pub passes_lem :
    (test : ℕ → Bool) (bound : ℕ) → passes test bound ≡ true → (x : ℕ) → x < bound → test x ≡ true
unfolding passes
passes_lem test zero run x below = absurd (omega arith)
passes_lem test (suc bound) run x below =
    ground (arith, λ (r : passes test bound ≡ true) (b : x < bound). passes_lem test bound r x b)
