-- ===== src/Prelude/Words.antt =====
-- Machine words are native numbers, and wrap by `%`.
use Prim.Native.Nat.{ℕ, ◌+◌, ◌-◌, ◌%◌, ◌^◌, ◌<◌}
use mathlib.Core.Path.{◌∙◌}
use mathlib.Core.Logic.{◌≢◌}
use native.Mathlib.Nat.{mod-add-mod, mod-eq_of_lt, mod-eq-sub-mod}
use native.Mathlib.Decide.{dec_lt}
use native.Mathlib.Omega.{arith}

-- The value of an unsigned expression of 16 and of 32 bits.
abbrev pub u16 : ℕ → ℕ
u16 n = n % 2 ^ 16

abbrev pub u32 : ℕ → ℕ
u32 n = n % 2 ^ 32

-- `a - b` on 32 bits.
abbrev pub sub32 : ℕ → ℕ → ℕ
sub32 a b = (a + 2 ^ 32 - b) % 2 ^ 32

-- Adding less than `c` to a place `r < c` either stays below `c`, or goes round once.
around : (c r d : ℕ) → r < c → 0 < d → d < c → (r + d) % c ≢ r
around c r d hr h k = elim (dec_lt (r + d) c) [
  | yes below ↦ omega (arith, mod-eq_of_lt below)
  | no past ↦ omega (
    arith,
    mod-eq-sub-mod {n = r + d} {m = c} (omega arith),
    mod-eq_of_lt {n = r + d - c} {m = c} (omega arith),
  )
]

-- Fewer than `c` steps round a circle of `c` places do not come back to the start.
pub mod-add-ne : (c a d : ℕ) → 0 < d → d < c → (a + d) % c ≢ a % c
mod-add-ne c a d h k e = around c (a % c) d (omega arith) h k (mod-add-mod a c d ∙ e)
