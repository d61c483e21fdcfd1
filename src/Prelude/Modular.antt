-- ===== src/Prelude/Modular.antt =====
-- Remainders: offsets round a ring.
use Prim.Native.Nat.{ℕ, ◌+◌, ◌-◌, ◌%◌, ◌≤◌, ◌<◌}
use mathlib.Core.Path.{◌≡◌}
use mathlib.Core.Logic.{◌≢◌}
use native.Mathlib.Omega.{arith}

-- One reduction round the ring.
pub mod_ring : (c x : ℕ) → x < c + c → 0 < c → (x < c → x % c ≡ x) × (c ≤ x → x % c ≡ x - c)
mod_ring c x h p = grind arith

-- Fewer than `c` steps round the ring do not come back to the start.
pub offsets_ne : (c h i j : ℕ) → h < c → i < j → j < c → (h + i) % c ≢ (h + j) % c
offsets_ne c h i j hc ij jc e = grind (
  arith,
  mod_ring c (h + i) (omega arith) (omega arith),
  mod_ring c (h + j) (omega arith) (omega arith),
)
