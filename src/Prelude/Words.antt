-- ===== src/Prelude/Words.antt =====
-- size_t of a 64-bit target: sums and differences wrap at 2^64.
use Prim.Native.Nat.{ℕ, ◌+◌, ◌-◌, ◌*◌, ◌%◌, ◌^◌}

abbrev pub size_mod : ℕ
size_mod = 2 ^ 64

abbrev pub size_add : ℕ → ℕ → ℕ
size_add a b = (a + b) % size_mod

abbrev pub size_sub : ℕ → ℕ → ℕ
size_sub a b = (a + size_mod - b) % size_mod

abbrev pub size_mul : ℕ → ℕ → ℕ
size_mul a b = a * b % size_mod

-- `~a`
abbrev pub size_not : ℕ → ℕ
size_not a = size_mod - 1 - a
