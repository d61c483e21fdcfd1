-- ===== src/Manager/Backoff.antt =====
-- The waiting times of include/connection_manager.h, `reconnect_loop`.
use Prim.Native.String.{String}
use native.Mathlib.Nat.{div-lt_iff_lt-mul, pow-suc, div-one}
use c_web_socket_client_with.Prelude.{
  ℕ, zero, suc, ◌*◌, ◌/◌, ◌^◌, ◌≤◌, ◌<◌, ◌≡◌, some, arith, min, lt→ltb,
}
use c_web_socket_client_with.Manager.{ConnectionConfig, default_config}
use c_web_socket_client_with.Manager.Loops.{scaled_backoff}

-- Settings for which no conversion to uint32_t is undefined.
pub record IsTame (c : ConnectionConfig) : Type 0 where
  pub den_pos : 0 < c.multiplier_den
  pub initial_fits : c.initial_backoff_ms * c.multiplier_num < 2 ^ 32 * c.multiplier_den
  pub max_fits : c.max_backoff_ms * c.multiplier_num < 2 ^ 32 * c.multiplier_den

-- The backoff of attempt `k + 1`.
abbrev pub backoff : ConnectionConfig → ℕ → ℕ
backoff c zero = c.initial_backoff_ms
backoff c (suc k) = min (backoff c k * c.multiplier_num / c.multiplier_den) c.max_backoff_ms

backoff-bound :
    (c : ConnectionConfig)
    → IsTame c
    → (k : ℕ) → backoff c k * c.multiplier_num < 2 ^ 32 * c.multiplier_den
backoff-bound c t zero = t.initial_fits
backoff-bound c t (suc k) =
    below (backoff c (suc k)) c.max_backoff_ms c.multiplier_num (omega arith) t.max_fits
  where
    below : (a b n : ℕ) {m : ℕ} → a ≤ b → b * n < m → a * n < m
    below a b n h l = grind arith

-- Every conversion that the loop makes is defined.
pub scaled_backoff-defined :
    (c : ConnectionConfig)
    → IsTame c
    → (k : ℕ)
    → scaled_backoff c (backoff c k) ≡ some (backoff c k * c.multiplier_num / c.multiplier_den)
unfolding scaled_backoff
scaled_backoff-defined c t k =
    rw (lt→ltb _ _ ((div-lt_iff_lt-mul t.den_pos).1 (backoff-bound c t k)))

-- With the multiplier 2 and an initial backoff within the maximum, the backoff doubles from attempt
-- to attempt until it reaches the maximum, and stays there.
pub backoff_doubles :
    (c : ConnectionConfig)
    → c.multiplier_num ≡ 2
    → c.multiplier_den ≡ 1
    → c.initial_backoff_ms ≤ c.max_backoff_ms
    → (k : ℕ) → backoff c k ≡ min (c.initial_backoff_ms * 2 ^ k) c.max_backoff_ms
backoff_doubles c n d h zero = omega arith
backoff_doubles c n d h (suc k) =
    rw (n, d, backoff_doubles c n d h k, pow-suc 2 k, div-one) (omega arith)

pub default-IsTame : (host port : String) → IsTame (default_config host port)
default-IsTame host port = omega arith
