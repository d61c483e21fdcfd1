-- ===== src/Prelude/Bits.antt =====
-- Bitwise `and` at variables: the law of the lowest bit, masks of the form 2^k - 1, and the test
-- `n & (n - 1)` for a power of two.
use Prim.Native.Nat.{
  ℕ, zero, suc, ◌+◌, ◌-◌, ◌*◌, ◌/◌, ◌%◌, ◌^◌, ◌≤◌, ◌<◌, min, bit_and, digits, bit_and-bitwise,
}
use mathlib.Core.Path.{◌≡◌, refl, sym, ap, ap₂, subst, ◌∙◌}
use native.Mathlib.Nat.{
  pow-le-pow_right, pow-suc, mod-lt, div-add-mod, add-mul-mod_self_left, mod-eq_of_lt, mod_self,
  div-div-eq-div-mul, mul-one, div-one, add-zero, add-suc, mul_assoc,
}
use native.Mathlib.Decide.{ℕ_discrete, dec_lt}
use native.Mathlib.Omega.{arith}

-- What the native operation stands for, with the fuel as an argument.
abbrev and_fuel : ℕ → ℕ → ℕ → ℕ
and_fuel f = digits (λ b. zero) min f

and_fuel-any : (f g a b : ℕ) → a ≤ f → a ≤ g → and_fuel f a b ≡ and_fuel g a b
and_fuel-any zero zero a b p q = refl
and_fuel-any zero (suc g) zero b p q = refl
and_fuel-any zero (suc g) (suc a) b p q = absurd (omega arith)
and_fuel-any (suc f) zero zero b p q = refl
and_fuel-any (suc f) zero (suc a) b p q = absurd (omega arith)
and_fuel-any (suc f) (suc g) zero b p q = refl
and_fuel-any (suc f) (suc g) (suc a) b p q =
    omega (arith, and_fuel-any f g (suc a / 2) (b / 2) (omega arith) (omega arith))

zero-bit_and : (b : ℕ) → bit_and 0 b ≡ 0
zero-bit_and b = bit_and-bitwise 0 b

pub bit_and_low : (a b : ℕ) → bit_and a b ≡ bit_and (a / 2) (b / 2) * 2 + min (a % 2) (b % 2)
bit_and_low zero b = omega (arith, zero-bit_and b, zero-bit_and (b / 2))
bit_and_low (suc a) b = omega (
  arith,
  bit_and-bitwise (suc a) b,
  bit_and-bitwise (suc a / 2) (b / 2),
  and_fuel-any a (suc a / 2) (suc a / 2) (b / 2) (omega arith) (omega arith),
)

bit_and-zero_le : (f a : ℕ) → a ≤ f → bit_and a 0 ≡ 0
bit_and-zero_le f zero h = refl
bit_and-zero_le zero (suc a) h = absurd (omega arith)
bit_and-zero_le (suc f) (suc a) h =
    omega (arith, bit_and_low (suc a) 0, bit_and-zero_le f (suc a / 2) (omega arith))

pub bit_and-zero : (a : ℕ) → bit_and a 0 ≡ 0
bit_and-zero a = bit_and-zero_le a a (omega arith)

bit_and_self_le : (f a : ℕ) → a ≤ f → bit_and a a ≡ a
bit_and_self_le f zero h = refl
bit_and_self_le zero (suc a) h = absurd (omega arith)
bit_and_self_le (suc f) (suc a) h =
    omega (arith, bit_and_low (suc a) (suc a), bit_and_self_le f (suc a / 2) (omega arith))

pub bit_and_self : (a : ℕ) → bit_and a a ≡ a
bit_and_self a = bit_and_self_le a a (omega arith)

pub pow_pos : (k : ℕ) → 0 < 2 ^ k
pow_pos zero = omega arith
pow_pos (suc k) = omega (arith, pow-suc 2 k, pow_pos k)

-- Taking the lowest bit off a remainder by an even number.
mod_low : (x m : ℕ) → 0 < m → x % (m * 2) ≡ x / 2 % m * 2 + x % 2
mod_low x m h =
    ap (λ t. t % (m * 2)) split
    ∙ add-mul-mod_self_left (x / 2 % m * 2 + x % 2) (m * 2) (x / 2 / m)
    ∙ mod-eq_of_lt (omega (arith, mod-lt (x / 2) h))
  where
    split : x ≡ x / 2 % m * 2 + x % 2 + m * 2 * (x / 2 / m)
    split = omega (arith, div-add-mod (x / 2) m)

mask_low :
    (x m : ℕ) → 0 < m → bit_and (x / 2) (m - 1) ≡ x / 2 % m → bit_and x (m * 2 - 1) ≡ x % (m * 2)
mask_low x m h ih = omega (arith, bit_and_low x (m * 2 - 1), halves, mod_low x m h)
  where
    halves : bit_and (x / 2) ((m * 2 - 1) / 2) ≡ bit_and (x / 2) (m - 1)
    halves = ap (bit_and (x / 2)) (omega arith)

-- `x & (2^k - 1)` is the remainder by `2^k`.
pub bit_and-mask : (k x : ℕ) → bit_and x (2 ^ k - 1) ≡ x % 2 ^ k
bit_and-mask zero x = omega (arith, bit_and-zero x)
bit_and-mask (suc k) x = rw (pow-suc 2 k) (mask_low x (2 ^ k) (pow_pos k) (bit_and-mask k (x / 2)))

-- A mask that ends in `k` zeros reads the bits above them.
pub bit_and-shift : (k x y : ℕ) → bit_and x (y * 2 ^ k) ≡ bit_and (x / 2 ^ k) y * 2 ^ k
bit_and-shift zero x y = rw (mul-one, mul-one, div-one)
bit_and-shift (suc k) x y = rw (pow-suc 2 k) (shift_low x y (2 ^ k) (bit_and-shift k (x / 2) y))
  where
    shift_low :
        (x y m : ℕ)
        → bit_and (x / 2) (y * m) ≡ bit_and (x / 2 / m) y * m
        → bit_and x (y * (m * 2)) ≡ bit_and (x / (m * 2)) y * (m * 2)
    shift_low x y m ih =
        let halves : bit_and (x / 2) (y * (m * 2) / 2) ≡ bit_and (x / 2) (y * m) =
          ap (bit_and (x / 2)) (omega arith) in
        let joined : bit_and (x / 2 / m) y ≡ bit_and (x / (m * 2)) y =
          ap (λ t. bit_and t y) (div-div-eq-div-mul x 2 m ∙ ap (λ t. x / t) (omega arith)) in
        let even : y * (m * 2) % 2 ≡ 0 = omega arith in
        let product : bit_and (x / 2 / m) y * m ≡ bit_and (x / (m * 2)) y * m =
          ap (λ t. t * m) joined in
        omega (arith, bit_and_low x (y * (m * 2)), halves, product)

-- `2^(k + j)` as a product.
pub pow-add : (k j : ℕ) → 2 ^ (k + j) ≡ 2 ^ k * 2 ^ j
pow-add k zero = rw (add-zero, mul-one)
pow-add k (suc j) = rw (add-suc, pow-suc, pow-suc, pow-add k j, mul_assoc)

-- A power of two that is a size_t.
pub exponent_small : (k : ℕ) → 2 ^ k < 2 ^ 64 → k < 64
exponent_small k h = elim (dec_lt k 64) [
  | yes p ↦ p
  | no p ↦
      absurd (omega (arith, pow-le-pow_right {n = 2} (omega arith) {i = 64} {j = k} (omega arith)))
]

-- The test for a power of two: one bit is set.
abbrev pub OneBit : ℕ → Type 0
OneBit n = bit_and n (n - 1) ≡ 0

pub OneBit-pow : (k : ℕ) → bit_and (2 ^ k) (2 ^ k - 1) ≡ 0
OneBit-pow k = bit_and-mask k (2 ^ k) ∙ mod_self (2 ^ k)

OneBit_even : (m : ℕ) → bit_and (m * 2) (m * 2 - 1) ≡ 0 → bit_and m (m - 1) ≡ 0
OneBit_even zero h = refl
OneBit_even (suc m) h =
    omega
      (arith, bit_and_low (suc m * 2) (suc m * 2 - 1), ap₂ bit_and (twice (suc m)) (below (suc m)))
  where
    twice : (m : ℕ) → m * 2 / 2 ≡ m
    twice m = omega arith

    below : (m : ℕ) → (m * 2 - 1) / 2 ≡ m - 1
    below m = omega arith

OneBit_odd : (m : ℕ) → bit_and (m * 2 + 1) (m * 2) ≡ 0 → m ≡ 0
OneBit_odd m h =
    omega (arith, bit_and_low (m * 2 + 1) (m * 2), ap₂ bit_and odd even, bit_and_self m)
  where
    odd : (m * 2 + 1) / 2 ≡ m
    odd = omega arith

    even : m * 2 / 2 ≡ m
    even = omega arith

OneBit-exponent : (f n : ℕ) → n ≤ f → 0 < n → OneBit n → (k : ℕ) × (n ≡ 2 ^ k)
OneBit-exponent zero n b p h = absurd (omega arith)
OneBit-exponent (suc f) n b p h = elim (ℕ_discrete (n % 2) 0) [
  | yes even ↦
      let m = n / 2 in
      let whole : n ≡ m * 2 = omega arith in
      let (k, e) =
        OneBit-exponent f m (omega arith) (omega arith) (OneBit_even m (subst OneBit whole h)) in
      (suc k, whole ∙ ap (λ t. t * 2) e ∙ sym (pow-suc 2 k))
  | no odd ↦
      let m = n / 2 in
      let whole : n ≡ m * 2 + 1 = omega arith in
      let gone : m ≡ 0 = OneBit_odd m (rw (before m) at (subst OneBit whole h)) in (0, omega arith)
]
  where
    before : (m : ℕ) → m * 2 + 1 - 1 ≡ m * 2
    before m = omega arith

-- The exponent of a number that passes the test.
pub OneBit-is_pow : (n : ℕ) → 0 < n → OneBit n → (k : ℕ) × (n ≡ 2 ^ k)
OneBit-is_pow n = OneBit-exponent n n (omega arith)
