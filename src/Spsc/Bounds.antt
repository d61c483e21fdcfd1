-- ===== src/Spsc/Bounds.antt =====
-- The indices of the ring: no size_t sum wraps, no access leaves the array, and the mask is a remainder.
use native.Mathlib.Nat.{add-mul-mod_self_left, mod-eq_of_lt}
use c_web_socket_client_with.Prelude.{
  ℕ, zero, suc, ◌+◌, ◌-◌, ◌*◌, ◌%◌, ◌^◌, ◌<◌, ◌≡◌, ap, sym, ◌∙◌, ◌↔◌, true, arith, dec_lt, bit_and,
  size_mod, size_sub,
}
use c_web_socket_client_with.Prelude.Bits.{
  bit_and-mask, OneBit-is_pow, OneBit-pow, pow-add, pow_pos, exponent_small,
}
use c_web_socket_client_with.Prelude.Modular.{mod_ring}
use c_web_socket_client_with.Spsc.{is_power_of_two, next_index, mask}

-- The static_assert admits exactly the powers of two.
pub is_power_of_two_iff : (n : ℕ) → (is_power_of_two n ≡ true) ↔ ((k : ℕ) × (n ≡ 2 ^ k))
unfolding is_power_of_two
is_power_of_two_iff n = (
  λ h. OneBit-is_pow n (ground arith) (ground arith),
  λ p. ground (arith, p.1, pow_pos p.0, OneBit-pow p.0),
)

-- A remainder is known from a multiple taken off.
mod_of_multiple : (x n m z : ℕ) → n < m → x ≡ n + m * z → x % m ≡ n
mod_of_multiple x n m z h e = ap (λ t. t % m) e ∙ add-mul-mod_self_left n m z ∙ mod-eq_of_lt h

one_fewer : (c q m : ℕ) → m ≡ c * q → 0 < m → c * (q - 1) + c ≡ m
one_fewer c zero m e h = absurd (omega arith)
one_fewer c (suc q) m e h =
    let low : suc q - 1 ≡ q = omega arith in omega (arith, ap (λ t. c * t) low)

-- What the compiler checks of `Capacity`, a size_t.
pub record IsCapacity (cap : ℕ) : Type 0 where
  pub power : is_power_of_two cap ≡ true
  pub fits : cap < size_mod

module _ {cap : ℕ} (c : IsCapacity cap) where
  bit_and-cap : (x : ℕ) → bit_and x (cap - 1) ≡ x % cap
  bit_and-cap x = let (k, e) = (is_power_of_two_iff cap).0 c.power in rw e (bit_and-mask k x)

  pub cap_pos : 0 < cap
  cap_pos = let (k, e) = (is_power_of_two_iff cap).0 c.power in omega (arith, pow_pos k)

  -- `Capacity` divides 2^64.
  size_mod_multiple : (q : ℕ) × (size_mod ≡ cap * q)
  size_mod_multiple =
      let (k, e) = (is_power_of_two_iff cap).0 c.power in
      let small : k < 64 = exponent_small k (omega (arith, c.fits)) in
      let split : 64 ≡ k + (64 - k) = omega arith in
      (
        2 ^ (64 - k),
        ap (λ t. 2 ^ t) split ∙ pow-add k (64 - k) ∙ ap (λ t. t * 2 ^ (64 - k)) (sym e),
      )

  -- `(i + 1) & kMask` neither wraps nor leaves the array.
  pub next_index-mod : (i : ℕ) → i < cap → next_index cap i ≡ (i + 1) % cap
  unfolding next_index
  next_index-mod i h = bit_and-cap ((i + 1) % size_mod) ∙ ap (λ t. t % cap) (omega (arith, c.fits))

  -- `(tail - head) & kMask` is the distance round the ring, though the difference wraps at 2^64.
  pub distance-mod :
      (h n : ℕ) → h < cap → n < cap → bit_and (size_sub ((h + n) % cap) h) (mask cap) ≡ n
  distance-mod h n hh hn = bit_and-cap (size_sub ((h + n) % cap) h) ∙ elim (dec_lt (h + n) cap) [
    | yes p ↦
        mod_of_multiple _ n cap 0 hn
          (omega (arith, c.fits, (mod_ring cap (h + n) (omega arith) (omega arith)).0 p))
    | no p ↦ mod_of_multiple _ n cap (size_mod_multiple.0 - 1) hn (
        omega (
          arith,
          c.fits,
          (mod_ring cap (h + n) (omega arith) (omega arith)).1 (omega arith),
          one_fewer cap size_mod_multiple.0 size_mod size_mod_multiple.1 (omega arith),
        ))
  ]
