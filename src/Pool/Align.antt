-- ===== src/Pool/Align.antt =====
-- The block size that include/memory_pool.h works with: BlockSize rounded up to the alignment.
use native.Mathlib.Nat.{mul-mod_left, mod-lt, div-add-mod, div-lt_iff_lt-mul, mod-eq_of_lt}
use c_web_socket_client_with.Prelude.{
  ℕ, zero, suc, ◌+◌, ◌-◌, ◌*◌, ◌/◌, ◌%◌, ◌^◌, ◌≤◌, ◌<◌, ◌≡◌, ap, ap₂, sym, ◌∙◌, arith, bit_and,
  size_mod, size_add, size_sub,
}
use c_web_socket_client_with.Prelude.Bits.{
  bit_and-mask, bit_and-shift, pow-add, pow_pos, exponent_small,
}
use c_web_socket_client_with.Pool.{Params, aligned_block_size}

-- The static_asserts, and what the platform gives: an alignment is a power of two.
pub record IsParams (k : Params) : Type 0 where
  pub pointer_fits : 8 ≤ k.block_size
  pub some_blocks : 0 < k.num_blocks
  pub exponent : ℕ
  pub aligned : k.max_align ≡ 2 ^ exponent
  pub small : k.block_size + k.max_align < size_mod

pred_mul : (y k : ℕ) → 0 < y → (y - 1) * k + k ≡ y * k
pred_mul zero k h = absurd (omega arith)
pred_mul (suc y) k h = let low : suc y - 1 ≡ y = omega arith in omega (arith, ap (λ t. t * k) low)

-- Clearing the low `e` bits of a size_t.
round_down : (e x : ℕ) → e < 64 → x < size_mod → bit_and x (size_mod - 2 ^ e) ≡ x / 2 ^ e * 2 ^ e
round_down e x small h =
    ap (bit_and x) ones
    ∙ bit_and-shift e x (2 ^ (64 - e) - 1)
    ∙ ap (λ t. t * 2 ^ e) (bit_and-mask (64 - e) (x / 2 ^ e) ∙ mod-eq_of_lt fits)
  where
    whole : 64 - e + e ≡ 64
    whole = omega arith

    total : 2 ^ (64 - e) * 2 ^ e ≡ size_mod
    total = sym (pow-add (64 - e) e) ∙ ap (λ t. 2 ^ t) whole

    ones : size_mod - 2 ^ e ≡ (2 ^ (64 - e) - 1) * 2 ^ e
    ones = omega (arith, total, pred_mul (2 ^ (64 - e)) (2 ^ e) (pow_pos (64 - e)))

    fits : x / 2 ^ e < 2 ^ (64 - e)
    fits = (div-lt_iff_lt-mul (pow_pos e)).1 (omega (arith, total))

-- `kAlignedBlockSize` is the least multiple of the alignment, a power of two, that holds a block,
-- for sizes that do not wrap around.
pub aligned_block_size_lem :
    (k : Params)
    → IsParams k
    → (aligned_block_size k % k.max_align ≡ 0)
      × (k.block_size ≤ aligned_block_size k)
      × (aligned_block_size k < k.block_size + k.max_align)
unfolding aligned_block_size
aligned_block_size_lem k v = (
  ap (λ t. t % k.max_align) rounded ∙ mul-mod_left (sum / k.max_align) k.max_align,
  omega (arith, rounded, div-add-mod sum k.max_align, mod-lt sum {m = k.max_align} positive),
  omega (arith, rounded, div-add-mod sum k.max_align),
)
  where
    sum : ℕ
    sum = k.block_size + k.max_align - 1

    positive : 0 < k.max_align
    positive = rw v.aligned (pow_pos v.exponent)

    small : v.exponent < 64
    small = exponent_small v.exponent (omega (arith, v.aligned, v.small))

    rounded : aligned_block_size k ≡ sum / k.max_align * k.max_align
    rounded =
        ap₂ bit_and {x = size_sub (size_add k.block_size k.max_align) 1} {y = sum}
          (omega (arith, v.small)) (omega (arith, v.small, v.aligned, positive))
        ∙ round_down v.exponent sum small (omega (arith, v.small))
        ∙ ap (λ t. sum / t * t) (sym v.aligned)
