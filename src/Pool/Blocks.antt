-- ===== src/Pool/Blocks.antt =====
-- The blocks of a pool: `size` apart, from `base` on.
use c_web_socket_client_with.Prelude.{
  ℕ, zero, suc, ◌+◌, ◌*◌, ◌≤◌, ◌<◌, ◌≡◌, ap, sym, ◌∙◌, List, [], ◌∷◌, arith, ◌==◌, if◌then◌else◌,
  length, dec_lt, ℕ_discrete,
}

-- How often an address stands in a list.
abbrev pub count : ℕ → List ℕ → ℕ
count a [] = 0
count a (x ∷ xs) = (if a == x then 1 else 0) + count a xs

-- Takes one occurrence out.
unfoldable pub remove : ℕ → List ℕ → List ℕ
remove a [] = []
remove a (x ∷ xs) = if a == x then xs else x ∷ remove a xs

pub count-remove :
    (a b : ℕ) (xs : List ℕ)
    → 0 < count b xs
    → count a (remove b xs) + (if a == b then 1 else 0) ≡ count a xs
unfolding remove
count-remove a b [] h = absurd (omega arith)
count-remove a b (x ∷ xs) h = ground (arith, count-remove a b xs)

pub length-remove : (b : ℕ) (xs : List ℕ) → 0 < count b xs → suc (length (remove b xs)) ≡ length xs
unfolding remove
length-remove b [] h = absurd (omega arith)
length-remove b (x ∷ xs) h = ground (arith, length-remove b xs)

mul_mono : (i j s : ℕ) → i < j → i * s + s ≤ j * s
mul_mono i j s h = grind arith

same_multiple : (i j s : ℕ) → i * s ≤ j * s → j * s < i * s + s → i ≡ j
same_multiple i j s lo hi = elim (dec_lt i j) [
  | yes p ↦ absurd (omega (arith, mul_mono i j s p))
  | no p ↦ elim (dec_lt j i) [
    | yes q ↦ absurd (omega (arith, mul_mono j i s q))
    | no q ↦ omega arith
  ]
]

module _ (base size : ℕ) where
  -- 1 if `a` is one of the first `n` blocks, else 0.
  abbrev pub block_count : ℕ → ℕ → ℕ
  block_count zero a = 0
  block_count (suc n) a = (if a == base + n * size then 1 else 0) + block_count n a

  -- The first `n` blocks in order, then `xs`.
  abbrev pub blocks : ℕ → List ℕ → List ℕ
  blocks zero xs = xs
  blocks (suc n) xs = blocks n ((base + n * size) ∷ xs)

  pub count-blocks : (n a : ℕ) (xs : List ℕ) → count a (blocks n xs) ≡ block_count n a + count a xs
  count-blocks zero a xs = omega arith
  count-blocks (suc n) a xs = ground (arith, count-blocks n a ((base + n * size) ∷ xs))

  pub length-blocks : (n : ℕ) (xs : List ℕ) → length (blocks n xs) ≡ n + length xs
  length-blocks zero xs = omega arith
  length-blocks (suc n) xs = omega (arith, length-blocks n ((base + n * size) ∷ xs))

  -- The index of a block.
  pub block_index : (n a : ℕ) → 0 < block_count n a → (i : ℕ) × (i < n) × (a ≡ base + i * size)
  block_index zero a h = absurd (omega arith)
  block_index (suc n) a h = elim (ℕ_discrete a (base + n * size)) [
    | yes e ↦ (n, omega arith, e)
    | no ne ↦ let (i, lt, e) = block_index n a (ground arith) in (i, omega arith, e)
  ]

  module _ (positive : 0 < size) where
    pub block_bounds : (n a : ℕ) → 0 < block_count n a → (base ≤ a) × (a + size ≤ base + size * n)
    block_bounds n a h = let (i, lt, e) = block_index n a h in (omega arith, grind arith)

    pub block_count-le : (n a : ℕ) → block_count n a ≤ 1
    block_count-le zero a = omega arith
    block_count-le (suc n) a = ground (arith, block_count-le n a, block_bounds n a)

    -- An address inside a block starts no other block.
    pub inside_block :
        (n a b : ℕ) → 0 < block_count n a → 0 < block_count n b → a ≤ b → b < a + size → a ≡ b
    inside_block n a b ha hb lo hi =
        let (i, _, ea) = block_index n a ha in
        let (j, _, eb) = block_index n b hb in
        ea ∙ ap (λ k. base + k * size) (same_multiple i j size (omega arith) (omega arith)) ∙ sym eb
