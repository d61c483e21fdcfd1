-- ===== src/Pool/Chain.antt =====
-- The free list: the pointers that lead from one block to the next, down to nullptr.
use c_web_socket_client_with.Prelude.{
  ℕ, zero, suc, ◌+◌, ◌*◌, ◌<◌, ◌≡◌, refl, ap, sym, subst, ◌∙◌, ◌≢◌, List, [], ◌∷◌, arith, ==-true,
  ==-false, size_sub,
}
use c_web_socket_client_with.Pool.{
  Params, MemoryPool, write, aligned_block_size, link_blocks, allocate,
}
use c_web_socket_client_with.Pool.Blocks.{count, blocks}

-- From `p` the stored pointers lead through the addresses `xs` to nullptr.
abbrev pub Chain : (ℕ → ℕ) → ℕ → List ℕ → Type 0
Chain cells p [] = (p ≡ 0) × Unit {0}
Chain cells p (x ∷ xs) = (p ≡ x) × (x ≢ 0) × Chain cells (cells x) xs

-- A write outside the chain leaves it as it is.
pub Chain-write :
    (cells : ℕ → ℕ) (p a v : ℕ) (xs : List ℕ)
    → count a xs ≡ 0
    → Chain cells p xs
    → Chain (write cells a v) p xs
unfolding write
Chain-write cells p a v [] h c = c
Chain-write cells p a v (x ∷ xs) h c = (
  c.0,
  c.1,
  subst (λ q. Chain (write cells a v) q xs) (sym kept)
      (Chain-write cells (cells x) a v xs (ground arith) c.2),
)
  where
    kept : write cells a v x ≡ cells x
    kept = ground arith

-- Linking a block in front of a chain that does not hold it.
pub Chain-push :
    (cells : ℕ → ℕ) (p a : ℕ) (xs : List ℕ)
    → a ≢ 0
    → count a xs ≡ 0
    → Chain cells p xs
    → Chain (write cells a p) a (a ∷ xs)
unfolding write
Chain-push cells p a xs nz new c = (
  refl,
  nz,
  subst (λ q. Chain (write cells a p) q xs) (sym stored) (Chain-write cells p a p xs new c),
)
  where
    stored : write cells a p a ≡ p
    stored = ground arith

-- The loop of the constructor puts the first `n` blocks in front, in order of address.
pub link_blocks-Chain :
    (k : Params) (n : ℕ) (m : MemoryPool) (xs : List ℕ)
    → 0 < m.storage
    → 0 < aligned_block_size k
    → ((a : ℕ) → a < m.storage + n * aligned_block_size k → count a xs ≡ 0)
    → Chain m.cells m.free_head xs
    → Chain
        (link_blocks k n m).cells
        (link_blocks k n m).free_head
        (blocks m.storage (aligned_block_size k) n xs)
unfolding link_blocks
link_blocks-Chain k zero m xs nz pos above c = c
link_blocks-Chain k (suc n) m xs nz pos above c =
    link_blocks-Chain k n (record m { cells = write m.cells block m.free_head; free_head = block })
      (block ∷ xs) nz pos (λ a lt. ground (arith, above a))
      (Chain-push m.cells m.free_head block xs (omega arith) (above block (omega arith)) c)
  where
    block : ℕ
    block = m.storage + n * aligned_block_size k

pub storage-link_blocks :
    (k : Params) (n : ℕ) (m : MemoryPool) → (link_blocks k n m).storage ≡ m.storage
unfolding link_blocks
storage-link_blocks k zero m = refl
storage-link_blocks k (suc n) m = storage-link_blocks k n _

module _ (m : MemoryPool) where
  pub allocate-nil : Chain m.cells m.free_head [] → allocate m ≡ (0, m)
  unfolding allocate
  allocate-nil c = rw (==-true (c.0))

  pub allocate-cons :
      (x : ℕ) (xs : List ℕ)
      → Chain m.cells m.free_head (x ∷ xs)
      → allocate m ≡ (x, record m { free_head = m.cells x; free_count = size_sub m.free_count 1 })
  unfolding allocate
  allocate-cons x xs c =
      let nz : m.free_head ≢ 0 = λ e. c.1 (sym (c.0) ∙ e) in rw (==-false nz) (ap popped (c.0))
    where
      popped : ℕ → ℕ × MemoryPool
      popped p = (p, record m { free_head = m.cells p; free_count = size_sub m.free_count 1 })
