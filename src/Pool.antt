-- ===== src/Pool.antt =====
-- include/memory_pool.h: MemoryPool<BlockSize, NumBlocks>. An address is a number and 0 is nullptr.
-- `cells` is the memory as the pool reads and writes it: the pointer stored at each address.
pub mod Blocks
pub mod Align
pub mod Chain
pub mod Invariant
pub mod Client
pub mod Ptr
mod Tests
use c_web_socket_client_with.Prelude.{
  ℕ, zero, suc, ◌+◌, ◌-◌, ◌*◌, Bool, Option, none, some, ◌&&◌, ◌==◌, ltb, leb, if◌then◌else◌,
  bit_and, size_add, size_sub, size_mul, size_not,
}

-- The template arguments, and alignof(std::max_align_t).
pub record Params : Type 0 where
  pub block_size : ℕ
  pub num_blocks : ℕ
  pub max_align : ℕ

pub record MemoryPool : Type 0 where
  pub storage : ℕ
  pub cells : ℕ → ℕ
  pub free_head : ℕ
  pub free_count : ℕ

-- `*reinterpret_cast<void**>(p) = v`
unfoldable pub write : (ℕ → ℕ) → ℕ → ℕ → ℕ → ℕ
write cells p v a = if a == p then v else cells a

-- `kAlignedBlockSize`
unfoldable pub aligned_block_size : Params → ℕ
aligned_block_size k =
    bit_and (size_sub (size_add k.block_size k.max_align) 1) (size_not (size_sub k.max_align 1))

-- The loop of the constructor, with `i` rounds to go: each links the block before the last one.
unfoldable pub link_blocks : Params → ℕ → MemoryPool → MemoryPool
link_blocks k zero m = m
link_blocks k (suc i) m =
    let block = m.storage + i * aligned_block_size k in
    link_blocks k i (record m { cells = write m.cells block m.free_head; free_head = block })

-- The constructor. `storage` is what `make_unique` returns, over the memory `cells`.
unfoldable pub new : Params → ℕ → (ℕ → ℕ) → MemoryPool
unfolding link_blocks
new k storage cells =
    let linked =
      link_blocks k k.num_blocks
        (record { storage = storage; cells = cells; free_head = 0; free_count = 0 }) in
    record linked { free_count = k.num_blocks }

unfoldable pub allocate : MemoryPool → ℕ × MemoryPool
allocate m = if m.free_head == 0 then (0, m) else (
  m.free_head,
  record m { free_head = m.cells m.free_head; free_count = size_sub m.free_count 1 },
)

unfoldable pub owns : Params → ℕ → MemoryPool → Bool
owns k ptr m =
    leb m.storage ptr && ltb ptr (m.storage + size_mul (aligned_block_size k) k.num_blocks)

-- `none` is the failed assertion, which ends the program.
unfoldable pub deallocate : Params → ℕ → MemoryPool → Option MemoryPool
unfolding write owns
deallocate k ptr m =
    if ptr == 0
    then some m
    else if owns k ptr m
    then some (record m {
      cells = write m.cells ptr m.free_head;
      free_head = ptr;
      free_count = size_add m.free_count 1;
    })
    else none
