-- ===== src/Pool/Tests.antt =====
-- A pool of four blocks of 64 bytes, as in tests/test_memory_pool.cpp, and the theorems at its states.
use c_web_socket_client_with.Prelude.{
  ℕ, zero, suc, ◌+◌, ◌*◌, ◌≤◌, ◌<◌, ◌≡◌, refl, ◌≢◌, ◌⊎◌, false, [], ◌∷◌, arith,
}
use c_web_socket_client_with.Pool.{
  Params, MemoryPool, write, aligned_block_size, link_blocks, new, allocate, owns,
}
use c_web_socket_client_with.Pool.Align.{IsParams}
use c_web_socket_client_with.Pool.Blocks.{count, remove}
use c_web_socket_client_with.Pool.Invariant.{IsStorage, Inv, new-Inv}
use c_web_socket_client_with.Pool.Client.{allocates, Reach, opened, moved, Reach-Inv, held_disjoint}
use c_web_socket_client_with.Pool.Ptr.{Store, PoolPtr}

abbrev small : Params
small = record { block_size = 60; num_blocks = 4; max_align = 16 }

small-IsParams : IsParams small
small-IsParams = record {
  pointer_fits = omega arith;
  some_blocks = omega arith;
  exponent = 4;
  aligned = refl;
  small = omega arith;
}

aligned_size : aligned_block_size small ≡ 64
unfolding aligned_block_size
aligned_size = refl

at_4096 : IsStorage small 4096
unfolding aligned_block_size
at_4096 = record { params = small-IsParams; not_null = omega arith; in_memory = omega arith }

abbrev fresh : MemoryPool
fresh = new small 4096 (λ a. 0)

-- The blocks come out in order of address, and after four of them the pool is empty.
abbrev third : MemoryPool
third = (allocate (allocate (allocate fresh).1).1).1

exhaust :
    ((allocate fresh).0 ≡ 4096)
    × ((allocate (allocate fresh).1).0 ≡ 4160)
    × ((allocate third).0 ≡ 4288)
    × ((allocate (allocate third).1).0 ≡ 0)
    × ((allocate third).1.free_count ≡ 0)
unfolding new allocate aligned_block_size link_blocks write
exhaust = (refl, refl, refl, refl, refl)

fresh-Inv : Inv small 4096 fresh []
fresh-Inv = new-Inv at_4096 (λ a. 0)

-- A session with one block, with its first word overwritten.
one-Reach : Reach small 4096 (λ a. 0) (record { pool = (allocate fresh).1; held = 4096 ∷ [] })
unfolding new allocate aligned_block_size link_blocks write
one-Reach = moved opened (allocates (omega arith))

one-Inv : Inv small 4096 (allocate fresh).1 (4096 ∷ [])
one-Inv = Reach-Inv at_4096 one-Reach

two-Reach :
    Reach small 4096
      (λ a. 0)
      (record { pool = (allocate (allocate fresh).1).1; held = 4160 ∷ 4096 ∷ [] })
unfolding new allocate aligned_block_size link_blocks write
two-Reach = moved one-Reach (allocates (omega arith))

Reach-Inv_example : Inv small 4096 (allocate (allocate fresh).1).1 (4160 ∷ 4096 ∷ [])
Reach-Inv_example = Reach-Inv at_4096 two-Reach

held_disjoint_example :
    (◌≡◌ {A = ℕ} 1 1)
    × (4096 ≤ 4160)
    × (4160 + aligned_block_size small ≤ 4096 + aligned_block_size small * 4)
    × ((◌≡◌ {A = ℕ} 4160 4096)
        ⊎ ((4160 + aligned_block_size small ≤ 4096) ⊎ (4096 + aligned_block_size small ≤ 4160)))
held_disjoint_example = held_disjoint at_4096 4160 4096 two-Reach (omega arith) (omega arith)

fresh_head : (allocate fresh).0 ≢ 0
unfolding new allocate aligned_block_size link_blocks write
fresh_head = omega arith

-- Two pools of the same type at different addresses.
abbrev two_pools : Store
two_pools i = elim i [ zero ↦ (allocate (allocate fresh).1).1 | suc j ↦ new small 8192 (λ a. 0) ]

abbrev first_ptr : PoolPtr
first_ptr = record { pool = 0; ptr = 4096 }

abbrev second_ptr : PoolPtr
second_ptr = record { pool = 0; ptr = 4160 }

left_held : 0 < count 4160 (remove 4096 (4160 ∷ 4096 ∷ []))
unfolding remove
left_held = omega arith

-- A pointer of pool 1 that is empty takes over a block of pool 0.
abbrev foreign_ptr : PoolPtr
foreign_ptr = record { pool = 1; ptr = 0 }

not_owned : owns small 4096 (two_pools 1) ≡ false
unfolding owns new aligned_block_size link_blocks write
not_owned = refl
