-- ===== src/Pool/Client.antt =====
-- A client of include/memory_pool.h: any sequence of allocations, of writes into blocks that it
-- holds, and of deallocations of such blocks.
use mathlib.Core.Path.{fun_ext}
use mathlib.Core.Option.{some-injective}
use c_web_socket_client_with.Prelude.{
  subst, ==-true, ==-false, ◌==◌, if◌then◌else◌, size_add, size_sub, ℕ, ◌+◌, ◌*◌, ◌≤◌, ◌<◌, ◌≡◌, ap,
  sym, ◌∙◌, ◌≢◌, ◌⊎◌, inl, inr, some, List, [], ◌∷◌, arith, length, dec_lt, ℕ_discrete,
}
use c_web_socket_client_with.Pool.{
  Params, MemoryPool, write, aligned_block_size, new, allocate, deallocate,
}
use c_web_socket_client_with.Pool.Blocks.{
  count, remove, block_count, block_count-le, block_bounds, inside_block,
}
use c_web_socket_client_with.Pool.Invariant.{
  IsStorage, Inv, returned, new-Inv, allocate_null_iff, allocate_fresh, deallocate_held,
  write_held-Inv, positive, few,
}

-- The pool, and the blocks that the client has got and not given back.
pub record Session : Type 0 where
  pub pool : MemoryPool
  pub held : List ℕ

pub data Move (k : Params) (s : Session) : Session → Type 0 where
  allocates :
      (allocate s.pool).0 ≢ 0
      → Move k s (record { pool = (allocate s.pool).1; held = (allocate s.pool).0 ∷ s.held })
  exhausted : (allocate s.pool).0 ≡ 0 → Move k s (record s { pool = (allocate s.pool).1 })
  deallocates :
      (p : ℕ) (m : MemoryPool)
      → 0 < count p s.held
      → deallocate k p s.pool ≡ some m
      → Move k s (record { pool = m; held = remove p s.held })
  writes :
      (p a x : ℕ)
      → 0 < count p s.held
      → p ≤ a
      → a < p + aligned_block_size k
      → Move k s (record s { pool = record (s.pool) { cells = write s.pool.cells a x } })

pub data Reach (k : Params) (base : ℕ) (cells : ℕ → ℕ) : Session → Type 0 where
  opened : Reach k base cells (record { pool = new k base cells; held = [] })
  moved : {s t : Session} → Reach k base cells s → Move k s t → Reach k base cells t

-- An allocation that fails changes nothing.
pub allocate-none : (m : MemoryPool) → (allocate m).0 ≡ 0 → (allocate m).1 ≡ m
unfolding allocate
allocate-none m h = ground arith

-- Linking the head block in again restores the pool.
returned-allocate :
    (m : MemoryPool)
    → (allocate m).0 ≢ 0
    → size_add (size_sub m.free_count 1) 1 ≡ m.free_count
    → returned (allocate m).0 (allocate m).1 ≡ m
unfolding allocate write
returned-allocate m ne e =
    let nz : m.free_head ≢ 0 = λ z. ne (rw (==-true z)) in
    rw (==-false nz) (λ i. record m { cells = fun_ext same i; free_count = e i })
  where
    same : (a : ℕ) → (if a == m.free_head then m.cells m.free_head else m.cells a) ≡ m.cells a
    same a = ground arith

module _ {k : Params} {base : ℕ} (st : IsStorage k base) where
  room_left :
      {m : MemoryPool} {held : List ℕ}
      → Inv k base m held
      → (allocate m).0 ≢ 0
      → length held < k.num_blocks
  room_left {m} {held} v ne = elim (ℕ_discrete (length held) k.num_blocks) [
    | yes all ↦ absurd (ne ((allocate_null_iff st v).1 all))
    | no some_left ↦ omega (arith, v.all_blocks)
  ]

  pub Move-Inv : {s t : Session} → Move k s t → Inv k base s.pool s.held → Inv k base t.pool t.held
  Move-Inv (allocates ne) v = (allocate_fresh st v (room_left v ne)).2
  Move-Inv {s} (exhausted e) v = rw (allocate-none s.pool e) v
  Move-Inv {s} (deallocates p m h e) v =
      let (got, w) = deallocate_held st v p h in
      subst (λ r. Inv k base r (remove p s.held)) (some-injective _ _ (sym got ∙ e)) w
  Move-Inv (writes p a x h lo hi) v = write_held-Inv st v p a x h lo hi

  -- In a pool that is as the invariant says, giving back the block that `allocate` just returned,
  -- if it was not nullptr, leaves the pool as it was.
  pub deallocate-allocate :
      {m : MemoryPool} {held : List ℕ}
      → Inv k base m held
      → (allocate m).0 ≢ 0
      → deallocate k (allocate m).0 (allocate m).1 ≡ some m
  deallocate-allocate {m} {held} v ne =
      let fresh = allocate_fresh st v (room_left v ne) in
      (deallocate_held st (fresh.2) (allocate m).0 (ground arith)).0
      ∙ ap some
          (returned-allocate m ne (omega (arith, v.counted, v.all_blocks, few st, room_left v ne)))

module _ {k : Params} {base : ℕ} {cells : ℕ → ℕ} (st : IsStorage k base) where
  -- Whatever a client does, the free list and the blocks it holds share out the pool's blocks.
  pub Reach-Inv : {s : Session} → Reach k base cells s → Inv k base s.pool s.held
  Reach-Inv opened = new-Inv st cells
  Reach-Inv (moved r mv) = Move-Inv st mv (Reach-Inv r)

  -- Two blocks that a client holds at the same time do not overlap, and lie in the storage.
  pub held_disjoint :
      {s : Session} (p q : ℕ)
      → Reach k base cells s
      → 0 < count p s.held
      → 0 < count q s.held
      → (count p s.held ≡ 1)
        × (base ≤ p)
        × (p + aligned_block_size k ≤ base + aligned_block_size k * k.num_blocks)
        × ((p ≡ q) ⊎ ((p + aligned_block_size k ≤ q) ⊎ (q + aligned_block_size k ≤ p)))
  held_disjoint {s} p q r hp hq = (
    omega (arith, shared p, block_count-le base size (positive st) k.num_blocks p),
    (block_bounds base size (positive st) k.num_blocks p block_p).0,
    (block_bounds base size (positive st) k.num_blocks p block_p).1,
    apart,
  )
    where
      open (Reach-Inv r) use {shared}

      size : ℕ
      size = aligned_block_size k

      block_p : 0 < block_count base size k.num_blocks p
      block_p = omega (arith, shared p)

      block_q : 0 < block_count base size k.num_blocks q
      block_q = omega (arith, shared q)

      apart : (p ≡ q) ⊎ ((p + size ≤ q) ⊎ (q + size ≤ p))
      apart = elim (dec_lt p q) [
        | yes lt ↦ elim (dec_lt q (p + size)) [
          | yes inside ↦ inl (
              inside_block base size (positive st) k.num_blocks p q block_p block_q (omega arith)
                inside)
          | no beyond ↦ inr (inl (omega arith))
        ]
        | no ge ↦ elim (dec_lt p (q + size)) [
          | yes inside ↦ inl (
              sym (
                inside_block base size (positive st) k.num_blocks q p block_q block_p (omega arith)
                  inside))
          | no beyond ↦ inr (inr (omega arith))
        ]
      ]

  -- `free_count` and the number of blocks held make up the pool.
  pub free_count-add-held :
      {s : Session} → Reach k base cells s → s.pool.free_count + length s.held ≡ k.num_blocks
  free_count-add-held r = let v = Reach-Inv r in omega (arith, v.counted, v.all_blocks)
