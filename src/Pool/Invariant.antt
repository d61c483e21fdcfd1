-- ===== src/Pool/Invariant.antt =====
-- The pool's blocks are shared out between its free list and the client: include/memory_pool.h keeps
-- it so, whatever the client writes into the blocks that it holds.
use c_web_socket_client_with.Prelude.{
  ℕ, zero, suc, ◌+◌, ◌*◌, ◌≤◌, ◌<◌, ◌≡◌, refl, ap, sym, subst, ◌∙◌, ◌≢◌, ◌↔◌, some, List, [], ◌∷◌,
  true, arith, length, size_mod, size_mul, size_add, ==-false,
}
use c_web_socket_client_with.Pool.{
  Params, MemoryPool, write, aligned_block_size, new, allocate, owns, deallocate,
}
use c_web_socket_client_with.Pool.Align.{IsParams, aligned_block_size_lem}
use c_web_socket_client_with.Pool.Blocks.{
  count, remove, count-remove, length-remove, block_count, blocks, count-blocks, length-blocks,
  block_bounds, block_count-le, inside_block,
}
use c_web_socket_client_with.Pool.Chain.{
  Chain, Chain-write, Chain-push, link_blocks-Chain, storage-link_blocks, allocate-nil,
  allocate-cons,
}

-- `base` is what make_unique returned: not null, and the array ends within the address space.
pub record IsStorage (k : Params) (base : ℕ) : Type 0 where
  pub params : IsParams k
  pub not_null : 0 < base
  pub in_memory : base + aligned_block_size k * k.num_blocks < size_mod

-- The client holds the blocks `held`, and the free list runs through the others.
pub record Inv (k : Params) (base : ℕ) (m : MemoryPool) (held : List ℕ) : Type 0 where
  pub at_base : m.storage ≡ base
  pub free : List ℕ
  pub chain : Chain m.cells m.free_head free
  pub counted : m.free_count ≡ length free
  pub all_blocks : length free + length held ≡ k.num_blocks
  pub shared :
      (a : ℕ) → count a free + count a held ≡ block_count base (aligned_block_size k) k.num_blocks a

-- The pool with `p` in front of its free list.
abbrev pub returned : ℕ → MemoryPool → MemoryPool
returned p m = record m {
  cells = write m.cells p m.free_head;
  free_head = p;
  free_count = size_add m.free_count 1;
}

mul_le : (s n : ℕ) → 0 < s → n ≤ s * n
mul_le s n h = grind arith

module _ {k : Params} {base : ℕ} (st : IsStorage k base) where
  pub positive : 0 < aligned_block_size k
  positive = omega (arith, aligned_block_size_lem k st.params, st.params.pointer_fits)

  pub new-Inv : (cells : ℕ → ℕ) → Inv k base (new k base cells) []
  unfolding new
  new-Inv cells = record {
    at_base = storage-link_blocks k k.num_blocks _;
    free = blocks base (aligned_block_size k) k.num_blocks [];
    chain =
        link_blocks-Chain k k.num_blocks
          (record { storage = base; cells = cells; free_head = 0; free_count = 0 }) [] st.not_null
          positive (λ a lt. refl) (refl, tt);
    counted = omega (arith, length-blocks base (aligned_block_size k) k.num_blocks []);
    all_blocks = omega (arith, length-blocks base (aligned_block_size k) k.num_blocks []);
    shared = λ a. omega (arith, count-blocks base (aligned_block_size k) k.num_blocks a []);
  }

  pub few : k.num_blocks < size_mod
  few = omega (arith, st.in_memory, mul_le (aligned_block_size k) k.num_blocks positive)

  module _ {m : MemoryPool} {held : List ℕ} (v : Inv k base m held) where
    open v use {at_base, free, chain, counted, all_blocks, shared}

    is_block : (a : ℕ) → block_count base (aligned_block_size k) k.num_blocks a ≤ 1
    is_block a = block_count-le base (aligned_block_size k) positive k.num_blocks a

    -- A block that the client holds lies in the storage.
    held_bounds :
        (p : ℕ)
        → 0 < count p held
        → (base ≤ p) × (p + aligned_block_size k ≤ base + aligned_block_size k * k.num_blocks)
    held_bounds p h =
        block_bounds base (aligned_block_size k) positive k.num_blocks p (omega (arith, shared p))

    pub held_not_null : (p : ℕ) → 0 < count p held → p ≢ 0
    held_not_null p h e = absurd (omega (arith, held_bounds p h, st.not_null))

    -- `owns` holds exactly of the addresses in the storage, those inside a block too.
    pub owns_iff :
        (p : ℕ)
        → (owns k p m ≡ true) ↔ ((base ≤ p) × (p < base + aligned_block_size k * k.num_blocks))
    unfolding owns
    owns_iff p = (λ h. ground (arith, at_base, no_wrap), λ h. ground (arith, at_base, no_wrap))
      where
        no_wrap : size_mul (aligned_block_size k) k.num_blocks ≡ aligned_block_size k * k.num_blocks
        no_wrap = omega (arith, st.in_memory)

    -- `allocate` returns nullptr exactly when the client holds every block.
    pub allocate_null_iff : ((allocate m).0 ≡ 0) ↔ (length held ≡ k.num_blocks)
    allocate_null_iff = by_free free chain all_blocks
      where
        by_free :
            (xs : List ℕ)
            → Chain m.cells m.free_head xs
            → length xs + length held ≡ k.num_blocks
            → ((allocate m).0 ≡ 0) ↔ (length held ≡ k.num_blocks)
        by_free [] c n = (λ e. omega arith, λ e. ap (λ r. r.0) (allocate-nil m c))
        by_free (x ∷ xs) c n = (
          λ e. absurd (c.1 (sym (ap (λ r. r.0) (allocate-cons m x xs c)) ∙ e)),
          λ e. absurd (omega arith),
        )

    -- While the client does not hold every block, `allocate` returns a block of the pool that it
    -- does not hold, and the invariant holds with that block held.
    pub allocate_fresh :
        length held < k.num_blocks
        → (count (allocate m).0 held ≡ 0)
          × (block_count base (aligned_block_size k) k.num_blocks (allocate m).0 ≡ 1)
          × Inv k base (allocate m).1 ((allocate m).0 ∷ held)
    allocate_fresh h = by_free free chain counted all_blocks shared
      where
        by_free :
            (xs : List ℕ)
            → Chain m.cells m.free_head xs
            → m.free_count ≡ length xs
            → length xs + length held ≡ k.num_blocks
            → ((a : ℕ)
                → count a xs + count a held
                  ≡ block_count base (aligned_block_size k) k.num_blocks a)
            → (count (allocate m).0 held ≡ 0)
              × (block_count base (aligned_block_size k) k.num_blocks (allocate m).0 ≡ 1)
              × Inv k base (allocate m).1 ((allocate m).0 ∷ held)
        by_free [] c e n sh = absurd (omega arith)
        by_free (x ∷ xs) c e n sh = rw (allocate-cons m x xs c) (
          ground (arith, sh x, is_block x),
          ground (arith, sh x, is_block x),
          record {
            at_base = at_base;
            free = xs;
            chain = c.2;
            counted = omega (arith, few);
            all_blocks = omega arith;
            shared = λ a. ground (arith, sh a);
          },
        )

    -- Giving back a block that the client holds succeeds, and the invariant holds without that
    -- block held.
    pub deallocate_held :
        (p : ℕ)
        → 0 < count p held
        → (deallocate k p m ≡ some (returned p m)) × Inv k base (returned p m) (remove p held)
    unfolding deallocate
    deallocate_held p h = (
      rw (==-false (held_not_null p h), owned),
      record {
        at_base = at_base;
        free = p ∷ free;
        chain = Chain-push m.cells m.free_head p free (held_not_null p h) not_free chain;
        counted = omega (arith, few, counted, all_blocks, length-remove p held h);
        all_blocks = omega (arith, all_blocks, length-remove p held h);
        shared = λ a. ground (arith, shared a, count-remove a p held h);
      },
    )
      where
        owned : owns k p m ≡ true
        owned = (owns_iff p).1 (omega (arith, held_bounds p h, positive))

        not_free : count p free ≡ 0
        not_free = omega (arith, shared p, is_block p)

    -- What the client writes into a block that it holds does not touch the free list.
    pub write_held-Inv :
        (p a x : ℕ)
        → 0 < count p held
        → p ≤ a
        → a < p + aligned_block_size k
        → Inv k base (record m { cells = write m.cells a x }) held
    write_held-Inv p a x h lo hi = record {
      at_base = at_base;
      free = free;
      chain = Chain-write m.cells m.free_head a x free (not_free (count a free) refl) chain;
      counted = counted;
      all_blocks = all_blocks;
      shared = shared;
    }
      where
        not_free : (n : ℕ) → count a free ≡ n → count a free ≡ 0
        not_free zero e = e
        not_free (suc n) e =
            let same : p ≡ a =
              inside_block base (aligned_block_size k) positive k.num_blocks p a
                (omega (arith, shared p)) (omega (arith, shared a)) lo hi in
            absurd (omega (arith, shared a, is_block a, subst (λ b. 0 < count b held) same h))
