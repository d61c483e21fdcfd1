-- ===== src/Pool/Ptr/Raii.antt =====
-- What PoolPtr of include/memory_pool.h gives back, and when.
use c_web_socket_client_with.Prelude.{
  ℕ, ◌<◌, ◌≡◌, refl, ap, sym, subst, ◌∙◌, ◌≢◌, false, none, some, List, ==-true, ==-false, ==_refl,
  ℕ_discrete,
}
use c_web_socket_client_with.Pool.{Params, MemoryPool, allocate, owns, deallocate}
use c_web_socket_client_with.Pool.Blocks.{count, remove}
use c_web_socket_client_with.Pool.Invariant.{
  IsStorage, Inv, returned, deallocate_held, held_not_null,
}
use c_web_socket_client_with.Pool.Client.{allocate-none, deallocate-allocate}
use c_web_socket_client_with.Pool.Ptr.{
  Store, update, PoolPtr, deallocate_in, construct, destroy, move_construct, move_assign, release,
}

update_back : (s : Store) (i : ℕ) (m : MemoryPool) → m ≡ s i → (j : ℕ) → update s i m j ≡ s j
update_back s i m e j = elim (ℕ_discrete j i) [
  | yes same ↦ rw (==-true same) (e ∙ ap s (sym same))
  | no other ↦ rw (==-false other)
]

update_again :
    (s : Store) (i : ℕ) (m n : MemoryPool) → n ≡ s i → (j : ℕ) → update (update s i m) i n j ≡ s j
update_again s i m n e j = elim (ℕ_discrete j i) [
  | yes same ↦ rw (==-true same) (e ∙ ap s (sym same))
  | no other ↦ rw (==-false other)
]

pub update_at : (s : Store) (i : ℕ) (m : MemoryPool) → update s i m i ≡ m
update_at s i m = rw (==_refl i)

module _ {k : Params} {base : ℕ} (st : IsStorage k base) where
  deallocate_in_held :
      (s : Store) (i a : ℕ) {held : List ℕ}
      → Inv k base (s i) held
      → 0 < count a held
      → deallocate_in k i a s ≡ some (update s i (returned a (s i)))
  unfolding deallocate_in
  deallocate_in_held s i a v h = rw ((deallocate_held st v a h).0, deallocate_in)

  pub destroy_held :
      (p : PoolPtr) (s : Store) {held : List ℕ}
      → Inv k base (s p.pool) held
      → 0 < count p.ptr held
      → destroy k p s ≡ some (update s p.pool (returned p.ptr (s p.pool)))
  unfolding destroy
  destroy_held p s v h =
      rw (==-false (held_not_null st v p.ptr h)) (deallocate_in_held s p.pool p.ptr v h)

  -- A PoolPtr that goes out of scope where it was made, on a pool that is as the invariant says,
  -- leaves every pool as it was, whether or not it got a block.
  pub destroy-construct :
      (i : ℕ) (s : Store) {held : List ℕ}
      → Inv k base (s i) held
      → (t : Store) × (destroy k (construct i s).0 (construct i s).1 ≡ some t)
        × ((j : ℕ) → t j ≡ s j)
  unfolding construct destroy deallocate_in
  destroy-construct i s v = elim (ℕ_discrete (allocate (s i)).0 0) [
    | yes null ↦ (
      update s i (allocate (s i)).1,
      rw (==-true null),
      update_back s i _ (allocate-none (s i) null),
    )
    | no got ↦ (
      update (update s i (allocate (s i)).1) i (s i),
      rw (==-false got, update_at s i (allocate (s i)).1, deallocate-allocate st v got),
      update_again s i _ (s i) refl,
    )
  ]

  -- Moving a PoolPtr hands its block on: destroying the source then does nothing, and destroying the
  -- target gives the block back.
  pub destroy-move :
      (p : PoolPtr) (s : Store) {held : List ℕ}
      → Inv k base (s p.pool) held
      → 0 < count p.ptr held
      → (t : Store) × (destroy k (move_construct p).1 s ≡ some s)
        × (destroy k (move_construct p).0 s ≡ some t)
        × Inv k base (t p.pool) (remove p.ptr held)
  unfolding destroy move_construct
  destroy-move p s {held} v h = (
    update s p.pool (returned p.ptr (s p.pool)),
    refl,
    destroy_held p s v h,
    subst (λ m. Inv k base m (remove p.ptr held)) (sym (update_at s p.pool _))
        (deallocate_held st v p.ptr h).1,
  )

  -- Assigning one PoolPtr to another of the same pool gives the target's old block back and hands
  -- the source's block on: when both objects are destroyed afterwards, each of the two blocks has
  -- been given back once.
  pub move_assign_same_pool :
      (p q : PoolPtr) (s : Store) {held : List ℕ}
      → Inv k base (s p.pool) held
      → q.pool ≡ p.pool
      → 0 < count p.ptr held
      → 0 < count q.ptr (remove p.ptr held)
      → (t : PoolPtr × PoolPtr × Store) × (u : Store) × (move_assign k false p q s ≡ some t)
        × (destroy k t.0 t.2 ≡ some u)
        × (destroy k t.1 u ≡ some u)
        × Inv k base (u p.pool) (remove q.ptr (remove p.ptr held))
  unfolding move_assign destroy
  move_assign_same_pool p q s {held} v e hp hq = (
    (record p { ptr = q.ptr }, record q { ptr = 0 }, s'),
    update s' p.pool (returned q.ptr (s' p.pool)),
    rw (==-false (held_not_null st v p.ptr hp), deallocate_in_held s p.pool p.ptr v hp),
    destroy_held (record p { ptr = q.ptr }) s' w hq,
    destroy_null q _,
    subst (λ m. Inv k base m (remove q.ptr (remove p.ptr held))) (sym (update_at s' p.pool _))
        (deallocate_held st w q.ptr hq).1,
  )
    where
      s' : Store
      s' = update s p.pool (returned p.ptr (s p.pool))

      w : Inv k base (s' p.pool) (remove p.ptr held)
      w =
          subst (λ m. Inv k base m (remove p.ptr held)) (sym (update_at s p.pool _))
            (deallocate_held st v p.ptr hp).1

      destroy_null : (q : PoolPtr) (u : Store) → destroy k (record q { ptr = 0 }) u ≡ some u
      destroy_null q u = refl

-- A released block is not given back by the PoolPtr.
pub destroy-release : (k : Params) (p : PoolPtr) (s : Store) → destroy k (release p).1 s ≡ some s
unfolding destroy release
destroy-release k p s = refl

-- An empty PoolPtr that is assigned another one, whose block is not in its own pool, takes the
-- block over but keeps naming its own pool: destroying it fails the assertion of `deallocate`.
pub move_assign_other_pool :
    (k : Params) (p q : PoolPtr) (s : Store)
    → p.ptr ≡ 0
    → q.ptr ≢ 0
    → owns k q.ptr (s p.pool) ≡ false
    → (t : PoolPtr × PoolPtr × Store) × (move_assign k false p q s ≡ some t)
      × (destroy k t.0 t.2 ≡ none)
unfolding move_assign destroy deallocate_in deallocate
move_assign_other_pool k p q s e ne foreign =
    ((record p { ptr = q.ptr }, record q { ptr = 0 }, s), rw (==-true e), rw (==-false ne, foreign))
