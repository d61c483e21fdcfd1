-- ===== src/Pool/Ptr.antt =====
-- include/memory_pool.h: PoolPtr, which gives its block back when it goes out of scope. `pool_` is a
-- reference, so a PoolPtr names its pool, and the pools stand in a store.
pub mod Raii
use c_web_socket_client_with.Prelude.{ℕ, Bool, Option, none, some, not, ◌==◌, if◌then◌else◌, ◌>>=◌}
use c_web_socket_client_with.Pool.{Params, MemoryPool, allocate, deallocate}

abbrev pub Store : Type 0
Store = ℕ → MemoryPool

abbrev pub update : Store → ℕ → MemoryPool → Store
update s i m j = if j == i then m else s j

pub record PoolPtr : Type 0 where
  pub pool : ℕ
  pub ptr : ℕ

-- `none` is the failed assertion of `deallocate`.
unfoldable pub deallocate_in : Params → ℕ → ℕ → Store → Option Store
deallocate_in k i ptr s = do m ← deallocate k ptr (s i); some (update s i m)

-- `explicit PoolPtr(Pool& pool)`
unfoldable pub construct : ℕ → Store → PoolPtr × Store
construct i s = let (p, m) = allocate (s i) in (record { pool = i; ptr = p }, update s i m)

-- `~PoolPtr()`
unfoldable pub destroy : Params → PoolPtr → Store → Option Store
destroy k p s = if not (p.ptr == 0) then deallocate_in k p.pool p.ptr s else some s

-- `PoolPtr(PoolPtr&& other)`: the new pointer, and what is left in `other`.
unfoldable pub move_construct : PoolPtr → PoolPtr × PoolPtr
move_construct other = (record { pool = other.pool; ptr = other.ptr }, record other { ptr = 0 })

-- `operator=(PoolPtr&& other)` on another object: `*this`, `other` and the pools afterwards. The
-- reference `pool_` cannot be assigned.
unfoldable pub move_assign_other :
    Params → PoolPtr → PoolPtr → Store → Option (PoolPtr × PoolPtr × Store)
move_assign_other k p other s = do
  t ← (if not (p.ptr == 0) then deallocate_in k p.pool p.ptr s else some s)
  some (record p { ptr = other.ptr }, record other { ptr = 0 }, t)

-- `operator=(PoolPtr&& other)`; `same` is `this == &other`.
unfoldable pub move_assign :
    Params → (same : Bool) → PoolPtr → PoolPtr → Store → Option (PoolPtr × PoolPtr × Store)
unfolding move_assign_other
move_assign k same p other s = if not same then move_assign_other k p other s else some (p, p, s)

abbrev pub get : PoolPtr → ℕ
get p = p.ptr

-- `explicit operator bool()`
abbrev pub is_set : PoolPtr → Bool
is_set p = not (p.ptr == 0)

unfoldable pub release : PoolPtr → ℕ × PoolPtr
release p = (p.ptr, record p { ptr = 0 })
