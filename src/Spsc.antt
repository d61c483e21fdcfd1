-- ===== src/Spsc.antt =====
-- include/spsc_queue.h: SPSCQueue<T, Capacity>, the calls one after another. The children are about
-- its arithmetic and contents (Bounds, Holds, Refine) and two threads that call it at once (Concurrent).
pub mod Bounds
pub mod Holds
pub mod Refine
pub mod Concurrent
mod Tests
use c_web_socket_client_with.Prelude.{
  ℕ, ◌-◌, Bool, true, false, Option, none, some, List, ◌&&◌, ◌==◌, ltb, if◌then◌else◌, bit_and,
  size_add, size_sub, replicate, get_or, set,
}

-- What the queue needs of `T`: the value of `T{}`, and what a move leaves behind in the source.
pub record Movable {ℓ} (T : Type ℓ) : Type ℓ where
  pub init : T
  pub moved : T → T

pub record SpscQueue {ℓ} (T : Type ℓ) : Type ℓ where
  pub head : ℕ
  pub tail : ℕ
  pub buffer : List T

-- The first static_assert; the test of `IsPowerOfTwo` in include/config.h is the same.
unfoldable pub is_power_of_two : ℕ → Bool
is_power_of_two n = ltb 0 n && (bit_and n (n - 1) == 0)

-- `kMask`
abbrev pub mask : ℕ → ℕ
mask cap = cap - 1

-- `(i + 1) & kMask`
unfoldable pub next_index : ℕ → ℕ → ℕ
next_index cap i = bit_and (size_add i 1) (mask cap)

module _ {ℓ} {T : Type ℓ} where
  -- The constructor, with `buffer_{}`.
  unfoldable pub new : ℕ → ⦃m : Movable T⦄ → SpscQueue T
  new cap ⦃m⦄ = record { head = 0; tail = 0; buffer = replicate cap m.init }

  unfoldable pub try_push : ℕ → T → SpscQueue T → Bool × SpscQueue T
  try_push cap item q =
      let next_tail = next_index cap q.tail in
      if next_tail == q.head
      then (false, q)
      else (true, record q { buffer = set q.buffer q.tail item; tail = next_tail })

  -- `std::move(buffer_[head])` leaves `moved item` in the slot.
  unfoldable pub try_pop : ℕ → ⦃m : Movable T⦄ → SpscQueue T → Option T × SpscQueue T
  try_pop cap ⦃m⦄ q =
      let item = get_or q.buffer q.head m.init in
      if q.head == q.tail then (none, q) else (
        some item,
        record q { buffer = set q.buffer q.head (m.moved item); head = next_index cap q.head },
      )

  unfoldable pub empty : SpscQueue T → Bool
  empty q = q.head == q.tail

  unfoldable pub size_approx : ℕ → SpscQueue T → ℕ
  size_approx cap q = bit_and (size_sub q.tail q.head) (mask cap)

abbrev pub capacity : ℕ → ℕ
capacity cap = cap
