-- ===== src/Threads.antt =====
-- include/thread_utils.h, and the choice of the core in `receive_loop` of
-- include/websocket_client.h. The operating system is a parameter.
pub mod Pinning
mod Tests
use c_web_socket_client_with.Prelude.{
  ℕ, zero, suc, ◌-◌, ◌^◌, ◌==◌, Bool, true, false, not, Option, none, some, List, [], ◌∷◌, ltb,
  if◌then◌else◌, take,
}
use c_web_socket_client_with.Args.{ℤ, pos, negsuc}

-- What the system says and does: `std::thread::hardware_concurrency()`, the return value of
-- `pthread_setaffinity_np` for a set of cores, and of `SetThreadAffinityMask` for a mask.
pub record Platform : Type 0 where
  pub hardware_concurrency : ℕ
  pub setaffinity : List ℕ → ℕ
  pub affinity_mask : ℕ → ℕ

-- The cores that a thread may run on, where it has been pinned, and its name.
pub record Thread : Type 0 where
  pub affinity : Option (List ℕ)
  pub name : List ℕ

-- `CPU_ZERO`, then `CPU_SET`: it leaves out what does not fit into a cpu_set_t, negative numbers too.
abbrev pub cpu_set : ℤ → List ℕ
cpu_set (pos n) = if ltb n 1024 then n ∷ [] else []
cpu_set (negsuc n) = []

-- The bytes of `name.substr(0, 15).c_str()`.
abbrev until_null : List ℕ → List ℕ
until_null [] = []
until_null (c ∷ cs) = let rest = until_null cs in if c == 0 then [] else c ∷ rest

unfoldable pub set_thread_name : List ℕ → Thread → Thread
set_thread_name name th = record th { name = until_null (take 15 name) }

-- The same on Windows, if its kernel has SetThreadDescription.
unfoldable pub set_thread_name_windows : (has_description : Bool) → List ℕ → Thread → Thread
set_thread_name_windows has_description name th =
    if has_description then record th { name = until_null name } else th

-- `core_id_` and `pinned_`.
pub record ThreadPinner : Type 0 where
  pub core_id : ℤ
  pub pinned : Bool

abbrev pub is_empty : List ℕ → Bool
is_empty [] = true
is_empty (c ∷ cs) = false

module _ (os : Platform) where
  -- `int` is large enough for the number of cores.
  unfoldable pub get_cpu_count : ℕ
  get_cpu_count = if ltb 0 os.hardware_concurrency then os.hardware_concurrency else 1

  unfoldable pub pin_thread_to_core : ℤ → Thread → Bool × Thread
  pin_thread_to_core core_id th =
      let rc = os.setaffinity (cpu_set core_id) in
      if not (rc == 0) then (false, th) else (true, record th { affinity = some (cpu_set core_id) })

  -- The same on Windows. The shift of a 64-bit word is undefined out of its range: `none`.
  unfoldable pub pin_thread_windows : ℤ → Option Bool
  pin_thread_windows (negsuc n) = none
  pin_thread_windows (pos n) = if ltb n 64 then some (not (os.affinity_mask (2 ^ n) == 0)) else none

  unfoldable pub thread_pinner : ℤ → List ℕ → Thread → ThreadPinner × Thread
  unfolding pin_thread_to_core set_thread_name
  thread_pinner core_id name th =
      let named = if not (is_empty name) then set_thread_name name th else th in
      let (pinned, pinned_thread) = pin_thread_to_core core_id named in
      (record { core_id = core_id; pinned = pinned }, pinned_thread)

-- ClientConfig, but for `use_memory_pool`, which nothing reads.
pub record ClientConfig : Type 0 where
  pub pin_receiver_thread : Bool
  pub receiver_core_id : ℤ

abbrev pub default_client_config : ClientConfig
default_client_config = record { pin_receiver_thread = false; receiver_core_id = negsuc 0 }

-- The core that `receive_loop` pins its thread to.
unfoldable pub receiver_core : Platform → ClientConfig → ℤ
unfolding get_cpu_count
receiver_core os config = core config.receiver_core_id
  where
    core : ℤ → ℤ
    core (pos n) = pos n
    core (negsuc n) = pos (get_cpu_count os - 1)

-- "ws_receiver"
abbrev pub receiver_name : List ℕ
receiver_name = b'w' ∷ b's' ∷ b'_' ∷ b'r' ∷ b'e' ∷ b'c' ∷ b'e' ∷ b'i' ∷ b'v' ∷ b'e' ∷ b'r' ∷ []

-- "wss_receiver"
abbrev pub secure_receiver_name : List ℕ
secure_receiver_name =
    b'w' ∷ b's' ∷ b's' ∷ b'_' ∷ b'r' ∷ b'e' ∷ b'c' ∷ b'e' ∷ b'i' ∷ b'v' ∷ b'e' ∷ b'r' ∷ []

-- What `receive_loop` does before it reads, with the name of its thread.
unfoldable pub pin_receiver : Platform → List ℕ → ClientConfig → Thread → Thread
unfolding receiver_core thread_pinner
pin_receiver os name config th =
    if config.pin_receiver_thread
    then (thread_pinner os (receiver_core os config) name th).1
    else th
