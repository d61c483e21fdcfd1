-- ===== src/Display/System.antt =====
-- `print_system_info` of src/main.cpp.
use Prim.Native.String.{String, ◌++◌, len}
use c_web_socket_client_with.Client.{queue_capacity}
use c_web_socket_client_with.Prelude.Decimal.{to_string}
use c_web_socket_client_with.Prelude.{ℕ, ◌/◌, ◌+◌, Option, some, List, [], ◌∷◌, ◌>>=◌}
use c_web_socket_client_with.Display.{padding}

-- The numbers as `std::to_string` prints them: the cores, the capacity of the queue, the read buffer in
-- KB, and the number and the size of the pool's blocks.
pub record Numbers : Type 0 where
  pub cores : String
  pub capacity : String
  pub buffer_kb : String
  pub blocks : String
  pub block_size : String

-- The numbers of this program on a machine with that many cores: kQueueCapacity, kReadBufferSize,
-- kPoolNumBlocks and kPoolBlockSize.
abbrev pub numbers : ℕ → Numbers
numbers cores = record {
  cores = to_string cores;
  capacity = to_string queue_capacity;
  buffer_kb = to_string (65536 / 1024);
  blocks = to_string 256;
  block_size = to_string 4096;
}

-- The lines of the box, given what pads the four lines of the numbers.
abbrev pub system_lines : Numbers → (cores capacity buffer pool : String) → List String
system_lines n cores capacity buffer pool =
    "╔══════════════════════════════════════════════╗"
    ∷ "║   Low Latency WebSocket Client v2.0         ║"
    ∷ "╠══════════════════════════════════════════════╣"
    ∷ ("║  CPU cores     : " ++ (n.cores ++ (cores ++ "║")))
    ∷ ("║  Queue capacity: " ++ (n.capacity ++ (capacity ++ "║")))
    ∷ ("║  Read buffer   : " ++ (n.buffer_kb ++ (" KB" ++ (buffer ++ "║"))))
    ∷ ("║  Pool blocks   : " ++ (n.blocks ++ (" x " ++ (n.block_size ++ (" B" ++ (pool ++ "║"))))))
    ∷ "╚══════════════════════════════════════════════╝"
    ∷ []

-- `none` is an exception of `std::string`.
unfoldable pub system_info : Numbers → Option (List String)
system_info n = do
  cores ← padding 28 (len n.cores)
  capacity ← padding 28 (len n.capacity)
  buffer ← padding 25 (len n.buffer_kb)
  pool ← padding 22 (len n.blocks + len n.block_size)
  some (system_lines n cores capacity buffer pool)

abbrev pub print_system_info : (cores : ℕ) → Option (List String)
print_system_info cores = system_info (numbers cores)
