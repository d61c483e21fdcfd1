-- ===== src/Config.antt =====
-- include/config.h: the constants that the program uses or repeats, and the wait policies.
-- IsPowerOfTwo is the test of Spsc.
mod Tests
use Prim.Native.String.{String}
use c_web_socket_client_with.Prelude.{ℕ, ◌-◌, ◌*◌, ◌/◌, Bool, true, false, ◌&&◌, ◌==◌, ltb, bit_and}

abbrev pub default_host : String
default_host = "echo.websocket.events"

abbrev pub default_port : String
default_port = "80"

abbrev pub tcp_no_delay : Bool
tcp_no_delay = true

-- kSendBufferSize and kRecvBufferSize
abbrev pub socket_buffer_sizes : ℕ × ℕ
socket_buffer_sizes = (65536, 65536)

abbrev pub queue_capacity : ℕ
queue_capacity = 1024

-- kPoolBlockSize and kPoolNumBlocks
abbrev pub pool_block_size : ℕ
pool_block_size = 4096

abbrev pub pool_num_blocks : ℕ
pool_num_blocks = 256

abbrev pub pool_total_bytes : ℕ
pool_total_bytes = pool_block_size * pool_num_blocks

abbrev pub pool_total_kb : ℕ
pool_total_kb = pool_total_bytes / 1024

-- kBenchmarkMessages and kWarmupMessages
abbrev pub benchmark_messages : ℕ
benchmark_messages = 100

abbrev pub warmup_messages : ℕ
warmup_messages = 10

-- kInitialBackoffMs to kMaxReconnectTries; the multiplier is an integer.
pub record Reconnection : Type 0 where
  pub initial_backoff_ms : ℕ
  pub max_backoff_ms : ℕ
  pub backoff_multiplier : ℕ
  pub max_reconnect_tries : ℕ

abbrev pub reconnection : Reconnection
reconnection = record {
  initial_backoff_ms = 100;
  max_backoff_ms = 30000;
  backoff_multiplier = 2;
  max_reconnect_tries = 10;
}

-- SpinWaitPolicy, YieldWaitPolicy and SleepWaitPolicy.
pub data WaitPolicy : Type 0 where
  spin_wait : WaitPolicy
  yield_wait : WaitPolicy
  sleep_wait : (microseconds : ℕ) → WaitPolicy

-- What a thread does that waits: a hint to the processor, giving up its time slice, or a sleep.
pub data Pause : Type 0 where
  mm_pause : Pause
  yields : Pause
  sleeps_for : (microseconds : ℕ) → Pause

-- `wait()`, on an x86 processor or not.
abbrev pub wait : (is_x86 : Bool) → WaitPolicy → Pause
wait true spin_wait = mm_pause
wait false spin_wait = yields
wait is_x86 yield_wait = yields
wait is_x86 (sleep_wait microseconds) = sleeps_for microseconds

abbrev pub name : WaitPolicy → String
name spin_wait = "spin-wait"
name yield_wait = "yield"
name (sleep_wait microseconds) = "sleep"

-- SelectWaitPolicy
abbrev pub select_wait_policy : (low_latency : Bool) → WaitPolicy
select_wait_policy true = spin_wait
select_wait_policy false = yield_wait
