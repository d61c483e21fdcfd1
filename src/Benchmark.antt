-- ===== src/Benchmark.antt =====
-- benchmarks/benchmark_client.cpp. The console output is left out.
pub mod Payload
pub mod Throughput
pub mod Suite
pub mod Closing
pub mod Online
mod Tests
use Prim.Native.String.{String}
use c_web_socket_client_with.Prelude.{
  Bool, ℕ, zero, suc, ◌+◌, ◌-◌, ◌*◌, ◌/◌, ◌%◌, Option, none, some, List, [], ◌∷◌, ◌++◌, length,
  get_or,
}
use c_web_socket_client_with.Config.{default_host, default_port}
use c_web_socket_client_with.Fifo.{FifoQueue}
use c_web_socket_client_with.Latency.{LatencyStats, record_since, sort, sum, back}
use c_web_socket_client_with.Chat.{ChatClient}
use c_web_socket_client_with.Client
use c_web_socket_client_with.Client.{Message, Read, Client, try_receive, arrive}

-- The loop of `make_payload` from `i` on, with `n` rounds to go.
unfoldable pub payload_from : ℕ → ℕ → List ℕ
payload_from i zero = []
payload_from i (suc n) = (b'A' + i % 26) ∷ payload_from (i + 1) n

abbrev pub make_payload : ℕ → List ℕ
make_payload size = payload_from 0 size

-- How a benchmark ends: with what it has measured, by a send that throws, or never, in
-- `spin_receive()`.
pub data Measured (A S : Type 0) : Type 0 where
  measured : A → S → Measured A S
  threw : Measured A S
  spinning : Measured A S

-- What follows a part of a benchmark.
abbrev pub then_measure : {A B S : Type 0} → Measured A S → (A → S → Measured B S) → Measured B S
then_measure (measured a c) f = f a c
then_measure threw f = threw
then_measure spinning f = spinning

module _ {S : Type 0} (cl : ChatClient S) where
  -- One message: the send, the wait for the answer, and the sample.
  abbrev pub exchange : String → LatencyStats → S → Measured LatencyStats S
  exchange msg stats c = sent (cl.send_text msg c)
    where
      answered : Option (String × S) → Measured LatencyStats S
      answered none = spinning
      answered (some (response, e)) = measured (record_since (cl.now c) (cl.now e) stats) e

      sent : Option S → Measured LatencyStats S
      sent none = threw
      sent (some d) = answered (cl.spin_receive d)

  -- The loop of a measurement from message `i` on, with `n` messages to go.
  unfoldable pub measure :
      (message : ℕ → String) → ℕ → ℕ → LatencyStats → S → Measured LatencyStats S
  measure message i zero stats c = measured stats c
  measure message i (suc n) stats c =
      then_measure (exchange (message i) stats c) (λ st d. measure message (i + 1) n st d)

  -- The samples of `benchmark_sequential_rtt`; `message i` is "seq_" and the number.
  abbrev pub sequential_rtt : (ℕ → String) → ℕ → S → Measured LatencyStats S
  sequential_rtt message num_messages c = measure message 0 num_messages [] c

  -- The samples of the two reports of `benchmark_warmup_effect`.
  abbrev pub warmup_effect :
      (cold warm : ℕ → String) → ℕ → ℕ → S → Measured (LatencyStats × LatencyStats) S
  warmup_effect cold warm warmup_count measure_count c =
      then_measure (measure cold 0 warmup_count [] c) (λ cold_stats d.
        then_measure (measure warm 0 measure_count [] d)
          (λ warm_stats e. measured (cold_stats, warm_stats) e))

-- `static_cast<size_t>(0.99 * (n - 1))`
abbrev pub p99_index : ℕ → ℕ
p99_index n = 99 * (n - 1) / 100

-- A line of the table of `benchmark_message_sizes`; the mean is `total / samples`.
pub record Row : Type 0 where
  pub min : ℕ
  pub total : ℕ
  pub samples : ℕ
  pub p99 : ℕ
  pub max : ℕ

unfoldable pub size_row : LatencyStats → Row
size_row samples =
    let sorted = sort samples in
    record {
      min = get_or sorted 0 0;
      total = sum sorted;
      samples = length sorted;
      p99 = get_or sorted (p99_index (length sorted)) 0;
      max = back sorted;
    }

-- `kMessagesPerSize`
abbrev pub messages_per_size : ℕ
messages_per_size = 50

abbrev pub table_sizes : List ℕ
table_sizes = 16 ∷ 64 ∷ 256 ∷ 1024 ∷ 4096 ∷ 16384 ∷ []

-- The lines of `benchmark_message_sizes` for the given sizes; `text_of` reads bytes as a text.
unfoldable pub message_sizes :
    {S : Type 0} → ChatClient S → (text_of : List ℕ → String) → List ℕ → S → Measured (List Row) S
message_sizes cl text_of [] c = measured [] c
message_sizes cl text_of (size ∷ sizes) c =
    then_measure (measure cl (λ i. text_of (make_payload size)) 0 messages_per_size [] c)
      (λ samples d.
        then_measure (message_sizes cl text_of sizes d)
          (λ rows e. measured (size_row samples ∷ rows) e))

-- How many messages are left to receive, of `n + 1`, after a poll.
abbrev pub remaining : Option Message → ℕ → ℕ
remaining none n = suc n
remaining (some msg) n = n

module _ (q : FifoQueue Message) where
  -- The second loop of `benchmark_throughput`, with `n` messages to receive, while the given reads of
  -- the receiver thread end, one after each poll. When no read is to come, a poll that finds nothing
  -- is repeated for ever: `none`.
  unfoldable pub receive_burst : ℕ → List Read → Client q.State → Option (Client q.State)
  receive_burst zero rs c = some c
  receive_burst (suc n) [] c = elim (try_receive q c).0 [
    | none ↦ none
    | some msg ↦ receive_burst n [] (try_receive q c).1
  ]
  receive_burst (suc n) (r ∷ rs) c =
      receive_burst (remaining (try_receive q c).0 n) rs (arrive q r (try_receive q c).1)

-- The first loop of `benchmark_throughput`, from message `i` on, with `n` messages to go; which of the
-- writes throw is given.
unfoldable pub send_burst :
    {S : Type 0} → (fails : ℕ → Bool) (message : ℕ → List ℕ) → ℕ → ℕ → Client S → Option (Client S)
send_burst fails message i zero c = some c
send_burst fails message i (suc n) c =
    sent (Client.send_text (fails i) (message i) c) (λ d. send_burst fails message (i + 1) n d)
  where
    sent : {S : Type 0} → Option (Client S) → (Client S → Option (Client S)) → Option (Client S)
    sent none f = none
    sent (some d) f = f d

module _ (q : FifoQueue Message) where
  -- The given reads end, one after another.
  abbrev pub arrives : List Read → Client q.State → Client q.State
  arrives [] c = c
  arrives (r ∷ rs) c = arrives rs (arrive q r c)

  -- `benchmark_throughput` up to the figures of time, where `before` are the reads that end before
  -- the first poll.
  unfoldable pub benchmark_throughput :
      (fails : ℕ → Bool) (message : ℕ → List ℕ)
      → ℕ
      → (before later : List Read) → Client q.State
      → Measured ℕ (Client q.State)
  benchmark_throughput fails message num_messages before later c =
      sent (send_burst fails message 0 num_messages c)
    where
      received : Option (Client q.State) → Measured ℕ (Client q.State)
      received none = spinning
      received (some d) = measured num_messages d

      sent : Option (Client q.State) → Measured ℕ (Client q.State)
      sent none = threw
      sent (some d) = received (receive_burst q num_messages later (arrives before d))

-- `main`: the host and the port, given the arguments after the name of the program.
abbrev pub bench_target : List String → String × String
bench_target (host ∷ port ∷ rest) = (host, port)
bench_target args = (default_host, default_port)
