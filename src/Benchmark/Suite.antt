-- ===== src/Benchmark/Suite.antt =====
-- `main` of benchmarks/benchmark_client.cpp: the benchmarks, one after another, over one client. The
-- figures of time of the throughput benchmark are left out.
use Prim.Native.String.{String}
use c_web_socket_client_with.Prelude.{ℕ, zero, suc, ◌+◌, Option, none, some, List}
use c_web_socket_client_with.Config.{benchmark_messages, warmup_messages}
use c_web_socket_client_with.Latency.{LatencyStats}
use c_web_socket_client_with.Chat.{ChatClient}
use c_web_socket_client_with.Benchmark.{
  Measured, measured, threw, spinning, then_measure, sequential_rtt, warmup_effect, Row,
  table_sizes, message_sizes,
}

-- What the benchmarks print: the samples of the three reports, and the lines of the table.
pub record Reports : Type 0 where
  pub sequential : LatencyStats
  pub cold : LatencyStats
  pub warm : LatencyStats
  pub rows : List Row

-- What the program meets: the texts of the messages by their numbers, how bytes are read as a text,
-- and what happens to the client during a sleep of 100 ms.
pub record Surroundings (S : Type 0) : Type 0 where
  pub seq : ℕ → String
  pub burst : ℕ → String
  pub cold : ℕ → String
  pub warm : ℕ → String
  pub text_of : List ℕ → String
  pub sleep : S → S

-- How `main` ends: with 0, what it has printed and the closed client; with 1; or not at all.
pub data Suite (S : Type 0) : Type 0 where
  completed : Reports → S → Suite S
  failed : Suite S
  unfinished : Suite S

-- The part of the `try` block after a benchmark.
abbrev pub then_run : {A S : Type 0} → Measured A S → (A → S → Suite S) → Suite S
then_run (measured a c) f = f a c
then_run threw f = failed
then_run spinning f = unfinished

module _ {S : Type 0} (cl : ChatClient S) (w : Surroundings S) where
  -- The loop that waits for the greeting, with `n` rounds to go.
  unfoldable pub await_greeting : ℕ → S → S
  await_greeting zero c = c
  await_greeting (suc n) c = elim (cl.try_receive c).0 [
    | none ↦ await_greeting n (w.sleep (cl.try_receive c).1)
    | some greeting ↦ (cl.try_receive c).1
  ]

  -- The first loop of `benchmark_throughput`, from message `i` on, with `n` messages to go.
  unfoldable pub send_all : ℕ → ℕ → S → Measured Unit S
  send_all i zero c = measured tt c
  send_all i (suc n) c = elim (cl.send_text (w.burst i) c) [
    | none ↦ threw
    | some d ↦ send_all (i + 1) n d
  ]

  -- The second loop, with `n` messages to receive, for as many polls as given.
  unfoldable pub receive_all : (polls : ℕ) → ℕ → S → Measured Unit S
  receive_all polls zero c = measured tt c
  receive_all zero (suc n) c = spinning
  receive_all (suc polls) (suc n) c = elim (cl.try_receive c).0 [
    | none ↦ receive_all polls (suc n) (cl.try_receive c).1
    | some response ↦ receive_all polls n (cl.try_receive c).1
  ]

  abbrev pub throughput : (polls : ℕ) → ℕ → S → Measured Unit S
  throughput polls num_messages c =
      then_measure (send_all 0 num_messages c) (λ u d. receive_all polls num_messages d)

  -- The four benchmarks and the end of the `try` block.
  unfoldable pub benchmarks : (polls : ℕ) → S → Suite S
  benchmarks polls c = then_run (sequential_rtt cl w.seq benchmark_messages c) (λ sequential c1.
      then_run (throughput polls benchmark_messages c1) (λ u c2.
        then_run (warmup_effect cl w.cold w.warm warmup_messages benchmark_messages c2) (λ stats c3.
          then_run (message_sizes cl w.text_of table_sizes c3) (λ rows c4.
            completed
              (record { sequential = sequential; cold = stats.0; warm = stats.1; rows = rows })
              (cl.close c4)))))

  -- `main`, given what the construction and `connect()` of the client give.
  unfoldable pub suite : (polls : ℕ) → Option S → Suite S
  suite polls none = failed
  suite polls (some c) = benchmarks polls (await_greeting 50 c)
