-- ===== src/Benchmark/Tests.antt =====
-- Small runs of benchmarks/benchmark_client.cpp, and the theorems at them.
use c_web_socket_client_with.Prelude.{ℕ, refl, true, ◌≤◌, ◌≡◌, ◌↔◌, some, List, [], ◌∷◌, arith}
use c_web_socket_client_with.Client.{Message, Read, Client, frame, closed_by_server, read_error}
use c_web_socket_client_with.Client.Instance.{q, ready, ready-Sim, hello, bytes}
use c_web_socket_client_with.Prelude.{Bool, zero, suc, false}
use c_web_socket_client_with.Benchmark.{
  benchmark_throughput, make_payload, measured, measure, message_sizes, size_row,
}
use c_web_socket_client_with.Benchmark.Throughput.{frames, throughput_ends_iff}
use c_web_socket_client_with.Chat.Online.{Online, Outside, web_socket}
use c_web_socket_client_with.Benchmark.Suite.{
  Surroundings, Suite, completed, suite, benchmarks, await_greeting, send_all, receive_all,
}
use c_web_socket_client_with.Spsc
use c_web_socket_client_with.Client
use c_web_socket_client_with.Benchmark.Online.{surrounded, IsClosed, suite-IsClosed}

abbrev burst : List Message
burst = hello ∷ bytes ∷ hello ∷ []

throughput_ends_iff_example :
    ((d : Client q.State) × (benchmark_throughput q
          (λ i. false)
          (λ i. make_payload 8)
          4
          (frames burst)
          (frames (bytes ∷ []))
          ready
        ≡ measured 4 d))
    ↔ (3 ≤ q.limit)
throughput_ends_iff_example =
    throughput_ends_iff q (λ i. false) (λ i. make_payload 8) burst (bytes ∷ []) ready (λ i. refl)
      ready-Sim (omega arith)

abbrev silent : Surroundings (Online q.State)
silent = record {
  seq = λ i. "seq";
  burst = λ i. "burst";
  cold = λ i. "cold";
  warm = λ i. "warm";
  text_of = λ bytes. "";
  sleep = λ o. o;
}

abbrev outside : Outside q.State
outside = record {
  text_of = λ bytes. "";
  bytes_of = λ s. [];
  clock = λ o. 0;
  write_fails = λ c. false;
  close_fails = false;
  last_read = read_error;
}

-- The reads that end during a run: `n` frames, and then the server closes.
abbrev answers : ℕ → List Read
answers zero = closed_by_server ∷ []
answers (suc n) = frame bytes.payload false ∷ answers n

-- A greeting, and an answer to every message of the program.
abbrev answered : Online q.State
answered = record { client = ready; reads = answers 611 }

suite-IsClosed_example :
    IsClosed q outside
      (suite (web_socket q outside) (surrounded q outside 1 silent) 200 (some answered))
suite-IsClosed_example = suite-IsClosed q outside 1 200 silent answered _ ready-Sim

-- Whether the program ends with 0.
abbrev is_completed : {S : Type 0} → Suite S → Bool
is_completed (completed reports o) = true
is_completed _ = false

-- It does there.
suite_ends :
    is_completed (suite (web_socket q outside) (surrounded q outside 1 silent) 200 (some answered))
    ≡ true
unfolding suite benchmarks await_greeting send_all receive_all measure message_sizes size_row
    Spsc.try_pop Spsc.new Client.arrive Client.receive_loop Spsc.try_push Spsc.next_index
    Client.send_text
suite_ends = refl
