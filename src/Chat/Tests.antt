-- ===== src/Chat/Tests.antt =====
-- A session of src/main.cpp with an echoing client and the pool of its size, and the theorems at it.
use Prim.Native.String.{String}
use c_web_socket_client_with.Prelude.{ℕ, List, [], ◌∷◌}
use c_web_socket_client_with.Spsc
use c_web_socket_client_with.Client
use c_web_socket_client_with.Pool
use c_web_socket_client_with.Pool.Ptr
use c_web_socket_client_with.Pool.Invariant.{new-Inv}
use c_web_socket_client_with.Latency.{LatencyStats, count}
use c_web_socket_client_with.Pool.Ptr.{Store}
use c_web_socket_client_with.Chat.{Ended, bench_round, bench_loop, chat_loop, chat_session}
use c_web_socket_client_with.Chat.Blocks.{Keeps}
use c_web_socket_client_with.Chat.Session.{IsFinished, chat_session-IsFinished}
use c_web_socket_client_with.Prelude.{◌≤◌, arith}
use c_web_socket_client_with.Prelude.{◌≡◌, refl, true, false}
use c_web_socket_client_with.Client.{frame, closed_by_server}
use c_web_socket_client_with.Client.Instance.{q, ready, ready-Sim, hello, bytes}
use c_web_socket_client_with.Chat.Online.{Online, Outside, web_socket}
use c_web_socket_client_with.Chat.Closing.{IsOver, chat_session-IsOver}
use c_web_socket_client_with.Chat.Instance.{echo, pool_params, storage, pools, idle}

abbrev messages : List (String × ℕ)
messages = ("bench_0", 1) ∷ ("bench_1", 2) ∷ []

abbrev lines : List String
lines = "text" ∷ "hello" ∷ "bench" ∷ "stats" ∷ "/exit" ∷ "text" ∷ []

-- The clock does not go back.
echo-Keeps : Keeps echo (λ e. 0 ≤ e.time)
echo-Keeps = record {
  try_receive = λ e h. omega arith;
  spin_receive = λ e response d h k. omega arith;
  send_text = λ msg c d h k. omega arith;
  send_binary = λ msg c d h k. omega arith;
}

chat_session-IsFinished_example :
    IsFinished echo echo-Keeps storage 6 (chat_session echo pool_params messages lines pools idle)
chat_session-IsFinished_example =
    chat_session-IsFinished echo echo-Keeps storage messages lines pools idle
      (new-Inv storage (λ a. 0)) (omega arith)

-- A greeting and the answers arrive; then the server closes.
abbrev out : Outside q.State
out = record {
  text_of = λ bytes. "";
  bytes_of = λ text. [];
  clock = λ o. 0;
  write_fails = λ c. false;
  close_fails = false;
  last_read = closed_by_server;
}

abbrev online : Online q.State
online = record {
  client = ready;
  reads =
      frame hello.payload true
      ∷ frame bytes.payload false
      ∷ frame bytes.payload false
      ∷ frame hello.payload true
      ∷ closed_by_server
      ∷ [];
}

chat_session-IsOver_example :
    IsOver q out storage 6 (chat_session (web_socket q out) pool_params messages lines pools online)
chat_session-IsOver_example =
    chat_session-IsOver q out storage messages lines pools online _ (new-Inv storage (λ a. 0))
      ready-Sim

-- The session returns there, with a sample for the line that was sent.
session_returns :
    (s : Store) × (stats : LatencyStats) × (o : Online q.State) × (chat_session
        (web_socket q out)
        pool_params
        messages
        lines
        pools
        online
      ≡ Ended.returned s stats o)
    × (count stats ≡ 1)
unfolding chat_loop bench_loop bench_round Spsc.try_pop Spsc.new Client.arrive Client.receive_loop
    Spsc.try_push Spsc.next_index Client.send_text Pool.allocate Pool.new Pool.aligned_block_size
    Ptr.deallocate_in Pool.deallocate
session_returns = (_, _, _, refl, refl)
