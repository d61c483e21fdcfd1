-- ===== src/Benchmark/Online.antt =====
-- benchmarks/benchmark_client.cpp over WebSocketClient of include/websocket_client.h.
use c_web_socket_client_with.Prelude.{ℕ, zero, suc, ◌≡◌, ap, ◌∙◌, false, some, List, [], ◌∷◌}
use c_web_socket_client_with.Fifo.{FifoQueue}
use c_web_socket_client_with.Client.{Message, Read, Client, arrive}
use c_web_socket_client_with.Client.Inbox.{Inbox, receive}
use c_web_socket_client_with.Client.Receive.{Sim, arrive-Sim}
use c_web_socket_client_with.Client.Session.{close_lem}
use c_web_socket_client_with.Chat.Online.{Online, Outside, web_socket, Serves}
use c_web_socket_client_with.Chat.Closing.{web_socket-Keeps}
use c_web_socket_client_with.Benchmark.Suite.{
  Surroundings, Suite, completed, failed, unfinished, suite,
}
use c_web_socket_client_with.Benchmark.Closing.{Ends, suite-Ends}

module _ (q : FifoQueue Message) (out : Outside q.State) where
  -- A sleep during which at most `n` reads end.
  abbrev pub sleep : ℕ → List Read → Client q.State → Online q.State
  sleep zero rs c = record { client = c; reads = rs }
  sleep (suc n) [] c = record { client = c; reads = [] }
  sleep (suc n) (r ∷ rs) c = sleep n rs (arrive q r c)

  -- `n` reads end during each of the sleeps that wait for the greeting.
  abbrev pub surrounded : ℕ → Surroundings (Online q.State) → Surroundings (Online q.State)
  surrounded n w = record w { sleep = λ o. sleep n o.reads o.client }

  sleep-Serves :
      (n : ℕ) (rs : List Read) (c : Client q.State) (i : Inbox)
      → Sim q c i
      → Serves q out (sleep n rs c)
  sleep-Serves zero rs c i s = (i, s)
  sleep-Serves (suc n) [] c i s = (i, s)
  sleep-Serves (suc n) (r ∷ rs) c i s =
      sleep-Serves n rs (arrive q r c) (receive q.limit r i) (arrive-Sim q r c i s)

  -- If the program ends with 0, its client has been closed.
  abbrev pub IsClosed : Suite (Online q.State) → Type 0
  IsClosed (completed reports o) =
      (o.client.running ≡ false)
      × (o.client.receiving ≡ false)
      × (o.client.joinable ≡ false)
      × (o.client.is_open ≡ false)
  IsClosed failed = Unit
  IsClosed unfinished = Unit

  ended-IsClosed :
      (n : ℕ) (w : Surroundings (Online q.State)) (e : Suite (Online q.State))
      → Ends
          (web_socket q out)
          (surrounded n w)
          (web_socket-Keeps q out)
          (λ o (i, s). sleep-Serves n o.reads o.client i s)
          e
      → IsClosed e
  ended-IsClosed n w (completed reports o) (d, (i, s), e) =
      let (off, over, joined, shut, again) =
        close_lem q out.close_fails out.last_read d.client i s in
      (
        ap (λ x. x.client.running) e ∙ off,
        ap (λ x. x.client.receiving) e ∙ over,
        ap (λ x. x.client.joinable) e ∙ joined,
        ap (λ x. x.client.is_open) e ∙ shut,
      )
  ended-IsClosed n w failed h = tt
  ended-IsClosed n w unfinished h = tt

  -- The program over a connected WebSocketClient, however the reads of its receiver thread end, during
  -- the sleeps too: if it ends with 0, the receiver thread has ended and been joined, and the stream is
  -- closed.
  pub suite-IsClosed :
      (n polls : ℕ) (w : Surroundings (Online q.State)) (o : Online q.State) (i : Inbox)
      → Sim q o.client i
      → IsClosed (suite (web_socket q out) (surrounded n w) polls (some o))
  suite-IsClosed n polls w o i s = ended-IsClosed n w _ (
      suite-Ends (web_socket q out) (surrounded n w) (web_socket-Keeps q out)
        (λ x (j, t). sleep-Serves n x.reads x.client j t) polls o (i, s))
