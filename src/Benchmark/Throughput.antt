-- ===== src/Benchmark/Throughput.antt =====
-- Whether `benchmark_throughput` of benchmarks/benchmark_client.cpp ends, over the client and its queue.
use c_web_socket_client_with.Prelude.{
  ◌<◌, ℕ, zero, suc, ◌+◌, ◌≤◌, ◌≡◌, ◌↔◌, refl, ◌∙◌, Bool, true, false, none, Option, some, List, [],
  ◌∷◌, arith, length, length-append, min, ==-true, ==-false, ℕ_discrete,
}
use c_web_socket_client_with.Fifo
use c_web_socket_client_with.Fifo.{FifoQueue}
use c_web_socket_client_with.Client
use c_web_socket_client_with.Client.{Message, Read, frame, Client, try_receive, arrive}
use c_web_socket_client_with.Client.Inbox.{Inbox, deliver, receive}
use c_web_socket_client_with.Client.Receive.{Sim, arrive-Sim, take-Sim}
use c_web_socket_client_with.Benchmark.{
  receive_burst, send_burst, arrives, benchmark_throughput, measured,
}

-- One more message arrives after each poll.
abbrev pub frames : List Message → List Read
frames [] = []
frames (m ∷ ms) = frame m.payload m.is_text ∷ frames ms

module _ (q : FifoQueue Message) where
  -- The client after the messages `ms` have arrived.
  abbrev arrive_all : List Message → Client q.State → Client q.State
  arrive_all ms c = arrives q (frames ms) c

  -- The inbox after an arrival, for as long as it stays open.
  push-length :
      (m : Message) (ws : List Message)
      → length ws ≤ q.limit
      → length (Fifo.push q.limit m ws).1 ≡ min q.limit (length ws + 1)
  unfolding Fifo.push
  push-length m ws h = elim (ℕ_discrete (length ws) q.limit) [
    | yes e ↦ rw (==-true e) (omega (arith, e))
    | no ne ↦ rw (==-false ne, length-append ws (m ∷ [])) (omega (arith, h, ne))
  ]

  arrive_all-Sim :
      (ms : List Message) (c : Client q.State) (ws : List Message)
      → Sim q c (record { waiting = ws; is_open = true })
      → length ws ≤ q.limit
      → (vs : List Message) × Sim q (arrive_all ms c) (record { waiting = vs; is_open = true })
        × (length vs ≡ min q.limit (length ws + length ms))
  unfolding receive deliver
  arrive_all-Sim [] c ws s h = (ws, s, omega (arith, h))
  arrive_all-Sim (m ∷ ms) c ws s h =
      let one = push-length m ws h in
      let (vs, t, e) =
        arrive_all-Sim ms (arrive q (frame m.payload m.is_text) c) (Fifo.push q.limit m ws).1
          (arrive-Sim q (frame m.payload m.is_text) c (record { waiting = ws; is_open = true }) s)
          (omega (arith, one)) in
      (vs, t, e ∙ omega (arith, one, h))

  -- Once all has arrived, the loop ends exactly if enough messages wait.
  drain_iff :
      (n : ℕ) (c : Client q.State) (ws : List Message) (on : Bool)
      → Sim q c (record { waiting = ws; is_open = on })
      → ((d : Client q.State) × (receive_burst q n [] c ≡ some d)) ↔ (n ≤ length ws)
  unfolding receive_burst Fifo.pop
  drain_iff zero c ws on s = (λ h. omega arith, λ h. (c, refl))
  drain_iff (suc n) c [] on s =
      rw (receive_burst, q.pop_reply c.queue [] s.holds)
        (λ h. absurd cc (h.1), λ h. absurd omega arith)
  drain_iff (suc n) c (w ∷ ws) on s =
      rw (receive_burst, q.pop_reply c.queue (w ∷ ws) s.holds)
        (let (to, back) =
            drain_iff n (try_receive q c).1 ws on
              (take-Sim q c (record { waiting = w ∷ ws; is_open = on }) s) in
          (λ h. omega (arith, to h), λ h. back (omega (arith, h))))

  next-Sim :
      (m : Message) (c : Client q.State) (ws : List Message)
      → Sim q c (record { waiting = ws; is_open = true })
      → Sim q
          (arrive q (frame m.payload m.is_text) c)
          (record { waiting = (Fifo.push q.limit m ws).1; is_open = true })
  unfolding receive deliver
  next-Sim m c ws s =
      arrive-Sim q (frame m.payload m.is_text) c (record { waiting = ws; is_open = true }) s

  -- The loop ends exactly if enough messages wait or are still to arrive.
  receive_iff :
      (n : ℕ) (ms : List Message) (c : Client q.State) (ws : List Message)
      → Sim q c (record { waiting = ws; is_open = true })
      → length ws ≤ q.limit
      → 0 < q.limit
      → ((d : Client q.State) × (receive_burst q n (frames ms) c ≡ some d))
        ↔ (n ≤ length ws + length ms)
  unfolding receive_burst Fifo.pop
  receive_iff zero ms c ws s fits room = (λ h. omega arith, λ h. (c, refl))
  receive_iff (suc n) [] c ws s fits room =
      let (to, back) = drain_iff (suc n) c ws true s in
      (λ h. omega (arith, to h), λ h. back (omega (arith, h)))
  receive_iff (suc n) (m ∷ ms) c [] s fits room =
      let polled = take-Sim q c (record { waiting = []; is_open = true }) s in
      let grown = push-length m [] (omega arith) in
      rw (receive_burst, q.pop_reply c.queue [] s.holds)
        (let (to, back) =
            receive_iff (suc n) ms (arrive q (frame m.payload m.is_text) (try_receive q c).1)
              (Fifo.push q.limit m []).1 (next-Sim m (try_receive q c).1 [] polled)
              (omega (arith, grown)) room in
          (λ h. omega (arith, to h, grown), λ h. back (omega (arith, h, grown, room))))
  receive_iff (suc n) (m ∷ ms) c (w ∷ ws) s fits room =
      let polled = take-Sim q c (record { waiting = w ∷ ws; is_open = true }) s in
      let grown = push-length m ws (omega (arith, fits)) in
      rw (receive_burst, q.pop_reply c.queue (w ∷ ws) s.holds)
        (let (to, back) =
            receive_iff n ms (arrive q (frame m.payload m.is_text) (try_receive q c).1)
              (Fifo.push q.limit m ws).1 (next-Sim m (try_receive q c).1 ws polled)
              (omega (arith, grown)) room in
          (λ h. omega (arith, to h, grown), λ h. back (omega (arith, h, grown, fits))))

  burst_iff :
      (before later : List Message) (c : Client q.State)
      → Sim q c (record { waiting = []; is_open = true })
      → 0 < q.limit
      → ((d : Client q.State) × (receive_burst q
              (length before + length later)
              (frames later)
              (arrive_all before c)
            ≡ some d))
        ↔ (length before ≤ q.limit)
  burst_iff before later c s room =
      let (vs, t, e) = arrive_all-Sim before c [] s (omega arith) in
      let (to, back) =
        receive_iff (length before + length later) later (arrive_all before c) vs t
          (omega (arith, e)) room in
      (λ h. omega (arith, to h, e), λ h. back (omega (arith, h, e)))

  -- Sends that do not throw leave the queue as it is.
  send_burst-Sim :
      (fails : ℕ → Bool) (message : ℕ → List ℕ) (i n : ℕ) (c : Client q.State) (x : Inbox)
      → ((j : ℕ) → fails j ≡ false)
      → Sim q c x
      → (d : Client q.State) × (send_burst fails message i n c ≡ some d) × Sim q d x
  unfolding send_burst Client.send_text
  send_burst-Sim fails message i zero c x ok s = (c, refl, s)
  send_burst-Sim fails message i (suc n) c x ok s = rw (ok i) (
      send_burst-Sim fails message (i + 1) n
        (record c { sent = record { payload = message i; is_text = true } ∷ c.sent }) x ok
        (record {
          holds = s.holds;
          receiving = s.receiving;
          running = s.running;
          thread = s.thread;
        }))

  -- Of a throughput benchmark whose sends do not throw, let the answers `before` arrive before the
  -- first poll, and the others one after each poll. It ends exactly if the queue has room for all of
  -- `before`; otherwise some are dropped, and it polls for ever. The queue has room for at least one
  -- message, and the client has connected and none waits.
  pub throughput_ends_iff :
      (fails : ℕ → Bool) (message : ℕ → List ℕ) (before later : List Message) (c : Client q.State)
      → ((j : ℕ) → fails j ≡ false)
      → Sim q c (record { waiting = []; is_open = true })
      → 0 < q.limit
      → ((d : Client q.State) × (benchmark_throughput q fails message
              (length before + length later)
              (frames before)
              (frames later)
              c
            ≡ measured (length before + length later) d))
        ↔ (length before ≤ q.limit)
  unfolding benchmark_throughput
  throughput_ends_iff fails message before later c ok s room =
      ends (receive_burst q n (frames later) (arrive_all before sent)) refl
    where
      n : ℕ
      n = length before + length later

      sent : Client q.State
      sent = (send_burst-Sim fails message 0 n c _ ok s).0

      e : send_burst fails message 0 n c ≡ some sent
      e = (send_burst-Sim fails message 0 n c _ ok s).1

      room_iff :
          ((d : Client q.State) × (receive_burst q n (frames later) (arrive_all before sent)
              ≡ some d))
          ↔ (length before ≤ q.limit)
      room_iff = burst_iff before later sent ((send_burst-Sim fails message 0 n c _ ok s).2) room

      ends :
          (r : Option (Client q.State))
          → receive_burst q n (frames later) (arrive_all before sent) ≡ r
          → ((d : Client q.State) × (benchmark_throughput q fails message n
                  (frames before)
                  (frames later)
                  c
                ≡ measured n d))
            ↔ (length before ≤ q.limit)
      ends none k =
          rw (e, k) (λ h. absurd cc (h.1), λ h. let (d, found) = room_iff.1 h in absurd cc)
      ends (some d) k = rw (e, k) (λ h. room_iff.0 (d, k), λ h. (d, refl))
