-- ===== src/Client/Session.antt =====
-- `connect()` and `close()` of include/websocket_client.h, and bursts of messages.
use c_web_socket_client_with.Prelude.{
  sym, ℕ, zero, suc, ◌+◌, ◌≤◌, ◌<◌, ◌≡◌, refl, ap, ◌∙◌, Bool, true, false, none, some, List, [],
  ◌∷◌, ◌++◌, arith, map, length, length-append, append-nil, append_assoc, ==-false, Bool-cases, inl,
  inr, if◌then◌else◌,
}
use c_web_socket_client_with.Fifo
use c_web_socket_client_with.Fifo.{FifoQueue}
use c_web_socket_client_with.Client.{
  Message, Read, frame, Connection, established, resolve_throws, connect_throws, handshake_throws,
  closed_by_server, read_error, throws, Client, connect, close, destroy, close_stream, arrive,
  receive_loop, receiver_ends, Report, report, connected_to, read_failed, receiver_exception,
  test_running, push_message,
}
use c_web_socket_client_with.Client.Receive.{
  received, Sim, close_stream_lem, received-taken, close-Sim, push_message_lem,
}
use c_web_socket_client_with.Client.Inbox.{Inbox, deliver, receive, Action, arrival, take, taken}

abbrev pub is_established : Connection → Bool
is_established established = true
is_established _ = false

abbrev pub arrivals : List Message → List Action
arrivals [] = []
arrivals (m ∷ ms) = arrival (frame m.payload m.is_text) ∷ arrivals ms

abbrev pub takes : ℕ → List Action
takes zero = []
takes (suc n) = take ∷ takes n

pub push_room :
    {limit : ℕ} (m : Message) (ws : List Message)
    → length ws < limit
    → (Fifo.push limit m ws).1 ≡ ws ++ m ∷ []
unfolding Fifo.push
push_room {limit} m ws h = rw (==-false {a = length ws} {b = limit} (omega (arith, h))) refl

fill :
    (limit : ℕ) (ms ws : List Message) (acts : List Action)
    → length ws + length ms ≤ limit
    → taken limit (record { waiting = ws; is_open = true }) (arrivals ms ++ acts)
      ≡ taken limit (record { waiting = ws ++ ms; is_open = true }) acts
unfolding taken receive deliver
fill limit [] ws acts h = rw (append-nil ws) refl
fill limit (m ∷ ms) ws acts h =
    ap (λ w. taken limit (record { waiting = w; is_open = true }) (arrivals ms ++ acts))
      (push_room {limit = limit} m ws (omega (arith, h)))
    ∙ fill limit ms (ws ++ m ∷ []) acts (omega (arith, h, length-append ws (m ∷ [])))
    ∙ ap (λ w. taken limit (record { waiting = w; is_open = true }) acts)
        (append_assoc ws (m ∷ []) ms)

drain :
    (limit : ℕ) (ws : List Message) (on : Bool)
    → taken limit (record { waiting = ws; is_open = on }) (takes (length ws)) ≡ map some ws
unfolding taken Fifo.pop
drain limit [] on = refl
drain limit (w ∷ ws) on = ap (λ rest. some w ∷ rest) (drain limit ws on)

module _ (q : FifoQueue Message) where
  -- `connect()` of a client whose receiver thread is not joinable returns if every step succeeds and
  -- throws otherwise. If it returns, the client receives; if it throws, it is left as disconnected
  -- as it was. Messages that wait in the queue are kept.
  pub connect-Sim :
      (o : Connection) (c : Client q.State) (ws : List Message)
      → Sim q c (record { waiting = ws; is_open = false })
      → c.joinable ≡ false
      → (d : Client q.State) × (connect o c ≡ some (is_established o, d))
        × Sim q d (record { waiting = ws; is_open = is_established o })
  unfolding connect
  connect-Sim established c ws s j = (
    report connected_to (record c {
      is_open = true;
      running = true;
      joinable = true;
      receiving = true;
      handshake = some (c.host, none);
    }),
    rw j refl,
    record { holds = s.holds; receiving = refl; running = refl; thread = λ e. refl },
  )
  connect-Sim handshake_throws c ws s j = (
    record c { handshake = some (c.host, none) },
    refl,
    record { holds = s.holds; receiving = s.receiving; running = s.running; thread = s.thread },
  )
  connect-Sim resolve_throws c ws s j = (c, refl, s)
  connect-Sim connect_throws c ws s j = (c, refl, s)

  -- A burst of messages to a connected client with an empty queue, no longer than the queue has
  -- room for, is handed over complete and in order.
  pub burst_delivered :
      (ms : List Message) (c : Client q.State)
      → Sim q c (record { waiting = []; is_open = true })
      → length ms ≤ q.limit
      → received q c (arrivals ms ++ takes (length ms)) ≡ map some ms
  burst_delivered ms c s h =
      received-taken q (arrivals ms ++ takes (length ms)) c _ s
      ∙ fill q.limit ms [] (takes (length ms)) (omega (arith, h))
      ∙ drain q.limit ms true

  ended_is_open :
      (reported : Bool) (x : Report) (c : Client q.State)
      → (receiver_ends q (if reported then report x c else c)).is_open ≡ c.is_open
  ended_is_open true x c = refl
  ended_is_open false x c = refl

  tested_is_open : (c : Client q.State) → (test_running q c).is_open ≡ c.is_open
  tested_is_open c = elim (Bool-cases c.running) [ inl on ↦ rw on refl | inr off ↦ rw off refl ]

  receive_loop_is_open : (r : Read) (c : Client q.State) → (receive_loop q r c).is_open ≡ c.is_open
  unfolding receive_loop
  receive_loop_is_open (frame bytes got_text) c =
      let m : Message = record { payload = bytes; is_text = got_text } in
      tested_is_open (push_message q m c) ∙ (push_message_lem q m c).4
  receive_loop_is_open closed_by_server c = refl
  receive_loop_is_open read_error c = ended_is_open c.running read_failed c
  receive_loop_is_open throws c = ended_is_open c.running receiver_exception c

  arrive_is_open : (r : Read) (c : Client q.State) → (arrive q r c).is_open ≡ c.is_open
  unfolding arrive
  arrive_is_open r c = elim (Bool-cases c.receiving) [
    | inl on ↦ rw on (receive_loop_is_open r _)
    | inr off ↦ rw off refl
  ]

  joined_lem :
      (r : Read) (c : Client q.State)
      → ((if c.joinable then record (arrive q r c) { joinable = false } else c).joinable ≡ false)
        × ((if c.joinable then record (arrive q r c) { joinable = false } else c).is_open
            ≡ c.is_open)
  joined_lem r c = elim (Bool-cases c.joinable) [
    | inl on ↦ rw on (refl, arrive_is_open r _)
    | inr off ↦ rw off (refl, refl)
  ]

  closed_lem :
      (fails : Bool) (r : Read) (c : Client q.State)
      → ((close q fails r c).joinable ≡ false) × ((close q fails r c).is_open ≡ false)
  unfolding close
  closed_lem fails r c =
      let joined = joined_lem r (close_stream q fails c) in
      (joined.0, joined.1 ∙ (close_stream_lem q fails c).2)

  closed-close :
      (fails : Bool) (r : Read) (c : Client q.State)
      → c.running ≡ false
      → c.joinable ≡ false
      → c.is_open ≡ false
      → close q fails r c ≡ c
  unfolding close
  closed-close fails r c off joined shut = ap (close q fails r) same ∙ sym same
    where
      same : c ≡ record c { running = false; joinable = false; is_open = false }
      same = λ i. record c { running = off i; joinable = joined i; is_open = shut i }

  -- After `close()` the receiver has ended, nothing is joinable and the stream is closed, whether
  -- or not the closing handshake fails, if before it the receiver thread was running exactly while
  -- `running_` was set, and joinable then. The destructor after it changes nothing.
  pub close_lem :
      (fails : Bool) (r : Read) (c : Client q.State) (i : Inbox)
      → Sim q c i
      → ((close q fails r c).running ≡ false)
        × ((close q fails r c).receiving ≡ false)
        × ((close q fails r c).joinable ≡ false)
        × ((close q fails r c).is_open ≡ false)
        × (destroy q fails r (close q fails r c) ≡ close q fails r c)
  close_lem fails r c i s =
      let after = close-Sim q fails r c i s in
      let (joinable, is_open) = closed_lem fails r c in
      (
        after.running,
        after.receiving,
        joinable,
        is_open,
        closed-close fails r (close q fails r c) after.running joinable is_open,
      )
