-- ===== src/Client/Receive.antt =====
-- The messages that WebSocketClient of include/websocket_client.h hands to its user, as a bounded
-- inbox that is open while the receiver thread runs.
use c_web_socket_client_with.Prelude.{
  ◌≡◌, refl, ◌∙◌, Bool, true, false, Option, List, [], ◌∷◌, ap₂, Bool-cases, inl, inr,
  if◌then◌else◌,
}
use c_web_socket_client_with.Fifo
use c_web_socket_client_with.Fifo.{FifoQueue}
use c_web_socket_client_with.Client.{
  Message, Read, frame, closed_by_server, read_error, throws, Client, Report, try_receive,
  push_message, test_running, receiver_ends, receive_loop, arrive, close_stream, close, report,
  connection_closed, read_failed, receiver_exception,
}
use c_web_socket_client_with.Client.Inbox.{
  Inbox, deliver, receive, stops, Action, arrival, take, shut, taken,
}

module _ (q : FifoQueue Message) where
  -- What `try_receive()` returns in a sequence of actions.
  unfoldable pub received : Client q.State → List Action → List (Option Message)
  received c [] = []
  received c (arrival r ∷ acts) = received (arrive q r c) acts
  received c (take ∷ acts) = let (o, d) = try_receive q c in o ∷ received d acts
  received c (shut fails r ∷ acts) = received (close q fails r c) acts

  -- A client whose receiver thread runs exactly while the inbox is open, with the same messages.
  pub record Sim (c : Client q.State) (i : Inbox) : Type 0 where
    pub holds : q.Holds c.queue i.waiting
    pub receiving : c.receiving ≡ i.is_open
    pub running : c.running ≡ i.is_open
    pub thread : i.is_open ≡ true → c.joinable ≡ true

  -- Pushing a message changes the queue and the output only.
  pub push_message_lem :
      (m : Message) (c : Client q.State)
      → ((push_message q m c).queue ≡ (q.try_push m c.queue).1)
        × ((push_message q m c).running ≡ c.running)
        × ((push_message q m c).receiving ≡ c.receiving)
        × ((push_message q m c).joinable ≡ c.joinable)
        × ((push_message q m c).is_open ≡ c.is_open)
  push_message_lem m c = elim (Bool-cases (q.try_push m c.queue).0) [
    | inl e ↦ rw e (refl, refl, refl, refl, refl)
    | inr e ↦ rw e (refl, refl, refl, refl, refl)
  ]

  -- The receiver thread has ended, with or without a report.
  ended-Sim :
      (reported run : Bool) (x : Report) (c : Client q.State) (ws : List Message)
      → q.Holds c.queue ws
      → Sim
          (receiver_ends q (if reported then report x c else c))
          (stops run (record { waiting = ws; is_open = false }))
  ended-Sim true true x c ws h = record {
    holds = h;
    receiving = refl;
    running = refl;
    thread = λ e. absurd cc;
  }
  ended-Sim true false x c ws h = record {
    holds = h;
    receiving = refl;
    running = refl;
    thread = λ e. absurd cc;
  }
  ended-Sim false true x c ws h = record {
    holds = h;
    receiving = refl;
    running = refl;
    thread = λ e. absurd cc;
  }
  ended-Sim false false x c ws h = record {
    holds = h;
    receiving = refl;
    running = refl;
    thread = λ e. absurd cc;
  }

  tested-Sim :
      (run : Bool) (c : Client q.State) (ws : List Message)
      → q.Holds c.queue ws
      → c.running ≡ run
      → c.receiving ≡ true
      → c.joinable ≡ true
      → Sim (test_running q c) (stops run (record { waiting = ws; is_open = true }))
  tested-Sim true c ws h e rec join =
      rw e (record { holds = h; receiving = rec; running = refl; thread = λ e. join })
  tested-Sim false c ws h e rec join =
      rw e (record { holds = h; receiving = refl; running = refl; thread = λ e. absurd cc })

  -- A read ends while the receiver thread waits for it, with `running_` set or not.
  receive_loop-Sim :
      (r : Read) (c : Client q.State) (ws : List Message)
      → q.Holds c.queue ws
      → c.receiving ≡ true
      → c.joinable ≡ true
      → Sim
          (receive_loop q r c)
          (stops c.running (deliver q.limit r (record { waiting = ws; is_open = true })))
  unfolding receive_loop deliver
  receive_loop-Sim (frame bytes got_text) c ws h rec join =
      let m : Message = record { payload = bytes; is_text = got_text } in
      let l = push_message_lem m c in
      tested-Sim c.running (push_message q m c) _ (rw (l.0) (q.push_holds m c.queue ws h)) (l.1)
        (l.2 ∙ rec) (l.3 ∙ join)
  receive_loop-Sim closed_by_server c ws h rec join =
      ended-Sim true c.running connection_closed c ws h
  receive_loop-Sim read_error c ws h rec join = ended-Sim c.running c.running read_failed c ws h
  receive_loop-Sim throws c ws h rec join = ended-Sim c.running c.running receiver_exception c ws h

  pub arrive-Sim :
      (r : Read) (c : Client q.State) (i : Inbox)
      → Sim c i
      → Sim (arrive q r c) (receive q.limit r i)
  unfolding arrive receive
  arrive-Sim r c i s = elim (Bool-cases i.is_open) [
    | inl on ↦
        rw (on, s.receiving ∙ on, s.running ∙ on)
          (receive_loop-Sim r (record c { receiving = true; running = true }) i.waiting s.holds refl
            (s.thread on))
    | inr off ↦
        rw (off, s.receiving ∙ off)
          (record {
            holds = s.holds;
            receiving = refl;
            running = s.running ∙ off;
            thread = λ e. absurd cc;
          })
  ]

  -- What `close()` does before the join.
  pub close_stream_lem :
      (fails : Bool) (c : Client q.State)
      → ((close_stream q fails c).queue ≡ c.queue)
        × ((close_stream q fails c).running ≡ false)
        × ((close_stream q fails c).is_open ≡ false)
        × ((close_stream q fails c).receiving ≡ c.receiving)
        × ((close_stream q fails c).joinable ≡ c.joinable)
  close_stream_lem fails c = elim (Bool-cases c.is_open) [
    | inl on ↦ elim (Bool-cases fails) [
      | inl e ↦ rw (on, e) (refl, refl, refl, refl, refl)
      | inr e ↦ rw (on, e) (refl, refl, refl, refl, refl)
    ]
    | inr off ↦ rw off (refl, refl, refl, refl, refl)
  ]

  unjoined :
      (c : Client q.State) (i : Inbox)
      → Sim c i
      → i.is_open ≡ false
      → Sim (record c { joinable = false }) i
  unjoined c i s off = record {
    holds = s.holds;
    receiving = s.receiving;
    running = s.running;
    thread = λ e. absurd cc;
  }

  -- The receiver is joined after `running_` has been cleared.
  joined-Sim :
      (r : Read) (c : Client q.State) (i : Inbox)
      → q.Holds c.queue i.waiting
      → c.receiving ≡ i.is_open
      → c.running ≡ false
      → (i.is_open ≡ true → c.joinable ≡ true)
      → Sim
          (if c.joinable then record (arrive q r c) { joinable = false } else c)
          (record (receive q.limit r i) { is_open = false })
  unfolding arrive receive
  joined-Sim r c i h rec run thread = elim (Bool-cases i.is_open) [
    | inl on ↦
        rw (on, rec ∙ on, run, thread on)
          (unjoined _ _
            (receive_loop-Sim r (record c { receiving = true; running = false; joinable = true })
              i.waiting h refl refl)
            refl)
    | inr off ↦ elim (Bool-cases c.joinable) [
      | inl j ↦
          rw (off, rec ∙ off, run, j)
            (record { holds = h; receiving = refl; running = refl; thread = λ e. absurd cc })
      | inr j ↦
          rw (off, rec ∙ off, run, j)
            (record { holds = h; receiving = refl; running = refl; thread = λ e. absurd cc })
    ]
  ]

  pub close-Sim :
      (fails : Bool) (r : Read) (c : Client q.State) (i : Inbox)
      → Sim c i
      → Sim (close q fails r c) (record (receive q.limit r i) { is_open = false })
  unfolding close
  close-Sim fails r c i s =
      let l = close_stream_lem fails c in
      joined-Sim r (close_stream q fails c) i (rw (l.0) s.holds) (l.3 ∙ s.receiving) (l.1)
        (λ on. l.4 ∙ s.thread on)

  pub take-Sim :
      (c : Client q.State) (i : Inbox)
      → Sim c i
      → Sim (try_receive q c).1 (record i { waiting = (Fifo.pop i.waiting).1 })
  take-Sim c i s = record {
    holds = q.pop_holds c.queue i.waiting s.holds;
    receiving = s.receiving;
    running = s.running;
    thread = s.thread;
  }

  -- Whatever happens to a client, `try_receive()` returns what an inbox does that has room for as
  -- many messages as its queue: the messages that find room, in the order of their arrival, and once
  -- the connection has ended those that were waiting.
  pub received-taken :
      (acts : List Action) (c : Client q.State) (i : Inbox)
      → Sim c i
      → received c acts ≡ taken q.limit i acts
  unfolding received taken
  received-taken [] c i s = refl
  received-taken (arrival r ∷ acts) c i s = received-taken acts _ _ (arrive-Sim r c i s)
  received-taken (take ∷ acts) c i s =
      ap₂ (λ o rest. o ∷ rest) (q.pop_reply c.queue i.waiting s.holds)
        (received-taken acts _ _ (take-Sim c i s))
  received-taken (shut fails r ∷ acts) c i s = received-taken acts _ _ (close-Sim fails r c i s)
