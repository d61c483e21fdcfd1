-- ===== src/Chat/Closing.antt =====
-- How `chat_session` of src/main.cpp leaves the WebSocketClient that it has used.
use Prim.Native.String.{String}
use c_web_socket_client_with.Prelude.{
  ℕ, ◌≤◌, ◌≡◌, refl, ap, ◌∙◌, Bool, true, false, Option, none, some, List, [], ◌∷◌, length, subst,
}
use c_web_socket_client_with.Fifo
use c_web_socket_client_with.Fifo.{FifoQueue}
use c_web_socket_client_with.Latency.{count}
use c_web_socket_client_with.Pool.{Params}
use c_web_socket_client_with.Pool.Invariant.{Inv, IsStorage}
use c_web_socket_client_with.Pool.Ptr.{Store}
use c_web_socket_client_with.Client
use c_web_socket_client_with.Client.{Message, Read, Client, arrive}
use c_web_socket_client_with.Client.Inbox.{Inbox, receive}
use c_web_socket_client_with.Client.Receive.{Sim, arrive-Sim, take-Sim}
use c_web_socket_client_with.Client.Session.{close_lem}
use c_web_socket_client_with.Chat.{Ended, exhausted, threw, spinning, aborted, chat_session}
use c_web_socket_client_with.Chat.Blocks.{Keeps}
use c_web_socket_client_with.Chat.Session.{IsFinished, chat_session-IsFinished}
use c_web_socket_client_with.Chat.Online.{
  Online, Outside, text, spin, written, web_socket, Serves, next_read-Serves,
}

module _ (q : FifoQueue Message) (out : Outside q.State) where
  -- What `spin_receive()` leaves if it returns.
  abbrev Spun : Option (String × Online q.State) → Type 0
  Spun none = Unit
  Spun (some (response, o)) = Serves q out o

  spin-last :
      (c : Client q.State) (i : Inbox) (m : Option Message)
      → Sim q c i
      → (Client.try_receive q c).0 ≡ m
      → Spun (spin q out [] c)
  spin-last c i none s e = rw e tt
  spin-last c i (some msg) s e = rw e (_, take-Sim q c i s)

  spin-next :
      (r : Read) (rs : List Read) (c : Client q.State) (i : Inbox) (m : Option Message)
      → Sim q c i
      → (Client.try_receive q c).0 ≡ m
      → Spun (spin q out rs (arrive q r (Client.try_receive q c).1))
      → Spun (spin q out (r ∷ rs) c)
  spin-next r rs c i none s e again = rw e again
  spin-next r rs c i (some msg) s e again = rw e (_, take-Sim q c i s)

  spin-Serves :
      (rs : List Read) (c : Client q.State) (i : Inbox) → Sim q c i → Spun (spin q out rs c)
  spin-Serves [] c i s = spin-last c i (Client.try_receive q c).0 s refl
  spin-Serves (r ∷ rs) c i s =
      let taken = take-Sim q c i s in
      spin-next r rs c i (Client.try_receive q c).0 s refl (
        spin-Serves rs (arrive q r (Client.try_receive q c).1)
          (receive q.limit r (record i { waiting = (Fifo.pop i.waiting).1 }))
          (arrive-Sim q r (Client.try_receive q c).1 _ taken))

  abbrev response_of : Option (String × Online q.State) → Option String
  response_of none = none
  response_of (some (response, o)) = some response

  polled-response :
      (rs : List Read) (c : Client q.State) (m : Option Message)
      → (Client.try_receive q c).0 ≡ m
      → ((d : Client q.State)
          → response_of (spin q out rs d) ≡ text q out (Client.spin_receive q rs d).0)
      → (r : Read)
      → response_of (spin q out (r ∷ rs) c) ≡ text q out (Client.spin_receive q (r ∷ rs) c).0
  unfolding Client.spin_receive
  polled-response rs c none e again r = rw e (again (arrive q r (Client.try_receive q c).1))
  polled-response rs c (some msg) e again r = rw e refl

  last-response :
      (c : Client q.State) (m : Option Message)
      → (Client.try_receive q c).0 ≡ m
      → response_of (spin q out [] c) ≡ text q out (Client.spin_receive q [] c).0
  unfolding Client.spin_receive
  last-response c none e = rw e refl
  last-response c (some msg) e = rw e refl

  -- `spin` returns what `spin_receive()` of the client does.
  spin-spin_receive :
      (rs : List Read) (c : Client q.State)
      → response_of (spin q out rs c) ≡ text q out (Client.spin_receive q rs c).0
  spin-spin_receive [] c = last-response c (Client.try_receive q c).0 refl
  spin-spin_receive (r ∷ rs) c =
      polled-response rs c (Client.try_receive q c).0 refl (spin-spin_receive rs) r

  -- What a send leaves if it does not throw.
  abbrev Sent : Option (Online q.State) → Type 0
  Sent none = Unit
  Sent (some o) = Serves q out o

  sent-Sim :
      (m : Message) (c : Client q.State) (i : Inbox)
      → Sim q c i
      → Sim q (record c { sent = m ∷ c.sent }) i
  sent-Sim m c i s = record {
    holds = s.holds;
    receiving = s.receiving;
    running = s.running;
    thread = s.thread;
  }

  send_text-Serves :
      (fails : Bool) (bytes : List ℕ) (rs : List Read) (c : Client q.State) (i : Inbox)
      → Sim q c i
      → Sent (written q out rs (Client.send_text fails bytes c))
  unfolding Client.send_text
  send_text-Serves true bytes rs c i s = tt
  send_text-Serves false bytes rs c i s = (i, sent-Sim _ c i s)

  send_binary-Serves :
      (fails : Bool) (bytes : List ℕ) (rs : List Read) (c : Client q.State) (i : Inbox)
      → Sim q c i
      → Sent (written q out rs (Client.send_binary fails bytes c))
  unfolding Client.send_binary
  send_binary-Serves true bytes rs c i s = tt
  send_binary-Serves false bytes rs c i s = (i, sent-Sim _ c i s)

  pub web_socket-Keeps : Keeps (web_socket q out) (Serves q out)
  web_socket-Keeps = record {
    try_receive = λ o (i, s).
        next_read-Serves q out o.reads (Client.try_receive q o.client).1 _
          (take-Sim q o.client i s);
    spin_receive = λ o response d (i, s) e. subst Spun e (spin-Serves o.reads o.client i s);
    send_text = λ msg o d (i, s) e.
        subst Sent e
          (send_text-Serves (out.write_fails o.client) (out.bytes_of msg) o.reads o.client i s);
    send_binary = λ msg o d (i, s) e.
        subst Sent e
          (send_binary-Serves (out.write_fails o.client) (out.bytes_of msg) o.reads o.client i s);
  }

  module _ {k : Params} {base : ℕ} (st : IsStorage k base) where
    -- A session has returned with at most `n` samples, the pool as if never used and the connection
    -- closed, or it has not returned.
    abbrev pub IsOver : ℕ → Ended (Online q.State) → Type 0
    IsOver n (Ended.returned s stats o) =
        Inv k base (s 0) []
        × (count stats ≤ n)
        × (o.client.running ≡ false)
        × (o.client.receiving ≡ false)
        × (o.client.joinable ≡ false)
        × (o.client.is_open ≡ false)
    IsOver n (exhausted s stats o) = ⊥
    IsOver n threw = Unit
    IsOver n spinning = Unit
    IsOver n aborted = ⊥

    finished-IsOver :
        (n : ℕ) (e : Ended (Online q.State))
        → IsFinished (web_socket q out) web_socket-Keeps st n e
        → IsOver n e
    finished-IsOver n (Ended.returned s stats o) (v, le, d, (i, sim), closed) =
        let (off, ended, joined, shut, again) =
          close_lem q out.close_fails out.last_read d.client i sim in
        (
          v,
          le,
          ap (λ c. c.client.running) closed ∙ off,
          ap (λ c. c.client.receiving) closed ∙ ended,
          ap (λ c. c.client.joinable) closed ∙ joined,
          ap (λ c. c.client.is_open) closed ∙ shut,
        )
    finished-IsOver n threw h = tt
    finished-IsOver n spinning h = tt
    finished-IsOver n (exhausted s stats o) h = absurd h
    finished-IsOver n aborted h = absurd h

    -- The session over a connected WebSocketClient, however the reads of its receiver thread end and
    -- whatever is typed: it never fails the pool's assertion nor exhausts the pool. If it returns, every
    -- block is free again, there is at most one latency sample for each line, the receiver thread has
    -- ended and been joined, and the stream is closed.
    pub chat_session-IsOver :
        (bench : List (String × ℕ)) (lines : List String) (s : Store) (o : Online q.State)
        (i : Inbox)
        → Inv k base (s 0) []
        → Sim q o.client i
        → IsOver (length lines) (chat_session (web_socket q out) k bench lines s o)
    chat_session-IsOver bench lines s o i v sim =
        finished-IsOver (length lines) _ (
          chat_session-IsFinished (web_socket q out) web_socket-Keeps st bench lines s o v (i, sim))
