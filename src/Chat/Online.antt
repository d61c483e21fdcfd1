-- ===== src/Chat/Online.antt =====
-- `chat_session` of src/main.cpp over WebSocketClient of include/websocket_client.h, from the connection
-- on, while the given reads end.
use Prim.Native.String.{String}
use c_web_socket_client_with.Prelude.{ℕ, Bool, Option, none, some, List, [], ◌∷◌}
use c_web_socket_client_with.Fifo.{FifoQueue}
use c_web_socket_client_with.Client
use c_web_socket_client_with.Client.{Message, Read, Client, arrive}
use c_web_socket_client_with.Client.Inbox.{Inbox, receive}
use c_web_socket_client_with.Client.Receive.{Sim, arrive-Sim}
use c_web_socket_client_with.Chat.{ChatClient}

-- The client, and how the reads of its receiver thread will end: one after each poll of the queue.
pub record Online (S : Type 0) : Type 0 where
  pub client : Client S
  pub reads : List Read

-- How the texts of the session are encoded, the clock, whether a write fails, and how `close()` ends.
pub record Outside (S : Type 0) : Type 0 where
  pub text_of : List ℕ → String
  pub bytes_of : String → List ℕ
  pub clock : Online S → ℕ
  pub write_fails : Client S → Bool
  pub close_fails : Bool
  pub last_read : Read

module _ (q : FifoQueue Message) (out : Outside q.State) where
  abbrev pub next_read : List Read → Client q.State → Online q.State
  next_read [] c = record { client = c; reads = [] }
  next_read (r ∷ rs) c = record { client = arrive q r c; reads = rs }

  abbrev pub text : Option Message → Option String
  text none = none
  text (some msg) = some (out.text_of msg.payload)

  abbrev pub try_receive : Online q.State → Option String × Online q.State
  try_receive o = let (msg, c) = Client.try_receive q o.client in (text msg, next_read o.reads c)

  -- `spin_receive()`, which does not return if the reads end before a message comes.
  abbrev pub spin : List Read → Client q.State → Option (String × Online q.State)
  spin [] c = polled (Client.try_receive q c).0
    where
      polled : Option Message → Option (String × Online q.State)
      polled none = none
      polled (some msg) =
          some (out.text_of msg.payload, record { client = (Client.try_receive q c).1; reads = [] })
  spin (r ∷ rs) c =
      let again = spin rs (arrive q r (Client.try_receive q c).1) in
      polled (Client.try_receive q c).0 again
    where
      polled : Option Message → Option (String × Online q.State) → Option (String × Online q.State)
      polled none again = again
      polled (some msg) again =
          some (
            out.text_of msg.payload,
            record { client = (Client.try_receive q c).1; reads = r ∷ rs },
          )

  abbrev pub written : List Read → Option (Client q.State) → Option (Online q.State)
  written rs none = none
  written rs (some c) = some (record { client = c; reads = rs })

  abbrev pub web_socket : ChatClient (Online q.State)
  web_socket = record {
    is_running = λ o. o.client.running;
    try_receive = try_receive;
    spin_receive = λ o. spin o.reads o.client;
    send_text = λ msg o.
        written o.reads (Client.send_text (out.write_fails o.client) (out.bytes_of msg) o.client);
    send_binary = λ msg o.
        written o.reads (Client.send_binary (out.write_fails o.client) (out.bytes_of msg) o.client);
    close = λ o. record o { client = Client.close q out.close_fails out.last_read o.client };
    now = out.clock;
  }

  -- The client is one whose receiver thread serves some inbox.
  abbrev pub Serves : Online q.State → Type 0
  Serves o = (i : Inbox) × Sim q o.client i

  pub next_read-Serves :
      (rs : List Read) (c : Client q.State) (i : Inbox) → Sim q c i → Serves (next_read rs c)
  next_read-Serves [] c i s = (i, s)
  next_read-Serves (r ∷ rs) c i s = (receive q.limit r i, arrive-Sim q r c i s)
