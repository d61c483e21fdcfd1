-- ===== src/Client.antt =====
-- include/message.h and include/websocket_client.h: WebSocketClient over any queue that behaves
-- as a bounded FIFO. The WebSocket library is a parameter: each call of it is given its outcome.
pub mod Inbox
pub mod Instance
pub mod Receive
pub mod Session
pub mod Spin
pub mod Secure
mod Tests
use Prim.Native.String.{String}
use c_web_socket_client_with.Prelude.{
  ℕ, Bool, true, false, Option, none, some, List, [], ◌∷◌, ◌>>=◌, if◌then◌else◌,
}
use c_web_socket_client_with.Fifo.{FifoQueue}

abbrev pub queue_capacity : ℕ
queue_capacity = 1024

-- `payload` holds the bytes of the std::string.
pub record Message : Type 0 where
  pub payload : List ℕ
  pub is_text : Bool

-- Message().
abbrev pub empty_message : Message
empty_message = record { payload = []; is_text = true }

-- How the `ws_.read` that the receiver thread waits for ends.
pub data Read : Type 0 where
  frame : (bytes : List ℕ) → (got_text : Bool) → Read
  closed_by_server : Read
  read_error : Read
  throws : Read

-- What the client writes to std::cout and std::cerr about its connection.
pub data Report : Type 0 where
  connected_to : Report
  connection_closed : Report
  read_failed : Report
  receiver_exception : Report
  message_dropped : Report
  close_failed : Report

-- How the calls of `connect()` end: the first one that throws, or success.
pub data Connection : Type 0 where
  resolve_throws : Connection
  connect_throws : Connection
  handshake_throws : Connection
  established : Connection

-- `is_open` is what `ws_.is_open()` returns, `joinable` what `receiver_thread_.joinable()` does.
-- `receiving`: the receiver thread has tested `running_` and is in `ws_.read`; otherwise it has not
-- been started or has returned. `handshake` is the host, and the port if it is named, of the last
-- WebSocket upgrade; `sent` holds the frames written and `reports` the output, the last first.
pub record Client (S : Type 0) : Type 0 where
  pub host : String
  pub port : String
  pub queue : S
  pub running : Bool
  pub is_open : Bool
  pub joinable : Bool
  pub receiving : Bool
  pub handshake : Option (String × Option ℕ)
  pub sent : List Message
  pub reports : List Report

module _ {S : Type 0} where
  abbrev pub report : Report → Client S → Client S
  report r c = record c { reports = r ∷ c.reports }

  -- The constructor.
  abbrev pub new : S → String → String → Client S
  new empty_queue host port = record {
    host = host;
    port = port;
    queue = empty_queue;
    running = false;
    is_open = false;
    joinable = false;
    receiving = false;
    handshake = none;
    sent = [];
    reports = [];
  }

  -- The end of `connect()`: the receiver thread starts and finds `running_` set. Assigning to a
  -- std::thread that is joinable ends the program: `none`.
  abbrev pub start_receiver : Client S → Option (Client S)
  start_receiver c =
      if c.joinable then none else some (record c { joinable = true; receiving = true })

  -- Whether `connect()` returns, rather than throws, and what it leaves.
  unfoldable pub connect : Connection → Client S → Option (Bool × Client S)
  connect established c = do
    d ← start_receiver (
        report connected_to
          (record c { is_open = true; running = true; handshake = some (c.host, none) }))
    some (true, d)
  connect handshake_throws c = some (false, record c { handshake = some (c.host, none) })
  connect resolve_throws c = some (false, c)
  connect connect_throws c = some (false, c)

  -- A frame that is written, or `none` if `ws_.write` throws.
  unfoldable pub send_text : Bool → List ℕ → Client S → Option (Client S)
  send_text fails message c =
      if fails
      then none
      else some (record c { sent = record { payload = message; is_text = true } ∷ c.sent })

  unfoldable pub send_binary : Bool → List ℕ → Client S → Option (Client S)
  send_binary fails data_ c =
      if fails
      then none
      else some (record c { sent = record { payload = data_; is_text = false } ∷ c.sent })

module _ (q : FifoQueue Message) where
  abbrev pub try_receive : Client q.State → Option Message × Client q.State
  try_receive c = let (o, s) = q.try_pop c.queue in (o, record c { queue = s })

  -- The end of `receive_loop`.
  abbrev pub receiver_ends : Client q.State → Client q.State
  receiver_ends c = record c { running = false; receiving = false }

  -- `try_push`, and the warning when the queue is full.
  abbrev pub push_message : Message → Client q.State → Client q.State
  push_message msg c =
      let (ok, s) = q.try_push msg c.queue in
      if ok then record c { queue = s } else report message_dropped (record c { queue = s })

  -- The test of `while (running_)`, after which the receiver reads again or returns.
  abbrev pub test_running : Client q.State → Client q.State
  test_running c = if c.running then c else receiver_ends c

  -- What `receive_loop` does from the return of one `ws_.read` to the next call of it, or to its end.
  unfoldable pub receive_loop : Read → Client q.State → Client q.State
  receive_loop (frame bytes got_text) c =
      test_running (push_message (record { payload = bytes; is_text = got_text }) c)
  receive_loop closed_by_server c = receiver_ends (report connection_closed c)
  receive_loop read_error c = receiver_ends (if c.running then report read_failed c else c)
  receive_loop throws c = receiver_ends (if c.running then report receiver_exception c else c)

  -- A read ends, if the receiver thread waits for one.
  unfoldable pub arrive : Read → Client q.State → Client q.State
  arrive r c = if c.receiving then receive_loop r c else c

  -- The part of `close()` before the join: whether `ws_.close` reports an error.
  abbrev pub close_stream : Bool → Client q.State → Client q.State
  close_stream fails c =
      let stopped = record c { running = false } in
      let shut = record stopped { is_open = false } in
      if c.is_open then (if fails then report close_failed shut else shut) else stopped

  -- `close()`, with the way in which the read that the receiver waits for ends before the thread is
  -- joined.
  unfoldable pub close : Bool → Read → Client q.State → Client q.State
  unfolding arrive
  close fails r c =
      let shut = close_stream fails c in
      if shut.joinable then record (arrive r shut) { joinable = false } else shut

  -- The destructor.
  abbrev pub destroy : Bool → Read → Client q.State → Client q.State
  destroy fails r c = close fails r c

  -- `spin_receive()` while the given reads end, one between two polls: the message, or `none` if it
  -- still spins.
  unfoldable pub spin_receive : List Read → Client q.State → Option Message × Client q.State
  spin_receive [] c = try_receive c
  spin_receive (r ∷ rs) c =
      let (o, d) = try_receive c in let again = spin_receive rs (arrive r d) in returned o d again
    where
      returned :
          Option Message
          → Client q.State
          → Option Message × Client q.State
          → Option Message × Client q.State
      returned none d again = again
      returned (some msg) d again = (some msg, d)
