-- ===== src/FirstClient.antt =====
-- main.cpp, the first version of the client: WebSocketClient with a queue behind a mutex and a
-- condition variable, as its two threads run, one access of a shared object after another.
pub mod Invariant
pub mod Delivery
pub mod Progress
pub mod Stuck
pub mod Session
pub mod Outcomes
pub mod Exits
mod Tests
use Prim.Native.String.{String}
use c_web_socket_client_with.Prelude.{◌≡◌, Bool, true, false, List, [], ◌∷◌, ◌++◌}

-- std::pair<std::string, bool>: the message, and whether it is text.
pub record Response : Type 0 where
  pub message : String
  pub is_text : Bool

-- Who holds `mutex_`.
pub data Owner : Type 0 where
  nobody : Owner
  receiver : Owner
  consumer : Owner

-- Where the receiver thread stands in `receiveContinuous`: before the test of the loop, in
-- `ws_.read`, before the std::lock_guard, before `messages_.push`, before `cv_.notify_one`, before
-- the end of the lock_guard, and after the loop.
pub data Receiver : Type 0 where
  testing : Receiver
  reading : Receiver
  locking : Response → Receiver
  pushing : Response → Receiver
  notifying : Receiver
  unlocking : Receiver
  ended : Receiver

-- Where the main thread stands: outside of `getResponse`, before its std::unique_lock, before the
-- predicate of `cv_.wait`, asleep in it, before it locks again, before `messages_.front`, and before
-- the end of the unique_lock.
pub data Consumer : Type 0 where
  idle : Consumer
  locking : Consumer
  testing : Consumer
  sleeping : Consumer
  waking : Consumer
  taking : Consumer
  unlocking : Response → Consumer

-- `is_open` is what `ws_.is_open()` returns. `arrived` and `returned` are no part of the code: what
-- `ws_.read` has read and what `getResponse` has returned, in order.
pub record System : Type 0 where
  pub is_open : Bool
  pub owner : Owner
  pub messages : List Response
  pub receiver : Receiver
  pub consumer : Consumer
  pub arrived : List Response
  pub returned : List Response

-- After `connect()`.
abbrev pub connected : System
connected = record {
  is_open = true;
  owner = nobody;
  messages = [];
  receiver = Receiver.testing;
  consumer = Consumer.idle;
  arrived = [];
  returned = [];
}

-- `cv_.notify_one()`: it wakes the main thread if it is asleep.
abbrev pub notify_one : Consumer → Consumer
notify_one Consumer.sleeping = Consumer.waking
notify_one c = c

-- The steps of the receiver thread.
pub data ReceiverStep (s : System) : System → Type 0 where
  test_open :
      s.receiver ≡ Receiver.testing
      → s.is_open ≡ true
      → ReceiverStep s (record s { receiver = Receiver.reading })
  test_closed :
      s.receiver ≡ Receiver.testing
      → s.is_open ≡ false
      → ReceiverStep s (record s { receiver = Receiver.ended })
  read :
      (r : Response)
      → s.receiver ≡ Receiver.reading
      → ReceiverStep s (record s { receiver = Receiver.locking r; arrived = s.arrived ++ r ∷ [] })
  read_throws :
      s.receiver ≡ Receiver.reading → ReceiverStep s (record s { receiver = Receiver.ended })
  lock_guard :
      (r : Response)
      → s.receiver ≡ Receiver.locking r
      → s.owner ≡ nobody
      → ReceiverStep s (record s { receiver = Receiver.pushing r; owner = receiver })
  push :
      (r : Response)
      → s.receiver ≡ Receiver.pushing r
      → ReceiverStep s (record s { receiver = Receiver.notifying; messages = s.messages ++ r ∷ [] })
  notify :
      s.receiver ≡ Receiver.notifying
      → ReceiverStep s
          (record s { receiver = Receiver.unlocking; consumer = notify_one s.consumer })
  unlock_guard :
      s.receiver ≡ Receiver.unlocking
      → ReceiverStep s (record s { receiver = Receiver.testing; owner = nobody })

-- The steps of `getResponse`.
pub data ConsumerStep (s : System) : System → Type 0 where
  call : s.consumer ≡ Consumer.idle → ConsumerStep s (record s { consumer = Consumer.locking })
  unique_lock :
      s.consumer ≡ Consumer.locking
      → s.owner ≡ nobody
      → ConsumerStep s (record s { consumer = Consumer.testing; owner = consumer })
  wait :
      s.consumer ≡ Consumer.testing
      → s.messages ≡ []
      → ConsumerStep s (record s { consumer = Consumer.sleeping; owner = nobody })
  go_on :
      (r : Response) (rs : List Response)
      → s.consumer ≡ Consumer.testing
      → s.messages ≡ r ∷ rs
      → ConsumerStep s (record s { consumer = Consumer.taking })
  lock_again :
      s.consumer ≡ Consumer.waking
      → s.owner ≡ nobody
      → ConsumerStep s (record s { consumer = Consumer.testing; owner = consumer })
  pop :
      (r : Response) (rs : List Response)
      → s.consumer ≡ Consumer.taking
      → s.messages ≡ r ∷ rs
      → ConsumerStep s (record s { consumer = Consumer.unlocking r; messages = rs })
  return :
      (r : Response)
      → s.consumer ≡ Consumer.unlocking r
      → ConsumerStep s
          (record s { consumer = Consumer.idle; owner = nobody; returned = s.returned ++ r ∷ [] })

-- A step of a thread, a spurious wakeup, which `cv_.wait` allows, or the stream closing: by
-- `close()` or by the server.
pub data Step (s : System) : System → Type 0 where
  receive : {t : System} → ReceiverStep s t → Step s t
  respond : {t : System} → ConsumerStep s t → Step s t
  wake_up : s.consumer ≡ Consumer.sleeping → Step s (record s { consumer = Consumer.waking })
  closes : Step s (record s { is_open = false })

pub data Steps : System → System → Type 0 where
  done : {s : System} → Steps s s
  step : {s t u : System} → Step s t → Steps t u → Steps s u

-- Some steps of the two threads alone: no spurious wakeup, and the stream stays as it is.
pub data ThreadSteps : System → System → Type 0 where
  stay : {s : System} → ThreadSteps s s
  receiving : {s t u : System} → ReceiverStep s t → ThreadSteps t u → ThreadSteps s u
  responding : {s t u : System} → ConsumerStep s t → ThreadSteps t u → ThreadSteps s u
