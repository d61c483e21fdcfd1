-- ===== src/Spsc/Concurrent.antt =====
-- include/spsc_queue.h under two threads: every load and store of `try_push` and `try_pop` is a step
-- of its own, and the steps of the producer and of the consumer come in any order. A load reads the
-- last value stored: what acquire and release add to that is not modelled.
mod Views
mod Invariant
pub mod Safety
pub mod Sequential
pub mod WaitFree
pub mod Atomic
use c_web_socket_client_with.Prelude.{ℕ, ◌≡◌, ◌≢◌, List, [], ◌∷◌, ◌++◌, get_or, set}
use c_web_socket_client_with.Spsc.{Movable, SpscQueue, new, next_index}

-- Where a thread stands, with the local variables that are live there.
pub data Producer {ℓ} (T : Type ℓ) : Type ℓ where
  idle : Producer T
  loaded : (item : T) → (tail : ℕ) → Producer T
  writing : (item : T) → (tail next_tail : ℕ) → Producer T
  publishing : (item : T) → (next_tail : ℕ) → Producer T

pub data Consumer {ℓ} (T : Type ℓ) : Type ℓ where
  idle : Consumer T
  loaded : (head : ℕ) → Consumer T
  taking : (head : ℕ) → Consumer T
  publishing : (head : ℕ) → (item : T) → Consumer T

-- `sent` and `received` are no part of the code: what `try_push` has accepted by its store to
-- `tail_`, and what `try_pop` has returned by its store to `head_`, in order.
pub record System {ℓ} (T : Type ℓ) : Type ℓ where
  pub queue : SpscQueue T
  pub producer : Producer T
  pub consumer : Consumer T
  pub sent : List T
  pub received : List T

abbrev pub start {ℓ} : {T : Type ℓ} ⦃m : Movable T⦄ → ℕ → System T
start cap = record {
  queue = new cap;
  producer = Producer.idle;
  consumer = Consumer.idle;
  sent = [];
  received = [];
}

module _ {ℓ} {T : Type ℓ} ⦃m : Movable T⦄ (cap : ℕ) where
  pub data Step (s : System T) : System T → Type ℓ where
    push_call :
        (x : T)
        → s.producer ≡ Producer.idle
        → Step s (record s { producer = Producer.loaded x s.queue.tail })
    push_full :
        (x : T) (t : ℕ)
        → s.producer ≡ Producer.loaded x t
        → next_index cap t ≡ s.queue.head
        → Step s (record s { producer = Producer.idle })
    push_room :
        (x : T) (t : ℕ)
        → s.producer ≡ Producer.loaded x t
        → next_index cap t ≢ s.queue.head
        → Step s (record s { producer = Producer.writing x t (next_index cap t) })
    push_write :
        (x : T) (t n : ℕ)
        → s.producer ≡ Producer.writing x t n
        → Step s (record s {
          queue = record (s.queue) { buffer = set s.queue.buffer t x };
          producer = Producer.publishing x n;
        })
    push_publish :
        (x : T) (n : ℕ)
        → s.producer ≡ Producer.publishing x n
        → Step s (record s {
          queue = record (s.queue) { tail = n };
          producer = Producer.idle;
          sent = s.sent ++ x ∷ [];
        })
    pop_call :
        s.consumer ≡ Consumer.idle → Step s (record s { consumer = Consumer.loaded s.queue.head })
    pop_empty :
        (h : ℕ)
        → s.consumer ≡ Consumer.loaded h
        → h ≡ s.queue.tail
        → Step s (record s { consumer = Consumer.idle })
    pop_some :
        (h : ℕ)
        → s.consumer ≡ Consumer.loaded h
        → h ≢ s.queue.tail
        → Step s (record s { consumer = Consumer.taking h })
    pop_take :
        (h : ℕ)
        → s.consumer ≡ Consumer.taking h
        → Step s (record s {
          queue = record (s.queue) {
            buffer = set s.queue.buffer h (m.moved (get_or s.queue.buffer h m.init));
          };
          consumer = Consumer.publishing h (get_or s.queue.buffer h m.init);
        })
    pop_publish :
        (h : ℕ) (x : T)
        → s.consumer ≡ Consumer.publishing h x
        → Step s (record s {
          queue = record (s.queue) { head = next_index cap h };
          consumer = Consumer.idle;
          received = s.received ++ x ∷ [];
        })

  -- Some number of steps.
  pub data Steps (s : System T) : System T → Type ℓ where
    done : Steps s s
    step : {t u : System T} → Steps s t → Step t u → Steps s u

  abbrev pub Reach : System T → Type ℓ
  Reach s = Steps (start cap) s
