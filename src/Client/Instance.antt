-- ===== src/Client/Instance.antt =====
-- WebSocketClient over the queue of include/spsc_queue.h with kQueueCapacity slots.
use c_web_socket_client_with.Prelude.{refl, true, false, [], ◌∷◌, arith}
use c_web_socket_client_with.Fifo.{FifoQueue}
use c_web_socket_client_with.Spsc.{Movable, is_power_of_two}
use c_web_socket_client_with.Spsc.Bounds.{IsCapacity}
use c_web_socket_client_with.Spsc.Refine.{spsc_fifo}
use c_web_socket_client_with.Client.{Message, empty_message, queue_capacity, Client, new}
use c_web_socket_client_with.Client.Receive.{Sim}

-- A message that has been moved from has an empty payload.
instance abbrev pub message_movable : Movable Message
message_movable = record { init = empty_message; moved = λ m. record m { payload = [] } }

pub capacity : IsCapacity queue_capacity
unfolding is_power_of_two
capacity = record { power = refl; fits = omega arith }

abbrev pub q : FifoQueue Message
q = spsc_fifo capacity

abbrev pub idle : Client q.State
idle = new q.init "localhost" "8765"

-- Connected, before the first message.
abbrev pub ready : Client q.State
ready = record idle { running = true; is_open = true; joinable = true; receiving = true }

pub idle-Sim : Sim q idle (record { waiting = []; is_open = false })
idle-Sim = record {
  holds = q.init_holds;
  receiving = refl;
  running = refl;
  thread = λ e. absurd cc;
}

pub ready-Sim : Sim q ready (record { waiting = []; is_open = true })
ready-Sim = record { holds = q.init_holds; receiving = refl; running = refl; thread = λ e. refl }

abbrev pub hello : Message
hello = record { payload = 104 ∷ 105 ∷ []; is_text = true }

abbrev pub bytes : Message
bytes = record { payload = 0 ∷ 255 ∷ []; is_text = false }
