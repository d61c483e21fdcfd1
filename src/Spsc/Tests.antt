-- ===== src/Spsc/Tests.antt =====
-- Runs of the queue with capacity 4, and the theorems at concrete states.
use c_web_socket_client_with.Prelude.{
  ℕ, zero, suc, ◌+◌, ◌%◌, ◌≤◌, ◌<◌, get_or, ◌≡◌, refl, ◌≢◌, List, [], ◌∷◌, ◌++◌, arith, length,
}
use c_web_socket_client_with.Fifo
use c_web_socket_client_with.Fifo.{Call, enqueue, dequeue, Reply, accepted, received, replies}
use c_web_socket_client_with.Spsc.{Movable, SpscQueue, new, try_push, next_index, is_power_of_two}
use c_web_socket_client_with.Spsc.Bounds.{IsCapacity}
use c_web_socket_client_with.Spsc.Holds.{Holds}
use c_web_socket_client_with.Spsc.Refine.{spsc_fifo, replies-new}
use c_web_socket_client_with.Spsc.Concurrent.{
  Producer, Consumer, System, start, push_call, push_room, pop_call, pop_some, Steps, step, Reach,
}
use c_web_socket_client_with.Spsc.Concurrent.{Step}
use c_web_socket_client_with.Prelude.{◌⊎◌, ◌*◌, ◌≤◌}
use c_web_socket_client_with.Spsc.Concurrent.WaitFree.{
  total, push_goes_on, push_begins, pop_goes_on, pop_begins, push_left, pop_left, wait_free,
}
use c_web_socket_client_with.Prelude.{true, ◌≡◌, refl}
use c_web_socket_client_with.Spsc.Concurrent.{push_write, push_publish}
use c_web_socket_client_with.Spsc.Concurrent.Atomic.{step-Effect}
use c_web_socket_client_with.Spsc.Concurrent.Safety.{fifo_delivery, no_race}
use c_web_socket_client_with.Spsc.Concurrent.Sequential.{after_push, try_push-Steps}

instance abbrev nat_movable : Movable ℕ
nat_movable = record { init = 0; moved = λ x. 0 }

four : IsCapacity 4
unfolding is_power_of_two
four = record { power = refl; fits = omega arith }

-- tests/test_spsc_queue.cpp: queue_full_returns_false, then one item out and one more in.
abbrev script : List (Call ℕ)
script =
    enqueue 1
    ∷ enqueue 2
    ∷ enqueue 3
    ∷ enqueue 4
    ∷ dequeue
    ∷ enqueue 5
    ∷ dequeue
    ∷ dequeue
    ∷ dequeue
    ∷ dequeue
    ∷ []

-- One item, pushed round the end: head and tail have wrapped.
abbrev wrapped : SpscQueue ℕ
wrapped = record { head = 3; tail = 1; buffer = 9 ∷ 0 ∷ 0 ∷ 8 ∷ [] }

wrapped-Holds : Holds 4 0 wrapped (8 ∷ 9 ∷ [])
wrapped-Holds = record {
  whole = refl;
  head_in = omega arith;
  room = omega arith;
  tail_at = refl;
  slots = items;
}
  where
    items :
        (i d : ℕ) → 0 ≤ i → i < 2 → get_or wrapped.buffer ((3 + i) % 4) d ≡ get_or (8 ∷ 9 ∷ []) i d
    items zero d lo hi = refl
    items (suc zero) d lo hi = refl
    items (suc (suc i)) d lo hi = absurd (omega arith)

replies-new_example : replies (spsc_fifo {T = ℕ} four) (new 4) script ≡ Fifo.run 3 [] script
replies-new_example = replies-new four script

-- 7 has been accepted and 8 is about to be written while the consumer is about to take 7.
abbrev crossing : System ℕ
crossing = record {
  queue = record { head = 0; tail = 1; buffer = 7 ∷ 0 ∷ 0 ∷ 0 ∷ [] };
  producer = Producer.writing 8 1 2;
  consumer = Consumer.taking 0;
  sent = 7 ∷ [];
  received = [];
}

first_sent : Steps 4 (start {T = ℕ} 4) (after_push 4 (start {T = ℕ} 4) 7)
first_sent = try_push-Steps 4 (start {T = ℕ} 4) 7 refl

crossing-Reach : Reach 4 crossing
unfolding next_index new try_push
crossing-Reach =
    step
      (step (step (step first_sent (push_call 8 refl)) (pop_call refl))
        (pop_some 0 refl (omega arith)))
      (push_room 8 1 refl (omega arith))

fifo_delivery_example : (rest : List ℕ) × (7 ∷ [] ≡ [] ++ rest) × (length rest < 4)
fifo_delivery_example = fifo_delivery {s = crossing} four crossing-Reach

no_race_example : (1 < 4) × (0 < 4) × (◌≢◌ {A = ℕ} 1 0)
no_race_example = no_race {s = crossing} four crossing-Reach 8 1 2 0 refl refl

wait_free_example :
    (total 4 (push_goes_on 4) crossing-Reach + 2 ≤ 0 + 3 * total 4 (push_begins 4) crossing-Reach)
    × (total 4 (pop_goes_on 4) crossing-Reach + 2 ≤ 0 + 3 * total 4 (pop_begins 4) crossing-Reach)
    × ((crossing.producer ≡ Producer.idle)
        ⊎ ((u : System ℕ) × Step 4 crossing u
            × (push_left u.producer < push_left crossing.producer)))
    × ((crossing.consumer ≡ Consumer.idle)
        ⊎ ((u : System ℕ) × Step 4 crossing u × (pop_left u.consumer < pop_left crossing.consumer)))
wait_free_example = wait_free 4 (start {T = ℕ} 4) crossing crossing-Reach

-- 8 has been written.
abbrev written : System ℕ
written = record crossing {
  queue = record { head = 0; tail = 1; buffer = 7 ∷ 8 ∷ 0 ∷ 0 ∷ [] };
  producer = Producer.publishing 8 2;
}

written-Reach : Reach 4 written
written-Reach = step crossing-Reach (push_write 8 1 2 refl)

step-Effect_example : Fifo.push {T = ℕ} 3 8 (7 ∷ []) ≡ (true, 7 ∷ 8 ∷ [])
step-Effect_example =
    step-Effect four written
      (record written {
        queue = record (written.queue) { tail = 2 };
        producer = Producer.idle;
        sent = 7 ∷ 8 ∷ [];
      })
      written-Reach (push_publish 8 2 refl)
