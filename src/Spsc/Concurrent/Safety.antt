-- ===== src/Spsc/Concurrent/Safety.antt =====
-- What holds of include/spsc_queue.h in every reachable state of a producer and a consumer thread.
use c_web_socket_client_with.Prelude.{
  ℕ, ◌+◌, ◌-◌, ◌%◌, ◌<◌, ◌≡◌, ap, sym, subst, ◌∙◌, ◌≢◌, ◌↔◌, List, [], ◌∷◌, ◌++◌, append-nil, arith,
  length, length-append,
}
use c_web_socket_client_with.Spsc.{Movable, next_index}
use c_web_socket_client_with.Spsc.Bounds.{IsCapacity}
use c_web_socket_client_with.Spsc.Holds.{tail_in, empty_iff, full_iff}
use c_web_socket_client_with.Spsc.Concurrent.{Producer, Consumer, System, Reach}
use c_web_socket_client_with.Spsc.Concurrent.Views.{ProducerView, ConsumerView}
use c_web_socket_client_with.Spsc.Concurrent.Invariant.{Reach-Inv, index}

module _ {ℓ} {T : Type ℓ} ⦃m : Movable T⦄ {cap : ℕ} {s : System T} (c : IsCapacity cap)
    (r : Reach cap s) where
  open (Reach-Inv c r) use {pending, history, holds, producer, consumer}

  -- However the two threads are interleaved, what `try_pop` has returned is, in order, a prefix of
  -- what `try_push` has accepted, and fewer than `Capacity` items are on the way.
  pub fifo_delivery : (rest : List T) × (s.sent ≡ s.received ++ rest) × (length rest < cap)
  fifo_delivery = (pending, history, holds.room)

  -- When the producer is about to write a slot and the consumer is about to read one, both slots
  -- lie in the array and they are different slots.
  pub no_race :
      (x : T) (t n h : ℕ)
      → s.producer ≡ Producer.writing x t n
      → s.consumer ≡ Consumer.taking h
      → (t < length s.queue.buffer) × (h < length s.queue.buffer) × (t ≢ h)
  no_race x t n h ep ec = (
    omega (arith, at_tail, tail_in holds, holds.whole),
    omega (arith, at_head, holds.head_in, holds.whole),
    λ meet.
        absurd
          (omega (arith, (empty_iff holds).0 (sym at_head ∙ sym meet ∙ at_tail), ap length items)),
  )
    where
      at_tail : t ≡ s.queue.tail
      at_tail = (subst (ProducerView cap s.queue.tail s.queue.buffer pending) ep producer).0

      view : ConsumerView s.queue.head pending (Consumer.taking h)
      view = subst (ConsumerView s.queue.head pending) ec consumer

      at_head : h ≡ s.queue.head
      at_head = view.0

      items : pending ≡ view.1.0 ∷ view.1.1
      items = view.1.2

  in_flight : length s.sent ≡ length s.received + length pending
  in_flight = ap length history ∙ length-append s.received pending

  -- The producer's test for a full ring succeeds exactly when `Capacity - 1` accepted items have
  -- not been returned yet.
  pub push_refused_iff :
      (x : T) (t : ℕ)
      → s.producer ≡ Producer.loaded x t
      → (next_index cap t ≡ s.queue.head) ↔ (length s.sent ≡ length s.received + (cap - 1))
  push_refused_iff x t e = (
    λ full. omega (arith, holds.room, in_flight, (full_iff holds).0 (sym next ∙ full)),
    λ n. next ∙ (full_iff holds).1 (omega (arith, holds.room, in_flight)),
  )
    where
      next : next_index cap t ≡ (s.queue.tail + 1) % cap
      next =
          index c (Reach-Inv c r)
            (subst (ProducerView cap s.queue.tail s.queue.buffer pending) e producer).0

  -- The consumer's test for an empty ring succeeds exactly when all that was accepted has been
  -- returned.
  pub pop_empty_iff :
      (h : ℕ) → s.consumer ≡ Consumer.loaded h → (h ≡ s.queue.tail) ↔ (s.sent ≡ s.received)
  pop_empty_iff h e = (
    λ empty. history ∙ none_left pending ((empty_iff holds).0 (sym at_head ∙ empty)),
    λ same. at_head ∙ (empty_iff holds).1 (omega (arith, in_flight, ap length same)),
  )
    where
      at_head : h ≡ s.queue.head
      at_head = (subst (ConsumerView s.queue.head pending) e consumer).0

      none_left : (xs : List T) → length xs ≡ 0 → s.received ++ xs ≡ s.received
      none_left [] z = append-nil s.received
      none_left (x ∷ xs) z = absurd (omega arith)
