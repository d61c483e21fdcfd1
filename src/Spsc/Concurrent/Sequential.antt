-- ===== src/Spsc/Concurrent/Sequential.antt =====
-- The steps of one thread, with none of the other's in between, are the calls of Spsc.
use c_web_socket_client_with.Prelude.{
  ℕ, ◌≡◌, refl, List, [], ◌∷◌, ◌++◌, Option, none, some, if◌then◌else◌, ==-true, ==-false,
  ℕ_discrete,
}
use c_web_socket_client_with.Spsc.{Movable, next_index, try_push, try_pop}
use c_web_socket_client_with.Spsc.Concurrent.{
  Producer, Consumer, System, push_call, push_full, push_room, push_write, push_publish, pop_call,
  pop_empty, pop_some, pop_take, pop_publish, Steps, done, step,
}

module _ {ℓ} {T : Type ℓ} ⦃m : Movable T⦄ (cap : ℕ) (s : System T) where
  -- The state after an undisturbed call.
  abbrev pub after_push : T → System T
  after_push x = record s {
    queue = (try_push cap x s.queue).1;
    producer = Producer.idle;
    sent = if (try_push cap x s.queue).0 then s.sent ++ x ∷ [] else s.sent;
  }

  abbrev append_item : List T → Option T → List T
  append_item xs none = xs
  append_item xs (some x) = xs ++ x ∷ []

  abbrev pub after_pop : System T
  after_pop = record s {
    queue = (try_pop cap s.queue).1;
    consumer = Consumer.idle;
    received = append_item s.received (try_pop cap s.queue).0;
  }

  -- An idle producer's steps, undisturbed, come to what `try_push` does.
  pub try_push-Steps : (x : T) → s.producer ≡ Producer.idle → Steps cap s (after_push x)
  unfolding try_push
  try_push-Steps x e = elim (ℕ_discrete (next_index cap s.queue.tail) s.queue.head) [
    | yes full ↦
        rw (==-true full) (step (step done (push_call x e)) (push_full x s.queue.tail refl full))
    | no room ↦ rw (==-false room) (
        step
          (step (step (step done (push_call x e)) (push_room x s.queue.tail refl room))
            (push_write x s.queue.tail (next_index cap s.queue.tail) refl))
          (push_publish x (next_index cap s.queue.tail) refl))
  ]

  -- An idle consumer's steps, undisturbed, come to what `try_pop` does.
  pub try_pop-Steps : s.consumer ≡ Consumer.idle → Steps cap s after_pop
  unfolding try_pop
  try_pop-Steps e = elim (ℕ_discrete s.queue.head s.queue.tail) [
    | yes empty ↦
        rw (==-true empty) (step (step done (pop_call e)) (pop_empty s.queue.head refl empty))
    | no more ↦ rw (==-false more) (
        step
          (step (step (step done (pop_call e)) (pop_some s.queue.head refl more))
            (pop_take s.queue.head refl))
          (pop_publish s.queue.head _ refl))
  ]
