-- ===== src/Spsc/Concurrent/WaitFree.antt =====
-- The progress of the two threads of include/spsc_queue.h.
use c_web_socket_client_with.Prelude.{
  ℕ, ◌+◌, ◌*◌, ◌≤◌, ◌<◌, ◌≡◌, refl, ap, ◌⊎◌, inl, inr, arith, ℕ_discrete,
}
use c_web_socket_client_with.Spsc.{Movable, next_index}
use c_web_socket_client_with.Spsc.Concurrent.{
  Producer, Consumer, System, Step, push_call, push_full, push_room, push_write, push_publish,
  pop_call, pop_empty, pop_some, pop_take, pop_publish, Steps, done, step,
}

-- At most this many steps of its own are left of the call of a thread.
abbrev pub push_left {ℓ} : {T : Type ℓ} → Producer T → ℕ
push_left Producer.idle = 0
push_left (Producer.loaded x t) = 3
push_left (Producer.writing x t n) = 2
push_left (Producer.publishing x n) = 1

abbrev pub pop_left {ℓ} : {T : Type ℓ} → Consumer T → ℕ
pop_left Consumer.idle = 0
pop_left (Consumer.loaded h) = 3
pop_left (Consumer.taking h) = 2
pop_left (Consumer.publishing h x) = 1

module _ {ℓ} {T : Type ℓ} ⦃m : Movable T⦄ (cap : ℕ) where
  -- Whether a step begins a call of `try_push`, and whether it is a later one of a call.
  abbrev pub push_begins : (s t : System T) → Step cap s t → ℕ
  push_begins s t (push_call x e) = 1
  push_begins s t _ = 0

  abbrev pub push_goes_on : (s t : System T) → Step cap s t → ℕ
  push_goes_on s u (push_full x t e f) = 1
  push_goes_on s u (push_room x t e f) = 1
  push_goes_on s u (push_write x t n e) = 1
  push_goes_on s t (push_publish x n e) = 1
  push_goes_on s t _ = 0

  abbrev pub pop_begins : (s t : System T) → Step cap s t → ℕ
  pop_begins s t (pop_call e) = 1
  pop_begins s t _ = 0

  abbrev pub pop_goes_on : (s t : System T) → Step cap s t → ℕ
  pop_goes_on s t (pop_empty h e f) = 1
  pop_goes_on s t (pop_some h e f) = 1
  pop_goes_on s t (pop_take h e) = 1
  pop_goes_on s t (pop_publish h x e) = 1
  pop_goes_on s t _ = 0

  -- The sum over a sequence of steps.
  abbrev pub total : {s u : System T} → ((s t : System T) → Step cap s t → ℕ) → Steps cap s u → ℕ
  total f done = 0
  total f (step {t = t} {u = u} ss st) = total f ss + f t u st

  push_cost :
      {s t : System T} (st : Step cap s t)
      → push_goes_on s t st + push_left t.producer ≤ push_left s.producer + 3 * push_begins s t st
  push_cost {s} (push_call x e) = ground arith
  push_cost {s} (push_full x t e f) = omega (arith, ap push_left e)
  push_cost {s} (push_room x t e f) = omega (arith, ap push_left e)
  push_cost {s} (push_write x t n e) = omega (arith, ap push_left e)
  push_cost {s} (push_publish x n e) = omega (arith, ap push_left e)
  push_cost {s} (pop_call e) = omega arith
  push_cost {s} (pop_empty h e f) = omega arith
  push_cost {s} (pop_some h e f) = omega arith
  push_cost {s} (pop_take h e) = omega arith
  push_cost {s} (pop_publish h x e) = omega arith

  pop_cost :
      {s t : System T} (st : Step cap s t)
      → pop_goes_on s t st + pop_left t.consumer ≤ pop_left s.consumer + 3 * pop_begins s t st
  pop_cost {s} (push_call x e) = omega arith
  pop_cost {s} (push_full x t e f) = omega arith
  pop_cost {s} (push_room x t e f) = omega arith
  pop_cost {s} (push_write x t n e) = omega arith
  pop_cost {s} (push_publish x n e) = omega arith
  pop_cost {s} (pop_call e) = omega (arith, ap pop_left e)
  pop_cost {s} (pop_empty h e f) = omega (arith, ap pop_left e)
  pop_cost {s} (pop_some h e f) = omega (arith, ap pop_left e)
  pop_cost {s} (pop_take h e) = omega (arith, ap pop_left e)
  pop_cost {s} (pop_publish h x e) = omega (arith, ap pop_left e)

  push_step :
      (s : System T) (p : Producer T)
      → s.producer ≡ p
      → (p ≡ Producer.idle) ⊎ ((u : System T) × Step cap s u × (push_left u.producer < push_left p))
  push_step s Producer.idle e = inl refl
  push_step s (Producer.loaded x t) e = elim (ℕ_discrete (next_index cap t) s.queue.head) [
    | yes full ↦ inr (_, push_full x t e full, omega arith)
    | no room ↦ inr (_, push_room x t e room, omega arith)
  ]
  push_step s (Producer.writing x t n) e = inr (_, push_write x t n e, omega arith)
  push_step s (Producer.publishing x n) e = inr (_, push_publish x n e, omega arith)

  pop_step :
      (s : System T) (c : Consumer T)
      → s.consumer ≡ c
      → (c ≡ Consumer.idle) ⊎ ((u : System T) × Step cap s u × (pop_left u.consumer < pop_left c))
  pop_step s Consumer.idle e = inl refl
  pop_step s (Consumer.loaded h) e = elim (ℕ_discrete h s.queue.tail) [
    | yes empty ↦ inr (_, pop_empty h e empty, omega arith)
    | no more ↦ inr (_, pop_some h e more, omega arith)
  ]
  pop_step s (Consumer.taking h) e = inr (_, pop_take h e, omega arith)
  pop_step s (Consumer.publishing h x) e = inr (_, pop_publish h x e, omega arith)

  push_total :
      (s t : System T) (ss : Steps cap s t)
      → total push_goes_on ss + push_left t.producer
        ≤ push_left s.producer + 3 * total push_begins ss
  push_total s t done = omega arith
  push_total s t (step {t = r} ss st) = omega (arith, push_total s r ss, push_cost st)

  pop_total :
      (s t : System T) (ss : Steps cap s t)
      → total pop_goes_on ss + pop_left t.consumer ≤ pop_left s.consumer + 3 * total pop_begins ss
  pop_total s t done = omega arith
  pop_total s t (step {t = r} ss st) = omega (arith, pop_total s r ss, pop_cost st)

  -- `try_push` and `try_pop` are wait-free. Whatever the other thread does meanwhile, each call takes
  -- at most three steps after its first one; and in every state a thread that is in a call can take a
  -- step that brings it closer to its return, even if the other never runs again.
  pub wait_free :
      (s t : System T) (ss : Steps cap s t)
      → (total push_goes_on ss + push_left t.producer
          ≤ push_left s.producer + 3 * total push_begins ss)
        × (total pop_goes_on ss + pop_left t.consumer
            ≤ pop_left s.consumer + 3 * total pop_begins ss)
        × ((t.producer ≡ Producer.idle)
            ⊎ ((u : System T) × Step cap t u × (push_left u.producer < push_left t.producer)))
        × ((t.consumer ≡ Consumer.idle)
            ⊎ ((u : System T) × Step cap t u × (pop_left u.consumer < pop_left t.consumer)))
  wait_free s t ss =
      (push_total s t ss, pop_total s t ss, push_step t t.producer refl, pop_step t t.consumer refl)
