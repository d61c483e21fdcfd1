-- ===== src/Spsc/Concurrent/Atomic.antt =====
-- include/spsc_queue.h under two threads against the bounded queue of Fifo: when a call takes effect.
use c_web_socket_client_with.Prelude.{
  ℕ, zero, suc, ◌-◌, ◌<◌, ◌≡◌, refl, ap, sym, subst, ◌∙◌, true, false, none, some, List, [], ◌∷◌,
  ◌++◌, append_assoc, arith, length, length-append, ==-true, ==-false,
}
use c_web_socket_client_with.Fifo
use c_web_socket_client_with.Spsc.{Movable, next_index}
use c_web_socket_client_with.Spsc.Bounds.{IsCapacity}
use c_web_socket_client_with.Spsc.Holds.{empty_iff}
use c_web_socket_client_with.Spsc.Concurrent.{
  Producer, Consumer, System, Step, push_call, push_full, push_room, push_write, push_publish,
  pop_call, pop_empty, pop_some, pop_take, pop_publish, Reach,
}
use c_web_socket_client_with.Spsc.Concurrent.Views.{ProducerView, ConsumerView, Inv}
use c_web_socket_client_with.Spsc.Concurrent.Invariant.{Reach-Inv}
use c_web_socket_client_with.Spsc.Concurrent.Safety.{push_refused_iff}

abbrev drop {ℓ} : {T : Type ℓ} → ℕ → List T → List T
drop zero xs = xs
drop (suc n) [] = []
drop (suc n) (x ∷ xs) = drop n xs

module _ {ℓ} {T : Type ℓ} where
  -- The items of the bounded queue: what has been accepted and not returned yet.
  abbrev pub queued : System T → List T
  queued s = drop (length s.received) s.sent

  drop-append : (xs ys : List T) → drop (length xs) (xs ++ ys) ≡ ys
  drop-append [] ys = refl
  drop-append (x ∷ xs) ys = drop-append xs ys

  push_accepts :
      (limit : ℕ) (x : T) (xs ys : List T)
      → xs ≡ ys
      → length ys < limit
      → Fifo.push limit x xs ≡ (true, ys ++ x ∷ [])
  unfolding Fifo.push
  push_accepts limit x xs ys e h =
      ap (Fifo.push limit x) e ∙ rw (==-false {a = length ys} {b = limit} (omega (arith, h))) refl

  push_refuses :
      (limit : ℕ) (x : T) (xs ys : List T)
      → xs ≡ ys
      → length ys ≡ limit
      → Fifo.push limit x xs ≡ (false, xs)
  unfolding Fifo.push
  push_refuses limit x xs ys e h = rw (==-true (ap length e ∙ h)) refl

  pop_finds : (x : T) (xs ys : List T) → xs ≡ x ∷ ys → Fifo.pop xs ≡ (some x, ys)
  unfolding Fifo.pop
  pop_finds x xs ys e = rw e refl

  pop_fails : (xs ys : List T) → xs ≡ ys → length ys ≡ 0 → Fifo.pop xs ≡ (none, xs)
  unfolding Fifo.pop
  pop_fails xs [] e h = rw e refl
  pop_fails xs (y ∷ ys) e h = absurd (omega (arith, h))

module _ {ℓ} {T : Type ℓ} ⦃m : Movable T⦄ (cap : ℕ) where
  -- What a step does to the bounded queue with room for `Capacity - 1` items: nothing, or a whole
  -- call, with the reply that the code returns.
  abbrev pub Effect : (s t : System T) → Step cap s t → Type ℓ
  Effect s u (push_full x t e f) =
      (Fifo.push (cap - 1) x (queued s) ≡ (false, queued s)) × (queued u ≡ queued s)
  Effect s u (push_publish x n e) = Fifo.push (cap - 1) x (queued s) ≡ (true, queued u)
  Effect s u (pop_empty h e f) = (Fifo.pop (queued s) ≡ (none, queued s)) × (queued u ≡ queued s)
  Effect s u (pop_publish h x e) = Fifo.pop (queued s) ≡ (some x, queued u)
  Effect s u _ = queued u ≡ queued s

module _ {ℓ} {T : Type ℓ} ⦃m : Movable T⦄ {cap : ℕ} (c : IsCapacity cap) where
  queued-pending : {s : System T} (v : Inv cap s) → queued s ≡ v.pending
  queued-pending {s} v = ap (drop (length s.received)) v.history ∙ drop-append s.received v.pending

  -- The items after those that are returned.
  queued-split :
      (sent received rest : List T) → sent ≡ received ++ rest → drop (length received) sent ≡ rest
  queued-split sent received rest e = ap (drop (length received)) e ∙ drop-append received rest

  push_full-Effect :
      (s : System T) (x : T) (t : ℕ)
      → Reach cap s
      → s.producer ≡ Producer.loaded x t
      → next_index cap t ≡ s.queue.head
      → Fifo.push (cap - 1) x (queued s) ≡ (false, queued s)
  push_full-Effect s x t r e full =
      let v = Reach-Inv c r in
      push_refuses (cap - 1) x (queued s) v.pending (queued-pending v) (
        omega (
          arith,
          (push_refused_iff c r x t e).0 full,
          ap length v.history,
          length-append s.received v.pending,
        ))

  push_publish-Effect :
      (s : System T) (x : T) (n : ℕ)
      → Reach cap s
      → s.producer ≡ Producer.publishing x n
      → Fifo.push (cap - 1) x (queued s) ≡ (true, drop (length s.received) (s.sent ++ x ∷ []))
  push_publish-Effect s x n r e =
      let v = Reach-Inv c r in
      let view = subst (ProducerView cap s.queue.tail s.queue.buffer v.pending) e v.producer in
      push_accepts (cap - 1) x (queued s) v.pending (queued-pending v) (omega (arith, view.1))
      ∙ ap (λ l. (true, l))
          (sym (
            queued-split (s.sent ++ x ∷ []) s.received (v.pending ++ x ∷ [])
              (ap (λ l. l ++ x ∷ []) v.history ∙ append_assoc s.received v.pending (x ∷ []))))

  pop_empty-Effect :
      (s : System T) (h : ℕ)
      → Reach cap s
      → s.consumer ≡ Consumer.loaded h
      → h ≡ s.queue.tail
      → Fifo.pop (queued s) ≡ (none, queued s)
  pop_empty-Effect s h r e f =
      let v = Reach-Inv c r in
      let view = subst (ConsumerView s.queue.head v.pending) e v.consumer in
      pop_fails (queued s) v.pending (queued-pending v) ((empty_iff v.holds).0 (sym (view.0) ∙ f))

  pop_publish-Effect :
      (s : System T) (h : ℕ) (x : T)
      → Reach cap s
      → s.consumer ≡ Consumer.publishing h x
      → Fifo.pop (queued s) ≡ (some x, drop (length (s.received ++ x ∷ [])) s.sent)
  pop_publish-Effect s h x r e =
      let v = Reach-Inv c r in
      let view = subst (ConsumerView s.queue.head v.pending) e v.consumer in
      let (rest, items) = view.1 in
      pop_finds x (queued s) rest (queued-pending v ∙ items)
      ∙ ap (λ l. (some x, l))
          (sym (
            queued-split s.sent (s.received ++ x ∷ []) rest (
              v.history
              ∙ ap (λ l. s.received ++ l) items
              ∙ sym (append_assoc s.received (x ∷ []) rest))))

  -- The queue is linearizable. However the two threads are interleaved, each step either leaves the
  -- bounded queue as it is or is a whole call of it, with the reply that the code returns: `try_push`
  -- takes effect at its store to `tail_`, `try_pop` at its store to `head_`, and a call that is refused
  -- finds the bounded queue full, or empty, at its test.
  pub step-Effect : (s t : System T) → Reach cap s → (st : Step cap s t) → Effect cap s t st
  step-Effect s u r (push_call x e) = refl
  step-Effect s u r (push_full x t e f) = (push_full-Effect s x t r e f, refl)
  step-Effect s u r (push_room x t e f) = refl
  step-Effect s u r (push_write x t n e) = refl
  step-Effect s u r (push_publish x n e) = push_publish-Effect s x n r e
  step-Effect s u r (pop_call e) = refl
  step-Effect s u r (pop_empty h e f) = (pop_empty-Effect s h r e f, refl)
  step-Effect s u r (pop_some h e f) = refl
  step-Effect s u r (pop_take h e) = refl
  step-Effect s u r (pop_publish h x e) = pop_publish-Effect s h x r e
