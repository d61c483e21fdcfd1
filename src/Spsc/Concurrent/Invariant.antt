-- ===== src/Spsc/Concurrent/Invariant.antt =====
-- Every step of include/spsc_queue.h by either thread keeps the invariant.
use c_web_socket_client_with.Prelude.{
  ℕ, suc, ◌+◌, ◌%◌, ◌<◌, ◌≡◌, refl, ap, sym, subst, ◌∙◌, ◌≢◌, List, [], ◌∷◌, ◌++◌, append_assoc,
  arith, length, get_or, set, get_or-set_self, ℕ_discrete,
}
use c_web_socket_client_with.Spsc.{Movable, next_index}
use c_web_socket_client_with.Spsc.Bounds.{IsCapacity, next_index-mod}
use c_web_socket_client_with.Spsc.Holds.{
  Holds, tail_in, empty_iff, full_iff, Holds-write, Holds-publish, front_item, Holds-take,
  Holds-advance,
}
use c_web_socket_client_with.Spsc.Refine.{new-Holds}
use c_web_socket_client_with.Spsc.Concurrent.{
  Producer, Consumer, System, start, Step, push_call, push_full, push_room, push_write,
  push_publish, pop_call, pop_empty, pop_some, pop_take, pop_publish, done, step, Reach,
}
use c_web_socket_client_with.Spsc.Concurrent.Views.{
  ProducerView, ConsumerView, skipped, Inv, ConsumerView-append, ProducerView-pop, ProducerView-set,
}

module _ {ℓ} {T : Type ℓ} ⦃m : Movable T⦄ {cap : ℕ} (c : IsCapacity cap) {s : System T}
    (v : Inv cap s) where
  open v use {pending, history, holds}

  abbrev ProducerAt : Producer T → Type ℓ
  ProducerAt = ProducerView cap s.queue.tail s.queue.buffer pending

  abbrev ConsumerAt : Consumer T → Type ℓ
  ConsumerAt = ConsumerView s.queue.head pending

  pub index : {t : ℕ} → t ≡ s.queue.tail → next_index cap t ≡ (s.queue.tail + 1) % cap
  index e = ap (next_index cap) e ∙ next_index-mod c s.queue.tail (tail_in holds)

  push_room-more :
      (t : ℕ) → t ≡ s.queue.tail → next_index cap t ≢ s.queue.head → suc (length pending) < cap
  push_room-more t e ne = elim (ℕ_discrete (suc (length pending)) cap) [
    | yes full ↦ absurd (ne (index e ∙ (full_iff holds).1 full))
    | no free ↦ omega (arith, holds.room)
  ]

  push_write-Inv :
      (x : T) (t n : ℕ)
      → s.producer ≡ Producer.writing x t n
      → Inv cap (record s {
        queue = record (s.queue) { buffer = set s.queue.buffer t x };
        producer = Producer.publishing x n;
      })
  push_write-Inv x t n e =
      let w = subst ProducerAt e v.producer in
      record {
        pending = pending;
        history = history;
        holds = rw (w.0) (Holds-write holds x);
        producer = (
          w.1,
          w.2,
          λ d. rw (w.0) (
              get_or-set_self s.queue.buffer s.queue.tail x d
                (omega (arith, tail_in holds, holds.whole))),
        );
        consumer = v.consumer;
      }

  push_publish-Inv :
      (x : T) (n : ℕ)
      → s.producer ≡ Producer.publishing x n
      → Inv cap (record s {
        queue = record (s.queue) { tail = n };
        producer = Producer.idle;
        sent = s.sent ++ x ∷ [];
      })
  push_publish-Inv x n e =
      let w = subst ProducerAt e v.producer in
      record {
        pending = pending ++ x ∷ [];
        history = ap (λ l. l ++ x ∷ []) history ∙ append_assoc s.received pending (x ∷ []);
        holds = rw (w.0) (Holds-publish holds x (w.1) (w.2));
        producer = tt;
        consumer = ConsumerView-append s.queue.head pending x s.consumer v.consumer;
      }

  Holds-at : (k : Consumer T) → s.consumer ≡ k → Holds cap (skipped k) s.queue pending
  Holds-at k e = subst (λ k. Holds cap (skipped k) s.queue pending) e holds

  module _ (x : T) (rest : List T) (e : pending ≡ x ∷ rest) where
    history_at : s.sent ≡ s.received ++ x ∷ rest
    history_at = history ∙ ap (λ l. s.received ++ l) e

    view_at : ProducerView cap s.queue.tail s.queue.buffer (x ∷ rest) s.producer
    view_at = subst (λ l. ProducerView cap s.queue.tail s.queue.buffer l s.producer) e v.producer

  pop_take-Inv :
      (h : ℕ)
      → s.consumer ≡ Consumer.taking h
      → Inv cap (record s {
        queue = record (s.queue) {
          buffer = set s.queue.buffer h (m.moved (get_or s.queue.buffer h m.init));
        };
        consumer = Consumer.publishing h (get_or s.queue.buffer h m.init);
      })
  pop_take-Inv h e =
      let (at_head, (x, rest, items)) = subst ConsumerAt e v.consumer in
      let held : Holds cap 0 s.queue (x ∷ rest) =
        subst (Holds cap 0 s.queue) items (Holds-at (Consumer.taking h) e) in
      let item : get_or s.queue.buffer h m.init ≡ x = rw at_head (front_item held m.init) in
      record {
        pending = x ∷ rest;
        history = history_at x rest items;
        holds = rw at_head (Holds-take _ held);
        producer =
            ProducerView-set cap s.queue.tail s.queue.buffer (x ∷ rest) h _ s.producer
              (λ meet. absurd (omega (arith, (empty_iff held).0 (sym at_head ∙ meet))))
              (view_at x rest items);
        consumer = (at_head, (rest, ap (λ y. y ∷ rest) (sym item)));
      }

  pop_publish-Inv :
      (h : ℕ) (x : T)
      → s.consumer ≡ Consumer.publishing h x
      → Inv cap (record s {
        queue = record (s.queue) { head = next_index cap h };
        consumer = Consumer.idle;
        received = s.received ++ x ∷ [];
      })
  pop_publish-Inv h x e =
      let (at_head, (rest, items)) = subst ConsumerAt e v.consumer in
      let held : Holds cap 1 s.queue (x ∷ rest) =
        subst (Holds cap 1 s.queue) items (Holds-at (Consumer.publishing h x) e) in
      let next : next_index cap h ≡ (s.queue.head + 1) % cap =
        ap (next_index cap) at_head ∙ next_index-mod c s.queue.head held.head_in in
      record {
        pending = rest;
        history = history_at x rest items ∙ sym (append_assoc s.received (x ∷ []) rest);
        holds = rw next (Holds-advance held);
        producer =
            ProducerView-pop cap s.queue.tail s.queue.buffer rest x s.producer
              (view_at x rest items);
        consumer = tt;
      }

  pop_some-view :
      (h : ℕ)
      → s.consumer ≡ Consumer.loaded h
      → h ≢ s.queue.tail
      → ConsumerView s.queue.head pending (Consumer.taking h)
  pop_some-view h e ne =
      let (at_head, _) = subst ConsumerAt e v.consumer in
      (at_head, nonempty pending (λ empty. ne (at_head ∙ (empty_iff holds).1 empty)))
    where
      nonempty : (xs : List T) → length xs ≢ 0 → (x : T) × (rest : List T) × (xs ≡ x ∷ rest)
      nonempty [] ne = absurd (ne refl)
      nonempty (x ∷ rest) ne = (x, rest, refl)

-- Every step of either thread keeps the invariant.
pub Step-Inv {ℓ} :
    {T : Type ℓ} ⦃m : Movable T⦄ {cap : ℕ} {s t : System T}
    → IsCapacity cap
    → Step cap s t
    → Inv cap s
    → Inv cap t
Step-Inv c (push_call x e) v = record {
  pending = v.pending;
  history = v.history;
  holds = v.holds;
  producer = (refl, tt);
  consumer = v.consumer;
}
Step-Inv c (push_full x t e full) v = record {
  pending = v.pending;
  history = v.history;
  holds = v.holds;
  producer = tt;
  consumer = v.consumer;
}
Step-Inv {cap} {s} c (push_room x t e ne) v =
    let (at_tail, _) =
      subst (ProducerView cap s.queue.tail s.queue.buffer v.pending) e v.producer in
    record {
      pending = v.pending;
      history = v.history;
      holds = v.holds;
      producer = (at_tail, index c v at_tail, push_room-more c v t at_tail ne, tt);
      consumer = v.consumer;
    }
Step-Inv c (push_write x t n e) v = push_write-Inv c v x t n e
Step-Inv c (push_publish x n e) v = push_publish-Inv c v x n e
Step-Inv c (pop_call e) v = record {
  pending = v.pending;
  history = v.history;
  holds = Holds-at c v Consumer.idle e;
  producer = v.producer;
  consumer = (refl, tt);
}
Step-Inv c (pop_empty h e empty) v = record {
  pending = v.pending;
  history = v.history;
  holds = Holds-at c v (Consumer.loaded h) e;
  producer = v.producer;
  consumer = tt;
}
Step-Inv c (pop_some h e ne) v = record {
  pending = v.pending;
  history = v.history;
  holds = Holds-at c v (Consumer.loaded h) e;
  producer = v.producer;
  consumer = pop_some-view c v h e ne;
}
Step-Inv c (pop_take h e) v = pop_take-Inv c v h e
Step-Inv c (pop_publish h x e) v = pop_publish-Inv c v h x e

start-Inv {ℓ} :
    {T : Type ℓ} ⦃m : Movable T⦄ {cap : ℕ} → IsCapacity cap → Inv {T = T} cap (start cap)
start-Inv c = record {
  pending = [];
  history = refl;
  holds = new-Holds c;
  producer = tt;
  consumer = tt;
}

pub Reach-Inv {ℓ} :
    {T : Type ℓ} ⦃m : Movable T⦄ {cap : ℕ} {s : System T} → IsCapacity cap → Reach cap s → Inv cap s
Reach-Inv c done = start-Inv c
Reach-Inv c (step r st) = Step-Inv c st (Reach-Inv c r)
