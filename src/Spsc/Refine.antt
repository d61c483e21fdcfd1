-- ===== src/Spsc/Refine.antt =====
-- SPSCQueue, called by one thread, is the bounded queue of Fifo with room for Capacity - 1 items.
use native.Mathlib.Nat.{mod-eq_of_lt}
use c_web_socket_client_with.Prelude.{
  ℕ, suc, ◌+◌, ◌-◌, ◌%◌, ◌<◌, ◌≡◌, refl, ap, sym, ◌∙◌, ◌≢◌, some, List, [], ◌∷◌, arith, length,
  ◌==◌, ==-true, ==-false, ℕ_discrete, get_or-set_self, bit_and, size_sub, length-replicate,
}
use c_web_socket_client_with.Fifo
use c_web_socket_client_with.Fifo.{
  Call, enqueue, dequeue, Reply, accepted, received, FifoQueue, replies, replies-run,
}
use c_web_socket_client_with.Spsc.{
  Movable, SpscQueue, new, try_push, try_pop, empty, size_approx, next_index, mask,
}
use c_web_socket_client_with.Spsc.Bounds.{IsCapacity, cap_pos, next_index-mod, distance-mod}
use c_web_socket_client_with.Spsc.Holds.{
  Holds, tail_in, empty_iff, full_iff, Holds-write, Holds-publish, front_item, Holds-take,
  Holds-advance,
}

module _ {ℓ} {T : Type ℓ} ⦃m : Movable T⦄ {cap : ℕ} (c : IsCapacity cap) where
  pub new-Holds : Holds cap 0 (new {T = T} cap) []
  unfolding new
  new-Holds = record {
    whole = length-replicate cap m.init;
    head_in = cap_pos c;
    room = cap_pos c;
    tail_at = sym (mod-eq_of_lt (cap_pos c));
    slots = λ i d lo hi. absurd (omega arith);
  }

  -- `try_push` accepts an item exactly when fewer than `Capacity - 1` are held, and then adds it
  -- behind them; otherwise it changes nothing.
  pub try_push_refines :
      (x : T) (q : SpscQueue T) (xs : List T)
      → Holds cap 0 q xs
      → ((try_push cap x q).0 ≡ (Fifo.push (cap - 1) x xs).0)
        × Holds cap 0 (try_push cap x q).1 (Fifo.push (cap - 1) x xs).1
  unfolding try_push Fifo.push
  try_push_refines x q xs h = elim (ℕ_discrete (suc (length xs)) cap) [
    | yes full ↦
        rw
          (
            ==-true (index ∙ (full_iff h).1 full),
            ==-true {a = length xs} {b = cap - 1} (omega arith),
          )
          (refl, h)
    | no free ↦
        let more : suc (length xs) < cap = omega (arith, h.room) in
        rw
          (
            ==-false (λ e. free ((full_iff h).0 (sym index ∙ e))),
            ==-false {a = length xs} {b = cap - 1} (omega arith),
            index,
          )
          (
            refl,
            Holds-publish (Holds-write h x) x more
                (λ d. get_or-set_self q.buffer q.tail x d (omega (arith, tail_in h, h.whole))),
          )
  ]
    where
      index : next_index cap q.tail ≡ (q.tail + 1) % cap
      index = next_index-mod c q.tail (tail_in h)

  -- `try_pop` returns the oldest item and leaves the others, or nothing if none is held.
  pub try_pop_refines :
      (q : SpscQueue T) (xs : List T)
      → Holds cap 0 q xs
      → ((try_pop cap q).0 ≡ (Fifo.pop xs).0) × Holds cap 0 (try_pop cap q).1 (Fifo.pop xs).1
  unfolding try_pop Fifo.pop
  try_pop_refines q [] h = rw (==-true ((empty_iff h).1 refl)) (refl, h)
  try_pop_refines q (x ∷ xs) h =
      let held : q.head ≢ q.tail = λ e. absurd (omega (arith, (empty_iff h).0 e)) in
      rw (==-false held, next_index-mod c q.head h.head_in)
        (ap some (front_item h m.init), Holds-advance (Holds-take _ h))

  -- `size_approx` is the number of items held, and `empty` says whether it is 0.
  pub size_approx-length :
      (q : SpscQueue T) (xs : List T)
      → Holds cap 0 q xs
      → (size_approx cap q ≡ length xs) × (empty q ≡ (length xs == 0))
  unfolding size_approx empty
  size_approx-length q xs h = (
    ap (λ t. bit_and (size_sub t q.head) (mask cap)) h.tail_at
        ∙ distance-mod c q.head (length xs) h.head_in h.room,
    ground (arith, empty_iff h),
  )

module _ {ℓ} {T : Type ℓ} where
  -- The queue behind the interface that its client uses.
  abbrev pub spsc_fifo : ⦃m : Movable T⦄ {cap : ℕ} → IsCapacity cap → FifoQueue T
  spsc_fifo ⦃m⦄ {cap} c = record {
    State = SpscQueue T;
    limit = cap - 1;
    init = new cap;
    try_push = try_push cap;
    try_pop = try_pop cap;
    Holds = Holds cap 0;
    init_holds = new-Holds c;
    push_reply = λ x s xs h. (try_push_refines c x s xs h).0;
    push_holds = λ x s xs h. (try_push_refines c x s xs h).1;
    pop_reply = λ s xs h. (try_pop_refines c s xs h).0;
    pop_holds = λ s xs h. (try_pop_refines c s xs h).1;
  }

  -- No sequence of calls tells the queue from a bounded list with room for `Capacity - 1` items.
  pub replies-new :
      ⦃m : Movable T⦄ {cap : ℕ} (c : IsCapacity cap) (cs : List (Call T))
      → replies (spsc_fifo c) (new cap) cs ≡ Fifo.run (cap - 1) [] cs
  replies-new {cap} c cs = replies-run (spsc_fifo c) cs (new cap) [] (new-Holds c)
