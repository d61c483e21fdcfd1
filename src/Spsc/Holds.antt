-- ===== src/Spsc/Holds.antt =====
-- What a ring holds: the items between head and tail, oldest first.
use native.Mathlib.Nat.{mod-lt, mod-add-mod, mod-eq_of_lt}
use c_web_socket_client_with.Prelude.{
  ℕ, suc, ◌+◌, ◌%◌, ◌≤◌, ◌<◌, ◌≡◌, ap, sym, ◌∙◌, ◌≢◌, List, [], ◌∷◌, ◌++◌, arith, length, get_or,
  set, length-set, length-append, get_or-set_ne, get_or-append_left, get_or-append_last, dec_lt,
}
use c_web_socket_client_with.Prelude.Modular.{mod_ring, offsets_ne}
use c_web_socket_client_with.Spsc.{SpscQueue}

-- The items `xs` lie in the slots from `head` up to `tail`. The first `skip` of them need not be
-- there any more: 1 while the consumer has moved the oldest out and not yet published that.
pub record Holds {ℓ} {T : Type ℓ} (cap skip : ℕ) (q : SpscQueue T) (xs : List T) : Type ℓ where
  pub whole : length q.buffer ≡ cap
  pub head_in : q.head < cap
  pub room : length xs < cap
  pub tail_at : q.tail ≡ (q.head + length xs) % cap
  pub slots :
      (i : ℕ) (d : T)
      → skip ≤ i
      → i < length xs
      → get_or q.buffer ((q.head + i) % cap) d ≡ get_or xs i d

start_slot : {h cap : ℕ} → h < cap → (h + 0) % cap ≡ h
start_slot {h} {cap} lt = ap (λ t. t % cap) (omega arith) ∙ mod-eq_of_lt lt

module _ {ℓ} {T : Type ℓ} {cap skip : ℕ} {q : SpscQueue T} {xs : List T}
    (h : Holds cap skip q xs) where
  open h use {whole, head_in, room, tail_at, slots}

  pub tail_in : q.tail < cap
  tail_in = omega (arith, mod-lt (q.head + length xs) {m = cap} (omega arith))

  -- Head and tail meet exactly when nothing is held.
  pub empty_iff : (q.head ≡ q.tail → length xs ≡ 0) × (length xs ≡ 0 → q.head ≡ q.tail)
  empty_iff = grind (arith, mod_ring cap (q.head + length xs) (omega arith) (omega arith))

  step_tail : (q.tail + 1) % cap ≡ (q.head + suc (length xs)) % cap
  step_tail =
      ap (λ t. (t + 1) % cap) tail_at
      ∙ mod-add-mod (q.head + length xs) cap 1
      ∙ ap (λ t. t % cap) (omega arith)

  -- One slot before the head stays free, and the tail is there exactly when the ring is full.
  pub full_iff :
      ((q.tail + 1) % cap ≡ q.head → suc (length xs) ≡ cap)
      × (suc (length xs) ≡ cap → (q.tail + 1) % cap ≡ q.head)
  full_iff =
      grind (arith, step_tail, mod_ring cap (q.head + suc (length xs)) (omega arith) (omega arith))

  slot_ne_tail : (i : ℕ) → i < length xs → q.tail ≢ (q.head + i) % cap
  slot_ne_tail i lt e = offsets_ne cap q.head i (length xs) head_in lt room (sym e ∙ tail_at)

  -- A write to the free slot at the tail disturbs no item.
  pub Holds-write : (x : T) → Holds cap skip (record q { buffer = set q.buffer q.tail x }) xs
  Holds-write x = record {
    whole = length-set q.buffer q.tail x ∙ whole;
    head_in = head_in;
    room = room;
    tail_at = tail_at;
    slots = λ i d lo hi. get_or-set_ne q.buffer q.tail _ x d (slot_ne_tail i hi) ∙ slots i d lo hi;
  }

  -- Publishing the tail adds the item that was written there.
  pub Holds-publish :
      (x : T)
      → suc (length xs) < cap
      → ((d : T) → get_or q.buffer q.tail d ≡ x)
      → Holds cap skip (record q { tail = (q.tail + 1) % cap }) (xs ++ x ∷ [])
  Holds-publish x free written = record {
    whole = whole;
    head_in = head_in;
    room = omega (arith, longer);
    tail_at = step_tail ∙ ap (λ n. (q.head + n) % cap) (omega (arith, longer));
    slots = λ i d lo hi. elim (dec_lt i (length xs)) [
      | yes old ↦ slots i d lo old ∙ sym (get_or-append_left xs (x ∷ []) i d old)
      | no new ↦ last i d (omega (arith, longer))
    ];
  }
    where
      longer : length (xs ++ x ∷ []) ≡ suc (length xs)
      longer = length-append xs (x ∷ []) ∙ omega arith

      last :
          (i : ℕ) (d : T)
          → i ≡ length xs
          → get_or q.buffer ((q.head + i) % cap) d ≡ get_or (xs ++ x ∷ []) i d
      last i d e = rw (e, ← tail_at) (written d ∙ sym (get_or-append_last xs x d))

module _ {ℓ} {T : Type ℓ} {cap : ℕ} {q : SpscQueue T} {x : T} {xs : List T} where
  pub front_item : Holds cap 0 q (x ∷ xs) → (d : T) → get_or q.buffer q.head d ≡ x
  front_item h d =
      ap (λ j. get_or q.buffer j d) (sym (start_slot h.head_in))
      ∙ h.slots 0 d (omega arith) (omega arith)

  -- Taking the oldest item out of its slot leaves the others alone.
  pub Holds-take :
      (v : T)
      → Holds cap 0 q (x ∷ xs)
      → Holds cap 1 (record q { buffer = set q.buffer q.head v }) (x ∷ xs)
  Holds-take v h = record {
    whole = length-set q.buffer q.head v ∙ h.whole;
    head_in = h.head_in;
    room = h.room;
    tail_at = h.tail_at;
    slots = λ i d lo hi.
        get_or-set_ne q.buffer q.head _ v d (other_slot i lo hi) ∙ h.slots i d (omega arith) hi;
  }
    where
      other_slot : (i : ℕ) → 0 < i → i < suc (length xs) → q.head ≢ (q.head + i) % cap
      other_slot i lo hi e =
          offsets_ne cap q.head 0 i h.head_in lo (omega (arith, h.room)) (start_slot h.head_in ∙ e)

  -- Publishing the head drops it.
  pub Holds-advance :
      Holds cap 1 q (x ∷ xs) → Holds cap 0 (record q { head = (q.head + 1) % cap }) xs
  Holds-advance h = record {
    whole = h.whole;
    head_in = mod-lt (q.head + 1) {m = cap} (omega (arith, h.head_in));
    room = omega (arith, h.room);
    tail_at = h.tail_at ∙ sym (shift (length xs));
    slots = λ i d lo hi.
        ap (λ j. get_or q.buffer j d) (shift i) ∙ h.slots (suc i) d (omega arith) (omega arith);
  }
    where
      shift : (i : ℕ) → ((q.head + 1) % cap + i) % cap ≡ (q.head + suc i) % cap
      shift i = mod-add-mod (q.head + 1) cap i ∙ ap (λ t. t % cap) (omega arith)
