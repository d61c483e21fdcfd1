-- ===== src/Spsc/Concurrent/Views.antt =====
-- What each thread's local variables say of the queue, and the invariant of the whole.
use c_web_socket_client_with.Prelude.{
  ℕ, suc, ◌+◌, ◌%◌, ◌<◌, ◌≡◌, ap, ◌∙◌, ◌≢◌, List, [], ◌∷◌, ◌++◌, arith, length, get_or, set,
  get_or-set_ne,
}
use c_web_socket_client_with.Spsc.Holds.{Holds}
use c_web_socket_client_with.Spsc.Concurrent.{Producer, Consumer, System}

module _ {ℓ} {T : Type ℓ} where
  -- What the locals of the producer say of the tail, the buffer and the items `xs` held.
  abbrev pub ProducerView : ℕ → ℕ → List T → List T → Producer T → Type ℓ
  ProducerView cap tail buffer xs Producer.idle = Unit
  ProducerView cap tail buffer xs (Producer.loaded x t) = (t ≡ tail) × Unit {ℓ}
  ProducerView cap tail buffer xs (Producer.writing x t n) =
      (t ≡ tail) × (n ≡ (tail + 1) % cap) × (suc (length xs) < cap) × Unit {ℓ}
  ProducerView cap tail buffer xs (Producer.publishing x n) =
      (n ≡ (tail + 1) % cap) × (suc (length xs) < cap) × ((d : T) → get_or buffer tail d ≡ x)

  abbrev pub ConsumerView : ℕ → List T → Consumer T → Type ℓ
  ConsumerView head xs Consumer.idle = Unit
  ConsumerView head xs (Consumer.loaded h) = (h ≡ head) × Unit {ℓ}
  ConsumerView head xs (Consumer.taking h) =
      (h ≡ head) × ((x : T) × (rest : List T) × (xs ≡ x ∷ rest))
  ConsumerView head xs (Consumer.publishing h x) = (h ≡ head) × ((rest : List T) × (xs ≡ x ∷ rest))

  -- Only between the consumer's move and its store is the oldest item out of its slot.
  abbrev pub skipped : Consumer T → ℕ
  skipped (Consumer.publishing h x) = 1
  skipped _ = 0

  pub record Inv (cap : ℕ) (s : System T) : Type ℓ where
    pub pending : List T
    pub history : s.sent ≡ s.received ++ pending
    pub holds : Holds cap (skipped s.consumer) s.queue pending
    pub producer : ProducerView cap s.queue.tail s.queue.buffer pending s.producer
    pub consumer : ConsumerView s.queue.head pending s.consumer

  pub ConsumerView-append :
      (head : ℕ) (xs : List T) (x : T) (c : Consumer T)
      → ConsumerView head xs c
      → ConsumerView head (xs ++ x ∷ []) c
  ConsumerView-append head xs x Consumer.idle v = tt
  ConsumerView-append head xs x (Consumer.loaded h) v = v
  ConsumerView-append head xs x (Consumer.taking h) v =
      (v.0, (v.1.0, v.1.1 ++ x ∷ [], ap (λ l. l ++ x ∷ []) v.1.2))
  ConsumerView-append head xs x (Consumer.publishing h y) v =
      (v.0, (v.1.0 ++ x ∷ [], ap (λ l. l ++ x ∷ []) v.1.1))

  pub ProducerView-pop :
      (cap tail : ℕ) (buffer xs : List T) (x : T) (p : Producer T)
      → ProducerView cap tail buffer (x ∷ xs) p
      → ProducerView cap tail buffer xs p
  ProducerView-pop cap tail buffer xs x Producer.idle v = tt
  ProducerView-pop cap tail buffer xs x (Producer.loaded y t) v = v
  ProducerView-pop cap tail buffer xs x (Producer.writing y t n) v =
      (v.0, v.1, omega (arith, v.2), tt)
  ProducerView-pop cap tail buffer xs x (Producer.publishing y n) v = (v.0, omega (arith, v.1), v.2)

  pub ProducerView-set :
      (cap tail : ℕ) (buffer xs : List T) (i : ℕ) (x : T) (p : Producer T)
      → i ≢ tail
      → ProducerView cap tail buffer xs p
      → ProducerView cap tail (set buffer i x) xs p
  ProducerView-set cap tail buffer xs i x Producer.idle ne v = tt
  ProducerView-set cap tail buffer xs i x (Producer.loaded y t) ne v = v
  ProducerView-set cap tail buffer xs i x (Producer.writing y t n) ne v = v
  ProducerView-set cap tail buffer xs i x (Producer.publishing y n) ne v =
      (v.0, v.1, λ d. get_or-set_ne buffer i tail x d ne ∙ v.2 d)
