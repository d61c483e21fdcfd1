-- ===== src/Fifo.antt =====
-- What a bounded first-in first-out queue promises, and the interface through which the client of
-- include/websocket_client.h uses one: any representation of that behaviour.
use c_web_socket_client_with.Prelude.{
  ℕ, ◌≡◌, refl, ap₂, Bool, true, false, Option, none, some, List, [], ◌∷◌, ◌++◌, ◌==◌,
  if◌then◌else◌, length,
}

module _ {ℓ} {T : Type ℓ} where
  -- At most `limit` items.
  unfoldable pub push : ℕ → T → List T → Bool × List T
  push limit x xs = if length xs == limit then (false, xs) else (true, xs ++ x ∷ [])

  unfoldable pub pop : List T → Option T × List T
  pop [] = (none, [])
  pop (x ∷ xs) = (some x, xs)

-- A call of the producer or of the consumer, and what it returns.
pub data Call {ℓ} (T : Type ℓ) : Type ℓ where
  enqueue : T → Call T
  dequeue : Call T

pub data Reply {ℓ} (T : Type ℓ) : Type ℓ where
  accepted : Bool → Reply T
  received : Option T → Reply T

module _ {ℓ} {T : Type ℓ} where
  unfoldable pub run : ℕ → List T → List (Call T) → List (Reply T)
  unfolding push pop
  run limit xs [] = []
  run limit xs (enqueue x ∷ cs) = let (b, ys) = push limit x xs in accepted b ∷ run limit ys cs
  run limit xs (dequeue ∷ cs) = let (o, ys) = pop xs in received o ∷ run limit ys cs

-- A queue that holds the items `xs` in a state `s` answers as the list `xs` does.
pub record FifoQueue {ℓ} (T : Type ℓ) : Type (ℓ + 1) where
  pub State : Type ℓ
  pub limit : ℕ
  pub init : State
  pub try_push : T → State → Bool × State
  pub try_pop : State → Option T × State
  pub Holds : State → List T → Type ℓ
  pub init_holds : Holds init []
  pub push_reply :
      (x : T) (s : State) (xs : List T) → Holds s xs → (try_push x s).0 ≡ (push limit x xs).0
  pub push_holds :
      (x : T) (s : State) (xs : List T) → Holds s xs → Holds (try_push x s).1 (push limit x xs).1
  pub pop_reply : (s : State) (xs : List T) → Holds s xs → (try_pop s).0 ≡ (pop xs).0
  pub pop_holds : (s : State) (xs : List T) → Holds s xs → Holds (try_pop s).1 (pop xs).1

module _ {ℓ} {T : Type ℓ} (q : FifoQueue T) where
  open q use {State, limit, try_push, try_pop, Holds, push_reply, push_holds, pop_reply, pop_holds}

  -- The calls of one client in order, with what each returns.
  unfoldable pub replies : State → List (Call T) → List (Reply T)
  replies s [] = []
  replies s (enqueue x ∷ cs) = let (b, t) = try_push x s in accepted b ∷ replies t cs
  replies s (dequeue ∷ cs) = let (o, t) = try_pop s in received o ∷ replies t cs

  pub replies-run :
      (cs : List (Call T)) (s : State) (xs : List T) → Holds s xs → replies s cs ≡ run limit xs cs
  unfolding replies run
  replies-run [] s xs h = refl
  replies-run (enqueue x ∷ cs) s xs h =
      ap₂ (λ b rest. accepted b ∷ rest) (push_reply x s xs h)
        (replies-run cs (try_push x s).1 (push limit x xs).1 (push_holds x s xs h))
  replies-run (dequeue ∷ cs) s xs h =
      ap₂ (λ o rest. received o ∷ rest) (pop_reply s xs h)
        (replies-run cs (try_pop s).1 (pop xs).1 (pop_holds s xs h))
