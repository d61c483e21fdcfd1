-- ===== src/FirstClient/Invariant.antt =====
-- What holds of main.cpp whenever its two threads are between two accesses.
use c_web_socket_client_with.Prelude.{
  ◌≡◌, refl, Bool, true, false, not, ◌&&◌, List, [], ◌∷◌, ◌++◌, append-nil, append_assoc, arith,
}
use c_web_socket_client_with.FirstClient.{
  Response, Owner, receiver, consumer, Receiver, Consumer, System, connected, ReceiverStep,
  test_open, test_closed, read, read_throws, lock_guard, push, notify, unlock_guard, ConsumerStep,
  call, unique_lock, wait, go_on, lock_again, pop, return, Step, receive, respond, wake_up, closes,
  Steps, done, step,
}

-- The thread is between its lock and its unlock.
abbrev pub receiver_holds : Receiver → Bool
receiver_holds (Receiver.pushing r) = true
receiver_holds Receiver.notifying = true
receiver_holds Receiver.unlocking = true
receiver_holds _ = false

abbrev pub consumer_holds : Consumer → Bool
consumer_holds Consumer.testing = true
consumer_holds Consumer.taking = true
consumer_holds (Consumer.unlocking r) = true
consumer_holds _ = false

abbrev pub is_receiver : Owner → Bool
is_receiver receiver = true
is_receiver _ = false

abbrev pub is_consumer : Owner → Bool
is_consumer consumer = true
is_consumer _ = false

-- What a thread has in its hands.
abbrev pub read_by : Receiver → List Response
read_by (Receiver.locking r) = r ∷ []
read_by (Receiver.pushing r) = r ∷ []
read_by _ = []

abbrev pub taken_by : Consumer → List Response
taken_by (Consumer.unlocking r) = r ∷ []
taken_by _ = []

abbrev pub is_sleeping : Consumer → Bool
is_sleeping Consumer.sleeping = true
is_sleeping _ = false

abbrev pub is_taking : Consumer → Bool
is_taking Consumer.taking = true
is_taking _ = false

abbrev pub is_notifying : Receiver → Bool
is_notifying Receiver.notifying = true
is_notifying _ = false

abbrev pub is_empty : List Response → Bool
is_empty [] = true
is_empty (r ∷ rs) = false

pub record Inv (s : System) : Type 0 where
  pub by_receiver : receiver_holds s.receiver ≡ is_receiver s.owner
  pub by_consumer : consumer_holds s.consumer ≡ is_consumer s.owner
  pub order : s.arrived ≡ s.returned ++ (taken_by s.consumer ++ (s.messages ++ read_by s.receiver))
  pub awake :
      (is_sleeping s.consumer && not (is_empty s.messages)) ≡ true → is_notifying s.receiver ≡ true
  pub filled : is_taking s.consumer ≡ true → is_empty s.messages ≡ false

connected-Inv : Inv connected
connected-Inv = record {
  by_receiver = refl;
  by_consumer = refl;
  order = refl;
  awake = λ e. cc;
  filled = λ e. cc;
}

append_last :
    (xs ys zs : List Response) (r : Response)
    → (xs ++ (ys ++ (zs ++ []))) ++ r ∷ [] ≡ xs ++ (ys ++ (zs ++ r ∷ []))
append_last xs ys zs r = simp (append-nil, append_assoc)

append_pushed :
    (xs ys zs : List Response) (r : Response)
    → xs ++ (ys ++ ((zs ++ r ∷ []) ++ [])) ≡ xs ++ (ys ++ (zs ++ r ∷ []))
append_pushed xs ys zs r = simp append-nil

receiver-Inv : {s t : System} → ReceiverStep s t → Inv s → Inv t
receiver-Inv (test_open e o) v = ground arith
receiver-Inv (test_closed e o) v = ground arith
receiver-Inv {s} (read r e) v =
    ground (arith, append_last s.returned (taken_by s.consumer) s.messages r)
receiver-Inv (read_throws e) v = ground arith
receiver-Inv (lock_guard r e o) v = ground arith
receiver-Inv {s} (push r e) v =
    ground (arith, append_pushed s.returned (taken_by s.consumer) s.messages r)
receiver-Inv (notify e) v = ground arith
receiver-Inv (unlock_guard e) v = ground arith

consumer-Inv : {s t : System} → ConsumerStep s t → Inv s → Inv t
consumer-Inv (call e) v = ground arith
consumer-Inv (unique_lock e o) v = ground arith
consumer-Inv (wait e m) v = ground arith
consumer-Inv (go_on r rs e m) v = ground arith
consumer-Inv (lock_again e o) v = ground arith
consumer-Inv (pop r rs e m) v = ground arith
consumer-Inv {s} (return r e) v =
    ground (arith, append_assoc s.returned (r ∷ []) (s.messages ++ read_by s.receiver))

pub Step-Inv : {s t : System} → Step s t → Inv s → Inv t
Step-Inv (receive st) v = receiver-Inv st v
Step-Inv (respond st) v = consumer-Inv st v
Step-Inv (wake_up e) v = ground arith
Step-Inv closes v = ground arith

pub Steps-Inv : {s t : System} → Steps s t → Inv s → Inv t
Steps-Inv done v = v
Steps-Inv (step st ss) v = Steps-Inv ss (Step-Inv st v)

-- In every state that the two threads reach the invariant holds.
pub reachable-Inv : {s : System} → Steps connected s → Inv s
reachable-Inv ss = Steps-Inv ss connected-Inv
