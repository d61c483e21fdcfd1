-- ===== src/FirstClient/Progress.antt =====
-- When `getResponse` of main.cpp can return.
use c_web_socket_client_with.Prelude.{◌≡◌, refl, ap, ◌∙◌, false, List, [], ◌∷◌, ◌++◌, arith}
use c_web_socket_client_with.FirstClient.{
  Response, nobody, consumer, Receiver, Consumer, System, connected, notify_one, push, notify,
  unlock_guard, unique_lock, go_on, lock_again, pop, return, receive, ReceiverStep, Steps,
  ThreadSteps, stay, receiving, responding,
}
use c_web_socket_client_with.FirstClient.Invariant.{receiver_holds, Inv, Step-Inv, reachable-Inv}

-- The main thread is in `getResponse` and `r` is the oldest message that it has not returned.
abbrev next_of : Consumer → List Response → List Response
next_of Consumer.idle rs = []
next_of (Consumer.unlocking r) rs = r ∷ []
next_of _ rs = rs

abbrev pub Awaits : System → Response → Type 0
Awaits s r = (rs : List Response) × (next_of s.consumer s.messages ≡ r ∷ rs)

-- Some steps of the two threads from `s` lead to the return of `getResponse` with `r`.
abbrev pub CanReturn : System → Response → Type 0
CanReturn s r =
    (t : System) × ThreadSteps s t
    × (t.consumer ≡ Consumer.idle)
    × (t.returned ≡ s.returned ++ r ∷ [])

by_unlocking : (s : System) (r : Response) → s.consumer ≡ Consumer.unlocking r → CanReturn s r
by_unlocking s r e = (_, responding (return r e) stay, refl, refl)

by_taking :
    (s : System) (r : Response) (rs : List Response)
    → s.consumer ≡ Consumer.taking
    → s.messages ≡ r ∷ rs
    → CanReturn s r
by_taking s r rs e m =
    let (t, ss, i, h) =
      by_unlocking (record s { consumer = Consumer.unlocking r; messages = rs }) r refl in
    (t, responding (pop r rs e m) ss, i, h)

by_testing :
    (s : System) (r : Response) (rs : List Response)
    → s.consumer ≡ Consumer.testing
    → s.messages ≡ r ∷ rs
    → CanReturn s r
by_testing s r rs e m =
    let (t, ss, i, h) = by_taking (record s { consumer = Consumer.taking }) r rs refl m in
    (t, responding (go_on r rs e m) ss, i, h)

by_locking :
    (s : System) (r : Response) (rs : List Response)
    → s.consumer ≡ Consumer.locking
    → s.owner ≡ nobody
    → s.messages ≡ r ∷ rs
    → CanReturn s r
by_locking s r rs e o m =
    let (t, ss, i, h) =
      by_testing (record s { consumer = Consumer.testing; owner = consumer }) r rs refl m in
    (t, responding (unique_lock e o) ss, i, h)

by_waking :
    (s : System) (r : Response) (rs : List Response)
    → s.consumer ≡ Consumer.waking
    → s.owner ≡ nobody
    → s.messages ≡ r ∷ rs
    → CanReturn s r
by_waking s r rs e o m =
    let (t, ss, i, h) =
      by_testing (record s { consumer = Consumer.testing; owner = consumer }) r rs refl m in
    (t, responding (lock_again e o) ss, i, h)

-- The receiver thread does not hold the mutex.
free-CanReturn :
    (s : System) (r : Response) (c : Consumer) (ms : List Response)
    → Inv s
    → receiver_holds s.receiver ≡ false
    → s.consumer ≡ c
    → s.messages ≡ ms
    → (rs : List Response) → next_of c ms ≡ r ∷ rs
    → CanReturn s r
free-CanReturn s r Consumer.idle ms v f e m rs n = absurd (cc)
free-CanReturn s r Consumer.locking ms v f e m rs n =
    by_locking s r rs e (ground (arith, v.by_receiver, v.by_consumer)) (m ∙ n)
free-CanReturn s r Consumer.testing ms v f e m rs n = by_testing s r rs e (m ∙ n)
free-CanReturn s r Consumer.sleeping ms v f e m rs n =
    absurd (ground (arith, v.awake, v.by_receiver))
free-CanReturn s r Consumer.waking ms v f e m rs n =
    by_waking s r rs e (ground (arith, v.by_receiver, v.by_consumer)) (m ∙ n)
free-CanReturn s r Consumer.taking ms v f e m rs n = by_taking s r rs e (m ∙ n)
free-CanReturn s r (Consumer.unlocking x) ms v f e m rs n = by_unlocking s r (ground (arith, n))

-- A step before that returns nothing.
first :
    {s t : System} (r : Response)
    → ReceiverStep s t
    → t.returned ≡ s.returned
    → CanReturn t r
    → CanReturn s r
first r st e (u, ss, i, h) = (u, receiving st ss, i, h ∙ ap (λ rs. rs ++ r ∷ []) e)

released-CanReturn :
    (s : System) (r : Response)
    → Inv s
    → receiver_holds s.receiver ≡ false
    → Awaits s r
    → CanReturn s r
released-CanReturn s r v f (rs, n) = free-CanReturn s r s.consumer s.messages v f refl refl rs n

unlocking-CanReturn :
    (s : System) (r : Response)
    → Inv s
    → s.receiver ≡ Receiver.unlocking
    → Awaits s r
    → CanReturn s r
unlocking-CanReturn s r v e a =
    let st = unlock_guard e in
    first r st refl (released-CanReturn _ r (Step-Inv (receive st) v) refl a)

next_of-notify_one : (c : Consumer) (ms : List Response) → next_of (notify_one c) ms ≡ next_of c ms
next_of-notify_one Consumer.idle ms = refl
next_of-notify_one Consumer.locking ms = refl
next_of-notify_one Consumer.testing ms = refl
next_of-notify_one Consumer.sleeping ms = refl
next_of-notify_one Consumer.waking ms = refl
next_of-notify_one Consumer.taking ms = refl
next_of-notify_one (Consumer.unlocking r) ms = refl

notifying-CanReturn :
    (s : System) (r : Response)
    → Inv s
    → s.receiver ≡ Receiver.notifying
    → Awaits s r
    → CanReturn s r
notifying-CanReturn s r v e (rs, n) =
    let st = notify e in
    first r st refl (
      unlocking-CanReturn _ r (Step-Inv (receive st) v) refl
        (rs, next_of-notify_one s.consumer s.messages ∙ n))

next_of-append :
    (c : Consumer) (ms : List Response) (r x : Response) (rs : List Response)
    → next_of c ms ≡ r ∷ rs
    → (more : List Response) × (next_of c (ms ++ x ∷ []) ≡ r ∷ more)
next_of-append Consumer.idle ms r x rs e = absurd (cc)
next_of-append (Consumer.unlocking y) ms r x rs e = (rs, e)
next_of-append Consumer.locking ms r x rs e = (rs ++ x ∷ [], ap (λ l. l ++ x ∷ []) e)
next_of-append Consumer.testing ms r x rs e = (rs ++ x ∷ [], ap (λ l. l ++ x ∷ []) e)
next_of-append Consumer.sleeping ms r x rs e = (rs ++ x ∷ [], ap (λ l. l ++ x ∷ []) e)
next_of-append Consumer.waking ms r x rs e = (rs ++ x ∷ [], ap (λ l. l ++ x ∷ []) e)
next_of-append Consumer.taking ms r x rs e = (rs ++ x ∷ [], ap (λ l. l ++ x ∷ []) e)

pushing-CanReturn :
    (s : System) (r x : Response)
    → Inv s
    → s.receiver ≡ Receiver.pushing x
    → Awaits s r
    → CanReturn s r
pushing-CanReturn s r x v e (rs, n) =
    let st = push x e in
    first r st refl (
      notifying-CanReturn _ r (Step-Inv (receive st) v) refl
        (next_of-append s.consumer s.messages r x rs n))

by_receiver-CanReturn :
    (q : Receiver) (s : System) (r : Response) → s.receiver ≡ q → Inv s → Awaits s r → CanReturn s r
by_receiver-CanReturn (Receiver.pushing x) s r e v a = pushing-CanReturn s r x v e a
by_receiver-CanReturn Receiver.notifying s r e v a = notifying-CanReturn s r v e a
by_receiver-CanReturn Receiver.unlocking s r e v a = unlocking-CanReturn s r v e a
by_receiver-CanReturn Receiver.testing s r e v a = released-CanReturn s r v (ap receiver_holds e) a
by_receiver-CanReturn Receiver.reading s r e v a = released-CanReturn s r v (ap receiver_holds e) a
by_receiver-CanReturn (Receiver.locking x) s r e v a =
    released-CanReturn s r v (ap receiver_holds e) a
by_receiver-CanReturn Receiver.ended s r e v a = released-CanReturn s r v (ap receiver_holds e) a

-- Wherever the two threads stand, while the main thread is in `getResponse` and a message waits, some
-- steps of the two threads, without a spurious wakeup, lead to its return with the oldest message.
pub get_response-CanReturn :
    (s : System) (r : Response) → Steps connected s → Awaits s r → CanReturn s r
get_response-CanReturn s r ss a = by_receiver-CanReturn s.receiver s r refl (reachable-Inv ss) a
