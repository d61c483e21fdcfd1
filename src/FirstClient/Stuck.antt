-- ===== src/FirstClient/Stuck.antt =====
-- When `getResponse` of main.cpp cannot return.
use c_web_socket_client_with.Prelude.{◌≡◌, refl, ◌∙◌, ◌≢◌, Bool, true, false, [], arith}
use c_web_socket_client_with.FirstClient.{
  Receiver, Consumer, System, test_open, test_closed, read, read_throws, lock_guard, push, notify,
  unlock_guard, call, unique_lock, wait, go_on, lock_again, pop, return, Step, receive, respond,
  wake_up, closes, Steps, done, step,
}

abbrev pub is_waiting : Consumer → Bool
is_waiting Consumer.locking = true
is_waiting Consumer.testing = true
is_waiting Consumer.sleeping = true
is_waiting Consumer.waking = true
is_waiting _ = false

-- The receiver thread has ended and the main thread waits in `getResponse` with no message left.
pub record IsStuck (s : System) : Type 0 where
  pub ended : s.receiver ≡ Receiver.ended
  pub none_left : s.messages ≡ []
  pub waits : is_waiting s.consumer ≡ true

stuck : {s t : System} → Step s t → IsStuck s → IsStuck t × (t.returned ≡ s.returned)
stuck (receive (test_open e o)) k = ground (arith, k.ended)
stuck (receive (test_closed e o)) k = ground (arith, k.ended)
stuck (receive (read r e)) k = ground (arith, k.ended)
stuck (receive (read_throws e)) k = ground (arith, k.ended)
stuck (receive (lock_guard r e o)) k = ground (arith, k.ended)
stuck (receive (push r e)) k = ground (arith, k.ended)
stuck (receive (notify e)) k = ground (arith, k.ended)
stuck (receive (unlock_guard e)) k = ground (arith, k.ended)
stuck (respond (call e)) k = ground (arith, k.waits)
stuck (respond (unique_lock e o)) k = ground arith
stuck (respond (wait e m)) k = ground arith
stuck (respond (go_on r rs e m)) k = ground (arith, k.none_left)
stuck (respond (lock_again e o)) k = ground arith
stuck (respond (pop r rs e m)) k = ground (arith, k.none_left)
stuck (respond (return r e)) k = ground (arith, k.waits)
stuck (wake_up e) k = ground arith
stuck closes k = ground arith

-- A stuck state stays stuck, whatever steps follow: once the receiver thread has ended, as it does
-- when the connection is lost, a `getResponse` that finds no message never returns.
pub get_response-IsStuck :
    (s t : System)
    → IsStuck s
    → Steps s t
    → IsStuck t × (t.consumer ≢ Consumer.idle) × (t.returned ≡ s.returned)
get_response-IsStuck s t k done = (k, λ e. ground (arith, k.waits), refl)
get_response-IsStuck s t k (step {t = u} st ss) =
    let (k', r) = stuck st k in
    let rest = get_response-IsStuck u t k' ss in (rest.0, rest.1, rest.2 ∙ r)
