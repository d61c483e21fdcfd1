-- ===== src/FirstClient/Tests.antt =====
-- Runs of the two threads of main.cpp and of its session, and the theorems at them.
use c_web_socket_client_with.Prelude.{
  ◌≡◌, ◌≢◌, ◌↔◌, refl, true, false, not, ◌&&◌, Option, none, some, List, [], ◌∷◌, ◌++◌,
}
use c_web_socket_client_with.FirstClient.{
  Response, receiver, Receiver, Consumer, System, connected, test_open, read, lock_guard, push,
  call, unique_lock, wait, receive, respond, wake_up, Steps, done, step,
}
use c_web_socket_client_with.FirstClient.Invariant.{
  receiver_holds, consumer_holds, is_sleeping, is_notifying, is_empty,
}
use c_web_socket_client_with.FirstClient.Delivery.{get_response_order}
use c_web_socket_client_with.FirstClient.Progress.{CanReturn, get_response-CanReturn}
use c_web_socket_client_with.FirstClient.Stuck.{IsStuck, get_response-IsStuck}
use c_web_socket_client_with.FirstClient.Session.{
  Peer, Client, Input, line, last, returned, threw, exits, terminated, main, chat_rounds,
}
use c_web_socket_client_with.FirstClient.Exits.{run_session, main_exits, main_exit_free}

abbrev hello : Response
hello = record { message = "hello"; is_text = true }

-- The main thread sleeps, and the receiver thread has pushed a message.
abbrev pushed : System
pushed = record {
  is_open = true;
  owner = receiver;
  messages = hello ∷ [];
  receiver = Receiver.notifying;
  consumer = Consumer.sleeping;
  arrived = hello ∷ [];
  returned = [];
}

to_pushed : Steps connected pushed
to_pushed = step (respond (call refl)) (
    step (respond (unique_lock refl refl)) (
      step (respond (wait refl refl)) (
        step (receive (test_open refl refl)) (
          step (receive (read hello refl)) (
            step (receive (lock_guard hello refl refl)) (step (receive (push hello refl)) done))))))

get_response_order_example :
    ((receiver_holds pushed.receiver && consumer_holds pushed.consumer) ≡ false)
    × ((rest : List Response) × (pushed.arrived ≡ pushed.returned ++ rest))
    × ((is_sleeping pushed.consumer
          && not (is_empty pushed.messages)
          && not (is_notifying pushed.receiver))
        ≡ false)
get_response_order_example = get_response_order pushed to_pushed

get_response-CanReturn_example : CanReturn pushed hello
get_response-CanReturn_example = get_response-CanReturn pushed hello to_pushed ([], refl)

-- The connection is lost while the main thread sleeps.
abbrev lost : System
lost = record connected { is_open = false; receiver = Receiver.ended; consumer = Consumer.sleeping }

abbrev woken : System
woken = record lost { consumer = Consumer.waking }

get_response-IsStuck_example :
    IsStuck woken × (woken.consumer ≢ Consumer.idle) × (woken.returned ≡ lost.returned)
get_response-IsStuck_example =
    get_response-IsStuck lost woken (record { ended = refl; none_left = refl; waits = refl })
      (step (wake_up refl) done)

-- What the server has sent; a text comes back, a binary message cannot be sent.
abbrev next : List Response → Option (Response × List Response)
next [] = none
next (r ∷ rs) = some (r, rs)

abbrev echo : Peer (List Response)
echo = record {
  connect = λ rs. some (hello ∷ []);
  send_text = λ msg rs. some (rs ++ record { message = msg; is_text = true } ∷ []);
  send_binary = λ msg rs. none;
  get_response = next;
  is_open = λ rs. true;
  close_stream = λ rs. some rs;
  join = λ rs. some rs;
}

-- A text, then "/exit".
exit_run : main echo 2 (line "text" (line "abc" (line "/exit" (last "")))) [] ≡ exits 0
unfolding main chat_rounds
exit_run = refl

abbrev send_fails : Input
send_fails = line "binary" (last "abc")

main_exits_example :
    (main echo 1 send_fails [] ≢ exits 1)
    × ((main echo 1 send_fails [] ≡ exits 0) ↔ (
        (c : Client (List Response)) × (run_session echo 1 send_fails (hello ∷ []) ≡ returned c)))
    × ((main echo 1 send_fails [] ≡ terminated)
        ↔ ((c : Client (List Response)) × (run_session echo 1 send_fails (hello ∷ []) ≡ threw c)))
main_exits_example = main_exits echo 1 send_fails [] (hello ∷ []) refl

main_exit_free_example : main echo 5 (line "text" (last "abc")) [] ≢ exits 0
main_exit_free_example = main_exit_free echo 5 (line "text" (last "abc")) [] (refl, refl)
