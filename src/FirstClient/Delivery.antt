-- ===== src/FirstClient/Delivery.antt =====
-- What `getResponse` of main.cpp returns.
use c_web_socket_client_with.Prelude.{◌≡◌, false, not, ◌&&◌, List, ◌++◌, arith}
use c_web_socket_client_with.FirstClient.{Response, System, connected, Steps}
use c_web_socket_client_with.FirstClient.Invariant.{
  receiver_holds, consumer_holds, read_by, taken_by, is_empty, is_sleeping, is_notifying,
  reachable-Inv,
}

-- `mutex_` is held by one thread at a time: the two threads never both stand where they use
-- `messages_`. What `getResponse` has returned is, in order, a prefix of what has arrived. The main
-- thread does not sleep beside a message but for the `notify_one` that the receiver thread is about
-- to make: no wakeup is lost.
pub get_response_order :
    (s : System)
    → Steps connected s
    → ((receiver_holds s.receiver && consumer_holds s.consumer) ≡ false)
      × ((rest : List Response) × (s.arrived ≡ s.returned ++ rest))
      × ((is_sleeping s.consumer && not (is_empty s.messages) && not (is_notifying s.receiver))
          ≡ false)
get_response_order s ss =
    let v = reachable-Inv ss in
    (
      ground (arith, v.by_receiver, v.by_consumer),
      (taken_by s.consumer ++ (s.messages ++ read_by s.receiver), v.order),
      ground (arith, v.awake),
    )
