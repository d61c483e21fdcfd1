-- ===== src/Client/Tests.antt =====
-- The theorems at the client over the queue of include/spsc_queue.h.
use c_web_socket_client_with.Client.Secure.{SecureCall, Connecting, secure_connect, Attempted, secure_connect-Attempted}
use c_web_socket_client_with.Prelude.{Bool, true, false, refl, ◌≡◌, none, some, List, [], ◌∷◌, ◌++◌, arith}
use c_web_socket_client_with.Fifo
use c_web_socket_client_with.Fifo.{FifoQueue}
use c_web_socket_client_with.Client.{closed_by_server, spin_receive}
use c_web_socket_client_with.Client.Receive.{received, received-taken}
use c_web_socket_client_with.Client.Inbox.{Action, arrival, receive, deliver, taken}
use c_web_socket_client_with.Client.Session.{arrivals, takes}
use c_web_socket_client_with.Client.Spin.{spin_receive-first}
use c_web_socket_client_with.Client.Instance.{q, idle, idle-Sim, ready, ready-Sim, hello, bytes}

-- Two messages arrive, the server closes, one more would arrive, and the user takes three times.
abbrev script : List Action
script =
    arrivals (hello ∷ bytes ∷ []) ++ arrival closed_by_server ∷ arrivals (hello ∷ []) ++ takes 3

received-taken_example : received q ready script ≡ some hello ∷ some bytes ∷ none ∷ []
unfolding taken receive deliver Fifo.pop Fifo.push
received-taken_example = received-taken q script ready _ ready-Sim

-- The connection is lost while the user waits for an answer.
spin_receive-first_example :
    (spin_receive q (closed_by_server ∷ closed_by_server ∷ []) ready).0 ≡ none
spin_receive-first_example =
    spin_receive-first q (closed_by_server ∷ closed_by_server ∷ []) ready _ ready-Sim (omega arith)

-- The server name is refused.
abbrev sni_throws : SecureCall → Bool
sni_throws SecureCall.set_sni = true
sni_throws _ = false

secure_connect-Attempted_example :
    (a : Connecting q.State) × (secure_connect sni_throws 443 idle ≡ some (false, a))
    × Attempted q sni_throws 443 idle [] a
secure_connect-Attempted_example =
    secure_connect-Attempted q sni_throws 443 idle [] idle-Sim refl refl
