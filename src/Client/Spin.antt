-- ===== src/Client/Spin.antt =====
-- `spin_receive()` of include/websocket_client.h.
use c_web_socket_client_with.Prelude.{
  ◌<◌, ◌≡◌, refl, ◌∙◌, Bool, true, false, Option, none, some, List, [], ◌∷◌,
}
use c_web_socket_client_with.Fifo
use c_web_socket_client_with.Fifo.{FifoQueue}
use c_web_socket_client_with.Client.{
  Message, Read, frame, closed_by_server, read_error, throws, Client, spin_receive,
}
use c_web_socket_client_with.Client.Receive.{Sim, arrive-Sim, take-Sim}
use c_web_socket_client_with.Client.Inbox.{Inbox, deliver, receive}
use c_web_socket_client_with.Client.Session.{push_room}

-- What `spin_receive()` returns for an inbox: the oldest message, or else the next one.
abbrev pub first : Inbox → List Read → Option Message
first i rs = first_of i.waiting i.is_open rs
  where
    first_of : List Message → Bool → List Read → Option Message
    first_of (m ∷ ms) on rs = some m
    first_of [] true (frame bytes got_text ∷ rs) =
        some (record { payload = bytes; is_text = got_text })
    first_of [] on rs = none

module _ (q : FifoQueue Message) where
  first-receive :
      (on : Bool) (r : Read) (rs : List Read)
      → 0 < q.limit
      → first (receive q.limit r (record { waiting = []; is_open = on })) rs
        ≡ first (record { waiting = []; is_open = on }) (r ∷ rs)
  unfolding receive deliver
  first-receive true (frame bytes got_text) rs pos =
      rw (push_room {limit = q.limit} (record { payload = bytes; is_text = got_text }) [] pos) refl
  first-receive true closed_by_server rs pos = refl
  first-receive true read_error rs pos = refl
  first-receive true throws rs pos = refl
  first-receive false r rs pos = refl

  spin-first :
      (rs : List Read) (c : Client q.State) (ws : List Message) (on : Bool)
      → Sim q c (record { waiting = ws; is_open = on })
      → 0 < q.limit
      → (spin_receive q rs c).0 ≡ first (record { waiting = ws; is_open = on }) rs
  unfolding spin_receive Fifo.pop
  spin-first [] c [] true s pos = q.pop_reply c.queue [] s.holds
  spin-first [] c [] false s pos = q.pop_reply c.queue [] s.holds
  spin-first [] c (w ∷ ws) on s pos = q.pop_reply c.queue (w ∷ ws) s.holds
  spin-first (r ∷ rs) c (w ∷ ws) on s pos = rw (q.pop_reply c.queue (w ∷ ws) s.holds) refl
  spin-first (r ∷ rs) c [] on s pos =
      let i : Inbox = record { waiting = []; is_open = on } in
      rw (q.pop_reply c.queue [] s.holds) (
        spin-first rs _ (receive q.limit r i).waiting (receive q.limit r i).is_open
          (arrive-Sim q r _ i (take-Sim q c i s)) pos
        ∙ first-receive on r rs pos)

  -- `spin_receive()` over a queue with room for a message returns the oldest message that waits. If
  -- none does, it returns the next one if that is what the receiver reads next, and otherwise it
  -- still spins, however many more reads end.
  pub spin_receive-first :
      (rs : List Read) (c : Client q.State) (i : Inbox)
      → Sim q c i
      → 0 < q.limit
      → (spin_receive q rs c).0 ≡ first i rs
  spin_receive-first rs c i s pos = spin-first rs c i.waiting i.is_open s pos
