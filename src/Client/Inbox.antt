-- ===== src/Client/Inbox.antt =====
-- What the user of WebSocketClient in include/websocket_client.h sees of its receiver thread: an inbox.
use c_web_socket_client_with.Prelude.{ℕ, Bool, true, false, Option, List, [], ◌∷◌, if◌then◌else◌}
use c_web_socket_client_with.Fifo
use c_web_socket_client_with.Fifo.{FifoQueue}
use c_web_socket_client_with.Client.{Message, Read, frame}

-- Messages that wait to be taken, and whether more are received.
pub record Inbox : Type 0 where
  pub waiting : List Message
  pub is_open : Bool

-- How a read ends for an open inbox with room for `limit` messages: a frame is kept if there is
-- room for it, all else closes the inbox.
unfoldable pub deliver : ℕ → Read → Inbox → Inbox
deliver limit (frame bytes got_text) i = record i {
  waiting = (Fifo.push limit (record { payload = bytes; is_text = got_text }) i.waiting).1;
}
deliver limit _ i = record i { is_open = false }

unfoldable pub receive : ℕ → Read → Inbox → Inbox
receive limit r i = if i.is_open then deliver limit r i else i

-- The inbox of a receiver thread that tests `running_` next.
abbrev pub stops : Bool → Inbox → Inbox
stops true i = i
stops false i = record i { is_open = false }

-- What happens to a client that is connected.
pub data Action : Type 0 where
  arrival : Read → Action
  take : Action
  shut : (fails : Bool) → Read → Action

-- What the user takes from an inbox.
unfoldable pub taken : ℕ → Inbox → List Action → List (Option Message)
taken limit i [] = []
taken limit i (arrival r ∷ acts) = taken limit (receive limit r i) acts
taken limit i (take ∷ acts) =
    let (o, ws) = Fifo.pop i.waiting in o ∷ taken limit (record i { waiting = ws }) acts
taken limit i (shut fails r ∷ acts) =
    taken limit (record (receive limit r i) { is_open = false }) acts
