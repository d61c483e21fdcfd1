-- ===== src/FirstClient/Session.antt =====
-- `chatSession` and `main` of main.cpp over the stream and the queue of the client.
use Prim.Native.String.{String}
use c_web_socket_client_with.Prelude.{
  ℕ, zero, suc, Bool, true, false, Option, none, some, if◌then◌else◌,
}
use c_web_socket_client_with.Args.{same}
use c_web_socket_client_with.FirstClient.{Response}

-- The stream and the queue of the client, in a state `S`: resolving, connecting and the handshake, the
-- sends, and `ws_.close` may throw: `none`. A `getResponse()` or a join that never returns is `none`.
pub record Peer (S : Type 0) : Type 0 where
  pub connect : S → Option S
  pub send_text : String → S → Option S
  pub send_binary : String → S → Option S
  pub get_response : S → Option (Response × S)
  pub is_open : S → Bool
  pub close_stream : S → Option S
  pub join : S → Option S

-- WebSocketClient: whether `receiver_thread_` is joinable.
pub record Client (S : Type 0) : Type 0 where
  pub stream : S
  pub joinable : Bool

-- What std::cin has still to give: a line with its newline, a last line without one, or nothing.
-- `failed`: a read has met the end of the input before.
pub data Input : Type 0 where
  line : String → Input → Input
  last : String → Input
  end : Input
  failed : Input

-- `std::getline(std::cin, input)`: the line and what remains. At the end of the input it empties
-- `input`, and once a read has met the end it leaves `input` as it is.
abbrev pub getline : Input → String → String × Input
getline (line s rest) input = (s, rest)
getline (last s) input = (s, failed)
getline end input = ("", failed)
getline failed input = (input, failed)

-- How the session ends: it returns, it waits for ever, a send or `close()` throws, or it is in the
-- loop when the given rounds are over.
pub data Ended (S : Type 0) : Type 0 where
  returned : Client S → Ended S
  waiting : Ended S
  threw : Client S → Ended S
  running : Client S → Ended S

-- How the program ends: with an exit code, by std::terminate, or not yet.
pub data Exit : Type 0 where
  exits : ℕ → Exit
  terminated : Exit
  blocked : Exit
  active : Exit

module _ {S : Type 0} (p : Peer S) where
  -- The end of `close()`.
  abbrev pub join_receiver : Client S → Ended S
  join_receiver c = if c.joinable then joined (p.join c.stream) else returned c
    where
      joined : Option S → Ended S
      joined none = waiting
      joined (some s) = returned (record { stream = s; joinable = false })

  abbrev pub close : Client S → Ended S
  close c = if p.is_open c.stream then closed (p.close_stream c.stream) else join_receiver c
    where
      closed : Option S → Ended S
      closed none = threw c
      closed (some s) = join_receiver (record c { stream = s })

  -- `getResponse()` at the end of a round, and the next round.
  abbrev pub respond : Client S → (Client S → Ended S) → Ended S
  respond c again = responded (p.get_response c.stream)
    where
      responded : Option (Response × S) → Ended S
      responded none = waiting
      responded (some (response, s)) = again (record c { stream = s })

  -- The rest of a round after a send.
  abbrev pub after_send : Option S → Client S → (Client S → Ended S) → Ended S
  after_send none c again = threw c
  after_send (some s) c again = respond (record c { stream = s }) again

  -- `while (true)`, for some rounds.
  unfoldable pub chat_rounds : ℕ → Input → String → Client S → Ended S
  chat_rounds zero source input c = running c
  chat_rounds (suc n) source input c =
      let (command, rest) = getline source input in
      let (text, rest') = getline rest command in
      let empty_line = chat_rounds n rest command c in
      if same command "/exit"
      then close c
      else if same command ""
      then empty_line
      else if same command "text"
      then after_send (p.send_text text c.stream) c (λ d. chat_rounds n rest' text d)
      else if same command "binary"
      then after_send (p.send_binary text c.stream) c (λ d. chat_rounds n rest' text d)
      else respond c (λ d. chat_rounds n rest command d)

  -- The greeting, and the loop with `input` empty.
  abbrev pub chat_session : ℕ → Input → Client S → Ended S
  chat_session n source c = respond c (λ d. chat_rounds n source "" d)

  -- The end of the life of the client: there is no destructor that joins.
  abbrev pub destroy : Client S → Exit → Exit
  destroy c e = if c.joinable then terminated else e

  abbrev pub after_session : Ended S → Exit
  after_session (returned c) = destroy c (exits 0)
  after_session waiting = blocked
  after_session (threw c) = destroy c (exits 1)
  after_session (running c) = active

  -- `connect()`, the session, and the handler of exceptions.
  unfoldable pub main : ℕ → Input → S → Exit
  main n source s = connected (p.connect s)
    where
      connected : Option S → Exit
      connected none = exits 1
      connected (some t) =
          after_session (chat_session n source (record { stream = t; joinable = true }))
