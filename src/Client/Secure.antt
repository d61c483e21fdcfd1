-- ===== src/Client/Secure.antt =====
-- include/secure_websocket_client.h: SecureWebSocketClient. Its receiver thread, queue, `close()`
-- and the other operations are WebSocketClient's but for the stream type and the prefix of the output.
use c_web_socket_client_with.Prelude.{
  ℕ, Bool, true, false, Option, some, List, [], ◌∷◌, ◌++◌, ◌>>=◌, if◌then◌else◌, none, ◌≡◌, refl, not, ◌&&◌, Bool-cases, inl, inr,
}
use c_web_socket_client_with.Fifo.{FifoQueue}
use c_web_socket_client_with.Client
use c_web_socket_client_with.Client.{Message, Read, Client, report, connected_to, start_receiver}
use c_web_socket_client_with.Client.Receive.{Sim}

-- The calls of `connect()` that can throw, in the order of the source.
pub data SecureCall : Type 0 where
  resolve : SecureCall
  tcp_connect : SecureCall
  set_sni : SecureCall
  set_no_delay : SecureCall
  set_receive_buffer : SecureCall
  set_send_buffer : SecureCall
  tls_handshake : SecureCall
  upgrade : SecureCall

-- A client in `connect()`, and the calls that have been made.
pub record Connecting (S : Type 0) : Type 0 where
  pub client : Client S
  pub calls : List SecureCall

module _ {S : Type 0} where
  -- One call, and what follows it unless it throws.
  abbrev pub call :
      (throws : SecureCall → Bool)
      → SecureCall
      → (Connecting S → Option (Bool × Connecting S))
      → Connecting S
      → Option (Bool × Connecting S)
  call throws k next a =
      let b = record a { calls = a.calls ++ k ∷ [] } in
      let rest = next b in if throws k then some (false, b) else rest

  -- The WebSocket upgrade names the host and the port of the endpoint.
  abbrev pub name_host : ℕ → Connecting S → Connecting S
  name_host port a = record a {
    client = record a.client { handshake = some (a.client.host, some port) };
  }

  -- The end of `connect()`.
  abbrev pub secured : Connecting S → Option (Bool × Connecting S)
  secured a = do
    d ← start_receiver (report connected_to (record a.client { is_open = true; running = true }))
    some (true, record a { client = d })

  -- Whether `connect()` returns, rather than throws, and what it leaves; `port` is `ep.port()`, the
  -- port of the endpoint that the TCP connection goes to.
  unfoldable pub secure_connect :
      (throws : SecureCall → Bool) → (port : ℕ) → Client S → Option (Bool × Connecting S)
  secure_connect throws port c =
      call throws SecureCall.resolve
        (call throws SecureCall.tcp_connect (
          call throws SecureCall.set_sni (
            call throws SecureCall.set_no_delay (
              call throws SecureCall.set_receive_buffer (
                call throws SecureCall.set_send_buffer (
                  call throws SecureCall.tls_handshake
                    (λ a. call throws SecureCall.upgrade secured (name_host port a))))))))
        (record { client = c; calls = [] })

  abbrev pub secure_send_text : Bool → List ℕ → Client S → Option (Client S)
  secure_send_text = Client.send_text

  abbrev pub secure_send_binary : Bool → List ℕ → Client S → Option (Client S)
  secure_send_binary = Client.send_binary

module _ (q : FifoQueue Message) where
  abbrev pub secure_try_receive : Client q.State → Option Message × Client q.State
  secure_try_receive = Client.try_receive q

  abbrev pub secure_spin_receive : List Read → Client q.State → Option Message × Client q.State
  secure_spin_receive = Client.spin_receive q

  abbrev pub secure_receive_loop : Read → Client q.State → Client q.State
  secure_receive_loop = Client.receive_loop q

  abbrev pub secure_close : Bool → Read → Client q.State → Client q.State
  secure_close = Client.close q

-- The calls that `throws` lets be made, out of those that are planned: up to the first that throws.
abbrev pub up_to : (throws : SecureCall → Bool) → List SecureCall → List SecureCall
up_to throws [] = []
up_to throws (k ∷ ks) =
    let rest = up_to throws ks in k ∷ (if throws k then [] else rest)

abbrev pub none_throws : (throws : SecureCall → Bool) → List SecureCall → Bool
none_throws throws [] = true
none_throws throws (k ∷ ks) = not (throws k) && none_throws throws ks

-- The comment in front of `connect()`: DNS resolve, TCP connect, TLS handshake, WebSocket upgrade;
-- the server name and the socket options stand between the TCP connection and the TLS handshake.
abbrev pub planned : List SecureCall
planned =
    SecureCall.resolve
    ∷ SecureCall.tcp_connect
    ∷ SecureCall.set_sni
    ∷ SecureCall.set_no_delay
    ∷ SecureCall.set_receive_buffer
    ∷ SecureCall.set_send_buffer
    ∷ SecureCall.tls_handshake
    ∷ []

-- How `connect()` of a client that waits for a receiver ends.
pub record Attempted
    (q : FifoQueue Message) (throws : SecureCall → Bool) (port : ℕ) (c : Client q.State)
    (ws : List Message) (a : Connecting q.State) : Type 0 where
  pub calls : a.calls ≡ up_to throws (planned ++ SecureCall.upgrade ∷ [])
  pub state :
      Sim q a.client
        (record { waiting = ws; is_open = none_throws throws (planned ++ SecureCall.upgrade ∷ []) })
  pub named :
      a.client.handshake ≡ (if none_throws throws planned then some (c.host, some port) else none)

-- `connect()` of a client that is not connected and whose receiver thread is not joinable makes its
-- calls in the order resolve, TCP connect, server name, the three socket options, TLS handshake,
-- upgrade, and none after the first that throws. It returns exactly if none throws; then it receives,
-- and otherwise it is left disconnected. The upgrade names the host with the port of the endpoint, and
-- only after all calls before it, the TLS handshake and the server name among them, have succeeded.
pub secure_connect-Attempted :
    (q : FifoQueue Message) (throws : SecureCall → Bool) (port : ℕ) (c : Client q.State)
    (ws : List Message)
    → Sim q c (record { waiting = ws; is_open = false })
    → c.joinable ≡ false
    → c.handshake ≡ none
    → (a : Connecting q.State)
      × (secure_connect throws port c
        ≡ some (none_throws throws (planned ++ SecureCall.upgrade ∷ []), a))
      × Attempted q throws port c ws a
unfolding secure_connect
secure_connect-Attempted q throws port c ws s j h =
    elim (Bool-cases (throws SecureCall.resolve)) [
  | inl e ↦ (record { client = c; calls = SecureCall.resolve ∷ [] }, rw (e) refl, record { calls = rw (e) refl; state = rw (e) s; named = rw (e) h })
  | inr e1 ↦ elim (Bool-cases (throws SecureCall.tcp_connect)) [
    | inl e ↦ (record { client = c; calls = SecureCall.resolve ∷ SecureCall.tcp_connect ∷ [] }, rw (e1, e) refl, record { calls = rw (e1, e) refl; state = rw (e1, e) s; named = rw (e1, e) h })
    | inr e2 ↦ elim (Bool-cases (throws SecureCall.set_sni)) [
      | inl e ↦ (record { client = c; calls = SecureCall.resolve ∷ SecureCall.tcp_connect ∷ SecureCall.set_sni ∷ [] }, rw (e1, e2, e) refl, record { calls = rw (e1, e2, e) refl; state = rw (e1, e2, e) s; named = rw (e1, e2, e) h })
      | inr e3 ↦ elim (Bool-cases (throws SecureCall.set_no_delay)) [
        | inl e ↦ (record { client = c; calls = SecureCall.resolve ∷ SecureCall.tcp_connect ∷ SecureCall.set_sni ∷ SecureCall.set_no_delay ∷ [] }, rw (e1, e2, e3, e) refl, record { calls = rw (e1, e2, e3, e) refl; state = rw (e1, e2, e3, e) s; named = rw (e1, e2, e3, e) h })
        | inr e4 ↦ elim (Bool-cases (throws SecureCall.set_receive_buffer)) [
          | inl e ↦ (record { client = c; calls = SecureCall.resolve ∷ SecureCall.tcp_connect ∷ SecureCall.set_sni ∷ SecureCall.set_no_delay ∷ SecureCall.set_receive_buffer ∷ [] }, rw (e1, e2, e3, e4, e) refl, record { calls = rw (e1, e2, e3, e4, e) refl; state = rw (e1, e2, e3, e4, e) s; named = rw (e1, e2, e3, e4, e) h })
          | inr e5 ↦ elim (Bool-cases (throws SecureCall.set_send_buffer)) [
            | inl e ↦ (record { client = c; calls = SecureCall.resolve ∷ SecureCall.tcp_connect ∷ SecureCall.set_sni ∷ SecureCall.set_no_delay ∷ SecureCall.set_receive_buffer ∷ SecureCall.set_send_buffer ∷ [] }, rw (e1, e2, e3, e4, e5, e) refl, record { calls = rw (e1, e2, e3, e4, e5, e) refl; state = rw (e1, e2, e3, e4, e5, e) s; named = rw (e1, e2, e3, e4, e5, e) h })
            | inr e6 ↦ elim (Bool-cases (throws SecureCall.tls_handshake)) [
              | inl e ↦ (record { client = c; calls = SecureCall.resolve ∷ SecureCall.tcp_connect ∷ SecureCall.set_sni ∷ SecureCall.set_no_delay ∷ SecureCall.set_receive_buffer ∷ SecureCall.set_send_buffer ∷ SecureCall.tls_handshake ∷ [] }, rw (e1, e2, e3, e4, e5, e6, e) refl, record { calls = rw (e1, e2, e3, e4, e5, e6, e) refl; state = rw (e1, e2, e3, e4, e5, e6, e) s; named = rw (e1, e2, e3, e4, e5, e6, e) h })
              | inr e7 ↦ elim (Bool-cases (throws SecureCall.upgrade)) [
                | inl e ↦ (record { client = record c { handshake = some (c.host, some port) }; calls = SecureCall.resolve ∷ SecureCall.tcp_connect ∷ SecureCall.set_sni ∷ SecureCall.set_no_delay ∷ SecureCall.set_receive_buffer ∷ SecureCall.set_send_buffer ∷ SecureCall.tls_handshake ∷ SecureCall.upgrade ∷ [] }, rw (e1, e2, e3, e4, e5, e6, e7, e) refl, record { calls = rw (e1, e2, e3, e4, e5, e6, e7, e) refl; state = rw (e1, e2, e3, e4, e5, e6, e7, e) (record { holds = s.holds; receiving = s.receiving; running = s.running; thread = s.thread }); named = rw (e1, e2, e3, e4, e5, e6, e7) refl })
                | inr e8 ↦ (record { client = report connected_to (record c { is_open = true; running = true; joinable = true; receiving = true; handshake = some (c.host, some port) }); calls = SecureCall.resolve ∷ SecureCall.tcp_connect ∷ SecureCall.set_sni ∷ SecureCall.set_no_delay ∷ SecureCall.set_receive_buffer ∷ SecureCall.set_send_buffer ∷ SecureCall.tls_handshake ∷ SecureCall.upgrade ∷ [] }, rw (e1, e2, e3, e4, e5, e6, e7, e8, j) refl, record { calls = rw (e1, e2, e3, e4, e5, e6, e7, e8) refl; state = rw (e1, e2, e3, e4, e5, e6, e7, e8) (record { holds = s.holds; receiving = refl; running = refl; thread = λ e. refl }); named = rw (e1, e2, e3, e4, e5, e6, e7) refl })
              ]
            ]
          ]
        ]
      ]
    ]
  ]
]
