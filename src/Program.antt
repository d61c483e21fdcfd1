-- ===== src/Program.antt =====
-- `main` of src/main.cpp: which client the arguments select, and the exit code. The output, and what
-- the operating system does for TLS certificates, are left out; `mgr.stop()` is taken to return.
pub mod Wait
pub mod Selection
mod Tests
use Prim.Native.String.{String}
use c_web_socket_client_with.Prelude.{
  ℕ, zero, suc, ◌+◌, Bool, true, false, Option, none, some, List, if◌then◌else◌, ◌&&◌,
}
use c_web_socket_client_with.Args.{CliArgs, parse_args}
use c_web_socket_client_with.Threads.{ClientConfig}
use c_web_socket_client_with.Pool.{Params}
use c_web_socket_client_with.Pool.Ptr.{Store}
use c_web_socket_client_with.Chat
use c_web_socket_client_with.Chat.{ChatClient, chat_session}
use c_web_socket_client_with.Manager.{
  ConnectionConfig, default_config, Manager, Outcome, new, start, is_connected,
}

-- How the program ends: with an exit code, by an exception that nothing catches, by a failed
-- assertion, or not at all, in `spin_receive()`.
pub data Exit : Type 0 where
  exits : ℕ → Exit
  terminated : Exit
  aborted : Exit
  spinning : Exit

-- What the program meets: whether WS_ENABLE_SSL is defined; the construction and `connect()` of a
-- client, which may throw; how the first attempt of the manager ends, and what its threads do during
-- each sleep of the main thread; the client that it then holds; and what the session uses.
pub record World (S : Type 0) : Type 0 where
  pub client : ChatClient S
  pub ssl_enabled : Bool
  pub plain_connect : (host port : String) → ClientConfig → Option S
  pub secure_connect : (host port : String) → ClientConfig → Option S
  pub first : Outcome
  pub during : ℕ → Manager → Manager
  pub managed : Manager → S
  pub params : Params
  pub bench : List (String × ℕ)
  pub lines : List String
  pub pools : Store

abbrev pub client_config : CliArgs → ClientConfig
client_config args = record {
  pin_receiver_thread = args.pin_thread;
  receiver_core_id = args.pin_core;
}

-- `conn_config`
abbrev pub manager_config : CliArgs → ConnectionConfig
manager_config args = record (default_config args.host args.port) {
  auto_reconnect = true;
  initial_backoff_ms = 100;
  max_backoff_ms = 30000;
  heartbeat_enabled = true;
}

-- The loop that waits for the connection, from `i` on, with `n` rounds to go.
unfoldable pub await_connected : ℕ → ℕ → (ℕ → Manager → Manager) → Manager → Manager
await_connected zero i during m = m
await_connected (suc n) i during m =
    let slept = await_connected n (i + 1) during (during i m) in if is_connected m then m else slept

-- The end of the session; `threw` is what an exception leads to.
abbrev pub after_session : {S : Type 0} → Exit → Chat.Ended S → Exit
after_session threw (Chat.returned s stats c) = exits 0
after_session threw (Chat.exhausted s stats c) = exits 0
after_session threw Chat.threw = threw
after_session threw Chat.spinning = spinning
after_session threw Chat.aborted = aborted

module _ {S : Type 0} (w : World S) where
  abbrev pub session : S → Chat.Ended S
  session c = chat_session w.client w.params w.bench w.lines w.pools c

  -- A client of its own: both handlers return 1.
  abbrev pub run_client : Option S → Exit
  run_client none = exits 1
  run_client (some c) = after_session (exits 1) (session c)

  -- The branch of `--reconnect`, which has no handler.
  abbrev pub run_manager : Option Manager → Exit
  run_manager none = terminated
  run_manager (some m) = connected (await_connected 100 0 w.during m)
    where
      connected : Manager → Exit
      connected n =
          if is_connected n && n.client
          then after_session terminated (session (w.managed n))
          else exits 0

  abbrev pub run : CliArgs → Exit
  run args =
      if args.auto_reconnect
      then run_manager (start w.first (new (manager_config args)))
      else if args.use_ssl
      then (if w.ssl_enabled
          then run_client (w.secure_connect args.host args.port (client_config args))
          else exits 1)
      else run_client (w.plain_connect args.host args.port (client_config args))

  -- `--help` ends the program with 0.
  unfoldable pub main : List String → Exit
  main argv = parsed (parse_args argv)
    where
      parsed : Option CliArgs → Exit
      parsed none = exits 0
      parsed (some args) = run args
