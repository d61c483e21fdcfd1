-- ===== src/Manager/Restart.antt =====
-- `reconnect_loop` of include/connection_manager.h after `start()`, `stop()` or a lost connection.
use c_web_socket_client_with.Prelude.{
  ◌+◌, ◌≤◌, ◌<◌, ◌≡◌, refl, true, false, none, some, List, [], ◌∷◌, arith, lt→ltb,
}
use c_web_socket_client_with.Manager.Retries.{restart_threads_lem}
use c_web_socket_client_with.Manager.{
  disconnected, connected, reconnecting, closing, on_connect, on_disconnect, on_reconnect, Manager,
  emit, set_state, connects, connect_throws, start, stop, destroy,
}
use c_web_socket_client_with.Manager.Loops.{
  drop_connection, Round, returned, exceeded, give_up, after_success, reconnect_loop, monitor_loop,
}

-- A manager with `auto_reconnect` and a limit whose count of attempts has reached the limit, as
-- after giving up, keeps its count: when it is started again and the first attempt fails, the
-- reconnect loop gives up in its first round, with no call of `on_reconnect`.
pub restart_gives_up_at_once :
    (m : Manager) (r : Round) (rs : List Round)
    → m.reconnect_joinable ≡ false
    → m.config.auto_reconnect ≡ true
    → 0 < m.config.max_reconnect_tries
    → m.config.max_reconnect_tries ≤ m.reconnect_count
    → (n : Manager) × (p : Manager) × (start connect_throws m ≡ some n)
      × (reconnect_loop (r ∷ rs) n ≡ returned p)
      × (p.state ≡ disconnected)
      × (p.events ≡ on_disconnect "max retries exceeded" ∷ m.events)
unfolding start reconnect_loop
restart_gives_up_at_once m r rs free auto pos many = (
  record failing { reconnect_joinable = true; reconnect_alive = true },
  give_up (record failing {
    reconnect_count = m.reconnect_count + 1;
    reconnect_joinable = true;
    reconnect_alive = true;
  }),
  rw (auto, free) refl,
  rw
      (
        lt→ltb 0 m.config.max_reconnect_tries pos,
        lt→ltb m.config.max_reconnect_tries (m.reconnect_count + 1) (omega (arith, many)),
      )
      refl,
  refl,
  refl,
)
  where
    failing : Manager
    failing = record m { state = reconnecting; should_run = true; client = false; running = false }

-- When the connection is lost and the monitor's own reconnect loop connects again at the first
-- attempt, which is within the limit, the manager is Connected but its monitor thread has ended and no other is started.
pub monitor_not_restarted :
    (m : Manager) (rs : List Round)
    → m.should_run ≡ true
    → m.client ≡ true
    → m.monitor_joinable ≡ true
    → m.config.auto_reconnect ≡ true
    → exceeded (record m { reconnect_count = m.reconnect_count + 1 }) ≡ false
    → (n : Manager) × (monitor_loop
          (record { stopped = false; lost = true } ∷ [])
          (record { stopped = false; outcome = connects } ∷ rs)
          m
        ≡ returned n)
      × (n.state ≡ connected)
      × (n.client ≡ true)
      × (n.monitor_alive ≡ false)
unfolding monitor_loop
monitor_not_restarted m rs run cl mon auto more = (
  record (after_success again) { monitor_alive = false },
  rw (run, cl, auto, more) refl,
  (restart_threads_lem joined).0,
  (restart_threads_lem joined).1,
  refl,
)
  where
    again : Manager
    again = emit on_connect (
        emit (on_reconnect (m.reconnect_count + 1) m.config.initial_backoff_ms)
          (record (drop_connection m) {
            reconnect_count = m.reconnect_count + 1;
            client = true;
            running = true;
          }))

    joined : Manager
    joined = record (set_state connected again) { reconnect_count = 0 }

-- The destructor of a stopped manager ends the program if the monitor is joinable.
destroy-none : (n : Manager) → n.should_run ≡ false → n.monitor_joinable ≡ true → destroy n ≡ none
unfolding destroy stop
destroy-none n off joinable = ground (arith, off, joinable)

-- When `stop()` is called while the reconnect loop sleeps and the attempt that follows, which is
-- within the limit, connects, the loop starts a monitor thread all the same and sets Connected; a
-- later `stop()` returns at once and leaves that thread joinable, so that the destructor ends the
-- program.
pub stop_during_reconnect :
    (m : Manager) (rs : List Round)
    → m.should_run ≡ true
    → exceeded (record m { reconnect_count = m.reconnect_count + 1 }) ≡ false
    → (n : Manager) × (reconnect_loop (record { stopped = true; outcome = connects } ∷ rs) m
        ≡ returned n)
      × (n.state ≡ connected)
      × (n.should_run ≡ false)
      × (n.monitor_joinable ≡ true)
      × (stop n ≡ n)
      × (destroy n ≡ none)
unfolding reconnect_loop stop
stop_during_reconnect m rs run more = (
  after_success again,
  rw (run, more) refl,
  (restart_threads_lem joined).0,
  (restart_threads_lem joined).7,
  (restart_threads_lem joined).4,
  rw ((restart_threads_lem joined).7) refl,
  destroy-none (after_success again) ((restart_threads_lem joined).7)
      ((restart_threads_lem joined).4),
)
  where
    again : Manager
    again = emit on_connect (
        emit (on_reconnect (m.reconnect_count + 1) m.config.initial_backoff_ms) (record m {
          state = closing;
          should_run = false;
          reconnect_count = m.reconnect_count + 1;
          client = true;
          running = true;
        }))

    joined : Manager
    joined = record (set_state connected again) { reconnect_count = 0 }
