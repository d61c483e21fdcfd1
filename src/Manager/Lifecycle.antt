-- ===== src/Manager/Lifecycle.antt =====
-- `start()` and `stop()` of include/connection_manager.h.
use c_web_socket_client_with.Prelude.{
  ◌≡◌, refl, sym, ◌∙◌, true, false, if◌then◌else◌, Option, none, some, arith, Bool-cases, inl, inr,
}
use c_web_socket_client_with.Manager.{
  ConnectionConfig, disconnected, connected, reconnecting, closed, on_connect, Manager, Outcome,
  emit, set_state, spawn_reconnect, connects, connect_throws, callback_throws, start, stop, destroy,
}

-- No std::thread of the manager is joinable.
pub record IsJoined (m : Manager) : Type 0 where
  pub heartbeat : m.heartbeat_joinable ≡ false
  pub monitor : m.monitor_joinable ≡ false
  pub reconnect : m.reconnect_joinable ≡ false

-- What `start` leaves, for each way in which the first attempt ends.
abbrev pub Started : Outcome → ConnectionConfig → Manager → Type 0
Started connects c n =
    (n.state ≡ connected)
    × (n.client ≡ true)
    × (n.reconnect_count ≡ 0)
    × (n.monitor_alive ≡ true)
    × (n.heartbeat_joinable ≡ c.heartbeat_enabled)
    × (n.reconnect_joinable ≡ false)
Started _ c n =
    (n.client ≡ false)
    × (n.reconnect_joinable ≡ c.auto_reconnect)
    × (n.monitor_joinable ≡ false)
    × (n.heartbeat_joinable ≡ false)
    × (c.auto_reconnect ≡ true → n.state ≡ reconnecting)
    × (c.auto_reconnect ≡ false → n.state ≡ disconnected)

-- What `start` does once the first attempt has failed.
abbrev failed : Manager → Option Manager
failed n =
    if n.config.auto_reconnect
    then spawn_reconnect (set_state reconnecting n)
    else some (set_state disconnected n)

after_failure :
    (n : Manager)
    → IsJoined n
    → n.client ≡ false
    → n.should_run ≡ true
    → (p : Manager) × (failed n ≡ some p)
      × (p.should_run ≡ true)
      × Started connect_throws n.config p
after_failure n j cl run = elim (Bool-cases n.config.auto_reconnect) [
  | inl on ↦ (
    record n { state = reconnecting; reconnect_joinable = true; reconnect_alive = true },
    rw (on, j.reconnect) refl,
    run,
    (cl, sym on, j.monitor, j.heartbeat, λ a. refl, λ a. absurd cc),
  )
  | inr off ↦ (
    record n { state = disconnected },
    rw off refl,
    run,
    (cl, j.reconnect ∙ sym off, j.monitor, j.heartbeat, λ a. absurd cc, λ a. refl),
  )
]

-- From a manager without joinable threads `start` always succeeds. If the first attempt connects,
-- the state is Connected and the monitor, with the heartbeat if enabled, runs; otherwise it is
-- Reconnecting with the reconnect thread running, or Disconnected without `auto_reconnect`.
pub start-Started :
    (o : Outcome) (m : Manager)
    → IsJoined m
    → (n : Manager) × (start o m ≡ some n) × (n.should_run ≡ true) × Started o m.config n
unfolding start
start-Started connects m j = elim (Bool-cases m.config.heartbeat_enabled) [
  | inl on ↦ (
    record up {
      heartbeat_joinable = true;
      heartbeat_alive = true;
      monitor_joinable = true;
      monitor_alive = true;
    },
    rw (on, j.heartbeat, j.monitor) refl,
    refl,
    (refl, refl, refl, refl, sym on, j.reconnect),
  )
  | inr off ↦ (
    record up { monitor_joinable = true; monitor_alive = true },
    rw (off, j.monitor) refl,
    refl,
    (refl, refl, refl, refl, j.heartbeat ∙ sym off, j.reconnect),
  )
]
  where
    up : Manager
    up = emit on_connect (record m {
      state = connected;
      should_run = true;
      reconnect_count = 0;
      client = true;
      running = true;
    })
start-Started connect_throws m j =
    after_failure (record m { should_run = true; client = false; running = false })
      (record { heartbeat = j.heartbeat; monitor = j.monitor; reconnect = j.reconnect }) refl refl
start-Started callback_throws m j =
    after_failure
      (emit on_connect (record m { should_run = true; client = false; running = false }))
      (record { heartbeat = j.heartbeat; monitor = j.monitor; reconnect = j.reconnect }) refl refl

-- A second `start` that connects while the first one's monitor has not been joined ends the program.
pub start_again : (m : Manager) → m.monitor_joinable ≡ true → start connects m ≡ none
unfolding start
start_again m e = ground arith

-- `stop` on a running manager leaves Closed, with every thread joined and `should_run_` cleared; a
-- second `stop` changes nothing, and the destructor after it finds no thread to end.
pub stop_lem :
    (m : Manager)
    → m.should_run ≡ true
    → ((stop m).state ≡ closed)
      × ((stop m).should_run ≡ false)
      × ((stop m).running ≡ false)
      × IsJoined (stop m)
      × (stop (stop m) ≡ stop m)
      × (destroy (stop m) ≡ some (stop m))
unfolding stop destroy
stop_lem m e =
    rw e
      (refl, refl, refl, record { heartbeat = refl; monitor = refl; reconnect = refl }, refl, refl)
