-- ===== src/Manager/Threads/Tests.antt =====
-- Runs of the threads of a ConnectionManager.
use c_web_socket_client_with.Prelude.{
  List, [], ◌∷◌, ◌≡◌, refl, true, false, ℕ, inl, ◌⊎◌, not, ◌&&◌, ◌||◌, suc, ◌≤◌,
}
use c_web_socket_client_with.Manager.{
  ConnectionConfig, ConnectionState, Manager, default_config, connects, connect_throws,
}
use c_web_socket_client_with.Manager.Threads.{
  Owner, Worker, System, constructed, heartbeat_alive, worker_alive,
}
use c_web_socket_client_with.Manager.Threads.Loops.{WorkerStep, HeartbeatStep}
use c_web_socket_client_with.Manager.Threads.Steps.{
  OwnerStep, Step, own, beat, monitor, reconnect, Steps, done, step, drop,
}
use c_web_socket_client_with.Manager.Threads.Invariant.{writers, writers-le}
use c_web_socket_client_with.Manager.Threads.Joins.{is_idle, is_stopped, stopped_lem}
use c_web_socket_client_with.Manager.Threads.Objects.{crashed-rewritten, worker_lem}
use c_web_socket_client_with.Manager.Threads.Progress.{GoesOn, stop_returns}
use c_web_socket_client_with.Manager.Threads.Restarts.{not_restarted}
use c_web_socket_client_with.Manager.Threads.Ending.{stop_bounded}
use c_web_socket_client_with.Manager.Loops.{Round, returned, reconnect_rounds}
use c_web_socket_client_with.Manager.Threads.Rounds.{looping, seen, Follows, rounds-Follows}

abbrev local : ConnectionConfig
local = default_config "localhost" "8765"

-- One more step in front.
infixr 5 ◌▸◌
abbrev ◌▸◌ : {s t u : System} {n : ℕ} → Step s t → Steps t n u → Steps s (suc n) u
st ▸ ss = step st ss

-- A run of `n` steps from `s`, with the state that it leads to.
abbrev Run : System → ℕ → Type 0
Run s n = (t : System) × Steps s n t

-- `start()` connects, and `monitor_loop` is about to ask whether the client runs.
abbrev asked : Run (constructed local) 12
asked = (
  _,
  own refl OwnerStep.starts
      ▸ own refl OwnerStep.opens
      ▸ own refl OwnerStep.makes
      ▸ own refl (OwnerStep.connects 0 refl)
      ▸ own refl OwnerStep.arrives
      ▸ own refl OwnerStep.clears
      ▸ own refl (OwnerStep.starts_heartbeat refl)
      ▸ own refl OwnerStep.starts_monitor
      ▸ monitor refl (WorkerStep.goes_on refl)
      ▸ monitor refl WorkerStep.sleeps
      ▸ monitor refl (WorkerStep.still_runs refl)
      ▸ monitor refl (WorkerStep.has_client 0 refl)
      ▸ done,
)

-- `stop()` closes the client; `monitor_loop` takes that for a lost connection and deletes the object
-- that `close()` still uses.
abbrev closed_under_monitor : Run asked.0 9
closed_under_monitor = (
  _,
  own refl (OwnerStep.stops refl)
      ▸ own refl OwnerStep.announces
      ▸ own refl OwnerStep.halts
      ▸ own refl (OwnerStep.has_client 0 refl)
      ▸ own refl (OwnerStep.closes 0 refl)
      ▸ monitor refl (WorkerStep.is_lost 0 refl refl)
      ▸ monitor refl WorkerStep.announces
      ▸ monitor refl (WorkerStep.resets refl)
      ▸ own refl (OwnerStep.closes_dead 0 refl)
      ▸ done,
)

closed_under_monitor_crashes : closed_under_monitor.0.crashed ≡ true
closed_under_monitor_crashes = refl

-- `start()` fails to connect, `reconnect_loop` succeeds, and `stop()` clears `should_run_`.
abbrev halted : Run (constructed local) 17
halted = (
  _,
  own refl OwnerStep.starts
      ▸ own refl OwnerStep.opens
      ▸ own refl OwnerStep.makes
      ▸ own refl (OwnerStep.throws 0 false refl)
      ▸ own refl OwnerStep.fails
      ▸ own refl (OwnerStep.retries refl)
      ▸ own refl OwnerStep.starts_reconnect
      ▸ reconnect refl (WorkerStep.loops refl)
      ▸ reconnect refl (WorkerStep.counts refl)
      ▸ reconnect refl WorkerStep.backs_off
      ▸ reconnect refl WorkerStep.makes
      ▸ reconnect refl (WorkerStep.connects 1 refl)
      ▸ reconnect refl WorkerStep.arrives
      ▸ reconnect refl WorkerStep.clears
      ▸ own refl (OwnerStep.stops refl)
      ▸ own refl OwnerStep.announces
      ▸ own refl OwnerStep.halts
      ▸ done,
)

-- `stop()` finds no heartbeat or monitor to join, and `reconnect_loop` starts both.
abbrev late_start : Run halted.0 9
late_start = (
  _,
  own refl (OwnerStep.has_client 1 refl)
      ▸ own refl (OwnerStep.closes 1 refl)
      ▸ own refl (OwnerStep.closed 1 refl)
      ▸ own refl (OwnerStep.no_heartbeat refl)
      ▸ own refl (OwnerStep.no_monitor refl)
      ▸ reconnect refl (WorkerStep.starts_heartbeat refl refl)
      ▸ reconnect refl (WorkerStep.starts_monitor refl)
      ▸ own refl (OwnerStep.joins_reconnect refl refl)
      ▸ own refl OwnerStep.finishes
      ▸ done,
)

late_start_unjoined :
    (late_start.0.owner ≡ Owner.stopped)
    × (late_start.0.heartbeat_joinable ≡ true)
    × (late_start.0.monitor_joinable ≡ true)
late_start_unjoined = (refl, refl, refl)

writers-le_example : writers asked.0 ≤ 1
writers-le_example = writers-le local asked.0 12 asked.1

worker_lem_example : asked.0.crashed ≡ asked.0.crashed
worker_lem_example =
    worker_lem local asked.0 asked.0 Worker.asking Worker.testing 12 asked.1 (inl refl)
      (WorkerStep.is_running 0 refl refl)

crashed-rewritten_example : asked.0.crashed ≡ false
crashed-rewritten_example = crashed-rewritten local asked.0 12 asked.1 refl

stop_bounded_example : 9 ≤ 22
stop_bounded_example = stop_bounded local halted.0 late_start.0 17 9 halted.1 refl late_start.1

-- All that has happened since the constructor.
abbrev from_start : {s t u : System} {m n : ℕ} → Steps s m t → Steps t n u → (k : ℕ) × Steps s k u
from_start done more = (_, more)
from_start (step st ss) more = let (k, all) = from_start ss more in (_, step st all)
from_start (drop ss) more = let (k, all) = from_start ss more in (k, drop all)

-- `stop()` clears `should_run_` while the heartbeat and the monitor run.
abbrev halting : Run asked.0 3
halting = (
  _,
  own refl (OwnerStep.stops refl) ▸ own refl OwnerStep.announces ▸ own refl OwnerStep.halts ▸ done,
)

-- Both threads end, and `stop()` joins them and returns.
abbrev stopped : Run halting.0 10
stopped = (
  _,
  monitor refl (WorkerStep.is_running 0 refl refl)
      ▸ monitor refl (WorkerStep.ends refl)
      ▸ own refl (OwnerStep.has_client 0 refl)
      ▸ own refl (OwnerStep.closes 0 refl)
      ▸ beat refl (HeartbeatStep.ends refl)
      ▸ own refl (OwnerStep.closed 0 refl)
      ▸ own refl (OwnerStep.joins_heartbeat refl refl)
      ▸ own refl (OwnerStep.joins_monitor refl refl)
      ▸ own refl (OwnerStep.no_reconnect refl)
      ▸ own refl OwnerStep.finishes
      ▸ done,
)

abbrev to_halting : (k : ℕ) × Steps (constructed local) k halting.0
to_halting = from_start asked.1 halting.1

abbrev to_stopped : (k : ℕ) × Steps (constructed local) k stopped.0
to_stopped = from_start to_halting.1 stopped.1

stopped_lem_example :
    (stopped.0.state ≡ ConnectionState.closed)
    × ((worker_alive stopped.0.reconnect || stopped.0.reconnect_joinable) ≡ false)
    × (is_idle stopped.0.monitor ≡ true)
    × (((stopped.0.heartbeat_joinable || stopped.0.monitor_joinable) && not stopped.0.late) ≡ false)
    × (((heartbeat_alive stopped.0.heartbeat || worker_alive stopped.0.monitor)
          && not stopped.0.late)
        ≡ false)
stopped_lem_example = stopped_lem local stopped.0 to_stopped.0 to_stopped.1 refl

-- No thread can make a step.
stopped_quiet : ¬ GoesOn stopped.0
stopped_quiet (t, own c st) = elim st [ ]
stopped_quiet (t, beat c st) = elim st [ ]
stopped_quiet (t, monitor c st) = elim st [ ]
stopped_quiet (t, reconnect c st) = elim st [ ]

stop_returns_example :
    (10 ≤ 22) × ((is_stopped stopped.0.owner ≡ true) ⊎ (stopped.0.crashed ≡ true))
stop_returns_example =
    stop_returns local halting.0 stopped.0 to_halting.0 10 to_halting.1 refl stopped.1 stopped_quiet

-- `start()` fails to connect, and the reconnect thread runs.
abbrev retrying : Run (constructed local) 7
retrying = (
  _,
  own refl OwnerStep.starts
      ▸ own refl OwnerStep.opens
      ▸ own refl OwnerStep.makes
      ▸ own refl (OwnerStep.throws 0 false refl)
      ▸ own refl OwnerStep.fails
      ▸ own refl (OwnerStep.retries refl)
      ▸ own refl OwnerStep.starts_reconnect
      ▸ done,
)

-- The second attempt connects.
abbrev rounds : List Round
rounds =
    record { stopped = false; outcome = connect_throws }
    ∷ record { stopped = false; outcome = connects }
    ∷ []

rounds-Follows_example :
    Follows (looping retrying.0) (reconnect_rounds rounds 100 (seen retrying.0 []))
rounds-Follows_example = rounds-Follows rounds 100 [] retrying.0 ((refl, (refl, tt)))

-- There the function returns, after both rounds.
rounds_return :
    (m : Manager) × (reconnect_rounds rounds 100 (seen retrying.0 []) ≡ returned m)
    × (m.state ≡ ConnectionState.connected)
    × (m.reconnect_count ≡ 0)
unfolding reconnect_rounds
rounds_return = (_, refl, refl, refl)

-- The connection is lost: the heartbeat ends, and the monitor connects again and ends.
abbrev reconnected : Run asked.0 14
reconnected = (
  _,
  drop (
      beat refl (HeartbeatStep.goes_on refl)
      ▸ monitor refl (WorkerStep.is_lost 0 refl refl)
      ▸ monitor refl WorkerStep.announces
      ▸ beat refl (HeartbeatStep.is_not_connected refl)
      ▸ monitor refl (WorkerStep.resets refl)
      ▸ monitor refl (WorkerStep.loops refl)
      ▸ monitor refl (WorkerStep.counts refl)
      ▸ monitor refl WorkerStep.backs_off
      ▸ monitor refl WorkerStep.makes
      ▸ monitor refl (WorkerStep.connects 1 refl)
      ▸ monitor refl WorkerStep.arrives
      ▸ monitor refl WorkerStep.clears
      ▸ monitor refl (WorkerStep.keeps_heartbeat refl)
      ▸ monitor refl (WorkerStep.keeps_monitor refl)
      ▸ done),
)

-- The caller fetches the new client.
abbrev fetched : Run reconnected.0 1
fetched = (_, own refl (OwnerStep.gets_client 1 refl) ▸ done)

not_restarted_example :
    (worker_alive fetched.0.monitor ≡ false)
    × (((reconnected.0.heartbeat_joinable && not (heartbeat_alive reconnected.0.heartbeat))
          && heartbeat_alive fetched.0.heartbeat)
        ≡ false)
not_restarted_example =
    let (m, ss) = from_start asked.1 reconnected.1 in
    not_restarted local reconnected.0 fetched.0 m 1 ss refl refl refl fetched.1 refl
