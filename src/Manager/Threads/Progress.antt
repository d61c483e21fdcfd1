-- ===== src/Manager/Threads/Progress.antt =====
-- A thread of a ConnectionManager that has not ended can go on, unless it waits in a join; and how
-- `stop()` ends.
use c_web_socket_client_with.Prelude.{
  ◌≡◌, refl, sym, subst, true, false, ◌+◌, inl, inr, Bool-cases, Option-cases, ◌≤◌, ℕ, ◌⊎◌,
}
use c_web_socket_client_with.Manager.{ConnectionConfig}
use c_web_socket_client_with.Manager.Threads.Ending.{IsHalted, Step-left, stop_bounded}
use c_web_socket_client_with.Manager.{is_connected_state}
use c_web_socket_client_with.Manager.Threads.{
  Owner, Worker, Heartbeat, System, owns, heartbeat_alive, worker_alive, exceeds, constructed,
}
use c_web_socket_client_with.Manager.Threads.Loops.{WorkerStep, HeartbeatStep}
use c_web_socket_client_with.Manager.Threads.Steps.{
  OwnerStep, Step, own, beat, monitor, reconnect, Steps, done, step, drop,
}
use c_web_socket_client_with.Manager.Threads.Joins.{has_halted, is_stopped, reachable-StopInv}

-- Some step leads from the position.
abbrev WorkerGoesOn : System → Worker → Type 0
WorkerGoesOn s o = (t : System) × (p : Worker) × WorkerStep s o t p

abbrev HeartbeatGoesOn : System → Heartbeat → Type 0
HeartbeatGoesOn s o = (t : System) × (p : Heartbeat) × HeartbeatStep s o t p

abbrev OwnerGoesOn : System → Owner → Type 0
OwnerGoesOn s o = (t : System) × (p : Owner) × OwnerStep s o t p

abbrev pub GoesOn : System → Type 0
GoesOn s = (t : System) × Step s t

worker-WorkerGoesOn : (s : System) (o : Worker) → worker_alive o ≡ true → WorkerGoesOn s o
worker-WorkerGoesOn s Worker.unborn a = cc
worker-WorkerGoesOn s Worker.ended a = cc
worker-WorkerGoesOn s Worker.testing a = elim (Bool-cases s.should_run) [
  | inl e ↦ (_, _, WorkerStep.goes_on e)
  | inr e ↦ (_, _, WorkerStep.ends e)
]
worker-WorkerGoesOn s Worker.sleeping a = (_, _, WorkerStep.sleeps)
worker-WorkerGoesOn s Worker.retesting a = elim (Bool-cases s.should_run) [
  | inl e ↦ (_, _, WorkerStep.still_runs e)
  | inr e ↦ (_, _, WorkerStep.breaks e)
]
worker-WorkerGoesOn s Worker.checking a = elim (Option-cases s.client) [
  | inl e ↦ (_, _, WorkerStep.has_none e)
  | inr (n, e) ↦ (_, _, WorkerStep.has_client n e)
]
worker-WorkerGoesOn s Worker.asking a = elim (Option-cases s.client) [
  | inl e ↦ (_, _, WorkerStep.asks_null e)
  | inr (n, e) ↦ elim (Bool-cases s.running) [
    | inl f ↦ (_, _, WorkerStep.is_running n e f)
    | inr f ↦ (_, _, WorkerStep.is_lost n e f)
  ]
]
worker-WorkerGoesOn s Worker.losing a = (_, _, WorkerStep.announces)
worker-WorkerGoesOn s Worker.resetting a = elim (Bool-cases s.config.auto_reconnect) [
  | inl e ↦ (_, _, WorkerStep.resets e)
  | inr e ↦ (_, _, WorkerStep.resets_for_good e)
]
worker-WorkerGoesOn s Worker.settling a = (_, _, WorkerStep.settles)
worker-WorkerGoesOn s Worker.looping a = elim (Bool-cases s.should_run) [
  | inl e ↦ (_, _, WorkerStep.loops e)
  | inr e ↦ (_, _, WorkerStep.leaves e)
]
worker-WorkerGoesOn s Worker.counting a =
    elim (Bool-cases (exceeds s.config (s.reconnect_count + 1))) [
      | inl e ↦ (_, _, WorkerStep.counts_out e)
      | inr e ↦ (_, _, WorkerStep.counts e)
    ]
worker-WorkerGoesOn s Worker.giving_up a = (_, _, WorkerStep.gives_up)
worker-WorkerGoesOn s Worker.backing_off a = (_, _, WorkerStep.backs_off)
worker-WorkerGoesOn s Worker.making a = (_, _, WorkerStep.makes)
worker-WorkerGoesOn s Worker.connecting a = elim (Option-cases s.client) [
  | inl e ↦ (_, _, WorkerStep.connects_null e)
  | inr (n, e) ↦ (_, _, WorkerStep.connects n e)
]
worker-WorkerGoesOn s Worker.failing a = (_, _, WorkerStep.fails)
worker-WorkerGoesOn s Worker.arriving a = (_, _, WorkerStep.arrives)
worker-WorkerGoesOn s Worker.clearing a = (_, _, WorkerStep.clears)
worker-WorkerGoesOn s Worker.starting_heartbeat a = elim (Bool-cases s.heartbeat_joinable) [
  | inl e ↦ (_, _, WorkerStep.keeps_heartbeat e)
  | inr e ↦ elim (Bool-cases s.config.heartbeat_enabled) [
    | inl f ↦ (_, _, WorkerStep.starts_heartbeat f e)
    | inr f ↦ (_, _, WorkerStep.skips_heartbeat f)
  ]
]
worker-WorkerGoesOn s Worker.starting_monitor a = elim (Bool-cases s.monitor_joinable) [
  | inl e ↦ (_, _, WorkerStep.keeps_monitor e)
  | inr e ↦ (_, _, WorkerStep.starts_monitor e)
]

heartbeat-HeartbeatGoesOn :
    (s : System) (o : Heartbeat) → heartbeat_alive o ≡ true → HeartbeatGoesOn s o
heartbeat-HeartbeatGoesOn s Heartbeat.unborn a = cc
heartbeat-HeartbeatGoesOn s Heartbeat.ended a = cc
heartbeat-HeartbeatGoesOn s Heartbeat.testing a = elim (Bool-cases s.should_run) [
  | inl e ↦ (_, _, HeartbeatStep.goes_on e)
  | inr e ↦ (_, _, HeartbeatStep.ends e)
]
heartbeat-HeartbeatGoesOn s Heartbeat.testing_state a =
    elim (Bool-cases (is_connected_state s.state)) [
      | inl e ↦ (_, _, HeartbeatStep.is_connected e)
      | inr e ↦ (_, _, HeartbeatStep.is_not_connected e)
    ]
heartbeat-HeartbeatGoesOn s Heartbeat.sleeping a = (_, _, HeartbeatStep.sleeps)
heartbeat-HeartbeatGoesOn s Heartbeat.retesting a = elim (Bool-cases s.should_run) [
  | inl e ↦ (_, _, HeartbeatStep.still_runs e)
  | inr e ↦ (_, _, HeartbeatStep.breaks e)
]
heartbeat-HeartbeatGoesOn s Heartbeat.checking a = elim (Option-cases s.client) [
  | inl e ↦ (_, _, HeartbeatStep.has_none e)
  | inr (n, e) ↦ (_, _, HeartbeatStep.has_client n e)
]
heartbeat-HeartbeatGoesOn s Heartbeat.asking a = elim (Option-cases s.client) [
  | inl e ↦ (_, _, HeartbeatStep.asks_null e)
  | inr (n, e) ↦ elim (Bool-cases s.running) [
    | inl f ↦ (_, _, HeartbeatStep.is_running n e f)
    | inr f ↦ (_, _, HeartbeatStep.is_lost n e f)
  ]
]
heartbeat-HeartbeatGoesOn s Heartbeat.calling a = elim (Option-cases s.client) [
  | inl e ↦ (_, _, HeartbeatStep.calls_null e)
  | inr (n, e) ↦ (_, _, HeartbeatStep.calls n e)
]
heartbeat-HeartbeatGoesOn s (Heartbeat.sending n) a = elim (Bool-cases (owns s.client n)) [
  | inl e ↦ (_, _, HeartbeatStep.sends n e)
  | inr e ↦ (_, _, HeartbeatStep.sends_dead n e)
]

-- A thread that stands at the position makes the step.
by_monitor : (s : System) → s.crashed ≡ false → worker_alive s.monitor ≡ true → GoesOn s
by_monitor s c a = let (t, p, st) = worker-WorkerGoesOn s s.monitor a in (_, monitor c st)

by_reconnect : (s : System) → s.crashed ≡ false → worker_alive s.reconnect ≡ true → GoesOn s
by_reconnect s c a = let (t, p, st) = worker-WorkerGoesOn s s.reconnect a in (_, reconnect c st)

by_heartbeat : (s : System) → s.crashed ≡ false → heartbeat_alive s.heartbeat ≡ true → GoesOn s
by_heartbeat s c a = let (t, p, st) = heartbeat-HeartbeatGoesOn s s.heartbeat a in (_, beat c st)

by_owner : (s : System) (o : Owner) → s.crashed ≡ false → s.owner ≡ o → OwnerGoesOn s o → GoesOn s
by_owner s o c e g = let (t, p, st) = subst (OwnerGoesOn s) (sym e) g in (_, own c st)

-- `stop()` itself, or a thread that it joins, goes on.
halted-GoesOn :
    (s : System) (o : Owner)
    → s.owner ≡ o
    → s.crashed ≡ false
    → has_halted o ≡ true
    → is_stopped o ≡ false
    → GoesOn s
halted-GoesOn s Owner.testing_client e c h f = elim (Option-cases s.client) [
  | inl g ↦ by_owner s _ c e (_, _, OwnerStep.has_none g)
  | inr (n, g) ↦ by_owner s _ c e (_, _, OwnerStep.has_client n g)
]
halted-GoesOn s Owner.calling_close e c h f = elim (Option-cases s.client) [
  | inl g ↦ by_owner s _ c e (_, _, OwnerStep.closes_null g)
  | inr (n, g) ↦ by_owner s _ c e (_, _, OwnerStep.closes n g)
]
halted-GoesOn s (Owner.in_close n) e c h f = elim (Bool-cases (owns s.client n)) [
  | inl g ↦ by_owner s _ c e (_, _, OwnerStep.closed n g)
  | inr g ↦ by_owner s _ c e (_, _, OwnerStep.closes_dead n g)
]
halted-GoesOn s Owner.joining_heartbeat e c h f = elim (Bool-cases s.heartbeat_joinable) [
  | inl g ↦ elim (Bool-cases (heartbeat_alive s.heartbeat)) [
    | inl a ↦ by_heartbeat s c a
    | inr a ↦ by_owner s _ c e (_, _, OwnerStep.joins_heartbeat g a)
  ]
  | inr g ↦ by_owner s _ c e (_, _, OwnerStep.no_heartbeat g)
]
halted-GoesOn s Owner.joining_monitor e c h f = elim (Bool-cases s.monitor_joinable) [
  | inl g ↦ elim (Bool-cases (worker_alive s.monitor)) [
    | inl a ↦ by_monitor s c a
    | inr a ↦ by_owner s _ c e (_, _, OwnerStep.joins_monitor g a)
  ]
  | inr g ↦ by_owner s _ c e (_, _, OwnerStep.no_monitor g)
]
halted-GoesOn s Owner.joining_reconnect e c h f = elim (Bool-cases s.reconnect_joinable) [
  | inl g ↦ elim (Bool-cases (worker_alive s.reconnect)) [
    | inl a ↦ by_reconnect s c a
    | inr a ↦ by_owner s _ c e (_, _, OwnerStep.joins_reconnect g a)
  ]
  | inr g ↦ by_owner s _ c e (_, _, OwnerStep.no_reconnect g)
]
halted-GoesOn s Owner.finishing e c h f = by_owner s _ c e (_, _, OwnerStep.finishes)
halted-GoesOn s _ e c h f = cc

stop-GoesOn :
    (s : System)
    → s.crashed ≡ false
    → has_halted s.owner ≡ true
    → is_stopped s.owner ≡ false
    → GoesOn s
stop-GoesOn s c h f = halted-GoesOn s s.owner refl c h f

Steps-IsHalted : {s t : System} {n : ℕ} → Steps s n t → IsHalted s → IsHalted t
Steps-IsHalted done z = z
Steps-IsHalted (step st ss) z = Steps-IsHalted ss (Step-left st z).1
Steps-IsHalted (drop ss) z = Steps-IsHalted ss z

-- Once `stop()` has stored false to `should_run_`, a run of the four threads that goes on until no
-- thread can make a step has at most 22 more steps, in whatever order they run and wherever they
-- stood, and at its end `stop()` has returned or a thread has used a dead client: the threads that
-- `stop()` joins end, and they do not wait for one another. Each call of the client is taken to return.
pub stop_returns :
    (c : ConnectionConfig) (s t : System) (m n : ℕ)
    → Steps (constructed c) m s
    → has_halted s.owner ≡ true
    → Steps s n t
    → ¬ GoesOn t
    → (n ≤ 22) × ((is_stopped t.owner ≡ true) ⊎ (t.crashed ≡ true))
stop_returns c s t m n r h ss quiet = (
  stop_bounded c s t m n r h ss,
  elim (Bool-cases t.crashed) [
    | inl e ↦ inr e
    | inr e ↦ elim (Bool-cases (is_stopped t.owner)) [
      | inl f ↦ inl f
      | inr f ↦
          absurd
            (quiet (stop-GoesOn t e (Steps-IsHalted ss ((reachable-StopInv c r).halted h, h)).1 f))
    ]
  ],
)
