-- ===== src/Manager/Threads/Rounds.antt =====
-- The two models of `reconnect_loop`: the function of Manager.Loops, and the steps of the reconnect
-- thread.
use c_web_socket_client_with.Prelude.{
  ◌≡◌, refl, Bool, true, false, ◌+◌, ℕ, suc, Option, none, some, List, [], ◌∷◌, inl, inr,
  Bool-cases, min, subst, sym,
}
use c_web_socket_client_with.Manager.{connected, Event, on_connect, on_reconnect, Manager, emit}
use c_web_socket_client_with.Manager.Loops.{
  Round, Ended, with_value, give_up, after_success, returned, waiting, undefined, restart_threads,
  scaled_backoff, reconnect_rounds,
}
use c_web_socket_client_with.Manager.Threads.{Worker, System, make_client, worker_alive, exceeds}
use c_web_socket_client_with.Manager.Threads
use c_web_socket_client_with.Manager.Threads.Loops.{WorkerStep}
use c_web_socket_client_with.Manager.Threads.Steps.{
  ReconnectStep, alone, ReconnectSteps, ready, then,
}
use c_web_socket_client_with.Manager.Threads.Equations.{
  Outcome-cases, counted, round_stopped, round_exceeds, round_connects, round_throws,
  round_callback_throws, last_stopped, last_waits, with_heartbeat, with_monitor, restart_heartbeat,
  restart_disabled, restart_joinable, monitor_started, monitor_kept,
}
use c_web_socket_client_with.Manager.Threads.Agree.{manager_of}

-- One more step in front.
infixr 5 ◌▸◌
abbrev ◌▸◌ :
    {s t u : System} {n : ℕ} → ReconnectStep s t → ReconnectSteps t n u → ReconnectSteps s (suc n) u
st ▸ ss = then st ss

-- The reconnect thread is at the test of its loop, with no client.
abbrev pub looping : System → System
looping s = record s { reconnect = Worker.looping; client = none; crashed = false }

-- `stop()` is not called during the rounds.
abbrev pub Unstopped : List Round → Type 0
Unstopped [] = Unit
Unstopped (r ∷ rs) = (r.stopped ≡ false) × Unstopped rs

-- If the loop returns, some steps of the reconnect thread alone lead to the same manager, with the
-- thread ended.
abbrev pub Follows : System → Ended → Type 0
Follows s (returned m) =
    (t : System) × (n : ℕ) × ReconnectSteps s n t
    × (t.reconnect ≡ Worker.ended)
    × (record m { events = []; reconnect_alive = false } ≡ manager_of t)
Follows s (waiting m b) = Unit
Follows s undefined = Unit

-- The manager that the reconnect thread sees, after the calls of callbacks `es`.
abbrev pub seen : System → List Event → Manager
seen s es = record (manager_of (looping s)) { events = es }

-- After a round without a connection; `b` says whether the client ran before it was deleted.
abbrev tried : Bool → System → System
tried b s = record s {
  reconnect_count = s.reconnect_count + 1;
  made = s.made + 1;
  running = b;
  rewritten = true;
}

give_up-Follows :
    (s : System) (es : List Event)
    → s.should_run ≡ true
    → exceeds s.config (s.reconnect_count + 1) ≡ true
    → Follows
        (looping s)
        (returned (give_up (record (seen s es) { reconnect_count = s.reconnect_count + 1 })))
give_up-Follows s es h x = (
  _,
  _,
  alone refl (WorkerStep.loops h)
      ▸ alone refl (WorkerStep.counts_out x)
      ▸ alone refl WorkerStep.gives_up
      ▸ ready,
  refl,
  refl,
)

-- Some steps, and what follows them.
after :
    (s : System) (e : Ended) {u : System} {n : ℕ} → ReconnectSteps s n u → Follows u e → Follows s e
after s e ready f = f
after s (returned m) (then {t = v} st ss) f =
    let (t, n, more, d, g) = after v (returned m) ss f in (t, _, then st more, d, g)
after s (waiting m b) (then st ss) f = tt
after s undefined (then st ss) f = tt

failure-Follows :
    (s : System) (b : Bool) (e : Ended)
    → s.should_run ≡ true
    → exceeds s.config (s.reconnect_count + 1) ≡ false
    → Follows (looping (tried b s)) e
    → Follows (looping s) e
failure-Follows s b e h x f =
    after (looping s) e
      (alone refl (WorkerStep.loops h)
        ▸ alone refl (WorkerStep.counts x)
        ▸ alone refl WorkerStep.backs_off
        ▸ alone refl WorkerStep.makes
        ▸ alone refl (WorkerStep.throws s.made b refl)
        ▸ alone refl WorkerStep.fails
        ▸ ready)
      f

-- The reconnect thread stands at the position.
abbrev at : Worker → System → System
at w s = record s { reconnect = w; crashed = false }

-- What the reconnect thread leaves at the start of the monitor, after the calls of callbacks `es`.
abbrev left : System → List Event → Manager
left s es = record (manager_of s) { events = es; reconnect_alive = true }

monitor-Follows :
    (s : System) (es : List Event)
    → Follows (at Worker.starting_monitor s) (returned (with_monitor (left s es)))
monitor-Follows s es = elim (Bool-cases s.monitor_joinable) [
  | inl j ↦
      subst (λ m. Follows (at Worker.starting_monitor s) (returned m))
        (sym (monitor_kept (left s es) j))
        (_, _, alone refl (WorkerStep.keeps_monitor j) ▸ ready, refl, refl)
  | inr j ↦
      subst (λ m. Follows (at Worker.starting_monitor s) (returned m))
        (sym (monitor_started (left s es) j))
        (_, _, alone refl (WorkerStep.starts_monitor j) ▸ ready, refl, refl)
]

restart-Follows :
    (s : System) (es : List Event)
    → Follows (at Worker.starting_heartbeat s) (returned (restart_threads (left s es)))
restart-Follows s es = elim (Bool-cases s.heartbeat_joinable) [
  | inl j ↦
      subst (λ m. Follows (at Worker.starting_heartbeat s) (returned m))
        (sym (restart_joinable (left s es) j))
        (after (at Worker.starting_heartbeat s) (returned (with_monitor (left s es)))
          (alone refl (WorkerStep.keeps_heartbeat j) ▸ ready) (monitor-Follows s es))
  | inr j ↦ elim (Bool-cases s.config.heartbeat_enabled) [
    | inl e ↦
        subst (λ m. Follows (at Worker.starting_heartbeat s) (returned m))
          (sym (restart_heartbeat (left s es) e j))
          (after (at Worker.starting_heartbeat s)
            (returned (with_monitor (with_heartbeat (left s es))))
            (alone refl (WorkerStep.starts_heartbeat e j) ▸ ready)
            (monitor-Follows (Threads.spawn_heartbeat s) es))
    | inr e ↦
        subst (λ m. Follows (at Worker.starting_heartbeat s) (returned m))
          (sym (restart_disabled (left s es) e))
          (after (at Worker.starting_heartbeat s) (returned (with_monitor (left s es)))
            (alone refl (WorkerStep.skips_heartbeat e) ▸ ready) (monitor-Follows s es))
  ]
]

-- What a round that connects returns.
abbrev succeeded : System → ℕ → List Event → Ended
succeeded s b es = returned (
    after_success
      (emit on_connect (record (counted b (seen s es)) { client = true; running = true })))

success-Follows :
    (s : System) (b : ℕ) (es : List Event)
    → s.should_run ≡ true
    → exceeds s.config (s.reconnect_count + 1) ≡ false
    → Follows (looping s) (succeeded s b es)
success-Follows s b es h x =
    after (looping s) (succeeded s b es)
      (alone refl (WorkerStep.loops h)
        ▸ alone refl (WorkerStep.counts x)
        ▸ alone refl WorkerStep.backs_off
        ▸ alone refl WorkerStep.makes
        ▸ alone refl (WorkerStep.connects s.made refl)
        ▸ alone refl WorkerStep.arrives
        ▸ alone refl WorkerStep.clears
        ▸ ready)
      (restart-Follows
        (record (make_client s) {
          running = true;
          state = connected;
          reconnect_count = 0;
          rewritten = true;
        })
        (on_connect ∷ on_reconnect (s.reconnect_count + 1) b ∷ es))

with_value-Follows :
    (s : System) (v : Option ℕ) (f : ℕ → Ended)
    → ((x : ℕ) → Follows s (f x))
    → Follows s (with_value v f)
with_value-Follows s none f g = tt
with_value-Follows s (some x) f g = g x

-- The steps of the reconnect thread and the function `reconnect_loop` agree, from the test of its
-- loop on, whatever the backoff is and however the attempts end, while `stop()` is not called: if the
-- function returns, some steps of the thread alone lead to the manager that it returns, but for the
-- record of the callbacks, with the thread ended.
pub rounds-Follows :
    (rs : List Round) (b : ℕ) (es : List Event) (s : System)
    → Unstopped rs
    → Follows (looping s) (reconnect_rounds rs b (seen s es))
rounds-Follows [] b es s u = elim (Bool-cases s.should_run) [
  | inl h ↦ subst (Follows (looping s)) (sym (last_waits b (seen s es) h)) tt
  | inr h ↦
      subst (Follows (looping s)) (sym (last_stopped b (seen s es) h))
        (_, _, alone refl (WorkerStep.leaves h) ▸ ready, refl, refl)
]
rounds-Follows (r ∷ rs) b es s u = elim (Bool-cases s.should_run) [
  | inr h ↦
      subst (Follows (looping s)) (sym (round_stopped r rs b (seen s es) h))
        (_, _, alone refl (WorkerStep.leaves h) ▸ ready, refl, refl)
  | inl h ↦ elim (Bool-cases (exceeds s.config (s.reconnect_count + 1))) [
    | inl x ↦
        subst (Follows (looping s)) (sym (round_exceeds r rs b (seen s es) h x))
          (give_up-Follows s es h x)
    | inr x ↦ elim (Outcome-cases r.outcome) [
      | inl o ↦
          subst (Follows (looping s)) (sym (round_connects r rs b (seen s es) h x u.0 o))
            (success-Follows s b es h x)
      | inr (inl o) ↦
          subst (Follows (looping s)) (sym (round_throws r rs b (seen s es) h x u.0 o)) (
            failure-Follows s false _ h x (
              with_value-Follows (looping (tried false s)) (scaled_backoff s.config b) _ (λ y.
                rounds-Follows rs (min y s.config.max_backoff_ms)
                  (on_reconnect (s.reconnect_count + 1) b ∷ es) (tried false s) u.1)))
      | inr (inr o) ↦
          subst (Follows (looping s)) (sym (round_callback_throws r rs b (seen s es) h x u.0 o)) (
            failure-Follows s true _ h x (
              with_value-Follows (looping (tried true s)) (scaled_backoff s.config b) _ (λ y.
                rounds-Follows rs (min y s.config.max_backoff_ms)
                  (on_connect ∷ on_reconnect (s.reconnect_count + 1) b ∷ es) (tried true s) u.1)))
    ]
  ]
]
