-- ===== src/Manager/Threads/Equations.antt =====
-- What a round of `reconnect_loop` of include/connection_manager.h does, branch by branch.
use c_web_socket_client_with.Prelude.{
  ◌≡◌, refl, true, false, not, ◌+◌, ℕ, List, [], ◌∷◌, inl, inr, arith, min, if◌then◌else◌, ◌⊎◌,
}
use c_web_socket_client_with.Manager.{
  Event, on_connect, on_reconnect, Manager, emit, Outcome, connects, connect_throws,
  callback_throws,
}
use c_web_socket_client_with.Manager.Loops.{
  Round, Ended, with_value, give_up, after_success, returned, waiting, restart_threads,
  scaled_backoff, reconnect_rounds,
}
use c_web_socket_client_with.Manager.Threads.{exceeds}

-- How an attempt ends.
pub Outcome-cases : (o : Outcome) → (o ≡ connects) ⊎ ((o ≡ connect_throws) ⊎ (o ≡ callback_throws))
Outcome-cases connects = inl refl
Outcome-cases connect_throws = inr (inl refl)
Outcome-cases callback_throws = inr (inr refl)

-- The manager in a round, after its call of `on_reconnect_`.
abbrev pub counted : ℕ → Manager → Manager
counted b m =
    emit (on_reconnect (m.reconnect_count + 1) b)
      (record m { reconnect_count = m.reconnect_count + 1 })

module _ (r : Round) (rs : List Round) (b : ℕ) (m : Manager) where
  pub round_stopped : m.should_run ≡ false → reconnect_rounds (r ∷ rs) b m ≡ returned m
  unfolding reconnect_rounds
  round_stopped h = rw h refl

  pub round_exceeds :
      m.should_run ≡ true
      → exceeds m.config (m.reconnect_count + 1) ≡ true
      → reconnect_rounds (r ∷ rs) b m
        ≡ returned (give_up (record m { reconnect_count = m.reconnect_count + 1 }))
  unfolding reconnect_rounds
  round_exceeds h x = rw (h, x) refl

  pub round_connects :
      m.should_run ≡ true
      → exceeds m.config (m.reconnect_count + 1) ≡ false
      → r.stopped ≡ false
      → r.outcome ≡ connects
      → reconnect_rounds (r ∷ rs) b m
        ≡ returned (
            after_success
              (emit on_connect (record (counted b m) { client = true; running = true })))
  unfolding reconnect_rounds
  round_connects h x u o = rw (h, x, u, o) refl

  -- The next round, with the calls of callbacks `es`.
  abbrev pub again : List Event → Ended
  again es = with_value (scaled_backoff m.config b) (λ x.
      reconnect_rounds rs (min x m.config.max_backoff_ms)
        (record (counted b m) { client = false; running = false; events = es }))

  pub round_throws :
      m.should_run ≡ true
      → exceeds m.config (m.reconnect_count + 1) ≡ false
      → r.stopped ≡ false
      → r.outcome ≡ connect_throws
      → reconnect_rounds (r ∷ rs) b m ≡ again (counted b m).events
  unfolding reconnect_rounds
  round_throws h x u o = rw (h, x, u, o) refl

  pub round_callback_throws :
      m.should_run ≡ true
      → exceeds m.config (m.reconnect_count + 1) ≡ false
      → r.stopped ≡ false
      → r.outcome ≡ callback_throws
      → reconnect_rounds (r ∷ rs) b m ≡ again (on_connect ∷ (counted b m).events)
  unfolding reconnect_rounds
  round_callback_throws h x u o = rw (h, x, u, o) refl

pub last_stopped :
    (b : ℕ) (m : Manager) → m.should_run ≡ false → reconnect_rounds [] b m ≡ returned m
unfolding reconnect_rounds
last_stopped b m h = rw h refl

pub last_waits : (b : ℕ) (m : Manager) → m.should_run ≡ true → reconnect_rounds [] b m ≡ waiting m b
unfolding reconnect_rounds
last_waits b m h = rw h refl

abbrev pub with_heartbeat : Manager → Manager
with_heartbeat m = record m { heartbeat_joinable = true; heartbeat_alive = true }

abbrev pub with_monitor : Manager → Manager
with_monitor m =
    if not m.monitor_joinable then record m { monitor_joinable = true; monitor_alive = true } else m

pub restart_heartbeat :
    (m : Manager)
    → m.config.heartbeat_enabled ≡ true
    → m.heartbeat_joinable ≡ false
    → restart_threads m ≡ with_monitor (with_heartbeat m)
unfolding restart_threads
restart_heartbeat m e j = rw (e, j) refl

pub restart_disabled :
    (m : Manager) → m.config.heartbeat_enabled ≡ false → restart_threads m ≡ with_monitor m
unfolding restart_threads
restart_disabled m e = rw e refl

pub restart_joinable :
    (m : Manager) → m.heartbeat_joinable ≡ true → restart_threads m ≡ with_monitor m
unfolding restart_threads
restart_joinable m j = ground arith

pub monitor_started :
    (m : Manager)
    → m.monitor_joinable ≡ false
    → with_monitor m ≡ record m { monitor_joinable = true; monitor_alive = true }
monitor_started m j = rw j refl

pub monitor_kept : (m : Manager) → m.monitor_joinable ≡ true → with_monitor m ≡ m
monitor_kept m j = rw j refl
