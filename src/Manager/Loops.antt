-- ===== src/Manager/Loops.antt =====
-- The threads of include/connection_manager.h: `reconnect_loop`, `monitor_loop`, `heartbeat_loop`.
use c_web_socket_client_with.Prelude.{
  ℕ, ◌+◌, ◌*◌, ◌/◌, ◌^◌, Bool, true, false, not, Option, none, some, List, [], ◌∷◌, ◌&&◌, ◌||◌, ltb,
  if◌then◌else◌, min,
}
use c_web_socket_client_with.Manager.{
  ConnectionConfig, Manager, set_state, emit, Outcome, try_connect, stop_requested,
  is_connected_state, disconnected, connected, reconnecting, on_disconnect, on_reconnect,
}

-- `static_cast<uint32_t>(backoff_ms * config_.backoff_multiplier)`: undefined out of range.
unfoldable pub scaled_backoff : ConnectionConfig → ℕ → Option ℕ
scaled_backoff c b =
    let x = b * c.multiplier_num / c.multiplier_den in if ltb x (2 ^ 32) then some x else none

-- What happens while `reconnect_loop` sleeps and then tries: whether another thread calls `stop()`,
-- and how the attempt ends.
pub record Round : Type 0 where
  pub stopped : Bool
  pub outcome : Outcome

-- How a loop ends: it returns; it is in its next round with this backoff when the given rounds run
-- out; a conversion is undefined.
pub data Ended : Type 0 where
  returned : Manager → Ended
  waiting : Manager → (backoff_ms : ℕ) → Ended
  undefined : Ended

abbrev pub with_value : Option ℕ → (ℕ → Ended) → Ended
with_value none f = undefined
with_value (some x) f = f x

-- The threads that `reconnect_loop` starts after a success, if they are not joinable.
unfoldable pub restart_threads : Manager → Manager
restart_threads m =
    let h =
      if m.config.heartbeat_enabled && not m.heartbeat_joinable
      then record m { heartbeat_joinable = true; heartbeat_alive = true }
      else m in
    if not h.monitor_joinable then record h { monitor_joinable = true; monitor_alive = true } else h

-- The test for too many attempts, after the count has gone up.
abbrev pub exceeded : Manager → Bool
exceeded m =
    ltb 0 m.config.max_reconnect_tries && ltb m.config.max_reconnect_tries m.reconnect_count

abbrev pub give_up : Manager → Manager
give_up m = emit (on_disconnect "max retries exceeded") (set_state disconnected m)

abbrev pub after_success : Manager → Manager
after_success m = restart_threads (record (set_state connected m) { reconnect_count = 0 })

-- `while (should_run_)` of `reconnect_loop`.
unfoldable pub reconnect_rounds : List Round → ℕ → Manager → Ended
unfolding try_connect restart_threads scaled_backoff
reconnect_rounds [] b m = if m.should_run then waiting m b else returned m
reconnect_rounds (r ∷ rs) b m =
    let n = record m { reconnect_count = m.reconnect_count + 1 } in
    let slept = emit (on_reconnect n.reconnect_count b) n in
    let (ok, t) = try_connect r.outcome (if r.stopped then stop_requested slept else slept) in
    let again =
      with_value (scaled_backoff t.config b)
        (λ x. reconnect_rounds rs (min x t.config.max_backoff_ms) t) in
    if not m.should_run
    then returned m
    else if exceeded n
    then returned (give_up n)
    else if ok
    then returned (after_success t)
    else again

unfoldable pub reconnect_loop : List Round → Manager → Ended
unfolding reconnect_rounds
reconnect_loop rs m = reconnect_rounds rs m.config.initial_backoff_ms m

-- One sleep of `monitor_loop`: whether another thread calls `stop()`, and whether the client's
-- receiver has ended.
pub record Poll : Type 0 where
  pub stopped : Bool
  pub lost : Bool

abbrev pub sleep_monitor : Poll → Manager → Manager
sleep_monitor p m =
    let n = if p.stopped then stop_requested m else m in
    if p.lost then record n { running = false } else n

-- What `monitor_loop` does about a lost connection, up to `reconnect_loop`.
abbrev pub drop_connection : Manager → Manager
drop_connection m = record (emit (on_disconnect "connection lost") (set_state reconnecting m)) {
  client = false;
  running = false;
}

-- The thread's function has returned.
abbrev pub monitor_ended : Ended → Ended
monitor_ended (returned m) = returned (record m { monitor_alive = false })
monitor_ended e = e

unfoldable pub monitor_loop : List Poll → List Round → Manager → Ended
unfolding reconnect_loop
monitor_loop [] rs m = if m.should_run then waiting m 0 else monitor_ended (returned m)
monitor_loop (p ∷ ps) rs m =
    let n = sleep_monitor p m in
    let again = monitor_loop ps rs n in
    let lost = drop_connection n in
    if not m.should_run
    then monitor_ended (returned m)
    else if not n.should_run
    then monitor_ended (returned n)
    else if n.client && not n.running
    then monitor_ended (
        if n.config.auto_reconnect
        then reconnect_loop rs lost
        else returned (set_state disconnected lost))
    else again

-- One round of `heartbeat_loop`: its sleep, and whether the ping is sent.
pub record Beat : Type 0 where
  pub stopped : Bool
  pub lost : Bool
  pub ping_throws : Bool

-- `heartbeat_loop`: the pings sent, and whether the function has returned.
unfoldable pub heartbeat_loop : List Beat → Manager → ℕ × Bool
heartbeat_loop [] m = (0, not (m.should_run && is_connected_state m.state))
heartbeat_loop (b ∷ bs) m =
    let n = sleep_monitor (record { stopped = b.stopped; lost = b.lost }) m in
    let again = heartbeat_loop bs n in
    if not (m.should_run && is_connected_state m.state)
    then (0, true)
    else if not n.should_run
    then (0, true)
    else if not n.client || not n.running
    then (0, true)
    else if b.ping_throws
    then (0, true)
    else (again.0 + 1, again.1)
