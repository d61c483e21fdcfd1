-- ===== src/Manager/Retries.antt =====
-- How `reconnect_loop` of include/connection_manager.h ends.
use native.Mathlib.Nat.{add-zero, zero-add}
use native.Mathlib.Numerals.{add-one}
use c_web_socket_client_with.Prelude.{
  ℕ, zero, suc, ◌+◌, ◌≤◌, ◌<◌, ◌≡◌, refl, ap, sym, ◌∙◌, ◌⊎◌, inl, inr, true, false, List, [], ◌∷◌,
  ◌++◌, ◌&&◌, ltb, arith, length, All, lt→ltb,
}
use c_web_socket_client_with.Manager.{
  ConnectionConfig, disconnected, connected, Event, on_connect, on_disconnect, on_reconnect,
  Manager, connects, connect_throws,
}
use c_web_socket_client_with.Manager.Loops.{
  Round, returned, restart_threads, give_up, after_success, reconnect_rounds, reconnect_loop,
}
use c_web_socket_client_with.Manager.Backoff.{IsTame, backoff, scaled_backoff-defined}

-- An attempt that fails to connect, with no call of `stop()` meanwhile.
abbrev pub Fails : Round → Type 0
Fails r = (r.stopped ≡ false) × (r.outcome ≡ connect_throws)

-- `m` after `j` attempts without a connection.
abbrev pub tried : Manager → ℕ → List Event → Manager
tried m j events = record m {
  reconnect_count = j;
  client = false;
  running = false;
  events = events;
}

-- The calls of `on_reconnect_` in attempts `j + 1` to `j + n`, put in front of `events`.
abbrev pub attempts : ConnectionConfig → ℕ → ℕ → List Event → List Event
attempts c j zero events = events
attempts c j (suc n) events = attempts c (suc j) n (on_reconnect (suc j) (backoff c j) ∷ events)

-- One more attempt is allowed after `j` of them.
abbrev pub Allowed : ConnectionConfig → ℕ → Type 0
Allowed c n = (c.max_reconnect_tries ≡ 0) ⊎ (n ≤ c.max_reconnect_tries)

within :
    (c : ConnectionConfig) (j : ℕ)
    → Allowed c (suc j)
    → (ltb 0 c.max_reconnect_tries && ltb c.max_reconnect_tries (suc j)) ≡ false
within c j (inl unlimited) = ground arith
within c j (inr few) = ground arith

Allowed-le : (c : ConnectionConfig) {i j : ℕ} → i ≤ j → Allowed c j → Allowed c i
Allowed-le c h (inl unlimited) = inl unlimited
Allowed-le c h (inr few) = inr (omega arith)

-- Starting threads changes nothing else, and leaves both threads joinable.
pub restart_threads_lem :
    (m : Manager)
    → ((restart_threads m).state ≡ m.state)
      × ((restart_threads m).client ≡ m.client)
      × ((restart_threads m).running ≡ m.running)
      × ((restart_threads m).reconnect_count ≡ m.reconnect_count)
      × ((restart_threads m).monitor_joinable ≡ true)
      × (m.config.heartbeat_enabled ≡ true → (restart_threads m).heartbeat_joinable ≡ true)
      × ((restart_threads m).events ≡ m.events)
      × ((restart_threads m).should_run ≡ m.should_run)
      × (m.monitor_joinable ≡ true → (restart_threads m).monitor_alive ≡ m.monitor_alive)
unfolding restart_threads
restart_threads_lem m = ground arith

module _ (m : Manager) (run : m.should_run ≡ true) (tame : IsTame m.config) where
  one_failure :
      (r : Round) (rest : List Round) (j : ℕ) (events : List Event)
      → Fails r
      → Allowed m.config (suc j)
      → reconnect_rounds (r ∷ rest) (backoff m.config j) (tried m j events)
        ≡ reconnect_rounds rest
            (backoff m.config (suc j))
            (tried m (suc j) (on_reconnect (suc j) (backoff m.config j) ∷ events))
  unfolding reconnect_rounds
  one_failure r rest j events f more =
      rw (add-one, run, within m.config j more, f.1, f.0, scaled_backoff-defined m.config tame j)

  failing_rounds :
      (fs rest : List Round) (j : ℕ) (events : List Event)
      → All Fails fs
      → Allowed m.config (j + length fs)
      → reconnect_rounds (fs ++ rest) (backoff m.config j) (tried m j events)
        ≡ reconnect_rounds rest
            (backoff m.config (j + length fs))
            (tried m (j + length fs) (attempts m.config j (length fs) events))
  failing_rounds [] rest j events f more =
      ap (λ i. reconnect_rounds rest (backoff m.config i) (tried m i events)) (sym (add-zero j))
  failing_rounds (r ∷ fs) rest j events f more =
      one_failure r (fs ++ rest) j events f.0 (Allowed-le m.config (omega arith) more)
      ∙ failing_rounds fs rest (suc j) (on_reconnect (suc j) (backoff m.config j) ∷ events) f.1
          (Allowed-le m.config (omega arith) more)
      ∙ ap
          (λ i.
            reconnect_rounds rest (backoff m.config i)
              (tried m i (attempts m.config j (length (r ∷ fs)) events)))
          shift
    where
      shift : suc j + length fs ≡ j + suc (length fs)
      shift = omega arith

  untried : m.reconnect_count ≡ 0 → m.client ≡ false → m.running ≡ false → m ≡ tried m 0 m.events
  untried z c r = λ i. record m { reconnect_count = z i; client = c i; running = r i }

  last_round :
      (r : Round) (rest : List Round) (j b : ℕ) (events : List Event)
      → 0 < m.config.max_reconnect_tries
      → m.config.max_reconnect_tries ≤ j
      → reconnect_rounds (r ∷ rest) b (tried m j events)
        ≡ returned (give_up (tried m (j + 1) events))
  unfolding reconnect_rounds
  last_round r rest j b events pos many = rw (
    run,
    lt→ltb 0 m.config.max_reconnect_tries pos,
    lt→ltb m.config.max_reconnect_tries (j + 1) (omega arith),
  )

  succeeded : ℕ → List Event → Manager
  succeeded j events = record m {
    reconnect_count = suc j;
    client = true;
    running = true;
    events = on_connect ∷ on_reconnect (suc j) (backoff m.config j) ∷ events;
  }

  success_round :
      (r : Round) (rest : List Round) (j : ℕ) (events : List Event)
      → r.stopped ≡ false
      → r.outcome ≡ connects
      → Allowed m.config (suc j)
      → reconnect_rounds (r ∷ rest) (backoff m.config j) (tried m j events)
        ≡ returned (after_success (succeeded j events))
  unfolding reconnect_rounds succeeded
  success_round r rest j events st ok more = rw (add-one, run, within m.config j more, ok, st)

  -- With a limit of `n` attempts, none of which connects and during none of which `stop()` is
  -- called, the loop makes exactly `n` of them, each announced with its backoff, then reports "max
  -- retries exceeded" and ends in Disconnected; the count of attempts stays above the limit and
  -- `should_run_` stays set. The loop starts with the count at 0 and without a client, and no
  -- backoff leaves the range of 32 bits.
  pub reconnect_loop-gives_up :
      (fs : List Round) (last : Round)
      → 0 < m.config.max_reconnect_tries
      → length fs ≡ m.config.max_reconnect_tries
      → All Fails fs
      → m.reconnect_count ≡ 0
      → m.client ≡ false
      → m.running ≡ false
      → (n : Manager) × (reconnect_loop (fs ++ last ∷ []) m ≡ returned n)
        × (n.state ≡ disconnected)
        × (n.client ≡ false)
        × (n.should_run ≡ true)
        × (n.reconnect_count ≡ m.config.max_reconnect_tries + 1)
        × (n.events
            ≡ on_disconnect "max retries exceeded"
              ∷ attempts m.config 0 m.config.max_reconnect_tries m.events)
  unfolding reconnect_loop
  reconnect_loop-gives_up fs last pos len f none_yet no_client not_running = (
    give_up (tried m (length fs + 1) (attempts m.config 0 (length fs) m.events)),
    ap (reconnect_rounds (fs ++ last ∷ []) m.config.initial_backoff_ms)
          (untried none_yet no_client not_running)
        ∙ failing_rounds fs (last ∷ []) 0 m.events f (inr (omega arith))
        ∙ rw zero-add (last_round last [] (length fs) _ _ pos (omega arith)),
    refl,
    refl,
    run,
    omega arith,
    ap (λ n. on_disconnect "max retries exceeded" ∷ attempts m.config 0 n m.events) len,
  )

  -- If the first `k` attempts fail and the next one connects, within the limit and without a call
  -- of `stop()`, the loop ends in Connected with the count reset, each attempt having been
  -- announced with its backoff; a monitor and, if enabled, a heartbeat thread are joinable. The
  -- loop starts with the count at 0 and without a client, and no backoff leaves the range of 32
  -- bits.
  pub reconnect_loop-recovers :
      (fs : List Round) (r : Round) (rest : List Round)
      → All Fails fs
      → r.stopped ≡ false
      → r.outcome ≡ connects
      → Allowed m.config (suc (length fs))
      → m.reconnect_count ≡ 0
      → m.client ≡ false
      → m.running ≡ false
      → (n : Manager) × (reconnect_loop (fs ++ r ∷ rest) m ≡ returned n)
        × (n.state ≡ connected)
        × (n.client ≡ true)
        × (n.running ≡ true)
        × (n.reconnect_count ≡ 0)
        × (n.monitor_joinable ≡ true)
        × (m.config.heartbeat_enabled ≡ true → n.heartbeat_joinable ≡ true)
        × (n.events
            ≡ on_connect
              ∷ on_reconnect (suc (length fs)) (backoff m.config (length fs))
              ∷ attempts m.config 0 (length fs) m.events)
  unfolding reconnect_loop succeeded
  reconnect_loop-recovers fs r rest f st ok more none_yet no_client not_running = (
    after_success (succeeded (length fs) (attempts m.config 0 (length fs) m.events)),
    ap (reconnect_rounds (fs ++ r ∷ rest) m.config.initial_backoff_ms)
          (untried none_yet no_client not_running)
        ∙ failing_rounds fs (r ∷ rest) 0 m.events f (Allowed-le m.config (omega arith) more)
        ∙ rw zero-add (success_round r rest (length fs) _ st ok more),
    (restart_threads_lem joined).0,
    (restart_threads_lem joined).1,
    (restart_threads_lem joined).2,
    (restart_threads_lem joined).3,
    (restart_threads_lem joined).4,
    (restart_threads_lem joined).5,
    (restart_threads_lem joined).6,
  )
    where
      joined : Manager
      joined = record (succeeded (length fs) (attempts m.config 0 (length fs) m.events)) {
        state = connected;
        reconnect_count = 0;
      }
