-- ===== src/Program/Wait.antt =====
-- How long `main` of src/main.cpp waits for the connection manager.
use c_web_socket_client_with.Prelude.{
  ℕ, zero, suc, ◌+◌, ◌*◌, ◌≤◌, ◌<◌, ◌≡◌, refl, ap, ◌∙◌, ◌↔◌, true, false, some, List, [], ◌∷◌, ◌++◌,
  arith, leb, All, length, if◌then◌else◌, Bool-cases, inl, inr,
}
use native.Mathlib.Nat.{add-zero, zero-add}
use c_web_socket_client_with.Args.{CliArgs}
use c_web_socket_client_with.Manager.{
  ConnectionConfig, Manager, Event, on_connect, on_disconnect, on_reconnect, connects,
  connect_throws, new, start, is_connected, is_connected_state, reconnecting,
}
use c_web_socket_client_with.Manager.Loops.{Round, returned, reconnect_loop}
use c_web_socket_client_with.Manager.Backoff.{backoff}
use c_web_socket_client_with.Manager.Retries.{Fails, attempts, reconnect_loop-recovers}
use c_web_socket_client_with.Program.{manager_config, await_connected}

-- The time that `reconnect_loop` has slept, in milliseconds, by its calls of `on_reconnect_`.
abbrev pub slept : List Event → ℕ
slept [] = 0
slept (on_reconnect attempt backoff_ms ∷ events) = backoff_ms + slept events
slept (on_connect ∷ events) = slept events
slept (on_disconnect reason ∷ events) = slept events

total : ConnectionConfig → ℕ → ℕ → ℕ
total c j zero = 0
total c j (suc n) = backoff c j + total c (suc j) n

slept-attempts :
    (c : ConnectionConfig) (j n : ℕ) (events : List Event)
    → slept (attempts c j n events) ≡ total c j n + slept events
unfolding total
slept-attempts c j zero events = omega arith
slept-attempts c j (suc n) events =
    slept-attempts c (suc j) n (on_reconnect (suc j) (backoff c j) ∷ events) ∙ omega arith

-- The manager as the main thread sees it: it is `n` once the sleeps of the loop that ended in `n` are
-- over, the attempts themselves taking no time.
abbrev pub recovers : Manager → ℕ → Manager → Manager
recovers n i m = if leb (slept n.events) (100 * (i + 1)) then n else m

await_connected_lem :
    (n : Manager) (k i : ℕ) (during : ℕ → Manager → Manager)
    → is_connected n ≡ true
    → await_connected k i during n ≡ n
unfolding await_connected
await_connected_lem n zero i during h = refl
await_connected_lem n (suc k) i during h = rw h refl

-- From a round that comes before the recovery.
await-recovers :
    (n m : Manager) (k i : ℕ)
    → is_connected n ≡ true
    → is_connected m ≡ false
    → 100 * i < slept n.events
    → (is_connected (await_connected k i (recovers n) m) ≡ true) ↔ (slept n.events ≤ 100 * (i + k))
unfolding await_connected
await-recovers n m zero i on off late =
    (λ e. absurd cc (e, off), λ h. absurd omega (arith, h, late))
await-recovers n m (suc k) i on off late =
    elim (Bool-cases (leb (slept n.events) (100 * (i + 1)))) [
      | inl now ↦
          rw (off, now, await_connected_lem n k (i + 1) (recovers n) on)
            (λ e. ground (arith, now), λ h. on)
      | inr later ↦
          let rest = await-recovers n m k (i + 1) on off (ground (arith, later)) in
          rw (off, later) (λ e. omega (arith, (rest.0) e), λ h. (rest.1) (omega (arith, h)))
    ]

-- 100, 200, 400, 800, 1600 and 3200 ms before the sixth retry, and 6400 more before the seventh.
total_iff : (args : CliArgs) (k : ℕ) → (total (manager_config args) 0 (suc k) ≤ 10000) ↔ (k ≤ 5)
unfolding total
total_iff args zero = omega arith
total_iff args (suc zero) = omega arith
total_iff args (suc (suc zero)) = omega arith
total_iff args (suc (suc (suc zero))) = omega arith
total_iff args (suc (suc (suc (suc zero)))) = omega arith
total_iff args (suc (suc (suc (suc (suc zero))))) = omega arith
total_iff args (suc (suc (suc (suc (suc (suc k)))))) = omega arith

total_pos : (args : CliArgs) (k : ℕ) → 0 < total (manager_config args) 0 (suc k)
unfolding total
total_pos args k = omega arith

total-snoc : (c : ConnectionConfig) (j k : ℕ) → total c j (suc k) ≡ total c j k + backoff c (j + k)
unfolding total
total-snoc c j zero = omega (arith, ap (backoff c) (add-zero j))
total-snoc c j (suc k) = omega (arith, total-snoc c (suc j) k, ap (backoff c) shift)
  where
    shift : suc j + k ≡ j + suc k
    shift = omega arith

-- The manager of `main` after a first attempt that failed.
abbrev pub trying : CliArgs → Manager
trying args = record (new (manager_config args)) {
  state = reconnecting;
  should_run = true;
  reconnect_joinable = true;
  reconnect_alive = true;
}

-- If the first attempt of the manager fails and so do the next retries, until one connects, of at most
-- ten, `main` sees the connection exactly if at most five retries have failed before: it waits for
-- 100 sleeps of 100 ms, and a seventh retry comes later. The attempts are taken to take no time.
pub await_connected_iff :
    (args : CliArgs) (fs : List Round) (r : Round) (rest : List Round)
    → All Fails fs
    → r.stopped ≡ false
    → r.outcome ≡ connects
    → length fs < 10
    → (start connect_throws (new (manager_config args)) ≡ some (trying args))
      × (n : Manager) × (reconnect_loop (fs ++ r ∷ rest) (trying args) ≡ returned n)
      × ((is_connected (await_connected 100 0 (recovers n) (trying args)) ≡ true) ↔ (length fs ≤ 5))
unfolding start
await_connected_iff args fs r rest f st ok few =
    let c = manager_config args in
    let (n, loops, on, held, runs, count, joinable, beats, ev) =
      reconnect_loop-recovers (trying args) refl (omega arith) fs r rest f st ok
        (inr (omega (arith, few))) refl refl refl in
    let time : slept n.events ≡ total c 0 (suc (length fs)) =
      ap slept ev
      ∙ omega (
        arith,
        slept-attempts c 0 (length fs) [],
        total-snoc c 0 (length fs),
        ap (backoff c) (zero-add (length fs)),
      ) in
    let early : 0 < slept n.events = rw time (total_pos args (length fs)) in
    let w =
      await-recovers n (trying args) 100 0 (ap is_connected_state on) refl (omega (arith, early)) in
    let t = total_iff args (length fs) in
    (
      refl,
      n,
      loops,
      (λ e. (t.0) (omega (arith, w.0 e, time)), λ h. (w.1) (omega (arith, t.1 h, time))),
    )
