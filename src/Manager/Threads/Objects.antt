-- ===== src/Manager/Threads/Objects.antt =====
-- The client objects that the threads of a ConnectionManager use.
use c_web_socket_client_with.Prelude.{
  ◌≡◌, refl, subst, Bool, true, false, ℕ, Option, ◌⊎◌, inl, inr, arith,
}
use c_web_socket_client_with.Manager.{ConnectionConfig}
use c_web_socket_client_with.Manager.Threads.{Owner, Worker, Heartbeat, System, constructed, owns}
use c_web_socket_client_with.Manager.Threads.Loops.{WorkerStep, HeartbeatStep}
use c_web_socket_client_with.Manager.Threads.Steps.{
  OwnerStep, Step, own, beat, monitor, reconnect, Steps, done, step, drop,
}
use c_web_socket_client_with.Manager.Threads.Invariant.{
  is_some, needs_client, Inv, constructed-Inv, Step-Inv, drop-Inv, reachable-Inv,
}

-- `client_` owns the object that the owner, or `heartbeat_loop`, goes on with.
abbrev pub owner_valid : Owner → Option ℕ → Bool
owner_valid (Owner.holding n) c = owns c n
owner_valid (Owner.in_close n) c = owns c n
owner_valid Owner.calling_close c = is_some c
owner_valid _ c = true

abbrev pub heartbeat_valid : Heartbeat → Option ℕ → Bool
heartbeat_valid (Heartbeat.sending n) c = owns c n
heartbeat_valid Heartbeat.asking c = is_some c
heartbeat_valid Heartbeat.calling c = is_some c
heartbeat_valid _ c = true

pub record ObjectInv (s : System) : Type 0 where
  pub safe : s.crashed ≡ true → s.rewritten ≡ true
  pub owner_object : owner_valid s.owner s.client ≡ false → s.rewritten ≡ true
  pub heartbeat_object : heartbeat_valid s.heartbeat s.client ≡ false → s.rewritten ≡ true

constructed-ObjectInv : (c : ConnectionConfig) → ObjectInv (constructed c)
constructed-ObjectInv c = ground arith

heartbeat-ObjectInv :
    {s t : System} {o p : Heartbeat}
    → s.heartbeat ≡ o
    → HeartbeatStep s o t p
    → Inv s
    → ObjectInv s
    → ObjectInv (record t { heartbeat = p })
heartbeat-ObjectInv q (HeartbeatStep.has_client n e) v w = ground arith
heartbeat-ObjectInv q (HeartbeatStep.asks_null e) v w = ground arith
heartbeat-ObjectInv q (HeartbeatStep.calls n e) v w = ground arith
heartbeat-ObjectInv q (HeartbeatStep.calls_null e) v w = ground arith
heartbeat-ObjectInv q (HeartbeatStep.sends_dead n e) v w = ground arith
heartbeat-ObjectInv q _ v w = ground arith

monitor-ObjectInv :
    {s t : System} {o p : Worker}
    → s.monitor ≡ o
    → WorkerStep s o t p
    → Inv s
    → ObjectInv s
    → ObjectInv (record t { monitor = p })
monitor-ObjectInv q (WorkerStep.asks_null e) v w = ground arith
monitor-ObjectInv q (WorkerStep.connects_null e) v w = ground arith
monitor-ObjectInv q _ v w = ground arith

reconnect-ObjectInv :
    {s t : System} {o p : Worker}
    → s.reconnect ≡ o
    → WorkerStep s o t p
    → Inv s
    → ObjectInv s
    → ObjectInv (record t { reconnect = p })
reconnect-ObjectInv q (WorkerStep.asks_null e) v w = ground arith
reconnect-ObjectInv q (WorkerStep.connects_null e) v w = ground arith
reconnect-ObjectInv q _ v w = ground arith

owner-ObjectInv :
    {s t : System} {o p : Owner}
    → s.owner ≡ o
    → OwnerStep s o t p
    → Inv s
    → ObjectInv s
    → ObjectInv (record t { owner = p })
owner-ObjectInv q (OwnerStep.gets_client n e) v w = ground arith
owner-ObjectInv q (OwnerStep.uses_dead n e) v w = ground arith
owner-ObjectInv q (OwnerStep.has_client n e) v w = ground arith
owner-ObjectInv q (OwnerStep.closes n e) v w = ground arith
owner-ObjectInv q (OwnerStep.closes_null e) v w = ground arith
owner-ObjectInv q (OwnerStep.closes_dead n e) v w = ground arith
owner-ObjectInv q _ v w = ground arith

Step-ObjectInv : {s t : System} → Step s t → Inv s → ObjectInv s → ObjectInv t
Step-ObjectInv (own c st) v w = owner-ObjectInv refl st v w
Step-ObjectInv (beat c st) v w = heartbeat-ObjectInv refl st v w
Step-ObjectInv (monitor c st) v w = monitor-ObjectInv refl st v w
Step-ObjectInv (reconnect c st) v w = reconnect-ObjectInv refl st v w

drop-ObjectInv : {s : System} → ObjectInv s → ObjectInv (record s { running = false })
drop-ObjectInv w = ground arith

Steps-ObjectInv : {s t : System} {n : ℕ} → Steps s n t → Inv s → ObjectInv s → ObjectInv t
Steps-ObjectInv done v w = w
Steps-ObjectInv (step st ss) v w = Steps-ObjectInv ss (Step-Inv st v) (Step-ObjectInv st v w)
Steps-ObjectInv (drop ss) v w = Steps-ObjectInv ss (drop-Inv v) (drop-ObjectInv w)

-- In every state that the threads reach the invariant of the client objects holds.
pub reachable-ObjectInv :
    (c : ConnectionConfig) {s : System} {n : ℕ} → Steps (constructed c) n s → ObjectInv s
reachable-ObjectInv c ss = Steps-ObjectInv ss (constructed-Inv c) (constructed-ObjectInv c)

-- No thread uses an object that `client_` does not own, or a null one, until `monitor_loop` or
-- `reconnect_loop` has written `client_`.
pub crashed-rewritten :
    (c : ConnectionConfig) (s : System) (n : ℕ)
    → Steps (constructed c) n s
    → s.rewritten ≡ false
    → s.crashed ≡ false
crashed-rewritten c s n ss r = ground (arith, (reachable-ObjectInv c ss).safe)

step_safe :
    {s t : System} {o p : Worker}
    → WorkerStep s o t p
    → (needs_client o ≡ true → is_some s.client ≡ true)
    → t.crashed ≡ s.crashed
step_safe (WorkerStep.asks_null e) h = ground (arith, h refl)
step_safe (WorkerStep.connects_null e) h = ground (arith, h refl)
step_safe _ h = refl

-- No step of `monitor_loop` or `reconnect_loop` uses a null `client_`: where they use it after a
-- test or a store of it, it still owns an object.
pub worker_lem :
    (c : ConnectionConfig) (s t : System) (o p : Worker) (n : ℕ)
    → Steps (constructed c) n s
    → (s.monitor ≡ o) ⊎ (s.reconnect ≡ o)
    → WorkerStep s o t p
    → t.crashed ≡ s.crashed
worker_lem c s t o p n ss (inl e) st = step_safe st (
    subst (λ w. needs_client w ≡ true → is_some s.client ≡ true) e
      (reachable-Inv c ss).monitor_client)
worker_lem c s t o p n ss (inr e) st = step_safe st (
    subst (λ w. needs_client w ≡ true → is_some s.client ≡ true) e
      (reachable-Inv c ss).reconnect_client)
