-- ===== src/Chat.antt =====
-- `chat_session` of src/main.cpp over any client. The lines of the standard input are a list; the
-- output is left out.
pub mod Blocks
pub mod Session
pub mod Online
pub mod Closing
pub mod Instance
mod Tests
use Prim.Native.String.{String}
use c_web_socket_client_with.Prelude.{
  ℕ, zero, suc, ◌==◌, Bool, true, false, not, Option, none, some, List, [], ◌∷◌, if◌then◌else◌,
}
use c_web_socket_client_with.Args.{same}
use c_web_socket_client_with.Latency.{LatencyStats, record_since}
use c_web_socket_client_with.Pool.{Params, write}
use c_web_socket_client_with.Pool.Ptr.{Store, update, PoolPtr, construct, destroy, is_set, get}

-- `ClientType`, and the clock: the operations that the session calls, on a state of the client. A
-- send that throws and a `spin_receive()` that does not return are `none`.
pub record ChatClient (S : Type 0) : Type 0 where
  pub is_running : S → Bool
  pub try_receive : S → Option String × S
  pub spin_receive : S → Option (String × S)
  pub send_text : String → S → Option S
  pub send_binary : String → S → Option S
  pub close : S → S
  pub now : S → ℕ

-- How a part of the session ends. `aborted` is the failed assertion of the pool, `exhausted` the
-- pool without a free block.
pub data Ended (S : Type 0) : Type 0 where
  returned : Store → LatencyStats → S → Ended S
  exhausted : Store → LatencyStats → S → Ended S
  threw : Ended S
  spinning : Ended S
  aborted : Ended S

module _ {S : Type 0} (cl : ChatClient S) where
  -- `spin_receive()` after a send that began at `t_start`, and the sample that is recorded.
  abbrev pub answer : ℕ → Option S → Store → LatencyStats → Ended S
  answer t_start none s stats = threw
  answer t_start (some c) s stats = answered (cl.spin_receive c)
    where
      answered : Option (String × S) → Ended S
      answered none = spinning
      answered (some (response, d)) = returned s (record_since t_start (cl.now d) stats) d

  -- The end of a round of the benchmark: the destructor of the PoolPtr.
  abbrev pub release_buffer : Params → PoolPtr → Ended S → Ended S
  release_buffer k buf (returned s stats c) = released (destroy k buf s)
    where
      released : Option Store → Ended S
      released none = aborted
      released (some t) = returned t stats c
  release_buffer k buf e = e

  -- One round of `bench` with the message `msg`, whose at most eight bytes are `word`.
  unfoldable pub bench_round :
      Params → (msg : String) → (word : ℕ) → Store → LatencyStats → S → Ended S
  unfolding construct destroy write
  bench_round k msg word s stats c =
      let (buf, t) = construct 0 s in
      let copied = update t 0 (record (t 0) { cells = write (t 0).cells (get buf) word }) in
      if not (is_set buf)
      then exhausted t stats c
      else release_buffer k buf (answer (cl.now c) (cl.send_text msg c) copied stats)

  -- What a benchmark round leaves is what the next one starts from; all else ends the loop.
  abbrev pub next : Ended S → (Store → LatencyStats → S → Ended S) → Ended S
  next (returned s stats c) f = f s stats c
  next e f = e

  -- The loop of `bench` over the messages that are sent.
  unfoldable pub bench_loop : Params → List (String × ℕ) → Store → LatencyStats → S → Ended S
  unfolding bench_round
  bench_loop k [] s stats c = returned s stats c
  bench_loop k (m ∷ ms) s stats c =
      next (bench_round k m.0 m.1 s stats c) (λ t st d. bench_loop k ms t st d)

  -- `bench` as a whole, with statistics of its own; those of the session stay as they were. A pool
  -- that is exhausted ends the benchmark only.
  abbrev pub after_bench : LatencyStats → Ended S → Ended S
  after_bench stats (returned s bench_stats c) = returned s stats c
  after_bench stats (exhausted s bench_stats c) = returned s stats c
  after_bench stats e = e

  -- The loop over the input. `bench` is the list of the messages of the benchmark.
  unfoldable pub chat_loop :
      Params → (bench : List (String × ℕ)) → List String → Store → LatencyStats → S → Ended S
  unfolding bench_loop
  chat_loop k bench [] s stats c = returned s stats c
  chat_loop k bench (input ∷ []) s stats c =
      if not (cl.is_running c)
      then returned s stats c
      else if same input "bench"
      then after_bench stats (bench_loop k bench s [] c)
      else returned s stats c
  chat_loop k bench (input ∷ line ∷ rest) s stats c =
      if not (cl.is_running c)
      then returned s stats c
      else if same input "/exit"
      then returned s stats c
      else if same input "bench"
      then next (after_bench stats (bench_loop k bench s [] c))
          (λ t st d. chat_loop k bench (line ∷ rest) t st d)
      else if same input "text"
      then next (answer (cl.now c) (cl.send_text line c) s stats)
          (λ t st d. chat_loop k bench rest t st d)
      else if same input "binary"
      then next (answer (cl.now c) (cl.send_binary line c) s stats)
          (λ t st d. chat_loop k bench rest t st d)
      else chat_loop k bench (line ∷ rest) s stats c

  abbrev pub close_session : Ended S → Ended S
  close_session (returned s stats c) = returned s stats (cl.close c)
  close_session e = e

  -- The greeting: `try_receive()` up to the given number of times.
  abbrev pub greeting : ℕ → S → S
  greeting zero c = c
  greeting (suc n) c =
      let (o, d) = cl.try_receive c in let again = greeting n d in greeted o d again
    where
      greeted : Option String → S → S → S
      greeted none d again = again
      greeted (some msg) d again = d

  abbrev pub chat_session : Params → (bench : List (String × ℕ)) → List String → Store → S → Ended S
  chat_session k bench lines s c = close_session (chat_loop k bench lines s [] (greeting 100 c))
