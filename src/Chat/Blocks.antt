-- ===== src/Chat/Blocks.antt =====
-- The memory pool of `chat_session` in src/main.cpp while the session runs.
use Prim.Native.String.{String}
use c_web_socket_client_with.Prelude.{
  ℕ, ◌+◌, ◌<◌, ◌≡◌, refl, Option, none, some, List, [], ◌∷◌, arith, length, ==-false, ==_refl,
  length-append, subst,
}
use c_web_socket_client_with.Latency.{LatencyStats, count}
use c_web_socket_client_with.Pool.{Params, write, allocate}
use c_web_socket_client_with.Pool.Blocks
use c_web_socket_client_with.Pool.Blocks.{remove}
use c_web_socket_client_with.Pool.Invariant.{
  IsStorage, Inv, allocate_fresh, deallocate_held, write_held-Inv, held_not_null, positive,
}
use c_web_socket_client_with.Pool.Ptr.{Store, construct}
use c_web_socket_client_with.Pool.Ptr.Raii.{destroy_held}
use c_web_socket_client_with.Chat.{
  ChatClient, Ended, exhausted, threw, spinning, aborted, answer, release_buffer, bench_round, next,
  bench_loop,
}

-- What holds of a client whatever the session calls.
pub record Keeps {S : Type 0} (cl : ChatClient S) (J : S → Type 0) : Type 0 where
  pub try_receive : (c : S) → J c → J (cl.try_receive c).1
  pub spin_receive :
      (c : S) (response : String) (d : S) → J c → cl.spin_receive c ≡ some (response, d) → J d
  pub send_text : (msg : String) (c d : S) → J c → cl.send_text msg c ≡ some d → J d
  pub send_binary : (msg : String) (c d : S) → J c → cl.send_binary msg c ≡ some d → J d

module _ {S : Type 0} (cl : ChatClient S) {J : S → Type 0} (keeps : Keeps cl J) {k : Params}
    {base : ℕ} (st : IsStorage k base) where
  -- The part of a session ended with `n` samples, the pool as if never used and the client as it has
  -- to be, or it has not returned.
  abbrev pub IsClean : ℕ → Ended S → Type 0
  IsClean n (Ended.returned s stats c) = Inv k base (s 0) [] × (count stats ≡ n) × J c
  IsClean n (exhausted s stats c) = ⊥
  IsClean n threw = Unit
  IsClean n spinning = Unit
  IsClean n aborted = ⊥

  -- After a benchmark message has been answered, the block is given back.
  release-IsClean :
      (p t : ℕ) (o : Option S) (s : Store) (stats : LatencyStats)
      → Inv k base (s 0) (p ∷ [])
      → ((c : S) → o ≡ some c → J c)
      → IsClean
          (count stats + 1)
          (release_buffer cl k (record { pool = 0; ptr = p }) (answer cl t o s stats))
  unfolding remove
  release-IsClean p t none s stats v j = tt
  release-IsClean p t (some c) s stats v j = answered (cl.spin_receive c) refl
    where
      held : 0 < Blocks.count p (p ∷ [])
      held = rw (==_refl p) (omega arith)

      answered :
          (r : Option (String × S))
          → cl.spin_receive c ≡ r
          → IsClean
              (count stats + 1)
              (release_buffer cl k (record { pool = 0; ptr = p }) (answer cl t (some c) s stats))
      answered none e = rw e tt
      answered (some (response, d)) e =
          rw (e, destroy_held st (record { pool = 0; ptr = p }) s v held)
            (
              rw (==_refl p) at ((deallocate_held st v p held).1),
              length-append stats _,
              keeps.spin_receive c response d (j c refl) e,
            )

  round-IsClean :
      (msg : String) (word : ℕ) (s : Store) (stats : LatencyStats) (c : S)
      → Inv k base (s 0) []
      → J c
      → IsClean (count stats + 1) (bench_round cl k msg word s stats c)
  unfolding bench_round construct write
  round-IsClean msg word s stats c v j =
      let p : ℕ = (allocate (s 0)).0 in
      let got = (allocate_fresh st v (st.params.some_blocks)).2 in
      let held : 0 < Blocks.count p (p ∷ []) = rw (==_refl p) (omega arith) in
      rw (==-false (held_not_null st got p held)) (
        release-IsClean p (cl.now c) (cl.send_text msg c) _ stats
          (write_held-Inv st got p p word held (omega arith) (omega (arith, positive st)))
          (λ d e. keeps.send_text msg c d j e))

  -- What follows a part of the session that has returned.
  next-IsClean :
      {a : ℕ} (b : ℕ) (e : Ended S) (f : Store → LatencyStats → S → Ended S)
      → IsClean a e
      → ((s : Store) (stats : LatencyStats) (c : S)
          → Inv k base (s 0) []
          → count stats ≡ a
          → J c
          → IsClean b (f s stats c))
      → IsClean b (next cl e f)
  next-IsClean b (Ended.returned s stats c) f (v, n, j) g = g s stats c v n j
  next-IsClean b threw f h g = tt
  next-IsClean b spinning f h g = tt
  next-IsClean b (exhausted s stats c) f h g = absurd h
  next-IsClean b aborted f h g = absurd h

  -- The loop of `bench` never finds the pool exhausted and never fails its assertion, whatever the
  -- client answers: if it returns, every block has been given back and there is one sample more for
  -- each message.
  pub bench_loop-IsClean :
      (ms : List (String × ℕ)) (s : Store) (stats : LatencyStats) (c : S)
      → Inv k base (s 0) []
      → J c
      → IsClean (count stats + length ms) (bench_loop cl k ms s stats c)
  unfolding bench_loop
  bench_loop-IsClean [] s stats c v j = (v, omega arith, j)
  bench_loop-IsClean (m ∷ ms) s stats c v j =
      next-IsClean _ (bench_round cl k m.0 m.1 s stats c) (λ t more d. bench_loop cl k ms t more d)
        (round-IsClean m.0 m.1 s stats c v j)
        (λ t more d i n jd.
          subst (λ j. IsClean j (bench_loop cl k ms t more d)) (omega (arith, n))
            (bench_loop-IsClean ms t more d i jd))
