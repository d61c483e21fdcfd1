-- ===== src/Chat/Session.antt =====
-- `chat_session` of src/main.cpp as a whole: its pool, its samples and its client.
use Prim.Native.String.{String}
use c_web_socket_client_with.Prelude.{
  ℕ, zero, suc, ◌+◌, ◌≤◌, ◌≡◌, refl, Bool, true, false, not, Option, none, some, List, [], ◌∷◌,
  arith, length, if◌then◌else◌, length-append,
}
use c_web_socket_client_with.Args.{same}
use c_web_socket_client_with.Latency.{LatencyStats, count}
use c_web_socket_client_with.Pool.{Params}
use c_web_socket_client_with.Pool.Invariant.{IsStorage, Inv}
use c_web_socket_client_with.Pool.Ptr.{Store}
use c_web_socket_client_with.Chat.{
  ChatClient, Ended, exhausted, threw, spinning, aborted, answer, next, bench_loop, after_bench,
  chat_loop, close_session, greeting, chat_session,
}
use c_web_socket_client_with.Chat.Blocks.{Keeps, IsClean, bench_loop-IsClean}

module _ {S : Type 0} (cl : ChatClient S) {J : S → Type 0} (keeps : Keeps cl J) {k : Params}
    {base : ℕ} (st : IsStorage k base) where
  abbrev Clean : ℕ → Ended S → Type 0
  Clean n e = IsClean cl keeps st n e

  -- At most `n` samples.
  abbrev pub IsCleanWithin : ℕ → Ended S → Type 0
  IsCleanWithin n e = (j : ℕ) × (j ≤ n) × Clean j e

  next-IsCleanWithin :
      {a : ℕ} (b : ℕ) (e : Ended S) (f : Store → LatencyStats → S → Ended S)
      → Clean a e
      → ((s : Store) (stats : LatencyStats) (c : S)
          → Inv k base (s 0) []
          → count stats ≡ a
          → J c
          → IsCleanWithin b (f s stats c))
      → IsCleanWithin b (next cl e f)
  next-IsCleanWithin b (Ended.returned s stats c) f (v, n, j) g = g s stats c v n j
  next-IsCleanWithin b threw f h g = (0, omega arith, tt)
  next-IsCleanWithin b spinning f h g = (0, omega arith, tt)
  next-IsCleanWithin b (exhausted s stats c) f h g = absurd h
  next-IsCleanWithin b aborted f h g = absurd h

  after_bench-IsClean :
      (n : ℕ) (stats : LatencyStats) (e : Ended S)
      → Clean n e
      → Clean (count stats) (after_bench cl stats e)
  after_bench-IsClean n stats (Ended.returned s more c) (v, m, j) = (v, refl, j)
  after_bench-IsClean n stats threw h = tt
  after_bench-IsClean n stats spinning h = tt
  after_bench-IsClean n stats (exhausted s more c) h = absurd h
  after_bench-IsClean n stats aborted h = absurd h

  -- A send without a pooled buffer.
  answer-IsClean :
      (t : ℕ) (o : Option S) (s : Store) (stats : LatencyStats)
      → Inv k base (s 0) []
      → ((c : S) → o ≡ some c → J c)
      → Clean (count stats + 1) (answer cl t o s stats)
  answer-IsClean t none s stats v j = tt
  answer-IsClean t (some c) s stats v j = answered (cl.spin_receive c) refl
    where
      answered :
          (r : Option (String × S))
          → cl.spin_receive c ≡ r
          → Clean (count stats + 1) (answer cl t (some c) s stats)
      answered none e = rw e tt
      answered (some (response, d)) e =
          rw e (v, length-append stats _, keeps.spin_receive c response d (j c refl) e)

  if-IsCleanWithin :
      (b : Bool) {n : ℕ} (e f : Ended S)
      → IsCleanWithin n e
      → IsCleanWithin n f
      → IsCleanWithin n (if b then e else f)
  if-IsCleanWithin true e f h g = h
  if-IsCleanWithin false e f h g = g

  returned-IsCleanWithin :
      {n : ℕ} (s : Store) (stats : LatencyStats) (c : S)
      → Inv k base (s 0) []
      → J c
      → count stats ≤ n
      → IsCleanWithin n (Ended.returned s stats c)
  returned-IsCleanWithin s stats c v j h = (count stats, h, (v, refl, j))

  IsCleanWithin-le : {m n : ℕ} (e : Ended S) → m ≤ n → IsCleanWithin m e → IsCleanWithin n e
  IsCleanWithin-le e le (j, h, clean) = (j, omega (arith, h, le), clean)

  bench-IsClean :
      (bench : List (String × ℕ)) (s : Store) (stats : LatencyStats) (c : S)
      → Inv k base (s 0) []
      → J c
      → Clean (count stats) (after_bench cl stats (bench_loop cl k bench s [] c))
  bench-IsClean bench s stats c v j =
      after_bench-IsClean _ stats (bench_loop cl k bench s [] c)
        (bench_loop-IsClean cl keeps st bench s [] c v j)

  loop-IsClean :
      (bench : List (String × ℕ)) (lines : List String) (s : Store) (stats : LatencyStats) (c : S)
      → Inv k base (s 0) []
      → J c
      → IsCleanWithin (count stats + length lines) (chat_loop cl k bench lines s stats c)
  unfolding chat_loop
  loop-IsClean bench [] s stats c v j = returned-IsCleanWithin s stats c v j (omega arith)
  loop-IsClean bench (input ∷ []) s stats c v j =
      let stay = returned-IsCleanWithin s stats c v j (omega arith) in
      if-IsCleanWithin (not (cl.is_running c)) _ _ stay (
        if-IsCleanWithin (same input "bench") _ _
          (count stats, omega arith, bench-IsClean bench s stats c v j) stay)
  loop-IsClean bench (input ∷ line ∷ rest) s stats c v j =
      let stay = returned-IsCleanWithin s stats c v j (omega arith) in
      let skip = loop-IsClean bench (line ∷ rest) in
      let read = loop-IsClean bench rest in
      if-IsCleanWithin (not (cl.is_running c)) _ _ stay (
        if-IsCleanWithin (same input "/exit") _ _ stay (
          if-IsCleanWithin (same input "bench") _ _
            (next-IsCleanWithin _ _ _ (bench-IsClean bench s stats c v j)
              (λ t more d i n jd. IsCleanWithin-le _ (omega (arith, n)) (skip t more d i jd)))
            (if-IsCleanWithin (same input "text") _ _
              (next-IsCleanWithin _ _ _
                (answer-IsClean (cl.now c) (cl.send_text line c) s stats v
                  (λ d e. keeps.send_text line c d j e))
                (λ t more d i n jd. IsCleanWithin-le _ (omega (arith, n)) (read t more d i jd)))
              (if-IsCleanWithin (same input "binary") _ _
                (next-IsCleanWithin _ _ _
                  (answer-IsClean (cl.now c) (cl.send_binary line c) s stats v
                    (λ d e. keeps.send_binary line c d j e))
                  (λ t more d i n jd. IsCleanWithin-le _ (omega (arith, n)) (read t more d i jd)))
                (IsCleanWithin-le _ (omega arith) (skip s stats c v j))))))

  greeting_keeps : (n : ℕ) (c : S) → J c → J (greeting cl n c)
  greeting_keeps zero c j = j
  greeting_keeps (suc n) c j =
      greeted (cl.try_receive c).0 refl
        (greeting_keeps n (cl.try_receive c).1 (keeps.try_receive c j))
    where
      greeted :
          (o : Option String)
          → (cl.try_receive c).0 ≡ o
          → J (greeting cl n (cl.try_receive c).1)
          → J (greeting cl (suc n) c)
      greeted none e again = rw e again
      greeted (some msg) e again = rw e (keeps.try_receive c j)

  -- A session has returned with at most `n` samples, the pool as if never used and a client that has
  -- been closed, or it has not returned.
  abbrev pub IsFinished : ℕ → Ended S → Type 0
  IsFinished n (Ended.returned s stats c) =
      Inv k base (s 0) [] × (count stats ≤ n) × (d : S) × J d × (c ≡ cl.close d)
  IsFinished n (exhausted s stats c) = ⊥
  IsFinished n threw = Unit
  IsFinished n spinning = Unit
  IsFinished n aborted = ⊥

  close-IsFinished : (n : ℕ) (e : Ended S) → IsCleanWithin n e → IsFinished n (close_session cl e)
  close-IsFinished n (Ended.returned s stats c) (i, le, (v, m, j)) =
      (v, omega (arith, le, m), c, j, refl)
  close-IsFinished n threw h = tt
  close-IsFinished n spinning h = tt
  close-IsFinished n (exhausted s stats c) (i, le, h) = absurd h
  close-IsFinished n aborted (i, le, h) = absurd h

  -- Whatever is typed and whatever the client answers, a session with a new pool never fails the
  -- pool's assertion nor exhausts the pool; if it returns, every block is free again, there is at most
  -- one latency sample for each line, and the client has been closed, in a state that satisfies
  -- whatever the calls of the session keep.
  pub chat_session-IsFinished :
      (bench : List (String × ℕ)) (lines : List String) (s : Store) (c : S)
      → Inv k base (s 0) []
      → J c
      → IsFinished (length lines) (chat_session cl k bench lines s c)
  chat_session-IsFinished bench lines s c v j = close-IsFinished (length lines) _ (
      IsCleanWithin-le _ (omega arith)
        (loop-IsClean bench lines s [] (greeting cl 100 c) v (greeting_keeps 100 c j)))
