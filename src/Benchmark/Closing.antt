-- ===== src/Benchmark/Closing.antt =====
-- How the benchmark program leaves its client.
use Prim.Native.String.{String}
use c_web_socket_client_with.Prelude.{
  ℕ, zero, suc, ◌+◌, ◌≡◌, refl, Option, none, some, List, [], ◌∷◌,
}
use c_web_socket_client_with.Config.{benchmark_messages, warmup_messages}
use c_web_socket_client_with.Latency.{LatencyStats}
use c_web_socket_client_with.Chat.{ChatClient}
use c_web_socket_client_with.Chat.Blocks.{Keeps}
use c_web_socket_client_with.Benchmark.{
  Measured, measured, threw, spinning, then_measure, exchange, measure, warmup_effect, table_sizes,
  message_sizes, make_payload, messages_per_size,
}
use c_web_socket_client_with.Benchmark.Suite.{
  Surroundings, Suite, completed, failed, unfinished, then_run, await_greeting, send_all,
  receive_all, benchmarks, suite,
}

module _ {S : Type 0} (cl : ChatClient S) (w : Surroundings S) {J : S → Type 0} (keeps : Keeps cl J)
    (asleep : (c : S) → J c → J (w.sleep c)) where
  -- The client is as it has to be after a part of the program that goes on.
  abbrev Holds : {A : Type 0} → Measured A S → Type 0
  Holds (measured a c) = J c
  Holds threw = Unit
  Holds spinning = Unit

  then_measure-Holds :
      {A B : Type 0} (m : Measured A S) (f : A → S → Measured B S)
      → Holds m
      → ((a : A) (c : S) → J c → Holds (f a c))
      → Holds (then_measure m f)
  then_measure-Holds (measured a c) f h g = g a c h
  then_measure-Holds threw f h g = tt
  then_measure-Holds spinning f h g = tt

  answered-Holds :
      (stats : LatencyStats) (msg : String) (c d : S) (r : Option (String × S))
      → J d
      → cl.send_text msg c ≡ some d
      → cl.spin_receive d ≡ r
      → Holds (exchange cl msg stats c)
  answered-Holds stats msg c d none j e f = rw (e, f) tt
  answered-Holds stats msg c d (some (response, x)) j e f =
      rw (e, f) (keeps.spin_receive d response x j f)

  sent-Holds :
      (stats : LatencyStats) (msg : String) (c : S) (r : Option S)
      → J c
      → cl.send_text msg c ≡ r
      → Holds (exchange cl msg stats c)
  sent-Holds stats msg c none j e = rw e tt
  sent-Holds stats msg c (some d) j e =
      answered-Holds stats msg c d (cl.spin_receive d) (keeps.send_text msg c d j e) e refl

  measure-Holds :
      (message : ℕ → String) (i n : ℕ) (stats : LatencyStats) (c : S)
      → J c
      → Holds (measure cl message i n stats c)
  unfolding measure
  measure-Holds message i zero stats c j = j
  measure-Holds message i (suc n) stats c j =
      then_measure-Holds (exchange cl (message i) stats c) _
        (sent-Holds stats (message i) c (cl.send_text (message i) c) j refl)
        (λ st d k. measure-Holds message (i + 1) n st d k)

  warmup_effect-Holds :
      (cold warm : ℕ → String) (c : S)
      → J c
      → Holds (warmup_effect cl cold warm warmup_messages benchmark_messages c)
  warmup_effect-Holds cold warm c j =
      then_measure-Holds _ _ (measure-Holds cold 0 warmup_messages [] c j) (λ cold_stats d k.
        then_measure-Holds _ _ (measure-Holds warm 0 benchmark_messages [] d k)
          (λ warm_stats e l. l))

  message_sizes-Holds : (sizes : List ℕ) (c : S) → J c → Holds (message_sizes cl w.text_of sizes c)
  unfolding message_sizes
  message_sizes-Holds [] c j = j
  message_sizes-Holds (size ∷ sizes) c j =
      then_measure-Holds (measure cl (λ i. w.text_of (make_payload size)) 0 messages_per_size [] c)
        _ (measure-Holds (λ i. w.text_of (make_payload size)) 0 messages_per_size [] c j)
        (λ samples d k.
          then_measure-Holds (message_sizes cl w.text_of sizes d) _ (message_sizes-Holds sizes d k)
            (λ rows e l. l))

  await_greeting-J : (n : ℕ) (c : S) → J c → J (await_greeting cl w n c)
  unfolding await_greeting
  await_greeting-J zero c j = j
  await_greeting-J (suc n) c j =
      polled (cl.try_receive c).0 refl
        (await_greeting-J n (w.sleep (cl.try_receive c).1) (asleep _ (keeps.try_receive c j)))
    where
      polled :
          (r : Option String)
          → (cl.try_receive c).0 ≡ r
          → J (await_greeting cl w n (w.sleep (cl.try_receive c).1))
          → J (await_greeting cl w (suc n) c)
      polled none e again = rw (await_greeting, e) again
      polled (some greeting) e again = rw (await_greeting, e) (keeps.try_receive c j)

  send_all-Holds : (i n : ℕ) (c : S) → J c → Holds (send_all cl w i n c)
  unfolding send_all
  send_all-Holds i zero c j = j
  send_all-Holds i (suc n) c j =
      sent (cl.send_text (w.burst i) c) refl (λ d k. send_all-Holds (i + 1) n d k)
    where
      sent :
          (r : Option S)
          → cl.send_text (w.burst i) c ≡ r
          → ((d : S) → J d → Holds (send_all cl w (i + 1) n d))
          → Holds (send_all cl w i (suc n) c)
      sent none e again = rw (send_all, e) tt
      sent (some d) e again = rw (send_all, e) (again d (keeps.send_text (w.burst i) c d j e))

  receive_all-Holds : (polls n : ℕ) (c : S) → J c → Holds (receive_all cl w polls n c)
  unfolding receive_all
  receive_all-Holds polls zero c j = j
  receive_all-Holds zero (suc n) c j = tt
  receive_all-Holds (suc polls) (suc n) c j =
      polled (cl.try_receive c).0 refl
        (receive_all-Holds polls (suc n) (cl.try_receive c).1 (keeps.try_receive c j))
        (receive_all-Holds polls n (cl.try_receive c).1 (keeps.try_receive c j))
    where
      polled :
          (r : Option String)
          → (cl.try_receive c).0 ≡ r
          → Holds (receive_all cl w polls (suc n) (cl.try_receive c).1)
          → Holds (receive_all cl w polls n (cl.try_receive c).1)
          → Holds (receive_all cl w (suc polls) (suc n) c)
      polled none e again less = rw (receive_all, e) again
      polled (some response) e again less = rw (receive_all, e) less

  -- The program ends with 0 only after `close()` of a client that is as it has to be.
  abbrev pub Ends : Suite S → Type 0
  Ends (completed reports c) = (d : S) × J d × (c ≡ cl.close d)
  Ends failed = Unit
  Ends unfinished = Unit

  then_run-Ends :
      {A : Type 0} (m : Measured A S) (f : A → S → Suite S)
      → Holds m
      → ((a : A) (c : S) → J c → Ends (f a c))
      → Ends (then_run m f)
  then_run-Ends (measured a c) f h g = g a c h
  then_run-Ends threw f h g = tt
  then_run-Ends spinning f h g = tt

  benchmarks-Ends : (polls : ℕ) (c : S) → J c → Ends (benchmarks cl w polls c)
  unfolding benchmarks
  benchmarks-Ends polls c j =
      then_run-Ends _ _ (measure-Holds w.seq 0 benchmark_messages [] c j) (λ sequential c1 j1.
        then_run-Ends _ _
          (then_measure-Holds _ _ (send_all-Holds 0 benchmark_messages c1 j1)
            (λ u d k. receive_all-Holds polls benchmark_messages d k))
          (λ u c2 j2. then_run-Ends _ _ (warmup_effect-Holds w.cold w.warm c2 j2) (λ stats c3 j3.
            then_run-Ends _ _ (message_sizes-Holds table_sizes c3 j3)
              (λ rows c4 j4. (c4, j4, refl)))))

  pub suite-Ends : (polls : ℕ) (c : S) → J c → Ends (suite cl w polls (some c))
  unfolding suite
  suite-Ends polls c j = benchmarks-Ends polls (await_greeting cl w 50 c) (await_greeting-J 50 c j)
