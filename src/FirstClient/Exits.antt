-- ===== src/FirstClient/Exits.antt =====
-- How `chatSession` and `main` of main.cpp end.
use c_web_socket_client_with.Prelude.{
  ℕ, ◌≡◌, refl, ◌≢◌, inl, inr, ◌↔◌, Bool, true, false, Option, none, some,
}
use c_web_socket_client_with.FirstClient.Session.{
  Peer, Client, Input, Ended, returned, waiting, threw, running, exits, terminated, join_receiver,
  close, chat_session, after_session, main,
}
use c_web_socket_client_with.FirstClient.Outcomes.{IsExitFree, session_holds}

-- The session has not returned.
abbrev HasNotReturned : {S : Type 0} → Ended S → Type 0
HasNotReturned (returned c) = ⊥
HasNotReturned e = Unit

-- The thread has been joined if the session returned, and has not if it threw.
abbrev JoinsOnReturn : {S : Type 0} → Ended S → Type 0
JoinsOnReturn (returned c) = c.joinable ≡ false
JoinsOnReturn (threw c) = c.joinable ≡ true
JoinsOnReturn e = Unit

module _ {S : Type 0} (p : Peer S) where
  join_receiver-JoinsOnReturn :
      (c : Client S) (b : Bool) (o : Option S)
      → c.joinable ≡ b
      → p.join c.stream ≡ o
      → JoinsOnReturn (join_receiver p c)
  join_receiver-JoinsOnReturn c false o e h = rw e refl
  join_receiver-JoinsOnReturn c true none e h = rw (e, h) tt
  join_receiver-JoinsOnReturn c true (some s) e h = rw (e, h) refl

  close-JoinsOnReturn :
      (c : Client S) (b : Bool) (o : Option S)
      → p.is_open c.stream ≡ b
      → p.close_stream c.stream ≡ o
      → c.joinable ≡ true
      → JoinsOnReturn (close p c)
  close-JoinsOnReturn c false o e h j =
      rw e (join_receiver-JoinsOnReturn c c.joinable (p.join c.stream) refl refl)
  close-JoinsOnReturn c true none e h j = rw (e, h) j
  close-JoinsOnReturn c true (some s) e h j =
      rw (e, h)
        (join_receiver-JoinsOnReturn (record c { stream = s }) c.joinable (p.join s) refl refl)

  chat_session-JoinsOnReturn :
      (n : ℕ) (source : Input) (c : Client S)
      → c.joinable ≡ true
      → JoinsOnReturn (chat_session p n source c)
  chat_session-JoinsOnReturn n source c j =
      session_holds p JoinsOnReturn tt (λ d. tt) (λ d h. h) n source c j
        (inr
          (λ d h. close-JoinsOnReturn d (p.is_open d.stream) (p.close_stream d.stream) refl refl h))

  chat_session-HasNotReturned :
      (n : ℕ) (source : Input) (c : Client S)
      → c.joinable ≡ true
      → IsExitFree source
      → HasNotReturned (chat_session p n source c)
  chat_session-HasNotReturned n source c j h =
      session_holds p HasNotReturned tt (λ d. tt) (λ d k. tt) n source c j (inl (h, refl))

  -- A program whose client has connected to `t`.
  abbrev pub run_session : ℕ → Input → S → Ended S
  run_session n source t = chat_session p n source (record { stream = t; joinable = true })

  session_exit :
      (e : Ended S)
      → JoinsOnReturn e
      → (after_session p e ≢ exits 1)
        × ((after_session p e ≡ exits 0) ↔ ((c : Client S) × (e ≡ returned c)))
        × ((after_session p e ≡ terminated) ↔ ((c : Client S) × (e ≡ threw c)))
  session_exit (returned c) h = rw h (
    λ k. cc,
    (λ k. (record c { joinable = false }, refl), λ k. refl),
    (λ k. absurd cc, λ k. absurd cc (k.1)),
  )
  session_exit waiting h =
      (λ k. cc, (λ k. absurd cc, λ k. absurd cc (k.1)), (λ k. absurd cc, λ k. absurd cc (k.1)))
  session_exit (threw c) h = rw h (
    λ k. cc,
    (λ k. absurd cc, λ k. absurd cc (k.1)),
    (λ k. (record c { joinable = true }, refl), λ k. refl),
  )
  session_exit (running c) h =
      (λ k. cc, (λ k. absurd cc, λ k. absurd cc (k.1)), (λ k. absurd cc, λ k. absurd cc (k.1)))

  not_returned : (e : Ended S) (c : Client S) → HasNotReturned e → e ≢ returned c
  not_returned (returned d) c h k = h
  not_returned waiting c h k = cc
  not_returned (threw d) c h k = cc
  not_returned (running d) c h k = cc

  -- Once the client has connected, the program ends with 0 exactly if the session returns, and in
  -- std::terminate exactly if a send or `close()` throws; the handler that returns 1 is not reached.
  pub main_exits :
      (n : ℕ) (source : Input) (s t : S)
      → p.connect s ≡ some t
      → (main p n source s ≢ exits 1)
        × ((main p n source s ≡ exits 0) ↔ ((c : Client S) × (run_session n source t ≡ returned c)))
        × ((main p n source s ≡ terminated) ↔ ((c : Client S) × (run_session n source t ≡ threw c)))
  unfolding main
  main_exits n source s t e = rw e (
      session_exit (run_session n source t)
        (chat_session-JoinsOnReturn n source (record { stream = t; joinable = true }) refl))

  -- Only "/exit" ends the program normally: while no line of the input is "/exit", it does not end
  -- with 0 in any number of rounds, neither at the end of the input nor after a lost connection.
  pub main_exit_free :
      (n : ℕ) (source : Input) (s : S) → IsExitFree source → main p n source s ≢ exits 0
  unfolding main
  main_exit_free n source s free = by_connect (p.connect s) refl
    where
      by_connect : (o : Option S) → p.connect s ≡ o → main p n source s ≢ exits 0
      by_connect none e = rw e (λ k. cc)
      by_connect (some t) e =
          let c : Client S = record { stream = t; joinable = true } in
          λ k.
            let (d, r) = ((main_exits n source s t e).1).0 k in
            not_returned (run_session n source t) d
              (chat_session-HasNotReturned n source c refl free) r
