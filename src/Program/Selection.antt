-- ===== src/Program/Selection.antt =====
-- What the arguments of src/main.cpp select, and when it fails.
use Prim.Native.String.{String}
use c_web_socket_client_with.Prelude.{
  ◌≡◌, ◌≢◌, refl, sym, ◌∙◌, ◌↔◌, ◌⊎◌, inl, inr, Bool, true, false, Option, none, some, List, [],
  ◌∷◌, ◌++◌, if◌then◌else◌, Bool-cases, ◌&&◌,
}
use c_web_socket_client_with.Args.{CliArgs, default_args}
use c_web_socket_client_with.Args.Options.{
  CliOption, host, port, ssl, pin, pin_to, reconnect, render, apply, apply_all, AreCores,
  parse_args-apply_all,
}
use c_web_socket_client_with.Threads.{ClientConfig}
use c_web_socket_client_with.Manager.{Manager, new, start, is_connected}
use c_web_socket_client_with.Chat
use c_web_socket_client_with.Program.{
  Exit, exits, terminated, World, client_config, manager_config, await_connected, after_session,
  session, run_client, run_manager, run, main,
}

apply-keeps :
    (o : CliOption) (a : CliArgs) → a.auto_reconnect ≡ true → (apply o a).auto_reconnect ≡ true
apply-keeps (host h) a e = e
apply-keeps (port p) a e = e
apply-keeps ssl a e = e
apply-keeps pin a e = e
apply-keeps (pin_to t core) a e = e
apply-keeps reconnect a e = refl

apply_all-keeps :
    (os : List CliOption) (a : CliArgs)
    → a.auto_reconnect ≡ true
    → (apply_all os a).auto_reconnect ≡ true
apply_all-keeps [] a e = e
apply_all-keeps (o ∷ os) a e = apply_all-keeps os (apply o a) (apply-keeps o a e)

apply_all-reconnect :
    (before after : List CliOption) (a : CliArgs)
    → (apply_all (before ++ reconnect ∷ after) a).auto_reconnect ≡ true
apply_all-reconnect [] after a = apply_all-keeps after (apply reconnect a) refl
apply_all-reconnect (o ∷ before) after a = apply_all-reconnect before after (apply o a)

after_session-fails :
    {S : Type 0} (threw : Exit) (e : Chat.Ended S)
    → (after_session threw e ≡ exits 1) ↔ ((e ≡ Chat.threw) × (threw ≡ exits 1))
after_session-fails threw (Chat.returned s stats c) = (λ k. absurd cc, λ k. absurd cc (k.0))
after_session-fails threw (Chat.exhausted s stats c) = (λ k. absurd cc, λ k. absurd cc (k.0))
after_session-fails threw Chat.threw = (λ k. (refl, k), λ k. k.1)
after_session-fails threw Chat.spinning = (λ k. absurd cc, λ k. absurd cc (k.0))
after_session-fails threw Chat.aborted = (λ k. absurd cc, λ k. absurd cc (k.0))

module _ {S : Type 0} (w : World S) where
  main-render :
      (os : List CliOption) → AreCores os → main w (render os) ≡ run w (apply_all os default_args)
  unfolding main
  main-render os h = rw (parse_args-apply_all os h) refl

  waited-fails :
      (n : Manager) (b : Bool)
      → (if b then after_session terminated (session w (w.managed n)) else exits 0) ≢ exits 1
  waited-fails n true k =
      let (threw, ends) = ((after_session-fails terminated (session w (w.managed n))).0) k in cc
  waited-fails n false k = cc

  run_manager-fails : (o : Option Manager) → run_manager w o ≢ exits 1
  run_manager-fails none k = cc
  run_manager-fails (some m) k =
      let n = await_connected 100 0 w.during m in waited-fails n (is_connected n && n.client) k

  run-reconnect :
      (a : CliArgs)
      → a.auto_reconnect ≡ true
      → run w a ≡ run_manager w (start w.first (new (manager_config a)))
  run-reconnect a e = rw e refl

module _ {S : Type 0} (w : World S) where
  -- With `--reconnect` anywhere among the options, the program neither uses TLS nor a client of its
  -- own, whatever the other options say: its end does not depend on how those would connect. Its exit
  -- code is not 1, even if no connection is established.
  pub main-reconnect :
      (tls : Bool) (plain secure : (host port : String) → ClientConfig → Option S)
      (before after : List CliOption)
      → AreCores (before ++ reconnect ∷ after)
      → (main w (render (before ++ reconnect ∷ after))
          ≡ main
              (record w { ssl_enabled = tls; plain_connect = plain; secure_connect = secure })
              (render (before ++ reconnect ∷ after)))
        × (main w (render (before ++ reconnect ∷ after)) ≢ exits 1)
  main-reconnect tls plain secure before after h =
      let a : CliArgs = apply_all (before ++ reconnect ∷ after) default_args in
      let on = apply_all-reconnect before after default_args in
      let v : World S = record w {
        ssl_enabled = tls;
        plain_connect = plain;
        secure_connect = secure;
      } in
      let managed = main-render w (before ++ reconnect ∷ after) h ∙ run-reconnect w a on in
      (
        managed ∙ sym (main-render v (before ++ reconnect ∷ after) h ∙ run-reconnect v a on),
        λ k. run_manager-fails w (start w.first (new (manager_config a))) (sym managed ∙ k),
      )

  -- A client of its own that has connected, as the arguments ask for.
  abbrev pub opened : CliArgs → Option S
  opened a =
      if a.use_ssl
      then (if w.ssl_enabled then w.secure_connect a.host a.port (client_config a) else none)
      else w.plain_connect a.host a.port (client_config a)

  run-opened : (a : CliArgs) → a.auto_reconnect ≡ false → run w a ≡ run_client w (opened a)
  run-opened a off = elim (Bool-cases a.use_ssl) [
    | inl tls ↦ elim (Bool-cases w.ssl_enabled) [
      | inl built ↦ rw (off, tls, built) refl
      | inr missing ↦ rw (off, tls, missing) refl
    ]
    | inr plain ↦ rw (off, plain) refl
  ]

  run_client-fails :
      (o : Option S)
      → (run_client w o ≡ exits 1)
        ↔ ((o ≡ none) ⊎ ((c : S) × (o ≡ some c) × (session w c ≡ Chat.threw)))
  run_client-fails none = (λ k. inl refl, λ k. refl)
  run_client-fails (some c) =
      let (to, back) = after_session-fails (exits 1) (session w c) in
      (λ k. inr (c, refl, (to k).0), λ k. back (failed c k, refl))
    where
      failed :
          (c : S)
          → (some c ≡ none) ⊎ ((d : S) × (some c ≡ some d) × (session w d ≡ Chat.threw))
          → session w c ≡ Chat.threw
      failed c (inl e) = absurd cc
      failed c (inr (d, e, t)) = cc

  -- Without `--reconnect` the exit code is 1 exactly if no client connects, because TLS is asked for but
  -- not compiled or because connecting throws, or if the session throws.
  pub main_fails_iff :
      (os : List CliOption)
      → AreCores os
      → (apply_all os default_args).auto_reconnect ≡ false
      → (main w (render os) ≡ exits 1) ↔ (
          (opened (apply_all os default_args) ≡ none)
          ⊎ ((c : S) × (opened (apply_all os default_args) ≡ some c) × (session w c ≡ Chat.threw)))
  main_fails_iff os h off =
      let (to, back) = run_client-fails (opened (apply_all os default_args)) in
      let e = main-render w os h ∙ run-opened (apply_all os default_args) off in
      (λ k. to (sym e ∙ k), λ k. e ∙ back k)
