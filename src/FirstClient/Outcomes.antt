-- ===== src/FirstClient/Outcomes.antt =====
-- What holds of every way in which the session of main.cpp can end.
use Prim.Native.String.{String}
use c_web_socket_client_with.Prelude.{
  ℕ, zero, suc, ◌≡◌, refl, ◌⊎◌, inl, inr, Bool, true, false, Option, none, some, if◌then◌else◌,
}
use c_web_socket_client_with.Args.{same}
use c_web_socket_client_with.FirstClient.{Response}
use c_web_socket_client_with.FirstClient.Session.{
  Peer, Client, Input, line, last, end, failed, getline, Ended, waiting, threw, running, close,
  respond, after_send, chat_rounds, chat_session,
}

-- No line that is still to come is "/exit".
abbrev pub IsExitFree : Input → Type 0
IsExitFree (line s rest) = (same s "/exit" ≡ false) × IsExitFree rest
IsExitFree (last s) = same s "/exit" ≡ false
IsExitFree end = Unit
IsExitFree failed = Unit

getline-IsExitFree :
    (source : Input) (input : String)
    → IsExitFree source
    → same input "/exit" ≡ false
    → (same (getline source input).0 "/exit" ≡ false) × IsExitFree (getline source input).1
getline-IsExitFree (line s rest) input h e = h
getline-IsExitFree (last s) input h e = (h, tt)
getline-IsExitFree end input h e = (refl, tt)
getline-IsExitFree failed input h e = (e, tt)

-- No "/exit" is to come, neither in what is to be read nor in `input`.
abbrev pub IsFree : Input → String → Type 0
IsFree source input = IsExitFree source × (same input "/exit" ≡ false)

-- What holds of every way in which a session of a client with a running receiver thread can end.
module _ {S : Type 0} (p : Peer S) (P : Ended S → Type 0) (on_waiting : P waiting)
    (on_running : (c : Client S) → P (running c))
    (on_threw : (c : Client S) → c.joinable ≡ true → P (threw c)) where
  if_holds : (b : Bool) (x y : Ended S) → P x → P y → P (if b then x else y)
  if_holds true x y h k = h
  if_holds false x y h k = k

  respond_holds :
      (o : Option (Response × S)) (c : Client S) (again : Client S → Ended S)
      → p.get_response c.stream ≡ o
      → ((s : S) → P (again (record c { stream = s })))
      → P (respond p c again)
  respond_holds none c again e h = rw e on_waiting
  respond_holds (some (r, s)) c again e h = rw e (h s)

  after_send_holds :
      (o : Option S) (c : Client S) (again : Client S → Ended S)
      → c.joinable ≡ true
      → ((s : S) → P (again (record c { stream = s })))
      → P (after_send p o c again)
  after_send_holds none c again j h = on_threw c j
  after_send_holds (some s) c again j h =
      respond_holds (p.get_response s) (record c { stream = s }) again refl h

  -- After a command: the end of the session, or the rest of the round.
  exit_holds :
      (b : Bool) (c : Client S) (x : Ended S)
      → (b ≡ false) ⊎ P (close p c)
      → P x
      → P (if b then close p c else x)
  exit_holds true c x (inl e) k = absurd cc
  exit_holds true c x (inr h) k = h
  exit_holds false c x o k = k

  -- Either no "/exit" is to come, or the property is one of closing, too.
  abbrev pub OnExit : Input → String → Type 0
  OnExit source input = IsFree source input ⊎ ((d : Client S) → d.joinable ≡ true → P (close p d))

  getline-OnExit :
      (source : Input) (input : String)
      → OnExit source input
      → OnExit (getline source input).1 (getline source input).0
  getline-OnExit source input (inl (h, e)) =
      let (k, free) = getline-IsExitFree source input h e in inl (free, k)
  getline-OnExit source input (inr h) = inr h

  close_holds :
      (source : Input) (input : String) (c : Client S)
      → c.joinable ≡ true
      → OnExit source input
      → (same input "/exit" ≡ false) ⊎ P (close p c)
  close_holds source input c j (inl (h, e)) = inl e
  close_holds source input c j (inr h) = inr (h c j)

  rounds_holds :
      (n : ℕ) (source : Input) (input : String) (c : Client S)
      → c.joinable ≡ true
      → OnExit source input
      → P (chat_rounds p n source input c)
  unfolding chat_rounds
  rounds_holds zero source input c j o = on_running c
  rounds_holds (suc n) source input c j o =
      let (command, rest) = getline source input in
      let (text, rest') = getline rest command in
      let next = getline-OnExit source input o in
      let next' = getline-OnExit rest command next in
      let sent = λ (o' : Option S).
        after_send_holds o' c (λ d. chat_rounds p n rest' text d) j
          (λ s. rounds_holds n rest' text (record c { stream = s }) j next') in
      exit_holds (same command "/exit") c _ (close_holds rest command c j next) (
        if_holds (same command "") _ _ (rounds_holds n rest command c j next) (
          if_holds (same command "text") _ _ (sent (p.send_text text c.stream)) (
            if_holds (same command "binary") _ _ (sent (p.send_binary text c.stream)) (
              respond_holds (p.get_response c.stream) c (λ d. chat_rounds p n rest command d) refl
                (λ s. rounds_holds n rest command (record c { stream = s }) j next)))))

  pub session_holds :
      (n : ℕ) (source : Input) (c : Client S)
      → c.joinable ≡ true
      → OnExit source ""
      → P (chat_session p n source c)
  session_holds n source c j o =
      respond_holds (p.get_response c.stream) c (λ d. chat_rounds p n source "" d) refl
        (λ s. rounds_holds n source "" (record c { stream = s }) j o)
