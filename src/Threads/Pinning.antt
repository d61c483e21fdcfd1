-- ===== src/Threads/Pinning.antt =====
-- Where the receiver thread of include/websocket_client.h is pinned, by include/thread_utils.h.
use c_web_socket_client_with.Prelude.{
  ℕ, ◌-◌, ◌≤◌, ◌<◌, ◌≡◌, ◌≢◌, ◌↔◌, ◌⊎◌, refl, sym, ◌∙◌, false, ◌==◌, Bool, true, none, some, List,
  [], ◌∷◌, ltb, lt→ltb, if◌then◌else◌, arith, Bool-cases, inl, inr, ==-false,
}
use c_web_socket_client_with.Args.{ℤ, pos, negsuc}
use c_web_socket_client_with.Threads.{
  Platform, Thread, cpu_set, set_thread_name, get_cpu_count, pin_thread_to_core, pin_thread_windows,
  ClientConfig, receiver_core, receiver_name, secure_receiver_name, is_empty, pin_receiver,
}

-- pthread_setaffinity_np as documented: a set with a core of the machine is accepted, and one without
-- any is refused. `cores` is the number of cores of the machine.
pub record HasCores (os : Platform) (cores : ℕ) : Type 0 where
  pub some_cores : 0 < cores
  pub known : (os.hardware_concurrency ≡ cores) ⊎ (os.hardware_concurrency ≡ 0)
  pub accepts : (n : ℕ) → n < cores → os.setaffinity (n ∷ []) ≡ 0
  pub refuses : (n : ℕ) → cores ≤ n → os.setaffinity (n ∷ []) ≢ 0
  pub refuses_none : os.setaffinity [] ≢ 0

-- The core that a number given on the command line or in the settings stands for.
abbrev pub wanted : Platform → ℤ → ℕ
wanted os (pos n) = n
wanted os (negsuc n) = get_cpu_count os - 1

module _ (os : Platform) (cores : ℕ) (h : HasCores os cores) where
  receiver_core-wanted :
      (pin : Bool) (z : ℤ)
      → receiver_core os (record { pin_receiver_thread = pin; receiver_core_id = z })
        ≡ pos (wanted os z)
  unfolding receiver_core
  receiver_core-wanted pin (pos n) = refl
  receiver_core-wanted pin (negsuc n) = refl

  pinned_in :
      (n : ℕ) (th : Thread)
      → n < cores
      → cores ≤ 1024
      → (pin_thread_to_core os (pos n) th).1.affinity ≡ some (n ∷ [])
  unfolding pin_thread_to_core
  pinned_in n th lt small = rw (lt→ltb n 1024 (omega (arith, lt, small)), h.accepts n lt) refl

  pinned_out :
      (n : ℕ) (th : Thread)
      → cores ≤ n
      → (pin_thread_to_core os (pos n) th).1.affinity ≡ th.affinity
  unfolding pin_thread_to_core
  pinned_out n th ge = elim (Bool-cases (ltb n 1024)) [
    | inl room ↦ rw (room, ==-false (h.refuses n ge)) refl
    | inr no_room ↦ rw (no_room, ==-false h.refuses_none) refl
  ]

  name_kept : (z : ℤ) (th : Thread) → (pin_thread_to_core os z th).1.name ≡ th.name
  unfolding pin_thread_to_core
  name_kept z th = elim (Bool-cases (os.setaffinity (cpu_set z) == 0)) [
    | inl e ↦ rw e refl
    | inr e ↦ rw e refl
  ]

  cpu_count_bounds : (0 < get_cpu_count os) × (get_cpu_count os ≤ cores)
  unfolding get_cpu_count
  cpu_count_bounds = ground (arith, h.known, h.some_cores)

  pinned_or_left :
      (n : ℕ) (th : Thread)
      → cores ≤ 1024
      → (pin_thread_to_core os (pos n) th).1.affinity
        ≡ (if ltb n cores then some (n ∷ []) else th.affinity)
  pinned_or_left n th small = elim (Bool-cases (ltb n cores)) [
    | inl e ↦ rw e (pinned_in n th (ground (arith, e)) small)
    | inr e ↦ rw e (pinned_out n th (ground (arith, e)))
  ]

  pinned_as :
      (name : List ℕ) (config : ClientConfig) (th : Thread)
      → is_empty name ≡ false
      → cores ≤ 1024
      → config.pin_receiver_thread ≡ true
      → ((pin_receiver os name config th).name ≡ (set_thread_name name th).name)
        × ((pin_receiver os name config th).affinity ≡ (
            if ltb (wanted os config.receiver_core_id) cores
            then some (wanted os config.receiver_core_id ∷ [])
            else th.affinity))
  unfolding pin_receiver set_thread_name
  pinned_as name config th named small on =
      let z : ℤ = config.receiver_core_id in
      let core = receiver_core-wanted config.pin_receiver_thread z in
      let th' : Thread = set_thread_name name th in
      (
        rw (on, named) (name_kept (receiver_core os config) th'),
        rw (on, named, core) (pinned_or_left (wanted os z) th' small),
      )

  -- On a machine with at most 1024 cores, the size of cpu_set_t, `pin_receiver_thread` names the
  -- receiver thread of either client and pins it to the wanted core and nothing else, if the machine
  -- has that core, and leaves it where it was otherwise. A negative number stands for the last core
  -- that the system reports, and the machine has that one.
  pub pin_receiver_lem :
      (config : ClientConfig) (th : Thread)
      → cores ≤ 1024
      → config.pin_receiver_thread ≡ true
      → ((pin_receiver os receiver_name config th).name ≡ receiver_name)
        × ((pin_receiver os secure_receiver_name config th).name ≡ secure_receiver_name)
        × ((pin_receiver os receiver_name config th).affinity ≡ (
            if ltb (wanted os config.receiver_core_id) cores
            then some (wanted os config.receiver_core_id ∷ [])
            else th.affinity))
        × ((pin_receiver os secure_receiver_name config th).affinity
            ≡ (pin_receiver os receiver_name config th).affinity)
        × (wanted os (negsuc 0) < cores)
  unfolding set_thread_name
  pin_receiver_lem config th small on =
      let plain = pinned_as receiver_name config th refl small on in
      let secure = pinned_as secure_receiver_name config th refl small on in
      (plain.0, secure.0, plain.1, secure.1 ∙ sym (plain.1), omega (arith, cpu_count_bounds))

-- On Windows the mask is defined for the cores 0 to 63 only.
pub pin_thread_windows_lem :
    (os : Platform) (n : ℕ)
    → ((pin_thread_windows os (pos n) ≡ none) ↔ (64 ≤ n))
      × (pin_thread_windows os (negsuc n) ≡ none)
unfolding pin_thread_windows
pin_thread_windows_lem os n = (ground arith, refl)
