-- ===== src/Threads/Tests.antt =====
-- A machine with eight cores, of which the system reports eight, and the theorems at it.
use c_web_socket_client_with.Prelude.{
  ℕ, ◌<◌, ◌≡◌, refl, inl, true, none, some, List, [], ◌∷◌, ltb, if◌then◌else◌, arith,
}
use c_web_socket_client_with.Args.{negsuc}
use c_web_socket_client_with.Threads.{
  Platform, Thread, ClientConfig, receiver_name, secure_receiver_name, pin_receiver,
}
use c_web_socket_client_with.Threads.Pinning.{HasCores, wanted, pin_receiver_lem}

abbrev set_affinity : List ℕ → ℕ
set_affinity [] = 22
set_affinity (n ∷ ns) = if ltb n 8 then 0 else 22

abbrev linux : Platform
linux = record { hardware_concurrency = 8; setaffinity = set_affinity; affinity_mask = λ mask. 255 }

has_cores : HasCores linux 8
has_cores = record {
  some_cores = omega arith;
  known = inl refl;
  accepts = λ n h. ground (arith, h);
  refuses = λ n h. ground (arith, h);
  refuses_none = omega arith;
}

abbrev fresh : Thread
fresh = record { affinity = none; name = [] }

-- `--pin` without a number.
abbrev last_core : ClientConfig
last_core = record { pin_receiver_thread = true; receiver_core_id = negsuc 0 }

pinned_run : (pin_receiver linux receiver_name last_core fresh).affinity ≡ some (7 ∷ [])
unfolding pin_receiver
pinned_run = refl

pin_receiver_lem_example :
    ((pin_receiver linux receiver_name last_core fresh).name ≡ receiver_name)
    × ((pin_receiver linux secure_receiver_name last_core fresh).name ≡ secure_receiver_name)
    × ((pin_receiver linux receiver_name last_core fresh).affinity ≡ (
        if ltb (wanted linux (negsuc 0)) 8
        then some (wanted linux (negsuc 0) ∷ [])
        else fresh.affinity))
    × ((pin_receiver linux secure_receiver_name last_core fresh).affinity
        ≡ (pin_receiver linux receiver_name last_core fresh).affinity)
    × (wanted linux (negsuc 0) < 8)
pin_receiver_lem_example = pin_receiver_lem linux 8 has_cores last_core fresh (omega arith) refl
