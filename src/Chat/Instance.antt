-- ===== src/Chat/Instance.antt =====
-- A client whose messages come back at once, and the pool of `chat_session` in src/main.cpp.
use Prim.Native.String.{String}
use c_web_socket_client_with.Prelude.{
  ℕ, ◌+◌, refl, true, Option, none, some, List, [], ◌∷◌, ◌++◌, arith,
}
use c_web_socket_client_with.Pool.{Params, aligned_block_size, new}
use c_web_socket_client_with.Pool.Invariant.{IsStorage}
use c_web_socket_client_with.Pool.Ptr.{Store}
use c_web_socket_client_with.Chat.{ChatClient}

-- Messages come back at once; nothing else is received.
pub record Echo : Type 0 where
  pub replies : List String
  pub time : ℕ

abbrev pub spin : Echo → Option (String × Echo)
spin e = first e.replies
  where
    first : List String → Option (String × Echo)
    first [] = none
    first (r ∷ rs) = some (r, record e { replies = rs; time = e.time + 250 })

abbrev pub echo : ChatClient Echo
echo = record {
  is_running = λ e. true;
  try_receive = λ e. (none, e);
  spin_receive = spin;
  send_text = λ msg e. some (record e { replies = e.replies ++ msg ∷ [] });
  send_binary = λ msg e. some (record e { replies = e.replies ++ msg ∷ [] });
  close = λ e. record e { replies = [] };
  now = λ e. e.time;
}

-- kPoolBlockSize and kPoolNumBlocks.
abbrev pub pool_params : Params
pool_params = record { block_size = 4096; num_blocks = 256; max_align = 16 }

pub storage : IsStorage pool_params 65536
unfolding aligned_block_size
storage = record {
  params = record {
    pointer_fits = omega arith;
    some_blocks = omega arith;
    exponent = 4;
    aligned = refl;
    small = omega arith;
  };
  not_null = omega arith;
  in_memory = omega arith;
}

abbrev pub pools : Store
pools i = new pool_params 65536 (λ a. 0)

abbrev pub idle : Echo
idle = record { replies = []; time = 0 }
