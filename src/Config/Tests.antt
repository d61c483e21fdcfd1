-- ===== src/Config/Tests.antt =====
-- The constants of include/config.h against those that the other files repeat.
use c_web_socket_client_with.Prelude.{◌≡◌, refl, true}
use c_web_socket_client_with.Args.{default_args}
use c_web_socket_client_with.Manager.{default_config}
use c_web_socket_client_with.Client
use c_web_socket_client_with.Spsc.{is_power_of_two}
use c_web_socket_client_with.Config.{
  default_host, default_port, queue_capacity, pool_total_kb, reconnection,
}

capacity_test : is_power_of_two queue_capacity ≡ true
unfolding is_power_of_two
capacity_test = refl

same_capacity : queue_capacity ≡ Client.queue_capacity
same_capacity = refl

same_target : (default_args.host ≡ default_host) × (default_args.port ≡ default_port)
same_target = (refl, refl)

pool_of_one_megabyte : pool_total_kb ≡ 1024
pool_of_one_megabyte = refl

same_reconnection :
    ((default_config default_host default_port).initial_backoff_ms
      ≡ reconnection.initial_backoff_ms)
    × ((default_config default_host default_port).max_backoff_ms ≡ reconnection.max_backoff_ms)
    × ((default_config default_host default_port).multiplier_num ≡ reconnection.backoff_multiplier)
    × ((default_config default_host default_port).max_reconnect_tries
        ≡ reconnection.max_reconnect_tries)
same_reconnection = (refl, refl, refl, refl)
