-- ===== src/Mica/Setup/Tests.antt =====
-- Three queues for two lcores in Partitioned mode, where the device has two TX queues.
use mathlib.Core.Path.{subst}
use mathlib.Core.List.{append_assoc}
use queue_dpdk.Prelude.{
  interval, All-append, ◌++◌, length, ℕ, ◌≡◌, refl, arith, Bool, true, List, [], ◌∷◌, All,
}
use queue_dpdk.Poll.{Mode, is_partitioned}
use queue_dpdk.Calls.{launched}
use queue_dpdk.Calls.Order.{Before, run_calls-launched, All-map}
use queue_dpdk.Mica.Setup.{
  Host, Ask, pool_create, rx_queue_setup, tx_queue_setup, dev_start, set_default, queue_pool,
  prepare, answer, serve_main, entry_checks, configure_port, io_rx_queues, clear_queues, fill_table,
  num_keys, make_pools, lcore_pools, active_io_lcores,
}
use queue_dpdk.Mica.Setup.Ready.{OwnPool, serve_main-Ready}

abbrev host : Host
host = record {
  mode = Mode.partitioned;
  queues = 3;
  nb_rxd = 1024;
  nb_txd = 1024;
  lcores = 4 ∷ 6 ∷ 8 ∷ [];
  main_lcore = 4;
  max_tx_queues = 2;
  rte_max_lcore = 128;
  rte_log2_u32 = λ v. 2;
}

abbrev all_well : Ask → Bool
all_well c = true

two_pools : length (make_pools host) ≡ 2
unfolding make_pools lcore_pools active_io_lcores
two_pools = refl

abbrev Succeeds : List Ask → Type 0
Succeeds = All (λ c. answer all_well c ≡ true)

-- All up to the start of the port, and the rest.
first_succeed : Succeeds ((entry_checks host ++ make_pools host) ++ configure_port host)
unfolding entry_checks make_pools lcore_pools active_io_lcores configure_port io_rx_queues
first_succeed = (
  refl,
  (
    refl,
    (
      refl,
      (
        refl,
        (
          refl,
          (
            refl,
            (
              refl,
              (
                refl,
                (
                  refl,
                  (
                    refl,
                    (
                      refl,
                      (
                        refl,
                        (refl, (refl, (refl, (refl, (refl, (refl, (refl, (refl, (refl, tt))))))))),
                      ),
                    ),
                  ),
                ),
              ),
            ),
          ),
        ),
      ),
    ),
  ),
)

rest_succeed : Succeeds (dev_start ∷ (clear_queues host ++ fill_table host num_keys))
unfolding clear_queues fill_table
rest_succeed = (
  refl,
  All-append (λ c. answer all_well c ≡ true) (clear_queues host) (fill_table host num_keys)
      (refl, (refl, (refl, tt)))
      (refl, (refl, All-map (answer all_well) set_default (interval 0 num_keys) (λ key. refl))),
)

host_launches : serve_main all_well host ≡ launched (prepare host) Mode.partitioned
unfolding serve_main prepare
host_launches = run_calls-launched (answer all_well) Mode.partitioned (prepare host) (
    subst Succeeds
      (append_assoc (entry_checks host ++ make_pools host) (configure_port host)
        (dev_start ∷ (clear_queues host ++ fill_table host num_keys)))
      (All-append (λ c. answer all_well c ≡ true)
        ((entry_checks host ++ make_pools host) ++ configure_port host)
        (dev_start ∷ (clear_queues host ++ fill_table host num_keys)) first_succeed rest_succeed))

serve_main-Ready_example :
    ((nb : ℕ) × Before
        (pool_create (queue_pool host 2) nb)
        (rx_queue_setup 2 (queue_pool host 2))
        (prepare host))
    × Before (rx_queue_setup 2 (queue_pool host 2)) dev_start (prepare host)
    × (is_partitioned host.mode ≡ true → OwnPool host 2)
    × Before (tx_queue_setup 1) dev_start (prepare host)
    × Before dev_start (set_default 77) (prepare host)
unfolding active_io_lcores
serve_main-Ready_example =
    serve_main-Ready all_well host (prepare host) Mode.partitioned 2 1 77 host_launches
      (omega arith) (omega arith) (omega arith)
