-- ===== src/Setup/Tests.antt =====
-- Two lcores in Partitioned mode with three queues on port 1 of two ports.
use mathlib.Core.List.Memᴰ.{head, tail}
use queue_dpdk.Prelude.{ℕ, ◌<◌, ◌^◌, ◌≡◌, refl, arith, Bool, true, some, [], ◌∷◌, get_elem?}
use queue_dpdk.Poll.{Mode}
use queue_dpdk.Slices.Chain.{IsDeal}
use queue_dpdk.Calls.{launched, run_calls}
use queue_dpdk.Calls.Order.{Before}
use queue_dpdk.Setup.{
  Machine, Call, goes_on, sketch, main, set_up, rx_pool, pool_create, rx_queue_setup,
  tx_queue_setup, dev_start, nat_shards, pools, tx_queues, rx_queues, init_port, start_port,
  clear_port,
}
use queue_dpdk.Setup.Ready.{launched_ready}

abbrev machine : Machine
machine = record {
  mode = Mode.partitioned;
  queues = 3;
  nb_rxd = 1024;
  nb_txd = 1024;
  lcores = 4 ∷ 6 ∷ [];
  main_lcore = 4;
  ports = 0 ∷ 1 ∷ [];
  enabled_port_mask = 2;
  promiscuous_on = true;
  rte_max_ethports = 32;
  rte_log2_u32 = λ v. 2;
}

abbrev all_well : Call → Bool
all_well c = true

main_launches : main all_well machine ≡ launched (set_up machine) Mode.partitioned
unfolding main goes_on sketch run_calls set_up nat_shards pools tx_queues rx_queues init_port
    start_port clear_port
main_launches = refl

deal : IsDeal 3 2
deal = record { queues_u16 = omega arith; lcores_u16 = omega arith; some_lcore = omega arith }

launched_ready_example :
    ((nb : ℕ) × Before
        (pool_create (rx_pool machine 2) nb)
        (rx_queue_setup 1 2 (rx_pool machine 2))
        (set_up machine))
    × Before (rx_queue_setup 1 2 (rx_pool machine 2)) (dev_start 1) (set_up machine)
    × ((p lcore : ℕ)
        → p < 2 ^ 16
        → get_elem? machine.lcores p ≡ some lcore
        → Before (tx_queue_setup 1 p lcore) (dev_start 1) (set_up machine))
launched_ready_example =
    launched_ready all_well machine 1 2 (set_up machine) Mode.partitioned main_launches
      (tail (head refl)) refl (omega arith) (λ e. deal)
