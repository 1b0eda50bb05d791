-- ===== src/Setup.antt =====
-- nf-chain/src/main.c, `main`: the calls that set the program up, in order, up to the polling loops.
pub mod Ready
mod Tests
use Prim.Native.Nat.{bit_and}
use queue_dpdk.Prelude.{
  shift_1, ℕ, zero, suc, ◌+◌, ◌-◌, ◌*◌, ◌/◌, ◌^◌, Bool, true, false, not, List, [], ◌∷◌, ◌++◌, map,
  ltb, ◌==◌, min, max, if◌then◌else◌, length, interval, u16, u32,
}
use queue_dpdk.Poll.{Mode, single, partitioned, shared, is_single, is_partitioned, is_shared}
use queue_dpdk.Calls.{Start, run_calls, for_each}
use queue_dpdk.Slices.{get_lcore_for_queue}

-- What `main` has after the options: the lcores in the order of `RTE_LCORE_FOREACH`, the ports of
-- `RTE_ETH_FOREACH_DEV`, and two names of DPDK.
pub record Machine : Type 0 where
  pub mode : Mode
  pub queues : ℕ  -- uint16_t
  pub nb_rxd : ℕ
  pub nb_txd : ℕ
  pub lcores : List ℕ
  pub main_lcore : ℕ
  pub ports : List ℕ
  pub enabled_port_mask : ℕ
  pub promiscuous_on : Bool
  pub rte_max_ethports : ℕ
  pub rte_log2_u32 : ℕ → ℕ

-- What `main` asks of the other parts of the program and of DPDK, each of which may fail.
pub data Call : Type 0 where
  rte_eal_init parse_args qflow_check check_lcore_params init_lcore_rx_queues : Call
  check_port_config app_acl_init : Call
  nf_init : (nb_shards : ℕ) (is_shared drop_full : Bool) → Call
  pool_create : (lcore_id nb_mbufs : ℕ) → Call
  dev_info_get : (port : ℕ) → Call
  dev_configure : (port nb_rx nb_tx : ℕ) → Call
  read_bitstream : (port : ℕ) → Call
  reta_update : (port : ℕ) → Call
  reta_query : (port expected_queues : ℕ) → Call
  adjust_nb_rx_tx_desc : (port : ℕ) → Call
  macaddr_get : (port : ℕ) → Call
  tx_buffer : (port lcore_id : ℕ) → Call
  tx_queue_setup : (port queueid lcore_id : ℕ) → Call
  get_queue_base : (port : ℕ) → Call
  set_queue_mode : (port queue : ℕ) → Call
  rx_queue_setup : (port queue pool : ℕ) → Call
  dev_start : (port : ℕ) → Call
  promiscuous_enable : (port : ℕ) → Call
  alloc_sketch : (lcore_id : ℕ) → Call  -- tested
  make_sketch : (lcore_id : ℕ) → Call  -- not tested
  send_clear : (port pool : ℕ) → Call

abbrev pub mempool_cache_size : ℕ
mempool_cache_size = 256

abbrev pub nb_lcores : Machine → ℕ
nb_lcores m = length m.lcores

abbrev pub is_enabled : Machine → ℕ → Bool
is_enabled m port = not (bit_and m.enabled_port_mask (shift_1 port) == 0)

-- The shards of the NAT: one, one for each lcore, or one for each queue.
pub nat_shards : Machine → ℕ
nat_shards m =
    if is_partitioned m.mode then u16 (nb_lcores m) else if is_shared m.mode then m.queues else 1

-- The size of the pool of an lcore in Partitioned mode, and of the single pool otherwise.
abbrev pub lcore_nb_mbufs : Machine → ℕ
lcore_nb_mbufs m =
    let queues_per_lcore = u32 (m.queues + nb_lcores m - 1) / nb_lcores m in
    max (u32 (queues_per_lcore * (m.nb_rxd + 32) + m.nb_txd + mempool_cache_size)) 8192

abbrev pub nb_mbufs : Machine → ℕ
nb_mbufs m =
    max (u32 (m.queues * (m.nb_rxd + m.nb_txd + 32 + nb_lcores m * mempool_cache_size))) 8192

-- The memory pools: one for each lcore, for the queues that it may own, or a single one, at 0.
pub pools : Machine → List Call
pools m =
    if is_partitioned m.mode
    then map (λ lcore_id. pool_create lcore_id (lcore_nb_mbufs m)) m.lcores
    else pool_create 0 (nb_mbufs m) ∷ []

-- The pool of an RX queue; `rte_lcore_id()` is the main lcore.
pub rx_pool : Machine → ℕ → ℕ
rx_pool m x =
    if is_partitioned m.mode
    then get_lcore_for_queue x m.queues (nb_lcores m) m.main_lcore m.lcores
    else 0

-- One TX queue for each lcore, counted from `queueid` on.
pub tx_queues : ℕ → ℕ → List ℕ → List Call
tx_queues port queueid [] = []
tx_queues port queueid (lcore_id ∷ lcores) =
    dev_info_get port
    ∷ tx_queue_setup port queueid lcore_id
    ∷ tx_queues port (u16 (queueid + 1)) lcores

-- The RX queues: `n` of them, from `x` on.
pub rx_queues : Machine → ℕ → ℕ → ℕ → List Call
rx_queues m port x zero = []
rx_queues m port x (suc n) =
    set_queue_mode port x ∷ rx_queue_setup port x (rx_pool m x) ∷ rx_queues m port (x + 1) n

pub init_port : Machine → ℕ → List Call
init_port m port =
    if not (is_enabled m port)
    then []
    else dev_info_get port
      ∷ dev_configure port m.queues (u16 (min (nb_lcores m) m.rte_max_ethports))
      ∷ read_bitstream port
      ∷ reta_update port
      ∷ reta_query port m.queues
      ∷ adjust_nb_rx_tx_desc port
      ∷ macaddr_get port
      ∷ (map (tx_buffer port) m.lcores
          ++ (tx_queues port 0 m.lcores ++ (get_queue_base port ∷ rx_queues m port 0 m.queues)))

pub start_port : Machine → ℕ → List Call
start_port m port =
    if not (is_enabled m port)
    then []
    else dev_start port ∷ (if m.promiscuous_on then promiscuous_enable port ∷ [] else [])

-- The packets that empty the queues of the previous run go to every port, enabled or not.
pub clear_port : Machine → ℕ → List Call
clear_port m port =
    let pool = if is_partitioned m.mode then m.main_lcore else 0 in
    map (λ i. send_clear port pool) (interval 0 (m.rte_log2_u32 m.queues + 1))

-- The sketch of an lcore. Outside Partitioned mode its memory is written without a test.
pub sketch : Machine → ℕ → Call
sketch m lcore_id = if is_partitioned m.mode then alloc_sketch lcore_id else make_sketch lcore_id

-- The checks before anything is made.
abbrev pub checks : List Call
checks =
    rte_eal_init ∷ parse_args ∷ qflow_check ∷ check_lcore_params ∷ init_lcore_rx_queues
    ∷ check_port_config ∷ app_acl_init ∷ []

-- All calls up to the launch.
pub set_up : Machine → List Call
set_up m =
    (checks ++ (nf_init (nat_shards m) (is_shared m.mode) (not (is_single m.mode)) ∷ pools m))
    ++ (for_each (init_port m) m.ports
        ++ (for_each (start_port m) m.ports
            ++ (map (sketch m) m.lcores ++ for_each (clear_port m) m.ports)))

-- Whether the program ends at a call that has not succeeded. What it does with no memory for a
-- sketch that it does not test is undefined; here it goes on.
pub goes_on : (Call → Bool) → Call → Bool
goes_on succeeds (make_sketch lcore_id) = true
goes_on succeeds c = succeeds c

pub main : (Call → Bool) → Machine → Start Call
main succeeds m = run_calls (goes_on succeeds) m.mode (set_up m)
