-- ===== src/Mica/Setup.antt =====
-- mica/main.c, `main`: the calls that set the server up, in order, up to the polling loops.
pub mod Ready
mod Tests
use queue_dpdk.Prelude.{
  ℕ, zero, suc, ◌+◌, ◌-◌, ◌*◌, ◌/◌, ◌%◌, Bool, true, false, not, ◌||◌, List, [], ◌∷◌, ◌++◌, map,
  ltb, leb, min, max, if◌then◌else◌, length, interval, u16, u32,
}
use queue_dpdk.Poll.{Mode, is_single, is_partitioned}
use queue_dpdk.Slices.{owner_lc_idx}
use queue_dpdk.Calls.{Start, run_calls}

-- What `main` has after the options: the lcores in the order of `RTE_LCORE_FOREACH`, the device's
-- `max_tx_queues`, and two names of DPDK.
pub record Host : Type 0 where
  pub mode : Mode
  pub queues : ℕ  -- uint16_t
  pub nb_rxd : ℕ
  pub nb_txd : ℕ
  pub lcores : List ℕ
  pub main_lcore : ℕ
  pub max_tx_queues : ℕ
  pub rte_max_lcore : ℕ
  pub rte_log2_u32 : ℕ → ℕ

-- `mbuf_pool`, and `mbuf_pool_per_lcore` at an lcore.
pub data Pool : Type 0 where
  mbuf_pool : Pool
  mbuf_pool_per_lcore : (lcore_id : ℕ) → Pool

-- What `main` asks of the other parts of the program and of DPDK, each of which may fail, and the
-- tests that it makes itself.
pub data Ask : Type 0 where
  rte_eal_init parse_args qflow_check dev_count_avail dev_info_get : Ask
  require : (holds : Bool) → Ask
  pool_create : (pool : Pool) (nb_mbufs : ℕ) → Ask
  dev_configure : (nb_rx nb_tx : ℕ) → Ask
  read_bitstream reta_update : Ask
  reta_query : (expected_queues : ℕ) → Ask
  set_queue_mode : (queue : ℕ) → Ask
  rx_queue_setup : (queue : ℕ) (pool : Pool) → Ask
  tx_queue_setup : (queue : ℕ) → Ask
  dev_start : Ask
  send_clear : (pool : Pool) → Ask
  shm_init : Ask
  table_init : (concurrent : Bool) → Ask
  set_default : (key : ℕ) → Ask

abbrev pub max_rx_queue_per_port : ℕ
max_rx_queue_per_port = 2048

-- The lcores that poll.
pub active_io_lcores : Host → ℕ
active_io_lcores h =
    if is_single h.mode then 1 else min (min (u16 (length h.lcores)) h.queues) h.max_tx_queues

pub entry_checks : Host → List Ask
entry_checks h =
    rte_eal_init
    ∷ parse_args
    ∷ qflow_check
    ∷ dev_count_avail
    ∷ require (leb h.queues max_rx_queue_per_port)
    ∷ dev_info_get
    ∷ require (is_single h.mode || ltb 0 (active_io_lcores h))
    ∷ []

-- The size of the pool of the polling lcore with an index, and of the single pool.
abbrev pub lcore_mbufs : Host → ℕ → ℕ
lcore_mbufs h lc_idx =
    let lc_queues = u16 (
      h.queues / active_io_lcores h
      + (if ltb lc_idx (h.queues % active_io_lcores h) then 1 else 0)) in
    max (u32 (lc_queues * (h.nb_rxd + 32) + h.nb_txd + 256)) 8192

abbrev pub all_mbufs : Host → ℕ
all_mbufs h =
    let pool_lcores = if is_single h.mode then 0 else u16 (length h.lcores) in
    max (u32 (h.queues * (h.nb_rxd + h.nb_txd + 32 + pool_lcores * 256))) 8192

-- `RTE_LCORE_FOREACH` from the lcore at `lc_idx` on.
pub lcore_pools : Host → ℕ → List ℕ → List Ask
lcore_pools h lc_idx [] = []
lcore_pools h lc_idx (lc ∷ lcores) =
    let rest = lcore_pools h (lc_idx + 1) lcores in
    if not (ltb lc_idx (active_io_lcores h))
    then []
    else pool_create (mbuf_pool_per_lcore lc) (lcore_mbufs h lc_idx) ∷ rest

pub make_pools : Host → List Ask
make_pools h =
    if is_partitioned h.mode
    then lcore_pools h 0 h.lcores
    else pool_create mbuf_pool (all_mbufs h) ∷ []

-- The lcore at an index; past the last one the loop leaves RTE_MAX_LCORE.
pub lcore_at : Host → List ℕ → ℕ → ℕ
lcore_at h [] idx = h.rte_max_lcore
lcore_at h (lc ∷ lcores) zero = lc
lcore_at h (lc ∷ lcores) (suc idx) = lcore_at h lcores idx

pub queue_pool : Host → ℕ → Pool
queue_pool h x =
    if is_partitioned h.mode
    then mbuf_pool_per_lcore (lcore_at h h.lcores (owner_lc_idx h.queues (active_io_lcores h) x))
    else mbuf_pool

-- The RX queues: `n` of them, from `x` on.
pub io_rx_queues : Host → ℕ → ℕ → List Ask
io_rx_queues h x zero = []
io_rx_queues h x (suc n) =
    set_queue_mode x ∷ rx_queue_setup x (queue_pool h x) ∷ io_rx_queues h (x + 1) n

pub configure_port : Host → List Ask
configure_port h =
    dev_configure h.queues (active_io_lcores h)
    ∷ read_bitstream
    ∷ reta_update
    ∷ reta_query h.queues
    ∷ (io_rx_queues h 0 h.queues ++ map tx_queue_setup (interval 0 (active_io_lcores h)))

-- The packets that empty the queues of the previous run; `mbuf_pool` is the main lcore's in
-- Partitioned mode.
pub clear_queues : Host → List Ask
clear_queues h =
    let pool = if is_partitioned h.mode then mbuf_pool_per_lcore h.main_lcore else mbuf_pool in
    map (λ i. send_clear pool) (interval 0 (h.rte_log2_u32 h.queues + 1))

abbrev pub num_keys : ℕ
num_keys = 10000000

-- The table, with the default value under each of the first `n` keys.
pub fill_table : Host → ℕ → List Ask
fill_table h n = shm_init ∷ table_init (ltb 1 (active_io_lcores h)) ∷ map set_default (interval 0 n)

-- All calls up to the launch.
pub prepare : Host → List Ask
prepare h =
    (entry_checks h ++ make_pools h)
    ++ (configure_port h ++ (dev_start ∷ (clear_queues h ++ fill_table h num_keys)))

-- A test of `main` is its own answer.
abbrev pub answer : (Ask → Bool) → Ask → Bool
answer succeeds (require holds) = holds
answer succeeds other = succeeds other

pub serve_main : (Ask → Bool) → Host → Start Ask
serve_main succeeds h = run_calls (answer succeeds) h.mode (prepare h)
