-- ===== src/Params.antt =====
-- nf-chain/src/main.c: the (port, queue, lcore) parameters and the RX queues they give to the lcores.
pub mod Deal
pub mod Ports
pub mod Config
mod Tests
use Prim.Native.Nat.{bit_and}
use queue_dpdk.Prelude.{
  ℕ, ◌+◌, shift_1, Bool, true, false, not, ◌&&◌, Option, none, some, List, [], ◌∷◌, ◌++◌, ltb, leb,
  ◌==◌, if◌then◌else◌, update, length, u8,
}
use queue_dpdk.Poll.{max_rx_queue_per_lcore}

-- `struct lcore_params`
pub record LcoreParams : Type 0 where
  pub port_id : ℕ
  pub queue_id : ℕ
  pub lcore_id : ℕ

-- `struct lcore_rx_queue`
pub record LcoreRxQueue : Type 0 where
  pub port_id : ℕ
  pub queue_id : ℕ

-- The RX queues of each lcore: `rx_queue_list` up to `n_rx_queue`.
abbrev pub LcoreConf : Type 0
LcoreConf = ℕ → List LcoreRxQueue

abbrev pub rx_queue : LcoreParams → LcoreRxQueue
rx_queue p = record { port_id = p.port_id; queue_id = p.queue_id }

-- Whether it returns 0. `enabled` is `rte_lcore_is_enabled`. A queue is a uint8_t.
pub check_lcore_params : (ℕ → Bool) → List LcoreParams → Bool
check_lcore_params enabled [] = true
check_lcore_params enabled (p ∷ ps) =
    let rest = check_lcore_params enabled ps in
    if leb 2048 p.queue_id then false else if not (enabled p.lcore_id) then false else rest

-- Whether it returns 0. `valid` is `rte_eth_dev_is_valid_port`.
pub check_port_config : ℕ → (ℕ → Bool) → List LcoreParams → Bool
check_port_config enabled_port_mask valid [] = true
check_port_config enabled_port_mask valid (p ∷ ps) =
    let rest = check_port_config enabled_port_mask valid ps in
    if bit_and enabled_port_mask (shift_1 p.port_id) == 0
    then false
    else if not (valid p.port_id)
    then false
    else rest

-- The loop of `get_port_n_rx_queues`, with `queue + 1` in the place of `queue`, which starts at -1.
pub highest_queue : ℕ → List LcoreParams → ℕ → ℕ
highest_queue port [] n = n
highest_queue port (p ∷ ps) n =
    highest_queue port ps (if p.port_id == port && leb n p.queue_id then p.queue_id + 1 else n)

pub get_port_n_rx_queues : ℕ → List LcoreParams → ℕ
get_port_n_rx_queues port ps = u8 (highest_queue port ps 0)

pub init_lcore_rx_queues : List LcoreParams → LcoreConf → Option LcoreConf
init_lcore_rx_queues [] conf = some conf
init_lcore_rx_queues (p ∷ ps) conf =
    let lcore = p.lcore_id in
    elim (leb max_rx_queue_per_lcore (length (conf lcore))) [
      | true ↦ none
      | false ↦ init_lcore_rx_queues ps (update conf lcore (conf lcore ++ (rx_queue p ∷ [])))
    ]
