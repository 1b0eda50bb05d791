-- ===== src/Locality/Cores.antt =====
-- locality/main.c, `main`: the lcore that reads from each enabled port.
pub mod Gather
pub mod Dealt
mod Tests
use queue_dpdk.Prelude.{
  ℕ, zero, suc, ◌+◌, Bool, true, false, not, ◌||◌, Option, none, some, List, [], ◌∷◌, ◌++◌, length,
  ◌==◌, if◌then◌else◌, update,
}

-- `left` is RTE_MAX_LCORE less `rx_lcore_id`; `rx_port_list` has `n_rx_port` ports.
pub record Cores : Type 0 where
  pub left : ℕ
  pub rx_lcore_id : ℕ
  pub qconf : Option ℕ  -- the lcore that it points to
  pub nb_lcores : ℕ
  pub rx_port_list : ℕ → List ℕ

-- `rte_lcore_is_enabled`, and the bound on the ports of an lcore, which is `cms_rx_queue_per_lcore`.
module _ (is_enabled : ℕ → Bool) (per_lcore : ℕ) where
  -- The inner loop, from an lcore on: the one that has room, or none, which ends the program.
  pub next_lcore : (ℕ → List ℕ) → ℕ → ℕ → Option (ℕ × ℕ)
  next_lcore rx_port_list zero rx_lcore_id = none
  next_lcore rx_port_list (suc left) rx_lcore_id =
      elim (not (is_enabled rx_lcore_id) || length (rx_port_list rx_lcore_id) == per_lcore) [
        | true ↦ next_lcore rx_port_list left (rx_lcore_id + 1)
        | false ↦ some (suc left, rx_lcore_id)
      ]

  abbrev pub points_to : Option ℕ → ℕ → Bool
  points_to none lcore = false
  points_to (some l) lcore = l == lcore

  pub take_port : ℕ → ℕ → ℕ → Cores → Cores
  take_port portid left lcore s = record {
    left = left;
    rx_lcore_id = lcore;
    qconf = some lcore;
    nb_lcores = if points_to s.qconf lcore then s.nb_lcores else s.nb_lcores + 1;
    rx_port_list = update s.rx_port_list lcore (s.rx_port_list lcore ++ (portid ∷ []));
  }

  pub assign_ports : List ℕ → Cores → Option Cores
  assign_ports [] s = some s
  assign_ports (portid ∷ ports) s = elim (next_lcore s.rx_port_list s.left s.rx_lcore_id) [
    | none ↦ none
    | some (left, lcore) ↦ assign_ports ports (take_port portid left lcore s)
  ]

-- What the loop starts with.
abbrev pub no_ports : ℕ → Cores
no_ports rte_max_lcore = record {
  left = rte_max_lcore;
  rx_lcore_id = 0;
  qconf = none;
  nb_lcores = 0;
  rx_port_list = λ l. [];
}
