-- ===== src/Params/Config.antt =====
-- nf-chain/src/main.c, `parse_config`: the (port,queue,lcore) groups of the option --config.
pub mod Dealt
pub mod Printed
mod Tests
use queue_dpdk.Prelude.{ℕ, Option, none, some, List, [], ◌∷◌, u8}
use queue_dpdk.Rules.{Line}
use queue_dpdk.Groups.{Scan, parse_groups, read_numbers}
use queue_dpdk.Params.{LcoreParams}

abbrev pub max_lcore_params : ℕ
max_lcore_params = 1024

-- The three numbers of a group, in its order.
pub param_of : Option (List ℕ) → Option LcoreParams
param_of (some (port ∷ queue ∷ lcore ∷ [])) =
    some (record { port_id = u8 port; queue_id = u8 queue; lcore_id = u8 lcore })
param_of other = none

module _ (strtoul : Line → ℕ → Option (ℕ × Line)) (rte_strsplit : ℕ → Line → List Line) where
  pub read_param : Line → Option LcoreParams
  read_param s = param_of (read_numbers strtoul rte_strsplit 3 255 s)

  -- `lcore_params` up to `nb_lcore_params`, if it returns 0.
  pub parse_config : Line → Scan LcoreParams
  parse_config q_arg = parse_groups read_param max_lcore_params q_arg
