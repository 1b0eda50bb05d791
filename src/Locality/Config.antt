-- ===== src/Locality/Config.antt =====
-- locality/main.c: the port pairs of the option --portmap, and the ports that they send to.
pub mod Symmetric
pub mod Portmap
mod Tests
use Prim.Native.Nat.{bit_and, bit_or}
use queue_dpdk.Prelude.{
  ℕ, ◌+◌, ◌-◌, ◌^◌, Bool, true, false, not, ◌||◌, Option, none, some, List, [], ◌∷◌, ◌==◌,
  if◌then◌else◌, update,
}
use queue_dpdk.Rules.{Line}
use queue_dpdk.Groups.{Scan, parse_groups, read_numbers}
use queue_dpdk.Locality.Pairs.{dst_ports}

-- `struct port_pair_params`: its two ports.
pub record PortPair : Type 0 where
  pub port0 : ℕ
  pub port1 : ℕ

pub pair_of : Option (List ℕ) → Option PortPair
pair_of (some (a ∷ b ∷ [])) = some (record { port0 = a; port1 = b })
pair_of other = none

-- RTE_MAX_ETHPORTS is 32.
module _ (strtoul : Line → ℕ → Option (ℕ × Line)) (rte_strsplit : ℕ → Line → List Line) where
  pub read_pair : Line → Option PortPair
  read_pair s = pair_of (read_numbers strtoul rte_strsplit 2 31 s)

  -- `port_pair_params` up to `nb_port_pair_params`, if it returns 0.
  pub cms_parse_port_pair_config : Line → Scan PortPair
  cms_parse_port_pair_config q_arg = parse_groups read_pair 16 q_arg

-- A port that is enabled and present. `valid` is `rte_eth_dev_is_valid_port`.
abbrev pub usable : ℕ → (ℕ → Bool) → ℕ → Bool
usable mask valid portid = if bit_and mask (2 ^ portid) == 0 then false else valid portid

-- The loop over the pairs, from here on, with `port_pair_config_mask`; then the enabled ports that
-- are left. None is the return of -1.
pub check_pairs : ℕ → (ℕ → Bool) → List PortPair → ℕ → Option ℕ
check_pairs mask valid [] config_mask = some (bit_and mask config_mask)
check_pairs mask valid (pair ∷ pairs) config_mask =
    let pair_mask = bit_or (2 ^ pair.port0) (2 ^ pair.port1) in
    let rest = check_pairs mask valid pairs (bit_or config_mask pair_mask) in
    if not (usable mask valid pair.port0)
    then none
    else if not (usable mask valid pair.port1)
    then none
    else if not (bit_and config_mask pair_mask == 0)
    then none
    else rest

pub check_port_pair_config : ℕ → (ℕ → Bool) → List PortPair → Option ℕ
check_port_pair_config mask valid pairs = check_pairs mask valid pairs 0

-- The loop over the pairs of `main`, two ports at a time.
pub pair_dst_ports : List PortPair → (ℕ → ℕ) → ℕ → ℕ
pair_dst_ports [] cms_dst_ports = cms_dst_ports
pair_dst_ports (pair ∷ pairs) cms_dst_ports =
    pair_dst_ports pairs (update (update cms_dst_ports pair.port0 pair.port1) pair.port1 pair.port0)

-- The part of `main` that fills `cms_dst_ports`: `port_pair_params`, which is NULL if no pairs are
-- given, `cms_enabled_port_mask`, and the `nb_ports` ports of `RTE_ETH_FOREACH_DEV`. It gives the
-- enabled ports and where they send to; none is `rte_exit`.
pub map_ports : (ℕ → Bool) → Option (List PortPair) → ℕ → ℕ → List ℕ → Option (ℕ × (ℕ → ℕ))
map_ports valid none mask nb_ports ports =
    if not (bit_and mask (2 ^ 32 - 2 ^ nb_ports) == 0)
    then none
    else some (mask, dst_ports mask ports)
map_ports valid (some pairs) mask nb_ports ports = elim (check_port_pair_config mask valid pairs) [
  | none ↦ none
  | some left ↦
      if not (bit_and left (2 ^ 32 - 2 ^ nb_ports) == 0)
      then none
      else some (left, pair_dst_ports pairs (λ p. 0))
]
