-- ===== src/Locality/Config/Portmap.antt =====
-- locality/main.c: from the option --portmap to the ports that each port sends to.
use queue_dpdk.Prelude.{
  ℕ, ◌<◌, ◌≤◌, Bool, Option, none, some, List, [], ◌∷◌, All, IfSome, arith, length,
}
use queue_dpdk.Rules.{Line}
use queue_dpdk.Groups.{Scan, accepted, refused, lacking, read_numbers}
use queue_dpdk.Groups.Accepted.{Keeps, Numbers, parse_groups-Keeps, read_numbers-Numbers}
use queue_dpdk.Locality.Config.{PortPair, pair_of, read_pair, cms_parse_port_pair_config, map_ports}
use queue_dpdk.Locality.Config.Symmetric.{Mutual, map_ports-Mutual}

-- Two ports below RTE_MAX_ETHPORTS.
abbrev pub ArePorts : PortPair → Type 0
ArePorts pair = (pair.port0 < 32) × (pair.port1 < 32)

pair_of-ArePorts : (o : Option (List ℕ)) → IfSome (Numbers 2 31) o → IfSome ArePorts (pair_of o)
unfolding pair_of
pair_of-ArePorts none h = tt
pair_of-ArePorts (some []) h = tt
pair_of-ArePorts (some (a ∷ [])) h = tt
pair_of-ArePorts (some (a ∷ b ∷ [])) h = (omega (arith, h.1.0), omega (arith, h.1.1.0))
pair_of-ArePorts (some (a ∷ b ∷ c ∷ l)) h = tt

module _ (strtoul : Line → ℕ → Option (ℕ × Line)) (strsplit : ℕ → Line → List Line) where
  read_pair-ArePorts : (s : Line) → IfSome ArePorts (read_pair strtoul strsplit s)
  unfolding read_pair
  read_pair-ArePorts s =
      pair_of-ArePorts (read_numbers strtoul strsplit 2 31 s)
        (read_numbers-Numbers strtoul strsplit 31 2 s)

  -- What `main` makes of the pairs that are read.
  abbrev pub MapsBoth : (ℕ → Bool) → ℕ → ℕ → List ℕ → Scan PortPair → Type 0
  MapsBoth valid mask nb_ports ports (accepted pairs) =
      All ArePorts pairs
      × (length pairs ≤ 16)
      × Mutual mask (map_ports valid (some pairs) mask nb_ports ports)
  MapsBoth valid mask nb_ports ports refused = Unit
  MapsBoth valid mask nb_ports ports lacking = ⊥

  -- `cms_parse_port_pair_config` ends on every text. If it accepts one, it has read at most 16 pairs
  -- of ports below 32, and when `main` goes on with them, every port that it leaves enabled was
  -- enabled, and sends to one that it leaves enabled, which sends back to it.
  pub portmap-MapsBoth :
      (valid : ℕ → Bool) (mask nb_ports : ℕ) (ports : List ℕ) (q_arg : Line)
      → MapsBoth valid mask nb_ports ports (cms_parse_port_pair_config strtoul strsplit q_arg)
  unfolding cms_parse_port_pair_config
  portmap-MapsBoth valid mask nb_ports ports q_arg =
      go (cms_parse_port_pair_config strtoul strsplit q_arg)
        (parse_groups-Keeps ArePorts (read_pair strtoul strsplit) 16 read_pair-ArePorts q_arg)
    where
      go :
          (o : Scan PortPair)
          → Keeps ArePorts (read_pair strtoul strsplit) 16 read_pair-ArePorts o
          → MapsBoth valid mask nb_ports ports o
      go (accepted pairs) h = (h.0, h.1, map_ports-Mutual valid pairs mask nb_ports ports)
      go refused h = tt
      go lacking h = h
