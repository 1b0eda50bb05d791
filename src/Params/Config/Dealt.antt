-- ===== src/Params/Config/Dealt.antt =====
-- nf-chain/src/main.c, `parse_config` and `init_lcore_rx_queues`: from the option to the queues.
use queue_dpdk.Prelude.{ℕ, ◌≤◌, ◌≡◌, Option, none, some, List, [], ◌∷◌, All, IfSome, arith}
use queue_dpdk.Rules.{Line}
use queue_dpdk.Groups.{Scan, accepted, refused, lacking, read_numbers}
use queue_dpdk.Groups.Accepted.{Keeps, parse_groups-Keeps}
use queue_dpdk.Params.{LcoreParams, LcoreConf, init_lcore_rx_queues}
use queue_dpdk.Params.Deal.{queues_of, init_lcore_rx_queues-deals}
use queue_dpdk.Params.Config.{param_of, read_param, parse_config}

-- Each field is a uint8_t.
abbrev pub IsByte : LcoreParams → Type 0
IsByte p = (p.port_id ≤ 255) × (p.queue_id ≤ 255) × (p.lcore_id ≤ 255)

param_of-IsByte : (o : Option (List ℕ)) → IfSome IsByte (param_of o)
unfolding param_of
param_of-IsByte none = tt
param_of-IsByte (some []) = tt
param_of-IsByte (some (a ∷ [])) = tt
param_of-IsByte (some (a ∷ b ∷ [])) = tt
param_of-IsByte (some (a ∷ b ∷ c ∷ [])) = (omega arith, omega arith, omega arith)
param_of-IsByte (some (a ∷ b ∷ c ∷ d ∷ ns)) = tt

module _ (strtoul : Line → ℕ → Option (ℕ × Line)) (strsplit : ℕ → Line → List Line) where
  read_param-IsByte : (s : Line) → IfSome IsByte (read_param strtoul strsplit s)
  unfolding read_param
  read_param-IsByte s = param_of-IsByte (read_numbers strtoul strsplit 3 255 s)

  -- What a text gives the lcores.
  abbrev pub Deals : Scan LcoreParams → Type 0
  Deals (accepted ps) =
      All IsByte ps
      × ((conf : LcoreConf) × (init_lcore_rx_queues ps (λ l. []) ≡ some conf)
          × ((lcore : ℕ) → conf lcore ≡ queues_of lcore ps))
  Deals refused = Unit
  Deals lacking = ⊥

  from_Keeps :
      (o : Scan LcoreParams)
      → Keeps IsByte (read_param strtoul strsplit) 1024 read_param-IsByte o
      → Deals o
  from_Keeps (accepted ps) h = (h.0, init_lcore_rx_queues-deals ps h.1)
  from_Keeps refused h = tt
  from_Keeps lacking h = h

  -- `parse_config` ends on every text. If it accepts one, the fields are below 256, and
  -- `init_lcore_rx_queues` succeeds and gives each lcore the queues that the parameters name for it,
  -- in their order, and no other.
  pub parse_config-Deals : (q_arg : Line) → Deals (parse_config strtoul strsplit q_arg)
  unfolding parse_config
  parse_config-Deals q_arg =
      from_Keeps (parse_config strtoul strsplit q_arg)
        (parse_groups-Keeps IsByte (read_param strtoul strsplit) 1024 read_param-IsByte q_arg)
