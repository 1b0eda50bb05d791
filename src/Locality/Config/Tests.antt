-- ===== src/Locality/Config/Tests.antt =====
-- The text `(0,2)` for four ports, of which 0, 2 and 3 are enabled.
use queue_dpdk.Prelude.{ℕ, ◌≡◌, refl, Bool, true, some, List, [], ◌∷◌}
use queue_dpdk.Rules.{Line}
use queue_dpdk.Parse.Samples.{read_char}
use queue_dpdk.Locality.Config.{cms_parse_port_pair_config, check_port_pair_config, check_pairs}
use queue_dpdk.Locality.Config.Portmap.{MapsBoth, portmap-MapsBoth}

-- Two parts of one character each.
abbrev two_parts : ℕ → Line → List Line
two_parts n (a ∷ comma ∷ b ∷ []) = (a ∷ []) ∷ (b ∷ []) ∷ []
two_parts n other = other ∷ []

abbrev text : Line
text = 40 ∷ 100 ∷ 44 ∷ 102 ∷ 41 ∷ []

abbrev all_valid : ℕ → Bool
all_valid p = true

left_over : check_port_pair_config 13 all_valid (record { port0 = 0; port1 = 2 } ∷ []) ≡ some 5
unfolding check_port_pair_config check_pairs
left_over = refl

portmap-MapsBoth_example :
    MapsBoth read_char two_parts all_valid 13 4
      (0 ∷ 1 ∷ 2 ∷ 3 ∷ [])
      (cms_parse_port_pair_config read_char two_parts text)
portmap-MapsBoth_example =
    portmap-MapsBoth read_char two_parts all_valid 13 4 (0 ∷ 1 ∷ 2 ∷ 3 ∷ []) text
