-- ===== src/Locality/Cores/Tests.antt =====
-- Three ports for two lcores.
use queue_dpdk.Prelude.{ℕ, ◌≡◌, refl, Bool, ◌||◌, IfSome, [], ◌∷◌, ◌==◌}
use queue_dpdk.Locality.Cores.{assign_ports, no_ports, next_lcore, take_port}
use queue_dpdk.Locality.Cores.Dealt.{Assigned, assign_ports-Dealt}

-- The lcores 1 and 3, with two ports each, and the ports 5, 6 and 8.
abbrev odd : ℕ → Bool
odd j = j == 1 || j == 3

nb_lcores_two :
    IfSome
      (λ s. (s.nb_lcores ≡ 2) × (s.rx_port_list 1 ≡ 5 ∷ 6 ∷ []) × (s.rx_port_list 3 ≡ 8 ∷ []))
      (assign_ports odd 2 (5 ∷ 6 ∷ 8 ∷ []) (no_ports 4))
unfolding assign_ports next_lcore take_port
nb_lcores_two = (refl, refl, refl)

assign_ports-Dealt_example :
    Assigned odd 2 4 (5 ∷ 6 ∷ 8 ∷ []) (assign_ports odd 2 (5 ∷ 6 ∷ 8 ∷ []) (no_ports 4))
assign_ports-Dealt_example = assign_ports-Dealt odd 2 4 (5 ∷ 6 ∷ 8 ∷ [])
