-- ===== src/Params/Tests.antt =====
-- Parameters for two ports and two lcores.
use queue_dpdk.Prelude.{ℕ, ◌≡◌, refl, true, false, List, [], ◌∷◌, ltb}
use queue_dpdk.Params.{
  LcoreParams, highest_queue, get_port_n_rx_queues, check_lcore_params, check_port_config,
}

abbrev param : ℕ → ℕ → ℕ → LcoreParams
param port queue lcore = record { port_id = port; queue_id = queue; lcore_id = lcore }

abbrev params : List LcoreParams
params = param 0 0 2 ∷ param 0 1 3 ∷ param 1 0 2 ∷ []

accepted : check_lcore_params (λ l. ltb l 4) params ≡ true
unfolding check_lcore_params
accepted = refl

port_off : check_port_config 1 (λ p. ltb p 4) params ≡ false
unfolding check_port_config
port_off = refl

-- Queue 255 makes the count of queues wrap to 0.
wraps : get_port_n_rx_queues 0 (param 0 255 2 ∷ []) ≡ 0
unfolding get_port_n_rx_queues highest_queue
wraps = refl
