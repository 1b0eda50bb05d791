-- ===== src/Mica/Rounds/Tests.antt =====
-- Runs of the outer loop of mica/main.c on small inputs.
use queue_dpdk.Prelude.{false, true, none, [], ◌∷◌, refl, arith}
use queue_dpdk.Poll.{Mode, Config, Stats, Reply}
use queue_dpdk.Mica.Rounds.{Server, Pace, Round, serve_rounds, first_warmup}
use queue_dpdk.Mica.Rounds.Conserve.{ServingConserves, serve_rounds-Conserves}
use queue_dpdk.Mica.Rounds.Warmup.{Measures, warmup_end, serve_rounds-Measures}

abbrev zeroed : Stats
zeroed = record {
  n_bursts = 0;
  n_pkts = 0;
  spin_time = 0;
  spin_pkt = 0;
  empty = 0;
  measured_packets_rx = 0;
  port_rx = λ _ _. 0;
}

-- Queue 0 of a single core, and of a Shared lcore.
abbrev one_core : Config
one_core = record {
  mode = Mode.single;
  aggressive = false;
  penalty = 0;
  latency_mode = false;
  latency_period = 1;
  latency_queue = 1;
  queue_start = 0;
  queue_end = 1;
  tx_queueid = 0;
  rx_portid = 0;
  rx_queue_port = λ _. 0;
  rejects = λ _. false;
}

abbrev lcore : Config
lcore = record one_core { mode = Mode.shared; queue_end = 2 }

abbrev start : Server
start = record {
  io = record {
    sweep = record {
      i = 0;
      resume_i = none;
      latency_count = 0;
      inject_queue = false;
      max_loops = 100;
      hit = λ _. 2;
      tx_batch = [];
      after_warmup = false;
      stats = zeroed;
    };
    skip_count = 0;
  };
  prev_tsc = 0;
  timer_tsc = 0;
  warmup_time = 30;
  end_warmup = 0;
  end_time = 0;
  printed = 0;
  measured_tick = 0;
}

abbrev pace : Pace
pace = record { is_main = true; timer_period = 10; timer_hz = 10; start_time = 5 }

abbrev early : Round
early = record { force_quit = false; tsc = 20; nb_tx = 1; end_tsc = 21 }

abbrev warm : Round
warm = record { force_quit = false; tsc = 50; nb_tx = 1; end_tsc = 51 }

abbrev late : Round
late = record { force_quit = true; tsc = 90; nb_tx = 1; end_tsc = 91 }

abbrev two : Reply
two = record { locked = true; burst = 3 ∷ 7 ∷ []; stop = false; nb_tx = 1 }

abbrev last : Reply
last = record { locked = true; burst = 8 ∷ []; stop = true; nb_tx = 0 }

serve_rounds-Conserves_example :
    ServingConserves
      (serve_rounds lcore pace (early ∷ warm ∷ []) (two ∷ two ∷ two ∷ last ∷ []) start)
serve_rounds-Conserves_example =
    serve_rounds-Conserves lcore pace (early ∷ warm ∷ []) (two ∷ two ∷ two ∷ last ∷ []) start

serve_rounds-Measures_example :
    Measures
      (warmup_end pace 0)
      (early ∷ warm ∷ warm ∷ late ∷ [])
      (serve_rounds one_core pace (early ∷ warm ∷ warm ∷ late ∷ []) (two ∷ two ∷ two ∷ []) start)
unfolding first_warmup queue_dpdk.Mica.Rounds.stop_time
serve_rounds-Measures_example =
    serve_rounds-Measures one_core pace (early ∷ warm ∷ warm ∷ late ∷ []) (two ∷ two ∷ two ∷ [])
      start refl refl (omega arith)
