-- ===== src/Rounds/Tests.antt =====
-- Runs of the outer loop of nf-chain/src/main.c on small inputs.
use queue_dpdk.Prelude.{inl, All-replicate, replicate, refl, true, false, none, [], ◌∷◌, arith}
use queue_dpdk.Poll.{Mode, Config, Stats, Reply}
use queue_dpdk.Poll.Spends.{IsGood}
use queue_dpdk.Rounds.{Clock, Loop, Tick, rounds}
use queue_dpdk.Rounds.Conserve.{RoundsConserve, rounds-Conserves}
use queue_dpdk.Rounds.Served.{Served, rounds-Served}

abbrev zeroed : Stats
zeroed = record {
  n_bursts = 0;
  n_pkts = 0;
  spin_time = 0;
  spin_pkt = 0;
  empty = 0;
  measured_packets_rx = 0;
  port_rx = λ _ _. 0;
}

-- One lcore of two in Partitioned mode, with queue 0 and a penalty of 2.
abbrev lcore : Config
lcore = record {
  mode = Mode.partitioned;
  aggressive = true;
  penalty = 2;
  latency_mode = false;
  latency_period = 4;
  latency_queue = 0;
  queue_start = 0;
  queue_end = 1;
  tx_queueid = 0;
  rx_portid = 0;
  rx_queue_port = λ _. 0;
  rejects = λ _. false;
}

abbrev start : Loop
start = record {
  state = record {
    i = 0;
    resume_i = none;
    latency_count = 0;
    inject_queue = false;
    max_loops = 100;
    hit = λ _. 1;
    tx_batch = [];
    after_warmup = false;
    stats = zeroed;
  };
  prev_tsc = 0;
  timer_tsc = 0;
  warmup_time = 30;
  end_warmup = 0;
  end_time = 0;
  printed = 0;
  measured_tick = 0;
}

abbrev clock : Clock
clock = record { is_main = true; timer_period = 10; timer_hz = 10; start_time = 0; stop_time = 130 }

abbrev tick : Tick
tick = record { force_quit = false; tsc = 10; nb_tx = 1 }

abbrev two : Reply
two = record { locked = true; burst = 3 ∷ 7 ∷ []; stop = false; nb_tx = 1 }

rounds-Conserves_example :
    RoundsConserve (rounds lcore clock (tick ∷ tick ∷ []) (two ∷ two ∷ []) start)
rounds-Conserves_example = rounds-Conserves lcore clock (tick ∷ tick ∷ []) (two ∷ two ∷ []) start

two-IsGood : IsGood lcore two
two-IsGood = record { obtained = refl; going = refl }

rounds-Served_example : Served 0 (rounds lcore clock (tick ∷ tick ∷ []) (replicate 806 two) start)
rounds-Served_example =
    rounds-Served lcore clock 0 1 (tick ∷ tick ∷ []) (replicate 806 two) start (inl refl) refl
      (omega arith) (omega arith) (refl, (refl, tt))
      (All-replicate (IsGood lcore) 806 two two-IsGood) refl refl (omega arith) (omega arith)
