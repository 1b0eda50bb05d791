-- ===== src/Mica/Loop/Tests.antt =====
-- A run of the polling loop of mica/main.c.
use queue_dpdk.Prelude.{false, true, none, [], ◌∷◌, refl}
use queue_dpdk.Poll.{Mode, Config, Stats, Reply, sweep}
use queue_dpdk.Mica.Loop.{Io, io_sweep}
use queue_dpdk.Mica.Loop.Same.{SameRun, io_sweep-SameRun}

abbrev zeroed : Stats
zeroed = record {
  n_bursts = 0;
  n_pkts = 0;
  spin_time = 0;
  spin_pkt = 0;
  empty = 0;
  measured_packets_rx = 0;
  port_rx = λ _ _. 0;
}

-- Queues 0 and 1 of a Shared lcore, with all policies.
abbrev lcore : Config
lcore = record {
  mode = Mode.shared;
  aggressive = true;
  penalty = 2;
  latency_mode = true;
  latency_period = 1;
  latency_queue = 1;
  queue_start = 0;
  queue_end = 2;
  tx_queueid = 3;
  rx_portid = 0;
  rx_queue_port = λ _. 0;
  rejects = λ _. false;
}

abbrev start : Io
start = record {
  sweep = record {
    i = 0;
    resume_i = none;
    latency_count = 0;
    inject_queue = true;
    max_loops = 100;
    hit = λ _. 2;
    tx_batch = [];
    after_warmup = false;
    stats = zeroed;
  };
  skip_count = 0;
}

abbrev two : Reply
two = record { locked = true; burst = 3 ∷ 7 ∷ []; stop = false; nb_tx = 1 }

io_sweep-SameRun_example :
    SameRun
      (io_sweep lcore (two ∷ two ∷ two ∷ []) start)
      (sweep lcore (two ∷ two ∷ two ∷ []) start.sweep)
io_sweep-SameRun_example = io_sweep-SameRun lcore (two ∷ two ∷ two ∷ []) start (λ q. refl)
