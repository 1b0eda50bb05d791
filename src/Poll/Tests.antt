-- ===== src/Poll/Tests.antt =====
-- Runs of the polling loop of nf-chain/src/main.c on small inputs.
use queue_dpdk.Prelude.{
  if◌then◌else◌, All-replicate, replicate, ◌≡◌, refl, true, false, none, some, List, [], ◌∷◌, ◌==◌,
  arith, select, inr,
}
use queue_dpdk.Poll.{
  is_shared, Mode, Config, Stats, Sweep, Reply, finished, Event, polled, sent, freed, acl_freed,
  iteration, sweep, poll_queue, complete, serve, after_poll, settle, count_latency, count_spin,
  count_burst,
}
use queue_dpdk.Poll.Bounds.{RunIn, sweep-in}
use queue_dpdk.Poll.Termination.{Obtained, Ends, sweep-Ends}
use queue_dpdk.Poll.Baseline.{Visits, sweep-Visits}
use queue_dpdk.Poll.Penalty.{Tally, sweep-skips}
use queue_dpdk.Poll.Batch.{RunConserves, sweep-Conserves}
use queue_dpdk.Poll.Packets.{released, received}
use queue_dpdk.Poll.Shared.{GoesOn, diversion_comes_back}
use queue_dpdk.Poll.Rejected.{rejected, rejected_are_released}

abbrev zeroed : Stats
zeroed = record {
  n_bursts = 0;
  n_pkts = 0;
  spin_time = 0;
  spin_pkt = 0;
  empty = 0;
  measured_packets_rx = 0;
  port_rx = λ _ _. 0;
}

-- Three queues on a single core, Baseline; packet 7 is not a valid one.
abbrev baseline : Config
baseline = record {
  mode = Mode.single;
  aggressive = false;
  penalty = 0;
  latency_mode = false;
  latency_period = 4;
  latency_queue = 0;
  queue_start = 0;
  queue_end = 3;
  tx_queueid = 0;
  rx_portid = 0;
  rx_queue_port = λ _. 0;
  rejects = λ p. p == 7;
}

abbrev penalising : Config
penalising = record baseline { aggressive = true; penalty = 5 }

-- Queues 4 to 7 of a Shared lcore with all policies and latency queue 6.
abbrev full : Config
full = record penalising {
  mode = Mode.shared;
  latency_mode = true;
  latency_queue = 6;
  queue_end = 8;
}

abbrev start : Sweep
start = record {
  i = 0;
  resume_i = none;
  latency_count = 0;
  inject_queue = false;
  max_loops = 100;
  hit = λ _. 5;
  tx_batch = [];
  after_warmup = false;
  stats = zeroed;
}

abbrev quiet : Reply
quiet = record { locked = true; burst = []; stop = false; nb_tx = 0 }

abbrev two : Reply
two = record { locked = true; burst = 3 ∷ 7 ∷ []; stop = false; nb_tx = 1 }

abbrev refused : Reply
refused = record quiet { locked = false }

abbrev three : List Reply
three = two ∷ quiet ∷ quiet ∷ []

-- The second packet of the burst is freed by the ACL stage, and then by the TX path.
abbrev single_events : List Event
single_events =
    polled 0 0 (3 ∷ 7 ∷ [])
    ∷ acl_freed (7 ∷ [])
    ∷ sent 0 (3 ∷ [])
    ∷ freed (7 ∷ [])
    ∷ polled 0 1 []
    ∷ acl_freed []
    ∷ polled 0 2 []
    ∷ acl_freed []
    ∷ []

single_end : Sweep
unfolding sweep iteration poll_queue complete serve after_poll settle count_latency count_spin
    count_burst
single_end = elim (sweep baseline three start) [ finished es s rs ↦ s | _ ↦ start ]

single_run : sweep baseline three start ≡ finished single_events single_end []
unfolding single_end
single_run = refl

rejected_are_released_example :
    (released single_events ≡ received single_events)
    × (rejected single_events ≡ select baseline.rejects (released single_events))
rejected_are_released_example =
    rejected_are_released baseline three [] start single_end single_events refl refl single_run

sweep-in_example : RunIn full (
    sweep full
      (two ∷ refused ∷ quiet ∷ [])
      (record start { inject_queue = true; latency_count = 3 }))
sweep-in_example =
    sweep-in full (two ∷ refused ∷ quiet ∷ [])
      (record start { inject_queue = true; latency_count = 3 }) (omega arith) (omega arith)

abbrev at_last : Sweep
at_last = record start { i = 2; max_loops = 0 }

sweep-Ends_example : Ends (sweep baseline (replicate 202 two) at_last)
sweep-Ends_example =
    sweep-Ends baseline (replicate 202 two) at_last (All-replicate (Obtained baseline) 202 two refl)
      refl (omega arith)

sweep-Visits_example : Visits baseline (0 ∷ 1 ∷ 2 ∷ []) (sweep baseline three start)
sweep-Visits_example =
    sweep-Visits baseline 3 three start
      (record { no_aggressive = refl; no_penalty = refl; no_latency = refl })
      ((refl, refl), ((refl, refl), ((refl, refl), tt))) refl (omega arith)

abbrev penalised : Sweep
penalised = record start { hit = λ q. if q == 1 then 2 else 5 }

sweep-skips_example : Tally penalising 1 1 3 (sweep penalising three penalised)
sweep-skips_example =
    sweep-skips penalising 1 three penalised (inr refl) refl (omega arith) (omega arith)
      (omega arith) (omega arith)

sweep-Conserves_example : RunConserves full [] (sweep full three start)
sweep-Conserves_example = sweep-Conserves full three start (λ e. refl)

abbrev start' : Sweep
start' = record start { inject_queue = true }

diversion_comes_back_example :
    (is_shared full.mode ≡ true
      → two.locked ≡ true
      → two.stop ≡ false
      → GoesOn 0 none (iteration full two start'))
    × (is_shared full.mode ≡ false → two.stop ≡ false → GoesOn 0 none (iteration full two start'))
    × (is_shared full.mode ≡ true
        → two.locked ≡ false
        → GoesOn 7 (some 0) (iteration full two start'))
diversion_comes_back_example =
    diversion_comes_back full two start'
      (record { latency = refl; in_slice = refl; injected = refl; unpenalised = omega arith })
