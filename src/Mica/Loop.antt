-- ===== src/Mica/Loop.antt =====
-- mica/main.c, `poll_loop`: an iteration of the loop over the RX queues, and the loop. The events,
-- the policy and the variables that it has in common with nf-chain are those of Poll.
pub mod Conserve
pub mod Same
mod Tests
use queue_dpdk.Prelude.{
  ℕ, ◌+◌, ◌-◌, ◌*◌, ◌/◌, Bool, true, false, not, ◌&&◌, Option, none, some, List, [], ◌∷◌, ◌++◌, ltb,
  ◌==◌, if◌then◌else◌, length, update, u32, u64,
}
use queue_dpdk.Poll.{
  Config, Sweep, Reply, Event, Mbuf, skipped, busy, polled, transmit, is_single, is_shared,
  is_partitioned, has_latency_queue, max_pkt_burst, tx_batch_size, max_consecutive_polls,
}

-- The variables of the loop, with the `skip_count` that nf-chain does not have.
pub record Io : Type 0 where
  pub sweep : Sweep
  pub skip_count : ℕ  -- uint32_t

-- `goes` is the end of an iteration, `breaks` the `break` on the stop packet.
pub data Turn : Type 0 where
  goes : List Event → Io → Turn
  breaks : List Event → Io → Turn

-- A queue below its penalty is passed over.
pub pass_over : Config → Io → Turn
pass_over c s =
    let w = s.sweep in
    let qi = w.i - c.queue_start in
    goes (skipped w.i ∷ []) (record {
      sweep = record w { i = w.i + 1; hit = update w.hit qi (w.hit qi + 1) };
      skip_count = if is_single c.mode then u32 (s.skip_count + 1) else s.skip_count;
    })

-- The latency queue in place of the queue whose turn it is.
pub inject : Config → Sweep → Sweep
inject c w =
    if c.latency_mode
    then if has_latency_queue c && w.inject_queue
      then record w { resume_i = some w.i; inject_queue = false; i = c.latency_queue }
      else w
    else w

-- `n_bursts++` and `n_pkts += nb_rx` of a single core.
pub count_rx : Config → ℕ → Sweep → Sweep
count_rx c nb_rx w =
    let t = w.stats in
    if is_single c.mode
    then record w {
      stats = record t { n_bursts = u32 (t.n_bursts + 1); n_pkts = u32 (t.n_pkts + nb_rx) };
    }
    else w

-- The TX of a single core, and its count of the packets by port and queue.
pub tx_now : Config → Reply → Sweep → List Event × Sweep
tx_now c r w =
    let t = w.stats in
    let nb_rx = length r.burst in
    (
      transmit 0 r.burst r.nb_tx,
      record w {
        stats = record t {
          port_rx =
              update t.port_rx c.rx_portid
                (update (t.port_rx c.rx_portid) w.i (u64 (t.port_rx c.rx_portid w.i + nb_rx)));
          measured_packets_rx =
              if w.after_warmup then u64 (t.measured_packets_rx + nb_rx) else t.measured_packets_rx;
        };
      },
    )

-- The burst joins the batch of a multicore sweep, which goes out first if it has no room.
pub tx_later : Config → Reply → Sweep → List Event × Sweep
tx_later c r w =
    if ltb tx_batch_size (length w.tx_batch + length r.burst)
    then (transmit c.tx_queueid w.tx_batch r.nb_tx, record w { tx_batch = r.burst })
    else ([], record w { tx_batch = w.tx_batch ++ r.burst })

pub respond : Config → Reply → Sweep → List Event × Sweep
respond c r w = if is_single c.mode then tx_now c r w else tx_later c r w

-- `latency_poll`, and the state after the block that sets it: `i` is where the sweep goes on, so
-- that the `resume_i - 1` of a latency poll and the `++i` of the loop are one.
pub latency_turn : Config → Sweep → Bool × Sweep
latency_turn c w =
    if not (c.latency_mode && has_latency_queue c)
    then (false, w)
    else if not (w.i == c.latency_queue)
    then if (w.latency_count + 1) == c.latency_period
      then (false, record w { latency_count = 0; inject_queue = true })
      else (false, record w { latency_count = w.latency_count + 1 })
    else elim w.resume_i [
      | none ↦ (false, w)
      | some q ↦ (true, record w { i = q; resume_i = none })
    ]

-- Penalty: a queue is left alone for `penalty` sweeps unless its burst was more than half full.
pub penalise : Config → ℕ → ℕ → Sweep → Sweep
penalise c qi nb_rx w =
    if ltb 0 c.penalty && (w.max_loops == max_consecutive_polls)
    then record w {
      hit =
          update w.hit (if is_partitioned c.mode then qi else w.i)
            (if ltb (max_pkt_burst / 2) nb_rx then c.penalty else 0);
    }
    else w

-- Aggressive: a full burst is followed by another poll of the same queue; with the `++i`.
pub insist : Config → ℕ → Sweep → Sweep
insist c nb_rx w =
    if c.aggressive && ((nb_rx == max_pkt_burst) && ltb 0 w.max_loops)
    then record w { max_loops = w.max_loops - 1 }
    else record w { max_loops = max_consecutive_polls; i = w.i + 1 }

pub policy_turn : Config → ℕ → ℕ → Sweep → Sweep
policy_turn c qi nb_rx w =
    let turn = latency_turn c w in
    if turn.0 then turn.1 else insist c nb_rx (penalise c qi nb_rx turn.1)

-- `spin_time`, `spin_pkt` and `empty` of a single core.
pub count_idle : Config → ℕ → Sweep → Sweep
count_idle c nb_rx w =
    let t = w.stats in
    let late = if ltb nb_rx max_pkt_burst then u32 (t.spin_time + 1) else t.spin_time in
    let none_seen = if nb_rx == 0 then u32 (t.empty + 1) else t.empty in
    if not (is_single c.mode) then w else record w {
      stats = record t { spin_time = late; spin_pkt = u32 (t.spin_pkt + nb_rx); empty = none_seen };
    }

-- From the trylock on; `stop` of the reply says whether `mica_process_burst` returns 1.
pub io_poll : Config → Reply → ℕ → Io → Turn
io_poll c r qi s =
    let nb_rx = length r.burst in
    let w = s.sweep in
    let seen = count_rx c nb_rx w in
    let got = polled c.rx_portid w.i r.burst in
    if is_shared c.mode && not r.locked
    then goes (busy w.i ∷ []) (record s { sweep = record w { i = w.i + 1 } })
    else if not (ltb 0 nb_rx)
    then goes (got ∷ []) (record s { sweep = count_idle c nb_rx (policy_turn c qi nb_rx seen) })
    else if r.stop
    then breaks (got ∷ []) (record s { sweep = seen })
    else goes (got ∷ (respond c r seen).0)
        (record s { sweep = count_idle c nb_rx (policy_turn c qi nb_rx (respond c r seen).1) })

pub io_iteration : Config → Reply → Io → Turn
io_iteration c r s =
    let qi = s.sweep.i - c.queue_start in
    if ltb 0 c.penalty && ltb (s.sweep.hit qi) c.penalty
    then pass_over c s
    else io_poll c r qi (record s { sweep = inject c s.sweep })

-- The sweep: `broken` says that the stop packet has set `force_quit`, `lacking` that the replies
-- ran out.
pub data IoRun : Type 0 where
  swept : List Event → Io → List Reply → IoRun
  broken : List Event → Io → IoRun
  lacking : List Event → Io → IoRun

abbrev pub io_log : List Event → IoRun → IoRun
io_log es (swept fs s rs) = swept (es ++ fs) s rs
io_log es (broken fs s) = broken (es ++ fs) s
io_log es (lacking fs s) = lacking (es ++ fs) s

abbrev pub io_chain : Turn → (Io → IoRun) → IoRun
io_chain (goes es s) rest = io_log es (rest s)
io_chain (breaks es s) rest = broken es s

pub io_sweep : Config → List Reply → Io → IoRun
io_sweep c [] s = if ltb s.sweep.i c.queue_end then lacking [] s else swept [] s []
io_sweep c (r ∷ rs) s = elim (ltb s.sweep.i c.queue_end) [
  | true ↦ io_chain (io_iteration c r s) (io_sweep c rs)
  | false ↦ swept [] s (r ∷ rs)
]
