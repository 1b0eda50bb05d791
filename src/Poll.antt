-- ===== src/Poll.antt =====
-- nf-chain/src/main.c, `poll_loop`: one iteration of the sweep over the RX queues, and the sweep.
pub mod Frame
pub mod Bounds
pub mod Termination
pub mod Spends
pub mod Visits
pub mod Reaches
pub mod Baseline
pub mod Penalty
pub mod Batch
pub mod Packets
pub mod Shared
pub mod Rejected
mod Tests
use mathlib.Core.Option
use queue_dpdk.Prelude.{
  ℕ, ◌+◌, ◌-◌, ◌/◌, Bool, true, false, not, ◌&&◌, Option, none, some, List, [], ◌∷◌, ◌++◌, ltb, leb,
  ◌==◌, if◌then◌else◌, length, take, drop, update, select, u32, u64,
}

-- `enum qflow_mode`
pub data Mode : Type 0 where
  single partitioned shared : Mode

abbrev pub is_single : Mode → Bool
is_single single = true
is_single _ = false

abbrev pub is_partitioned : Mode → Bool
is_partitioned partitioned = true
is_partitioned _ = false

abbrev pub is_shared : Mode → Bool
is_shared shared = true
is_shared _ = false

-- A packet buffer is known by its address.
abbrev pub Mbuf : Type 0
Mbuf = ℕ

abbrev pub max_pkt_burst : ℕ
max_pkt_burst = 32

abbrev pub tx_batch_size : ℕ
tx_batch_size = 512

abbrev pub max_consecutive_polls : ℕ
max_consecutive_polls = 100

abbrev pub max_rx_queue_per_lcore : ℕ
max_rx_queue_per_lcore = 2048

-- What a run of the loop keeps fixed: the policy, and the lcore's slice of queues.
pub record Config : Type 0 where
  pub mode : Mode
  pub aggressive : Bool
  pub penalty : ℕ  -- uint32_t, 0 disables Penalty
  pub latency_mode : Bool
  pub latency_period : ℕ  -- int, as its 32 bits; `latency_count` is one too
  pub latency_queue : ℕ
  pub queue_start : ℕ
  pub queue_end : ℕ
  pub tx_queueid : ℕ
  pub rx_portid : ℕ
  pub rx_queue_port : ℕ → ℕ  -- `qconf->rx_queue_list[i].port_id`
  pub rejects : Mbuf → Bool  -- the packets that `prepare_one_packet` frees

-- The statistics that only a single core keeps; the first five are uint32_t, the rest uint64_t.
pub record Stats : Type 0 where
  pub n_bursts : ℕ
  pub n_pkts : ℕ
  pub spin_time : ℕ
  pub spin_pkt : ℕ
  pub empty : ℕ
  pub measured_packets_rx : ℕ
  pub port_rx : ℕ → ℕ → ℕ  -- `port_statistics[portid][i].rx`

-- The variables of the loop. `resume_i` is -1 as `none`; `tx_total` is the length of `tx_batch`.
pub record Sweep : Type 0 where
  pub i : ℕ
  pub resume_i : Option ℕ
  pub latency_count : ℕ
  pub inject_queue : Bool
  pub max_loops : ℕ
  pub hit : ℕ → ℕ
  pub tx_batch : List Mbuf
  pub after_warmup : Bool
  pub stats : Stats

-- What the environment answers in one iteration: the trylock, the received burst, whether
-- `nf_process_burst` met the stop packet, and how many packets `rte_eth_tx_burst` takes.
pub record Reply : Type 0 where
  pub locked : Bool
  pub burst : List Mbuf
  pub stop : Bool
  pub nb_tx : ℕ

-- What an iteration does to the device and the packet buffers. `freed` are the packets that the
-- device does not take, `acl_freed` those that `prepare_acl_parameter` rejects.
pub data Event : Type 0 where
  skipped : (q : ℕ) → Event
  busy : (q : ℕ) → Event
  polled : (port q : ℕ) (pkts : List Mbuf) → Event
  sent : (txq : ℕ) (pkts : List Mbuf) → Event
  freed : (pkts : List Mbuf) → Event
  acl_freed : (pkts : List Mbuf) → Event

abbrev pub has_latency_queue : Config → Bool
has_latency_queue c = leb c.queue_start c.latency_queue && ltb c.latency_queue c.queue_end

-- `rte_eth_tx_burst` on `pkts`, and `rte_pktmbuf_free` of those that it did not take.
abbrev pub transmit : ℕ → List Mbuf → ℕ → List Event
transmit txq pkts nb_tx = sent txq (take nb_tx pkts) ∷ freed (drop nb_tx pkts) ∷ []

-- The diversion to the latency queue, before the poll.
abbrev pub divert : Config → Sweep → Sweep
divert c s =
    if c.latency_mode && (has_latency_queue c && s.inject_queue)
    then record s { resume_i = some s.i; i = c.latency_queue; inject_queue = false }
    else s

-- The `tx_batch` of a multicore sweep: flushed early if the burst does not fit.
abbrev pub batch_tx : Config → List Mbuf → Reply → List Event × List Mbuf
batch_tx c batch r =
    if ltb tx_batch_size (length batch + length r.burst)
    then (transmit c.tx_queueid batch r.nb_tx, r.burst)
    else ([], batch ++ r.burst)

-- Whether the poll of `s.i` was the latency poll.
abbrev pub is_latency_poll : Config → Sweep → Bool
is_latency_poll c s = elim s.resume_i [
  | none ↦ false
  | some _ ↦ c.latency_mode && (has_latency_queue c && (s.i == c.latency_queue))
]

abbrev pub poll_port : Config → ℕ → ℕ
poll_port c q = if is_single c.mode then c.rx_queue_port q else c.rx_portid

-- `n_bursts++; n_pkts += nb_rx;` of a single core.
unfoldable pub count_burst : Config → ℕ → Sweep → Sweep
count_burst c nb_rx s =
    let t = s.stats in
    if is_single c.mode
    then record s {
      stats = record t { n_bursts = u32 (t.n_bursts + 1); n_pkts = u32 (t.n_pkts + nb_rx) };
    }
    else s

-- The received burst goes out at once on a single core, and into the batch otherwise.
unfoldable pub serve : Config → Reply → Sweep → List Event × Sweep
serve c r s =
    let nb_rx = length r.burst in
    let t = s.stats in
    let port = poll_port c s.i in
    if ltb 0 nb_rx
    then if is_single c.mode
      then (
        transmit 0 r.burst r.nb_tx,
        record s {
          stats = record t {
            port_rx =
                update t.port_rx port
                  (update (t.port_rx port) s.i (u64 (t.port_rx port s.i + nb_rx)));
            measured_packets_rx =
                if s.after_warmup
                then u64 (t.measured_packets_rx + nb_rx)
                else t.measured_packets_rx;
          };
        },
      )
      else ((batch_tx c s.tx_batch r).0, record s { tx_batch = (batch_tx c s.tx_batch r).1 })
    else ([], s)

-- A regular poll of another queue brings the next latency poll nearer.
unfoldable pub count_latency : Config → Sweep → Sweep
count_latency c s =
    if c.latency_mode && (has_latency_queue c && not (s.i == c.latency_queue))
    then if (s.latency_count + 1) == c.latency_period
      then record s { latency_count = 0; inject_queue = true }
      else record s { latency_count = s.latency_count + 1 }
    else s

-- Penalty and Aggressive, and the `++i` of the loop: `i--` and then `++i` stays at the queue.
unfoldable pub settle : Config → ℕ → ℕ → Sweep → Sweep
settle c qi nb_rx s =
    let slot = if is_partitioned c.mode then qi else s.i in
    let hit' =
      if ltb 0 c.penalty && (s.max_loops == max_consecutive_polls)
      then update s.hit slot (if ltb (max_pkt_burst / 2) nb_rx then c.penalty else 0)
      else s.hit in
    if c.aggressive && ((nb_rx == max_pkt_burst) && ltb 0 s.max_loops)
    then record s { hit = hit'; max_loops = s.max_loops - 1 }
    else record s { hit = hit'; max_loops = max_consecutive_polls; i = s.i + 1 }

-- After a latency poll `i = resume_i - 1`, and the `++i` of the loop goes on at `resume_i`.
unfoldable pub after_poll : Config → ℕ → ℕ → Sweep → Sweep
after_poll c qi nb_rx s =
    if is_latency_poll c s
    then record s { i = Option.get_or s.resume_i 0; resume_i = none }
    else settle c qi nb_rx (count_latency c s)

-- `spin_time`, `spin_pkt` and `empty` of a single core.
unfoldable pub count_spin : Config → ℕ → Sweep → Sweep
count_spin c nb_rx s =
    let t = s.stats in
    if is_single c.mode
    then record s {
      stats = record t {
        spin_time = if ltb nb_rx max_pkt_burst then u32 (t.spin_time + 1) else t.spin_time;
        spin_pkt = u32 (t.spin_pkt + nb_rx);
        empty = if nb_rx == 0 then u32 (t.empty + 1) else t.empty;
      };
    }
    else s

-- `next` goes on with the loop, `stopped` is the `return 0` on the stop packet.
pub data Outcome : Type 0 where
  next : List Event → Sweep → Outcome
  stopped : List Event → Sweep → Outcome

-- What follows a burst that did not hold the stop packet.
unfoldable pub complete : Config → Reply → ℕ → Sweep → Sweep
complete c r qi s = count_spin c (length r.burst) (after_poll c qi (length r.burst) (serve c r s).1)

-- From the trylock on, with `qi` taken before the diversion.
unfoldable pub poll_queue : Config → Reply → ℕ → Sweep → Outcome
poll_queue c r qi s =
    let seen = count_burst c (length r.burst) s in
    let got = polled (poll_port c s.i) s.i r.burst in
    let rejected = acl_freed (select c.rejects r.burst) in
    if is_shared c.mode && not r.locked
    then next (busy s.i ∷ []) (record s { i = s.i + 1 })
    else if ltb 0 (length r.burst) && r.stop
    then stopped (got ∷ rejected ∷ []) seen
    else next (got ∷ rejected ∷ (serve c r seen).0) (complete c r qi seen)

-- One iteration of the loop over the queues.
unfoldable pub iteration : Config → Reply → Sweep → Outcome
iteration c r s =
    let qi = s.i - c.queue_start in
    if ltb 0 c.penalty && ltb (s.hit qi) c.penalty
    then next (skipped s.i ∷ []) (record s { i = s.i + 1; hit = update s.hit qi (s.hit qi + 1) })
    else poll_queue c r qi (divert c s)

-- The whole sweep. Each iteration takes one reply; `starved` says that the replies ran out.
pub data Run : Type 0 where
  finished : List Event → Sweep → List Reply → Run
  halted : List Event → Sweep → Run
  starved : List Event → Sweep → Run

abbrev pub log : List Event → Run → Run
log es (finished fs s rs) = finished (es ++ fs) s rs
log es (halted fs s) = halted (es ++ fs) s
log es (starved fs s) = starved (es ++ fs) s

-- The rest of the sweep after one iteration.
abbrev pub chain : Outcome → (Sweep → Run) → Run
chain (next es s) rest = log es (rest s)
chain (stopped es s) rest = halted es s

pub sweep : Config → List Reply → Sweep → Run
sweep c [] s = if ltb s.i c.queue_end then starved [] s else finished [] s []
sweep c (r ∷ rs) s = elim (ltb s.i c.queue_end) [
  | true ↦ chain (iteration c r s) (sweep c rs)
  | false ↦ finished [] s (r ∷ rs)
]
