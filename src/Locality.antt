-- ===== src/Locality.antt =====
-- locality/main.c, `cms_main_loop`: one sweep over the ports and queues of the lcore, which prints the
-- flow of each packet for locality-bench.py.
pub mod Trace
pub mod Pairs
pub mod Cores
pub mod Config
mod Tests
use queue_dpdk.Prelude.{
  ℕ, zero, suc, ◌+◌, Bool, true, false, not, ◌||◌, List, [], ◌∷◌, ◌++◌, ltb, ◌==◌, if◌then◌else◌,
  length, update, u64,
}
use queue_dpdk.Sketch.{Frame, FiveTuple}

-- A packet buffer, known by its address, and the header fields that are read of it.
pub record RxPkt : Type 0 where
  pub mbuf : ℕ
  pub frame : Frame

-- A line of the trace, and a packet buffer given back.
pub data Did : Type 0 where
  printed : (burst_id queue : ℕ) (flow : FiveTuple) → Did
  freed : (mbuf : ℕ) → Did

-- What outlives a burst, each a uint64_t. The two sums that are doubles are left out.
pub record Totals : Type 0 where
  pub rx : ℕ → ℕ → ℕ  -- `port_statistics[portid][q].rx`
  pub burst_id : ℕ
  pub global_flow_blocks : ℕ
  pub global_packets : ℕ
  pub global_max_locality : ℕ
  pub total_bursts : ℕ

-- What a burst starts with. The code that changes these is commented out.
pub record Blocks : Type 0 where
  pub locality_factor : ℕ
  pub total_locality : ℕ
  pub flow_blocks : ℕ
  pub max_locality_factor : ℕ
  pub first_packet : Bool

abbrev pub no_blocks : Blocks
no_blocks = record {
  locality_factor = 0;
  total_locality = 0;
  flow_blocks = 0;
  max_locality_factor = 0;
  first_packet = true;
}

-- The five-tuple of a packet of TCP or UDP.
abbrev pub flow_of : Frame → FiveTuple
flow_of f = record {
  src_ip = f.src_addr;
  dst_ip = f.dst_addr;
  src_port = f.l4_src_port;
  dst_port = f.l4_dst_port;
  proto = f.next_proto_id;
}

-- A packet that is not IPv4, or neither TCP nor UDP, is given back unprinted.
pub handle : ℕ → ℕ → RxPkt → List Did
handle burst_id q m =
    if not (m.frame.ether_type == 0x0800)
    then freed m.mbuf ∷ []
    else if m.frame.next_proto_id == 6 || m.frame.next_proto_id == 17
    then printed burst_id q (flow_of m.frame) ∷ freed m.mbuf ∷ []
    else freed m.mbuf ∷ []

pub handle_burst : ℕ → ℕ → List RxPkt → List Did
handle_burst burst_id q [] = []
handle_burst burst_id q (m ∷ ms) = handle burst_id q m ++ handle_burst burst_id q ms

-- The last block of a burst.
abbrev pub close_blocks : Blocks → Blocks
close_blocks b =
    if not b.first_packet
    then record b {
      total_locality = u64 (b.total_locality + b.locality_factor);
      flow_blocks = u64 (b.flow_blocks + 1);
    }
    else b

-- One poll of a queue, with what it receives.
pub poll_burst : ℕ → ℕ → List RxPkt → Totals → List Did × Totals
poll_burst portid q pkts s =
    let b = close_blocks no_blocks in
    (
      handle_burst s.burst_id q pkts,
      record {
        rx = update s.rx portid (update (s.rx portid) q (u64 (s.rx portid q + length pkts)));
        burst_id = u64 (s.burst_id + 1);
        global_flow_blocks = u64 (s.global_flow_blocks + b.flow_blocks);
        global_packets = u64 (s.global_packets + length pkts);
        global_max_locality =
            if ltb s.global_max_locality b.max_locality_factor
            then b.max_locality_factor
            else s.global_max_locality;
        total_bursts = u64 (s.total_bursts + 1);
      },
    )

-- `received` is what `rte_eth_rx_burst` gives for a port and a queue in this sweep. The queues from
-- `q` on, with `n` to go.
pub poll_queues : (ℕ → ℕ → List RxPkt) → ℕ → ℕ → ℕ → Totals → List Did × Totals
poll_queues received portid q zero s = ([], s)
poll_queues received portid q (suc n) s =
    let one = poll_burst portid q (received portid q) s in
    let rest = poll_queues received portid (q + 1) n one.1 in (one.0 ++ rest.0, rest.1)

pub poll_ports : (ℕ → ℕ → List RxPkt) → ℕ → List ℕ → Totals → List Did × Totals
poll_ports received cms_rx_queue_per_lcore [] s = ([], s)
poll_ports received cms_rx_queue_per_lcore (portid ∷ ports) s =
    let one = poll_queues received portid 0 cms_rx_queue_per_lcore s in
    let rest = poll_ports received cms_rx_queue_per_lcore ports one.1 in (one.0 ++ rest.0, rest.1)
