-- ===== src/Burst/Tests.antt =====
-- Bursts through the small flow table, with a small hash function.
use Prim.Native.String.{String}
use text.Mathlib.Text.{◌==◌ as str_eq}
use queue_dpdk.Prelude.{
  ℕ, ◌+◌, ◌*◌, ◌≡◌, true, false, refl, arith, [], ◌∷◌, ◌++◌, map, if◌then◌else◌,
}
use queue_dpdk.Poll.{Mode}
use queue_dpdk.Magic.{UdpPacket, load_u32, be_16, store_u32, fill, check_packet_magic}
use queue_dpdk.Sketch.{FiveTuple, count_all}
use queue_dpdk.Translate.Simple.{simple, simple-Contracts, config, table, table-IsCoherent}
use queue_dpdk.Translate.Coherent.{IsCoherent}
use queue_dpdk.Burst.{Arrival, Core, frame_of, nf_process_burst}
use queue_dpdk.Burst.Cut.{nf_process_burst-cut, cms-nf_process_burst}
use queue_dpdk.Burst.Keeps.{nf_process_burst-IsCoherent}

abbrev addresses : String → ℕ
addresses s = if str_eq s "192.168.0.1" then 16820416 else 16885952

abbrev mix : FiveTuple → ℕ → ℕ
mix k i = k.src_ip + i * k.src_port

-- Host 10 sends from port 5000 to port 80 of host 99.
abbrev datagram : UdpPacket
datagram = record {
  d_addr = 1;
  s_addr = 2;
  ether_type = 8;
  version_ihl = 69;
  total_length = be_16 50;
  time_to_live = 64;
  next_proto_id = 17;
  src_addr = 10;
  dst_addr = 99;
  src_port = be_16 5000;
  dst_port = be_16 80;
  dgram_len = be_16 30;
  payload = λ _. 0;
}

abbrev stop_packet : UdpPacket
stop_packet = record datagram {
  src_addr = 16820416;
  dst_addr = 16885952;
  src_port = be_16 1234;
  dst_port = be_16 1028;
  payload = store_u32 (fill 22 (λ _. 0)) 6 0x504f5453;
}

abbrev arrival : UdpPacket → Arrival
arrival p = record { packet = p; now = 7; junk_device = 0; junk_port = 0 }

abbrev core : Core simple
core = record { flow_manager = table; cms = λ _ _. 0 }

is_ordinary : check_packet_magic addresses datagram 0x504f5453 ≡ false
unfolding check_packet_magic load_u32 store_u32 fill
is_ordinary = refl

is_stop : check_packet_magic addresses stop_packet 0x504f5453 ≡ true
unfolding check_packet_magic load_u32 store_u32 fill
is_stop = refl

nf_process_burst-cut_example :
    ((nf_process_burst simple addresses mix Mode.single config 0 (arrival datagram ∷ []) core).0
      ≡ false)
    × (nf_process_burst simple addresses mix Mode.single config 0
          (arrival datagram ∷ arrival stop_packet ∷ arrival datagram ∷ [])
          core
        ≡ (
          true,
          (nf_process_burst simple addresses mix Mode.single config 0
                (arrival datagram ∷ [])
                core).1
              ++ (stop_packet ∷ datagram ∷ []),
          (nf_process_burst simple addresses mix Mode.single config 0
              (arrival datagram ∷ [])
              core).2,
        ))
nf_process_burst-cut_example =
    nf_process_burst-cut simple addresses mix Mode.single config 0 (arrival datagram ∷ [])
      (arrival datagram ∷ []) (arrival stop_packet) core (is_ordinary, tt) is_stop

cms-nf_process_burst_example :
    (nf_process_burst simple addresses mix Mode.single config 0 (arrival datagram ∷ []) core).2.cms
    ≡ count_all mix Mode.single
        (map frame_of
          (nf_process_burst simple addresses mix Mode.single config 0
            (arrival datagram ∷ [])
            core).1)
        (λ _ _. 0)
cms-nf_process_burst_example =
    cms-nf_process_burst simple addresses mix Mode.single config 0 (arrival datagram ∷ []) core
      (is_ordinary, tt)

nf_process_burst-IsCoherent_example :
    IsCoherent simple
      (nf_process_burst simple addresses mix Mode.single config 0
        (arrival datagram ∷ arrival stop_packet ∷ [])
        core).2.flow_manager
nf_process_burst-IsCoherent_example =
    nf_process_burst-IsCoherent simple simple-Contracts addresses mix Mode.single config 0
      (arrival datagram ∷ arrival stop_packet ∷ []) core (ground arith) table-IsCoherent
