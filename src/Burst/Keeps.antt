-- ===== src/Burst/Keeps.antt =====
-- nf-chain/src/main.c, `nf_process_burst`: the flow table of the lcore stays coherent.
use Prim.Native.String.{String}
use queue_dpdk.Prelude.{ℕ, ◌≢◌, List, [], ◌∷◌, Bool-cases, inl, inr}
use queue_dpdk.Poll.{Mode}
use queue_dpdk.Magic.{check_packet_magic}
use queue_dpdk.Sketch.{FiveTuple}
use queue_dpdk.Translate.Containers.{Tables, Contracts}
use queue_dpdk.Translate.Coherent.{IsCoherent, nf_process-IsCoherent}
use queue_dpdk.Translate.{NfConfig}
use queue_dpdk.Burst.{
  Arrival, Core, packet_of, headers_of, stop_magic, process_packet, nf_process_burst,
}

module _ (T : Tables) (K : Contracts T) (inet_addr : String → ℕ) (xxhash64 : FiveTuple → ℕ → ℕ)
    (mode : Mode) (config : NfConfig) (portid : ℕ) where
  -- A burst from a port other than the WAN device, with or without a stop packet, leaves a flow
  -- table whose map, vector and allocator agree.
  pub nf_process_burst-IsCoherent :
      (burst : List Arrival) (s : Core T)
      → portid ≢ config.wan_device
      → IsCoherent T s.flow_manager
      → IsCoherent T
          (nf_process_burst T inet_addr xxhash64 mode config portid burst s).2.flow_manager
  unfolding nf_process_burst process_packet
  nf_process_burst-IsCoherent [] s ne v = v
  nf_process_burst-IsCoherent (a ∷ burst) s ne v =
      elim (Bool-cases (check_packet_magic inet_addr a.packet stop_magic)) [
        | inl e ↦ rw e v
        | inr e ↦ rw e (
            nf_process_burst-IsCoherent burst
              (process_packet T inet_addr xxhash64 mode config portid a s).1 ne
              (nf_process-IsCoherent T K config a.junk_device a.junk_port s.flow_manager
                (packet_of portid a.packet) (headers_of a.packet) a.now v (λ w. absurd (ne w))))
      ]
