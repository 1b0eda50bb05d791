-- ===== src/Burst/Cut.antt =====
-- nf-chain/src/main.c, `nf_process_burst`: the stop packet, and what the sketch has counted.
use Prim.Native.String.{String}
use queue_dpdk.Prelude.{ℕ, ◌≡◌, ◌∙◌, sym, refl, true, false, List, [], ◌∷◌, ◌++◌, map, All}
use queue_dpdk.Poll.{Mode}
use queue_dpdk.Magic.{check_packet_magic}
use queue_dpdk.Sketch.{FiveTuple, count_all}
use queue_dpdk.Sketch.Counts.{count_all-nil, count_all-cons}
use queue_dpdk.Translate.Containers.{Tables}
use queue_dpdk.Translate.{NfConfig}
use queue_dpdk.Burst.{Arrival, Core, frame_of, stop_magic, process_packet, nf_process_burst}

module _ (T : Tables) (inet_addr : String → ℕ) (xxhash64 : FiveTuple → ℕ → ℕ) (mode : Mode)
    (config : NfConfig) (portid : ℕ) where
  abbrev pub IsOrdinary : Arrival → Type 0
  IsOrdinary a = check_packet_magic inet_addr a.packet stop_magic ≡ false

  -- A stop packet ends a burst where it stands: the packets before it are processed as if they were
  -- the whole burst, and it and those behind it are left as they came.
  pub nf_process_burst-cut :
      (before after : List Arrival) (a : Arrival) (s : Core T)
      → All IsOrdinary before
      → check_packet_magic inet_addr a.packet stop_magic ≡ true
      → (nf_process_burst T inet_addr xxhash64 mode config portid before s).0 ≡ false
        × (nf_process_burst T inet_addr xxhash64 mode config portid (before ++ (a ∷ after)) s ≡ (
          true,
          (nf_process_burst T inet_addr xxhash64 mode config portid before s).1
              ++ map (λ b. b.packet) (a ∷ after),
          (nf_process_burst T inet_addr xxhash64 mode config portid before s).2,
        ))
  unfolding nf_process_burst
  nf_process_burst-cut [] after a s o e = (refl, rw e)
  nf_process_burst-cut (b ∷ before) after a s o e =
      let one = process_packet T inet_addr xxhash64 mode config portid b s in
      let ih = nf_process_burst-cut before after a one.1 o.1 e in (rw (o.0) ih.0, rw (o.0, ih.1))

  -- A burst without a stop packet counts each packet once, in order, under the header with which it
  -- leaves the NAT.
  pub cms-nf_process_burst :
      (burst : List Arrival) (s : Core T)
      → All IsOrdinary burst
      → (nf_process_burst T inet_addr xxhash64 mode config portid burst s).2.cms
        ≡ count_all xxhash64 mode
            (map frame_of (nf_process_burst T inet_addr xxhash64 mode config portid burst s).1)
            s.cms
  unfolding nf_process_burst process_packet
  cms-nf_process_burst [] s o = sym (count_all-nil xxhash64 mode s.cms)
  cms-nf_process_burst (b ∷ burst) s o =
      let one = process_packet T inet_addr xxhash64 mode config portid b s in
      rw (o.0) (
        cms-nf_process_burst burst one.1 o.1
        ∙ sym (
            count_all-cons xxhash64 mode (frame_of one.0)
              (map frame_of
                (nf_process_burst T inet_addr xxhash64 mode config portid burst one.1).1)
              s.cms))
