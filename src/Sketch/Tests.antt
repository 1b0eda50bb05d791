-- ===== src/Sketch/Tests.antt =====
-- The sketch with a small hash function.
use queue_dpdk.Prelude.{ℕ, ◌+◌, ◌*◌, ◌≡◌, ◌≤◌, refl, arith, List, [], ◌∷◌}
use queue_dpdk.Poll.{single}
use queue_dpdk.Sketch.{Frame, FiveTuple, five_tuple, target_idx, count_rows, count_add, count_all}
use queue_dpdk.Sketch.Counts.{frames_with, is_of, falls_on, count_all-never_under}

abbrev mix : FiveTuple → ℕ → ℕ
mix k i = k.src_ip + i * k.src_port

abbrev frame : ℕ → ℕ → Frame
frame ip port = record {
  ether_type = 0x0800;
  src_addr = ip;
  dst_addr = 99;
  next_proto_id = 17;
  l4_src_port = port;
  l4_dst_port = 53;
}

abbrev flow : FiveTuple
flow = record { src_ip = 10; dst_ip = 99; src_port = 5000; dst_port = 53; proto = 17 }

-- Two frames of the flow, one of another, and one that is not IPv4.
abbrev frames : List Frame
frames =
    frame 10 5000
    ∷ frame 11 5000
    ∷ record (frame 10 5000) { ether_type = 0x86dd }
    ∷ frame 10 5000
    ∷ []

counted : count_all mix single frames (λ _ _. 0) 3 15010 ≡ 2
unfolding count_all count_add count_rows five_tuple target_idx
counted = refl

count_all-never_under_example :
    (count_all mix single frames (λ _ _. 0) 3 (target_idx mix single flow 3)
      ≡ frames_with (falls_on mix single 3 (target_idx mix single flow 3)) frames)
    × (frames_with (is_of flow) frames
        ≤ count_all mix single frames (λ _ _. 0) 3 (target_idx mix single flow 3))
count_all-never_under_example =
    count_all-never_under mix single flow 3 frames (omega arith) (omega arith)
