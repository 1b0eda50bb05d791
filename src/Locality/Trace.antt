-- ===== src/Locality/Trace.antt =====
-- locality/main.c, `cms_main_loop`: the trace is that of the packets received, each of which is given
-- back once.
use mathlib.Core.List.{map-append}
use mathlib.Core.Path.{subst}
use queue_dpdk.Prelude.{
  length-append, sym, ◌*◌, ℕ, zero, suc, ◌+◌, ◌^◌, ◌<◌, ◌≡◌, refl, ◌∙◌, ap, Bool, ◌&&◌, ◌||◌, List,
  [], ◌∷◌, ◌++◌, map, select, arith, ◌==◌, length, u64,
}
use queue_dpdk.Sketch.{FiveTuple}
use queue_dpdk.Locality.{
  poll_ports, poll_queues, poll_burst, RxPkt, Did, printed, freed, Totals, flow_of, handle,
  handle_burst,
}

-- The buffers given back, in order.
abbrev pub frees : List Did → List ℕ
frees [] = []
frees (freed m ∷ es) = m ∷ frees es
frees (printed b q flow ∷ es) = frees es

-- The lines of the trace, without the number of the burst.
abbrev pub lines : List Did → List (ℕ × FiveTuple)
lines [] = []
lines (freed m ∷ es) = lines es
lines (printed b q flow ∷ es) = (q, flow) ∷ lines es

frees-append : (es fs : List Did) → frees (es ++ fs) ≡ frees es ++ frees fs
frees-append [] fs = refl
frees-append (freed m ∷ es) fs = rw (frees-append es fs)
frees-append (printed b q flow ∷ es) fs = frees-append es fs

lines-append : (es fs : List Did) → lines (es ++ fs) ≡ lines es ++ lines fs
lines-append [] fs = refl
lines-append (freed m ∷ es) fs = lines-append es fs
lines-append (printed b q flow ∷ es) fs = rw (lines-append es fs)

-- IPv4 packets of TCP or UDP.
abbrev pub is_traced : RxPkt → Bool
is_traced m =
    m.frame.ether_type == 0x0800 && (m.frame.next_proto_id == 6 || m.frame.next_proto_id == 17)

abbrev pub burst_lines : ℕ → List RxPkt → List (ℕ × FiveTuple)
burst_lines q ms = map (λ m. (q, flow_of m.frame)) (select is_traced ms)

handle-frees :
    (b q : ℕ) (m : RxPkt) (es : List Did) → frees (handle b q m ++ es) ≡ m.mbuf ∷ frees es
unfolding handle
handle-frees b q m es = ground arith

handle-lines :
    (b q : ℕ) (m : RxPkt) (ms : List RxPkt) (es : List Did)
    → lines es ≡ burst_lines q ms
    → lines (handle b q m ++ es) ≡ burst_lines q (m ∷ ms)
unfolding handle
handle-lines b q m ms es h = ground (arith, h)

handle_burst-traced :
    (b q : ℕ) (ms : List RxPkt)
    → (frees (handle_burst b q ms) ≡ map (λ m. m.mbuf) ms)
      × (lines (handle_burst b q ms) ≡ burst_lines q ms)
unfolding handle_burst
handle_burst-traced b q [] = (refl, refl)
handle_burst-traced b q (m ∷ ms) =
    let ih = handle_burst-traced b q ms in
    (
      handle-frees b q m (handle_burst b q ms) ∙ ap (λ l. m.mbuf ∷ l) ih.0,
      handle-lines b q m ms (handle_burst b q ms) ih.1,
    )

-- What arrives on the queues of a port, and the lines that it should give.
abbrev pub port_arrivals : (ℕ → ℕ → List RxPkt) → ℕ → ℕ → ℕ → List RxPkt
port_arrivals received portid q zero = []
port_arrivals received portid q (suc n) =
    received portid q ++ port_arrivals received portid (q + 1) n

abbrev pub port_lines : (ℕ → ℕ → List RxPkt) → ℕ → ℕ → ℕ → List (ℕ × FiveTuple)
port_lines received portid q zero = []
port_lines received portid q (suc n) =
    burst_lines q (received portid q) ++ port_lines received portid (q + 1) n

abbrev pub arrivals : (ℕ → ℕ → List RxPkt) → ℕ → List ℕ → List RxPkt
arrivals received n [] = []
arrivals received n (portid ∷ ports) =
    port_arrivals received portid 0 n ++ arrivals received n ports

abbrev pub trace_lines : (ℕ → ℕ → List RxPkt) → ℕ → List ℕ → List (ℕ × FiveTuple)
trace_lines received n [] = []
trace_lines received n (portid ∷ ports) =
    port_lines received portid 0 n ++ trace_lines received n ports

-- What a number of polls does that receives `ms` and should print `ls`.
abbrev pub Traces : Totals → ℕ → List RxPkt → List (ℕ × FiveTuple) → List Did × Totals → Type 0
Traces s polls ms ls (es, t) =
    (frees es ≡ map (λ m. m.mbuf) ms)
    × (lines es ≡ ls)
    × (t.global_packets ≡ u64 (s.global_packets + length ms))
    × (t.burst_id ≡ u64 (s.burst_id + polls))
    × (t.total_bursts ≡ u64 (s.total_bursts + polls))
    × (t.global_flow_blocks ≡ s.global_flow_blocks)
    × (t.global_max_locality ≡ s.global_max_locality)

-- The counters are uint64_t.
pub record Fits64 (s : Totals) : Type 0 where
  pub packets : s.global_packets < 2 ^ 64
  pub id : s.burst_id < 2 ^ 64
  pub bursts : s.total_bursts < 2 ^ 64
  pub blocks : s.global_flow_blocks < 2 ^ 64

suc_eq : (n : ℕ) → 1 + n ≡ suc n
suc_eq n = omega arith

suc_mul : (k n : ℕ) → n + k * n ≡ suc k * n
suc_mul k n = grind arith

append-Traces :
    (s t : Totals) (p p' : ℕ) (ms ms' : List RxPkt) (ls ls' : List (ℕ × FiveTuple)) (es : List Did)
    (rest : List Did × Totals)
    → Traces s p ms ls (es, t)
    → Traces t p' ms' ls' rest
    → Traces s (p + p') (ms ++ ms') (ls ++ ls') (es ++ rest.0, rest.1)
append-Traces s t p p' ms ms' ls ls' es (fs, u) h k = (
  frees-append es fs ∙ rw (h.0, k.0) (sym (map-append (λ m. m.mbuf) ms ms')),
  lines-append es fs ∙ rw (h.1, k.1) refl,
  omega (arith, h.2, k.2, length-append ms ms'),
  omega (arith, h.3, k.3),
  omega (arith, h.4, k.4),
  k.5 ∙ h.5,
  k.6 ∙ h.6,
)

poll_burst-Traces :
    (portid q : ℕ) (ms : List RxPkt) (s : Totals)
    → Fits64 s
    → Traces s 1 ms (burst_lines q ms) (poll_burst portid q ms s)
unfolding poll_burst
poll_burst-Traces portid q ms s f = (
  (handle_burst-traced s.burst_id q ms).0,
  (handle_burst-traced s.burst_id q ms).1,
  refl,
  refl,
  refl,
  omega (arith, f.blocks),
  ground arith,
)

Traces-Fits64 :
    (s : Totals) (p : ℕ) (ms : List RxPkt) (ls : List (ℕ × FiveTuple)) (r : List Did × Totals)
    → Fits64 s
    → Traces s p ms ls r
    → Fits64 r.1
Traces-Fits64 s p ms ls (es, t) f h = record {
  packets = omega (arith, h.2);
  id = omega (arith, h.3);
  bursts = omega (arith, h.4);
  blocks = omega (arith, h.5, f.blocks);
}

none-Traces : (s : Totals) → Fits64 s → Traces s 0 [] [] ([], s)
none-Traces s f =
    (refl, refl, omega (arith, f.packets), omega (arith, f.id), omega (arith, f.bursts), refl, refl)

poll_queues-Traces :
    (received : ℕ → ℕ → List RxPkt) (portid q n : ℕ) (s : Totals)
    → Fits64 s
    → Traces s n
        (port_arrivals received portid q n)
        (port_lines received portid q n)
        (poll_queues received portid q n s)
unfolding poll_queues
poll_queues-Traces received portid q zero s f = none-Traces s f
poll_queues-Traces received portid q (suc n) s f =
    let one = poll_burst portid q (received portid q) s in
    let h = poll_burst-Traces portid q (received portid q) s f in
    let k = Traces-Fits64 s 1 (received portid q) (burst_lines q (received portid q)) one f h in
    subst
      (λ p.
        Traces s p (port_arrivals received portid q (suc n)) (port_lines received portid q (suc n))
          (poll_queues received portid q (suc n) s))
      (suc_eq n)
      (append-Traces s one.1 1 n (received portid q) (port_arrivals received portid (q + 1) n)
        (burst_lines q (received portid q)) (port_lines received portid (q + 1) n) one.0
        (poll_queues received portid (q + 1) n one.1) h
        (poll_queues-Traces received portid (q + 1) n one.1 k))

-- While the counters are below 2^64, a sweep gives back every packet that it receives exactly once,
-- in the order of arrival, and prints one line for each IPv4 packet of TCP or UDP, in that order,
-- with its queue and its five-tuple; it numbers the polls and counts them and the packets, modulo
-- 2^64, and counts no flow block.
pub poll_ports-Traces :
    (received : ℕ → ℕ → List RxPkt) (n : ℕ) (ports : List ℕ) (s : Totals)
    → Fits64 s
    → Traces s
        (length ports * n)
        (arrivals received n ports)
        (trace_lines received n ports)
        (poll_ports received n ports s)
unfolding poll_ports
poll_ports-Traces received n [] s f =
    subst (λ p. Traces s p [] [] ([], s)) (omega arith) (none-Traces s f)
poll_ports-Traces received n (portid ∷ ports) s f =
    let one = poll_queues received portid 0 n s in
    let h = poll_queues-Traces received portid 0 n s f in
    let k =
      Traces-Fits64 s n (port_arrivals received portid 0 n) (port_lines received portid 0 n) one f
        h in
    subst
      (λ p.
        Traces s p (arrivals received n (portid ∷ ports)) (trace_lines received n (portid ∷ ports))
          (poll_ports received n (portid ∷ ports) s))
      (suc_mul (length ports) n)
      (append-Traces s one.1 n (length ports * n) (port_arrivals received portid 0 n)
        (arrivals received n ports) (port_lines received portid 0 n) (trace_lines received n ports)
        one.0 (poll_ports received n ports one.1) h (poll_ports-Traces received n ports one.1 k))
