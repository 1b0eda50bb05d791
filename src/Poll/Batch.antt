-- ===== src/Poll/Batch.antt =====
-- nf-chain/src/main.c, `poll_loop`: no packet is lost or sent twice on the way to the TX queue.
use mathlib.Core.List.{append_assoc, append-nil}
use mathlib.Core.Path.{◌≡⟨◌⟩◌, ◌∎}
use native.Mathlib.Decide.{dec_lt}
use queue_dpdk.Prelude.{
  ◌-◌, ◌∙◌, sym, ap, inl, inr, Bool-cases, ℕ, ◌≡◌, refl, true, false, List, [], ◌∷◌, ◌++◌, arith,
  length, ltb, take-append-drop, take, drop,
}
use queue_dpdk.Poll.Packets.{
  received, released, last_burst, received-append, released-append, EndsWith, append-EndsWith,
}
use queue_dpdk.Poll.Frame.{sweep-step, sweep-end}
use queue_dpdk.Poll.{
  chain, sweep, log, Run, Outcome, next, stopped, finished, halted, starved, iteration, poll_queue,
  divert, is_single, count_latency, settle, after_poll, count_spin, count_burst, complete, Mbuf,
  Config, Sweep, Reply, Event, serve,
}

-- The batch before and what is received are what is released and the batch after, in order.
abbrev pub Balanced : List Mbuf → List Event → Sweep → Type 0
Balanced batch es s = batch ++ received es ≡ released es ++ s.tx_batch

-- What `serve` makes of a burst.
pub serve-received : (c : Config) (r : Reply) (s : Sweep) → received (serve c r s).0 ≡ []
unfolding serve
serve-received c r s = ground arith

pub transmit-released : (pkts : List Mbuf) (n : ℕ) → take n pkts ++ (drop n pkts ++ []) ≡ pkts
transmit-released pkts n = rw append-nil (take-append-drop n pkts)

eq_nil_of_length : (pkts : List Mbuf) → ltb 0 (length pkts) ≡ false → pkts ≡ []
eq_nil_of_length [] h = refl
eq_nil_of_length (p ∷ pkts) h = absurd (ground arith)

serve-released :
    (c : Config) (r : Reply) (s : Sweep)
    → (is_single c.mode ≡ true → s.tx_batch ≡ [])
    → s.tx_batch ++ r.burst ≡ released (serve c r s).0 ++ (serve c r s).1.tx_batch
unfolding serve
serve-released c r s h = ground (
  arith,
  transmit-released r.burst r.nb_tx,
  transmit-released s.tx_batch r.nb_tx,
  append-nil r.burst,
  append-nil s.tx_batch,
  eq_nil_of_length r.burst,
)

-- Only `serve` writes the batch.
tx_batch-complete :
    (c : Config) (r : Reply) (qi : ℕ) (s : Sweep)
    → (complete c r qi s).tx_batch ≡ (serve c r s).1.tx_batch
unfolding complete count_spin after_poll settle count_latency
tx_batch-complete c r qi s = spin (serve c r s).1
  where
    spin :
        (t : Sweep)
        → (count_spin c (length r.burst) (after_poll c qi (length r.burst) t)).tx_batch ≡ t.tx_batch
    spin t = ground arith

tx_batch-count_burst : (c : Config) (n : ℕ) (s : Sweep) → (count_burst c n s).tx_batch ≡ s.tx_batch
unfolding count_burst
tx_batch-count_burst c n s = ground arith

tx_batch-divert : (c : Config) (s : Sweep) → (divert c s).tx_batch ≡ s.tx_batch
tx_batch-divert c s = ground arith

-- A single core keeps no batch.
abbrev pub Unbatched : Config → Sweep → Type 0
Unbatched c s = is_single c.mode ≡ true → s.tx_batch ≡ []

serve-Unbatched : (c : Config) (r : Reply) (s : Sweep) → Unbatched c s → Unbatched c (serve c r s).1
unfolding serve
serve-Unbatched c r s h e = ground arith

abbrev Conserves : Config → List Mbuf → List Mbuf → Outcome → Type 0
Conserves c batch last (next es s) = Balanced batch es s × Unbatched c s
Conserves c batch last (stopped es s) =
    (batch ++ received es ≡ released es ++ s.tx_batch ++ last) × Unbatched c s

poll_queue-Conserves :
    (c : Config) (r : Reply) (qi : ℕ) (s : Sweep)
    → Unbatched c s
    → Conserves c s.tx_batch r.burst (poll_queue c r qi s)
unfolding poll_queue
poll_queue-Conserves c r qi s u =
    let s' = count_burst c (length r.burst) s in
    ground (
      arith,
      serve-received c r s',
      serve-released c r s',
      serve-Unbatched c r s',
      tx_batch-count_burst c (length r.burst) s,
      tx_batch-complete c r qi s',
      append-nil r.burst,
      append-nil s.tx_batch,
    )

iteration-Conserves :
    (c : Config) (r : Reply) (s : Sweep)
    → Unbatched c s
    → Conserves c s.tx_batch r.burst (iteration c r s)
unfolding iteration
iteration-Conserves c r s u = ground (
  arith,
  tx_batch-divert c s,
  append-nil s.tx_batch,
  poll_queue-Conserves c r (s.i - c.queue_start) (divert c s),
)

-- What a stop leaves is the burst that was received last.
abbrev StopsWith : List Mbuf → List Mbuf → Outcome → Type 0
StopsWith acc last (next es s) = Unit
StopsWith acc last (stopped es s) = last_burst acc es ≡ last

poll_queue-StopsWith :
    (c : Config) (r : Reply) (qi : ℕ) (s : Sweep) (acc : List Mbuf)
    → StopsWith acc r.burst (poll_queue c r qi s)
unfolding poll_queue
poll_queue-StopsWith c r qi s acc = ground arith

iteration-StopsWith :
    (c : Config) (r : Reply) (s : Sweep) (acc : List Mbuf) → StopsWith acc r.burst (iteration c r s)
unfolding iteration
iteration-StopsWith c r s acc =
    ground (arith, poll_queue-StopsWith c r (s.i - c.queue_start) (divert c s) acc)

-- The packets of the batch and those received are those released and those in the batch, in
-- order; after a stop packet the burst that held it is left over.
abbrev pub RunConserves : Config → List Mbuf → Run → Type 0
RunConserves c batch (finished es s rs) = Balanced batch es s × Unbatched c s
RunConserves c batch (halted es s) =
    ((last : List Mbuf) × (batch ++ received es ≡ released es ++ s.tx_batch ++ last)
      × EndsWith last es)
    × Unbatched c s
RunConserves c batch (starved es s) = Balanced batch es s

Balanced-append :
    (batch : List Mbuf) (es fs : List Event) (s : Sweep) (last : List Mbuf)
    → Balanced batch es s
    → s.tx_batch ++ received fs ≡ released fs ++ last
    → batch ++ received (es ++ fs) ≡ released (es ++ fs) ++ last
Balanced-append batch es fs s last h k =
    batch ++ received (es ++ fs)
    ≡⟨ rw (received-append es fs) (sym (append_assoc batch (received es) (received fs))) ⟩
      (batch ++ received es) ++ received fs
    ≡⟨ ap (λ l. l ++ received fs) h ⟩ (released es ++ s.tx_batch) ++ received fs
    ≡⟨ append_assoc (released es) s.tx_batch (received fs) ∙ ap (λ l. released es ++ l) k ⟩
      released es ++ (released fs ++ last)
    ≡⟨ rw (released-append es fs) (sym (append_assoc (released es) (released fs) last)) ⟩
      released (es ++ fs) ++ last ∎

log-Conserves :
    (c : Config) (batch : List Mbuf) (es : List Event) (s : Sweep) (run : Run)
    → Balanced batch es s
    → RunConserves c s.tx_batch run
    → RunConserves c batch (log es run)
log-Conserves c batch es s (finished fs t rs) h k =
    (Balanced-append batch es fs s t.tx_batch h k.0, k.1)
log-Conserves c batch es s (halted fs t) h ((last, k, e), u) = (
  (
    last,
    Balanced-append batch es fs s (t.tx_batch ++ last) h
          (k ∙ append_assoc (released fs) t.tx_batch last)
        ∙ sym (append_assoc (released (es ++ fs)) t.tx_batch last),
    append-EndsWith last es fs e,
  ),
  u,
)
log-Conserves c batch es s (starved fs t) h k = Balanced-append batch es fs s t.tx_batch h k

chain-Conserves :
    (c : Config) (batch last : List Mbuf) (o : Outcome) (rest : Sweep → Run)
    → Conserves c batch last o
    → ((acc : List Mbuf) → StopsWith acc last o)
    → ((s : Sweep) → Unbatched c s → RunConserves c s.tx_batch (rest s))
    → RunConserves c batch (chain o rest)
chain-Conserves c batch last (next es s) rest h z keep =
    log-Conserves c batch es s (rest s) h.0 (keep s h.1)
chain-Conserves c batch last (stopped es s) rest h z keep = ((last, h.0, z), h.1)

-- Every packet that a sweep receives is handed to the TX queue or freed by the TX path exactly once,
-- in the order of arrival, or is still in the batch, and a single core keeps no batch; only the burst
-- that holds the stop packet, the last one received, is left over.
pub sweep-Conserves :
    (c : Config) (rs : List Reply) (s : Sweep)
    → Unbatched c s
    → RunConserves c s.tx_batch (sweep c rs s)
unfolding sweep
sweep-Conserves c [] s u = elim (Bool-cases (ltb s.i c.queue_end)) [
  | inl lt ↦ rw (lt, sweep, RunConserves) (append-nil s.tx_batch)
  | inr ge ↦ rw (ge, sweep, RunConserves) (append-nil s.tx_batch, u)
]
sweep-Conserves c (r ∷ rs) s u = elim (dec_lt s.i c.queue_end) [
  | yes lt ↦ rw (sweep-step c r rs s lt) (
      chain-Conserves c s.tx_batch r.burst (iteration c r s) (sweep c rs)
        (iteration-Conserves c r s u) (iteration-StopsWith c r s)
        (λ s' u'. sweep-Conserves c rs s' u'))
  | no ge ↦ rw (sweep-end c (r ∷ rs) s (omega arith)) (append-nil s.tx_batch, u)
]
