-- ===== src/Poll/Baseline.antt =====
-- nf-chain/src/main.c, `poll_loop`: the Baseline policy, round robin.
use queue_dpdk.Prelude.{
  ◌-◌, ℕ, zero, suc, ◌+◌, ◌≤◌, ◌≡◌, refl, false, List, [], ◌∷◌, ◌++◌, arith, length, All, interval,
  ap,
}
use queue_dpdk.Poll.Frame.{sweep-end, sweep-step, serve-Alike, count_burst-Alike, count_spin-Alike}
use queue_dpdk.Poll.Termination.{Obtained}
use queue_dpdk.Poll.{
  acl_freed, Config, Sweep, Reply, Outcome, Event, skipped, busy, polled, sent, freed, next,
  stopped, Run, finished, halted, starved, serve, count_latency, settle, after_poll, complete,
  count_burst, poll_queue, iteration, sweep, chain, log,
}

pub record IsBaseline (c : Config) : Type 0 where
  pub no_aggressive : c.aggressive ≡ false
  pub no_penalty : c.penalty ≡ 0
  pub no_latency : c.latency_mode ≡ false

-- The queues that the events poll, in order.
abbrev pub queues_polled : List Event → List ℕ
queues_polled [] = []
queues_polled (polled port p pkts ∷ es) = p ∷ queues_polled es
queues_polled (skipped p ∷ es) = queues_polled es
queues_polled (busy p ∷ es) = queues_polled es
queues_polled (sent txq pkts ∷ es) = queues_polled es
queues_polled (freed pkts ∷ es) = queues_polled es
queues_polled (acl_freed pkts ∷ es) = queues_polled es

queues_polled-append :
    (es fs : List Event) → queues_polled (es ++ fs) ≡ queues_polled es ++ queues_polled fs
queues_polled-append [] fs = refl
queues_polled-append (polled port p pkts ∷ es) fs = ap (λ l. p ∷ l) (queues_polled-append es fs)
queues_polled-append (skipped p ∷ es) fs = queues_polled-append es fs
queues_polled-append (busy p ∷ es) fs = queues_polled-append es fs
queues_polled-append (sent txq pkts ∷ es) fs = queues_polled-append es fs
queues_polled-append (freed pkts ∷ es) fs = queues_polled-append es fs
queues_polled-append (acl_freed pkts ∷ es) fs = queues_polled-append es fs

serve-queues_polled : (c : Config) (r : Reply) (s : Sweep) → queues_polled (serve c r s).0 ≡ []
unfolding serve
serve-queues_polled c r s = ground arith

complete-i :
    (c : Config) (r : Reply) (qi : ℕ) (s : Sweep) → IsBaseline c → (complete c r qi s).i ≡ s.i + 1
unfolding complete after_poll settle count_latency
complete-i c r qi s b = ground (
  arith,
  serve-Alike c r s,
  count_spin-Alike c (length r.burst) (after_poll c qi (length r.burst) (serve c r s).1),
)

-- The lock is obtained, and the burst does not hold the stop packet.
abbrev pub Regular : Config → Reply → Type 0
Regular c r = Obtained c r × (r.stop ≡ false)

abbrev pub Polls : ℕ → Outcome → Type 0
Polls q (next es s) = (queues_polled es ≡ q ∷ []) × (s.i ≡ q + 1)
Polls q (stopped es s) = ⊥

iteration-Polls :
    (c : Config) (r : Reply) (s : Sweep) → IsBaseline c → Regular c r → Polls s.i (iteration c r s)
unfolding iteration poll_queue
iteration-Polls c r s b h = ground (
  arith,
  count_burst-Alike c (length r.burst) s,
  serve-queues_polled c r (count_burst c (length r.burst) s),
  complete-i c r (s.i - c.queue_start) (count_burst c (length r.burst) s),
)

-- The run finished at the end of the slice, having polled these queues in this order.
abbrev pub Visits : Config → List ℕ → Run → Type 0
Visits c qs (finished es s rs) = (queues_polled es ≡ qs) × (s.i ≡ c.queue_end)
Visits c qs (halted es s) = ⊥
Visits c qs (starved es s) = ⊥

log-Visits :
    (c : Config) (q : ℕ) (qs : List ℕ) (es : List Event) (run : Run)
    → queues_polled es ≡ q ∷ []
    → Visits c qs run
    → Visits c (q ∷ qs) (log es run)
log-Visits c q qs es (finished fs s rs) h v = (rw (queues_polled-append es fs, h, v.0) refl, v.1)
log-Visits c q qs es (halted fs s) h v = v
log-Visits c q qs es (starved fs s) h v = v

chain-Visits :
    (c : Config) (q : ℕ) (qs : List ℕ) (o : Outcome) (rest : Sweep → Run)
    → Polls q o
    → ((s : Sweep) → s.i ≡ q + 1 → Visits c qs (rest s))
    → Visits c (q ∷ qs) (chain o rest)
chain-Visits c q qs (next es s) rest h keep = log-Visits c q qs es (rest s) h.0 (keep s h.1)
chain-Visits c q qs (stopped es s) rest h keep = h

-- Under Baseline, with every lock obtained and no stop packet, a sweep polls each queue from `s.i`
-- to the end of the slice exactly once, in increasing order, and then ends.
pub sweep-Visits :
    (c : Config) (n : ℕ) (rs : List Reply) (s : Sweep)
    → IsBaseline c
    → All (Regular c) rs
    → s.i + n ≡ c.queue_end
    → n ≤ length rs
    → Visits c (interval s.i n) (sweep c rs s)
sweep-Visits c zero rs s b h e l = rw (sweep-end c rs s (omega arith)) (refl, omega arith)
sweep-Visits c (suc n) [] s b h e l = absurd (omega arith)
sweep-Visits c (suc n) (r ∷ rs) s b h e l = rw (sweep-step c r rs s (omega arith)) (
    chain-Visits c s.i (interval (s.i + 1) n) (iteration c r s) (sweep c rs)
      (iteration-Polls c r s b h.0)
      (λ s' e'. rw (← e') (sweep-Visits c n rs s' b h.1 (omega arith) (omega arith))))
