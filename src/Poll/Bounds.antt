-- ===== src/Poll/Bounds.antt =====
-- nf-chain/src/main.c, `poll_loop`: the invariant of the sweep.
use queue_dpdk.Prelude.{
  All, All-append, Bool-cases, ltb, ltb→lt, inl, inr, ℕ, ◌-◌, ◌≤◌, ◌<◌, ◌≡◌, [], ◌∷◌, Option, none,
  some, List, arith, length, length-append,
}
use queue_dpdk.Poll.{
  acl_freed, chain, Config, Sweep, Reply, Outcome, Event, skipped, busy, polled, sent, freed, log,
  next, stopped, Run, finished, halted, starved, serve, count_latency, settle, complete,
  count_burst, after_poll, count_spin, poll_queue, iteration, sweep, divert, max_pkt_burst,
  tx_batch_size, max_consecutive_polls,
}

-- A queue to resume at, if there is one, lies in the lcore's slice.
abbrev pub InSlice : Config → Option ℕ → Type 0
InSlice c none = Unit
InSlice c (some q) = (c.queue_start ≤ q) × (q < c.queue_end)

-- Between two iterations.
pub record IsValid (c : Config) (s : Sweep) : Type 0 where
  pub low : c.queue_start ≤ s.i
  pub high : s.i ≤ c.queue_end
  pub loops : s.max_loops ≤ max_consecutive_polls
  pub resume : InSlice c s.resume_i
  pub batch : length s.tx_batch ≤ tx_batch_size
  pub count : s.latency_count < c.latency_period

divert-IsValid : {c : Config} (s : Sweep) → IsValid c s → s.i < c.queue_end → IsValid c (divert c s)
divert-IsValid s v h = ground arith

divert-in_slice :
    {c : Config} (s : Sweep) → IsValid c s → s.i < c.queue_end → (divert c s).i < c.queue_end
divert-in_slice s v h = ground arith

serve-IsValid :
    {c : Config} (r : Reply) (s : Sweep)
    → length r.burst ≤ max_pkt_burst
    → IsValid c s
    → IsValid c (serve c r s).1
unfolding serve
serve-IsValid r s h v = ground (arith, length-append s.tx_batch r.burst)

i-serve : (c : Config) (r : Reply) (s : Sweep) → (serve c r s).1.i ≡ s.i
unfolding serve
i-serve c r s = ground arith

count_latency-IsValid : {c : Config} (s : Sweep) → IsValid c s → IsValid c (count_latency c s)
unfolding count_latency
count_latency-IsValid s v = ground arith

i-count_latency : (c : Config) (s : Sweep) → (count_latency c s).i ≡ s.i
unfolding count_latency
i-count_latency c s = ground arith

settle-IsValid :
    {c : Config} (qi nb_rx : ℕ) (s : Sweep)
    → s.i < c.queue_end
    → IsValid c s
    → IsValid c (settle c qi nb_rx s)
unfolding settle
settle-IsValid qi nb_rx s h v = ground arith

after_poll-IsValid :
    {c : Config} (qi nb_rx : ℕ) (s : Sweep)
    → s.i < c.queue_end
    → IsValid c s
    → IsValid c (after_poll c qi nb_rx s)
unfolding after_poll
after_poll-IsValid {c} qi nb_rx s h v =
    grind (arith, settle-IsValid, count_latency-IsValid, i-count_latency)

count_spin-IsValid :
    {c : Config} (nb_rx : ℕ) (s : Sweep) → IsValid c s → IsValid c (count_spin c nb_rx s)
unfolding count_spin
count_spin-IsValid nb_rx s v = ground arith

count_burst-IsValid :
    {c : Config} (nb_rx : ℕ) (s : Sweep) → IsValid c s → IsValid c (count_burst c nb_rx s)
unfolding count_burst
count_burst-IsValid nb_rx s v = ground arith

i-count_burst : (c : Config) (nb_rx : ℕ) (s : Sweep) → (count_burst c nb_rx s).i ≡ s.i
unfolding count_burst
i-count_burst c nb_rx s = ground arith

complete-IsValid :
    {c : Config} (r : Reply) (qi : ℕ) (s : Sweep)
    → length r.burst ≤ max_pkt_burst
    → s.i < c.queue_end
    → IsValid c s
    → IsValid c (complete c r qi s)
unfolding complete
complete-IsValid {c} r qi s h lt v =
    count_spin-IsValid _ _ (after_poll-IsValid qi _ _ (rw i-serve lt) (serve-IsValid r s h v))

-- The queue that an event names lies in the slice.
abbrev pub EventIn : Config → Event → Type 0
EventIn c (skipped q) = (c.queue_start ≤ q) × (q < c.queue_end)
EventIn c (busy q) = (c.queue_start ≤ q) × (q < c.queue_end)
EventIn c (polled port q pkts) = (c.queue_start ≤ q) × (q < c.queue_end)
EventIn c (sent txq pkts) = Unit
EventIn c (freed pkts) = Unit
EventIn c (acl_freed pkts) = Unit

abbrev pub OutcomeIn : Config → Outcome → Type 0
OutcomeIn c (next es s) = IsValid c s × All (EventIn c) es
OutcomeIn c (stopped es s) = All (EventIn c) es

abbrev pub RunIn : Config → Run → Type 0
RunIn c (finished es s rs) = IsValid c s × (s.i ≡ c.queue_end) × All (EventIn c) es
RunIn c (halted es s) = All (EventIn c) es
RunIn c (starved es s) = IsValid c s × All (EventIn c) es

serve-in : (c : Config) (r : Reply) (s : Sweep) → All (EventIn c) (serve c r s).0
unfolding serve
serve-in c r s = ground arith

poll_queue-in :
    {c : Config} (r : Reply) (qi : ℕ) (s : Sweep)
    → length r.burst ≤ max_pkt_burst
    → s.i < c.queue_end
    → IsValid c s
    → OutcomeIn c (poll_queue c r qi s)
unfolding poll_queue
poll_queue-in {c} r qi s h lt v = ground (
  arith,
  serve-in c r (count_burst c (length r.burst) s),
  complete-IsValid {c = c} r qi (count_burst c (length r.burst) s),
  count_burst-IsValid {c = c} (length r.burst) s,
  i-count_burst c (length r.burst) s,
)

iteration-in :
    {c : Config} (r : Reply) (s : Sweep)
    → length r.burst ≤ max_pkt_burst
    → s.i < c.queue_end
    → IsValid c s
    → OutcomeIn c (iteration c r s)
unfolding iteration
iteration-in {c} r s h lt v = ground (
  arith,
  poll_queue-in {c = c} r (s.i - c.queue_start) (divert c s),
  divert-IsValid {c = c} s,
  divert-in_slice {c = c} s,
)

abbrev pub ShortBurst : Reply → Type 0
ShortBurst r = length r.burst ≤ max_pkt_burst

log-in :
    (c : Config) (es : List Event) (run : Run)
    → All (EventIn c) es
    → RunIn c run
    → RunIn c (log es run)
log-in c es (finished fs s rs) h v = (v.0, v.1, All-append (EventIn c) es fs h v.2)
log-in c es (halted fs s) h v = All-append (EventIn c) es fs h v
log-in c es (starved fs s) h v = (v.0, All-append (EventIn c) es fs h v.1)

chain-in :
    (c : Config) (o : Outcome) (rest : Sweep → Run)
    → OutcomeIn c o
    → ((s : Sweep) → IsValid c s → RunIn c (rest s))
    → RunIn c (chain o rest)
chain-in c (next es s) rest h keep = log-in c es (rest s) h.1 (keep s h.0)
chain-in c (stopped es s) rest h keep = h

-- From a valid state, with bursts of at most `max_pkt_burst` packets, every queue that a sweep
-- polls, skips or finds busy lies in the lcore's slice, and a sweep that is not stopped leaves a
-- valid state: `resume_i` in the slice, at most `tx_batch_size` packets in the batch, the loop
-- count at most `max_consecutive_polls` and the latency count below its period. A finished sweep
-- stands at the end of the slice.
pub sweep-in :
    (c : Config) (rs : List Reply) (s : Sweep)
    → All ShortBurst rs
    → IsValid c s
    → RunIn c (sweep c rs s)
unfolding sweep
sweep-in c [] s h v = elim (Bool-cases (ltb s.i c.queue_end)) [
  | inl lt ↦ rw lt (v, tt)
  | inr ge ↦ rw (ge, sweep, RunIn) (v, ground arith, tt)
]
sweep-in c (r ∷ rs) s h v = elim (Bool-cases (ltb s.i c.queue_end)) [
  | inl lt ↦
      rw (lt, sweep, RunIn)
        (chain-in c (iteration c r s) (sweep c rs) (iteration-in r s h.0 (ltb→lt _ _ lt) v)
          (λ s' v'. sweep-in c rs s' h.1 v'))
  | inr ge ↦ rw (ge, sweep, RunIn) (v, ground arith, tt)
]
