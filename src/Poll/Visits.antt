-- ===== src/Poll/Visits.antt =====
-- nf-chain/src/main.c, `poll_loop`: which queues a sweep polls, and how often.
use queue_dpdk.Prelude.{
  ◌⊎◌, ℕ, ◌+◌, ◌-◌, ◌≤◌, ◌≡◌, false, List, [], ◌∷◌, ◌++◌, arith, length, ltb, ◌==◌, if◌then◌else◌,
  Bool-cases, inl, inr,
}
use queue_dpdk.Poll.Frame.{serve-Alike, count_burst-Alike, count_spin-Alike, events, events-log}
use queue_dpdk.Poll.{
  acl_freed, Config, Sweep, Reply, Outcome, Event, skipped, busy, polled, sent, freed, next,
  stopped, Run, serve, count_latency, settle, after_poll, complete, count_burst, poll_queue,
  iteration, sweep, chain, max_consecutive_polls,
}

-- How often the events poll queue `q`.
abbrev pub times_polled : ℕ → List Event → ℕ
times_polled q [] = 0
times_polled q (polled port p pkts ∷ es) = (if p == q then 1 else 0) + times_polled q es
times_polled q (skipped p ∷ es) = times_polled q es
times_polled q (busy p ∷ es) = times_polled q es
times_polled q (sent txq pkts ∷ es) = times_polled q es
times_polled q (freed pkts ∷ es) = times_polled q es
times_polled q (acl_freed pkts ∷ es) = times_polled q es

pub times_polled-append :
    (q : ℕ) (es fs : List Event) → times_polled q (es ++ fs) ≡ times_polled q es + times_polled q fs
times_polled-append q [] fs = omega arith
times_polled-append q (polled port p pkts ∷ es) fs = omega (arith, times_polled-append q es fs)
times_polled-append q (skipped p ∷ es) fs = times_polled-append q es fs
times_polled-append q (busy p ∷ es) fs = times_polled-append q es fs
times_polled-append q (sent txq pkts ∷ es) fs = times_polled-append q es fs
times_polled-append q (freed pkts ∷ es) fs = times_polled-append q es fs
times_polled-append q (acl_freed pkts ∷ es) fs = times_polled-append q es fs

-- How often the rest of the sweep may still poll queue `q`.
abbrev pub polls_allowed : ℕ → Sweep → ℕ
polls_allowed q s =
    if ltb q s.i then 0 else if q == s.i then s.max_loops + 1 else max_consecutive_polls + 1

pub serve-times_polled :
    (q : ℕ) (c : Config) (r : Reply) (s : Sweep) → times_polled q (serve c r s).0 ≡ 0
unfolding serve
serve-times_polled q c r s = ground arith

-- A regular poll leaves the queue, or stays with one poll less to go.
record Leaves (s t : Sweep) : Type 0 where
  where_to :
      ((t.i ≡ s.i + 1) × (t.max_loops ≡ max_consecutive_polls))
      ⊎ ((t.i ≡ s.i) × (t.max_loops + 1 ≡ s.max_loops))

after_poll-Leaves :
    (c : Config) (qi n : ℕ) (s : Sweep) → c.latency_mode ≡ false → Leaves s (after_poll c qi n s)
unfolding after_poll settle count_latency
after_poll-Leaves c qi n s h = ground arith

complete-Leaves :
    (c : Config) (r : Reply) (qi : ℕ) (s : Sweep)
    → c.latency_mode ≡ false
    → Leaves s (complete c r qi s)
unfolding complete
complete-Leaves c r qi s h = ground (
  arith,
  serve-Alike c r s,
  count_spin-Alike c (length r.burst) (after_poll c qi (length r.burst) (serve c r s).1),
  after_poll-Leaves c qi (length r.burst) (serve c r s).1,
)

-- What an iteration adds to the polls of `q` it takes from the polls allowed.
abbrev pub Within : ℕ → ℕ → Outcome → Type 0
Within q m (next es s) =
    (times_polled q es + polls_allowed q s ≤ m) × (s.max_loops ≤ max_consecutive_polls)
Within q m (stopped es s) = times_polled q es ≤ m

iteration-Within :
    (q : ℕ) (c : Config) (r : Reply) (s : Sweep)
    → c.latency_mode ≡ false
    → s.max_loops ≤ max_consecutive_polls
    → Within q (polls_allowed q s) (iteration c r s)
unfolding iteration poll_queue
iteration-Within q c r s h l = ground (
  arith,
  count_burst-Alike c (length r.burst) s,
  serve-times_polled q c r (count_burst c (length r.burst) s),
  complete-Leaves c r (s.i - c.queue_start) (count_burst c (length r.burst) s),
)

chain-Within :
    (q m : ℕ) (o : Outcome) (rest : Sweep → Run)
    → Within q m o
    → ((s : Sweep)
        → s.max_loops ≤ max_consecutive_polls
        → times_polled q (events (rest s)) ≤ polls_allowed q s)
    → times_polled q (events (chain o rest)) ≤ m
chain-Within q m (next es s) rest h keep =
    rw (events-log es (rest s), times_polled-append q es (events (rest s)))
      (omega (arith, h.0, keep s h.1))
chain-Within q m (stopped es s) rest h keep = h

sweep-Within :
    (q : ℕ) (c : Config) (rs : List Reply) (s : Sweep)
    → c.latency_mode ≡ false
    → s.max_loops ≤ max_consecutive_polls
    → times_polled q (events (sweep c rs s)) ≤ polls_allowed q s
unfolding sweep
sweep-Within q c [] s h l = elim (Bool-cases (ltb s.i c.queue_end)) [
  | inl lt ↦ rw (lt, sweep) (omega arith)
  | inr ge ↦ rw (ge, sweep) (omega arith)
]
sweep-Within q c (r ∷ rs) s h l = elim (Bool-cases (ltb s.i c.queue_end)) [
  | inl lt ↦
      rw (lt, sweep)
        (chain-Within q (polls_allowed q s) (iteration c r s) (sweep c rs)
          (iteration-Within q c r s h l) (λ s' l'. sweep-Within q c rs s' h l'))
  | inr ge ↦ rw (ge, sweep) (omega arith)
]

-- Without the latency policy, a sweep that starts with the full loop count polls no queue more
-- than `max_consecutive_polls + 1` times: once, and again at most `max_consecutive_polls` times.
times_polled-sweep :
    (q : ℕ) (c : Config) (rs : List Reply) (s : Sweep)
    → c.latency_mode ≡ false
    → s.max_loops ≡ max_consecutive_polls
    → times_polled q (events (sweep c rs s)) ≤ max_consecutive_polls + 1
times_polled-sweep q c rs s h l = ground (arith, sweep-Within q c rs s h)
