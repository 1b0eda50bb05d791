-- ===== src/Poll/Termination.antt =====
-- nf-chain/src/main.c, `poll_loop`: the sweep over the queues ends.
use queue_dpdk.Prelude.{
  [], ◌∷◌, ◌∷◌, inr, ltb→lt, inl, ltb, Bool-cases, ◌≤◌, All, List, length, some, ℕ, ◌+◌, ◌-◌, ◌*◌,
  ◌<◌, ◌≡◌, Bool, true, false, none, arith, ◌&&◌, not,
}
use queue_dpdk.Poll.Frame.{serve-Alike, count_burst-Alike, count_spin-Alike}
use queue_dpdk.Poll.{
  starved, log, halted, chain, Event, finished, sweep, Run, stopped, next, divert, poll_queue,
  is_latency_poll, iteration, Outcome, complete, Config, Sweep, Reply, serve, count_latency, settle,
  count_burst, after_poll, is_shared, max_consecutive_polls,
}

-- Each queue is left after at most `max_consecutive_polls + 1` regular polls, and each regular
-- poll asks for at most one latency poll.
abbrev pub polls_left : Config → Sweep → ℕ
polls_left c s = (max_consecutive_polls + 1) * (c.queue_end - s.i) + s.max_loops

abbrev pub pending : Bool → ℕ
pending true = 1
pending false = 0

abbrev pub iterations_left : Config → Sweep → ℕ
iterations_left c s = 2 * polls_left c s + pending s.inject_queue

-- No other lcore holds the queue's lock.
abbrev pub Obtained : Config → Reply → Type 0
Obtained c r = is_shared c.mode && not r.locked ≡ false

count_latency-same :
    (c : Config) (s : Sweep)
    → ((count_latency c s).i ≡ s.i)
      × ((count_latency c s).resume_i ≡ s.resume_i)
      × ((count_latency c s).max_loops ≡ s.max_loops)
unfolding count_latency
count_latency-same c s = ground arith

settle-progress :
    (c : Config) (qi n : ℕ) (s : Sweep)
    → s.i < c.queue_end
    → (polls_left c (settle c qi n s) < polls_left c s) × ((settle c qi n s).resume_i ≡ s.resume_i)
unfolding settle
settle-progress c qi n s h = ground arith

-- A regular poll.
regular-progress :
    (c : Config) (qi n : ℕ) (s : Sweep)
    → s.i < c.queue_end
    → s.resume_i ≡ none
    → (polls_left c (after_poll c qi n s) < polls_left c s)
      × ((after_poll c qi n s).resume_i ≡ none)
unfolding after_poll
regular-progress c qi n s h e =
    ground (arith, settle-progress c qi n (count_latency c s), count_latency-same c s)

latency-progress :
    (c : Config) (qi n q : ℕ) (s : Sweep)
    → s.resume_i ≡ some q
    → is_latency_poll c s ≡ true
    → ((after_poll c qi n s).i ≡ q)
      × ((after_poll c qi n s).resume_i ≡ none)
      × ((after_poll c qi n s).max_loops ≡ s.max_loops)
      × ((after_poll c qi n s).inject_queue ≡ s.inject_queue)
unfolding after_poll
latency-progress c qi n q s e h = rw h (ground arith)

complete-regular :
    (c : Config) (r : Reply) (qi : ℕ) (s : Sweep)
    → s.i < c.queue_end
    → s.resume_i ≡ none
    → (polls_left c (complete c r qi s) < polls_left c s) × ((complete c r qi s).resume_i ≡ none)
unfolding complete
complete-regular c r qi s h e = ground (
  arith,
  serve-Alike c r s,
  count_spin-Alike c (length r.burst) (after_poll c qi (length r.burst) (serve c r s).1),
  regular-progress c qi (length r.burst) (serve c r s).1,
)

pub complete-latency :
    (c : Config) (r : Reply) (qi q : ℕ) (s : Sweep)
    → s.resume_i ≡ some q
    → is_latency_poll c s ≡ true
    → ((complete c r qi s).i ≡ q)
      × ((complete c r qi s).resume_i ≡ none)
      × ((complete c r qi s).max_loops ≡ s.max_loops)
      × ((complete c r qi s).inject_queue ≡ s.inject_queue)
unfolding complete
complete-latency c r qi q s e h = ground (
  arith,
  serve-Alike c r s,
  count_spin-Alike c (length r.burst) (after_poll c qi (length r.burst) (serve c r s).1),
  latency-progress c qi (length r.burst) q (serve c r s).1,
)

-- The next state resumes nothing, and has fewer than `m` iterations left.
abbrev pub Progress : Config → ℕ → Outcome → Type 0
Progress c m (next es s) = (s.resume_i ≡ none) × (iterations_left c s < m)
Progress c m (stopped es s) = Unit

pub iteration-Progress :
    (c : Config) (r : Reply) (s : Sweep)
    → Obtained c r
    → s.i < c.queue_end
    → s.resume_i ≡ none
    → Progress c (iterations_left c s) (iteration c r s)
unfolding iteration poll_queue
iteration-Progress c r s o h e = ground (
  arith,
  count_burst-Alike c (length r.burst) s,
  count_burst-Alike c (length r.burst) (divert c s),
  complete-regular c r (s.i - c.queue_start) (count_burst c (length r.burst) s),
  complete-latency c r (s.i - c.queue_start) s.i (count_burst c (length r.burst) (divert c s)),
)

-- The run did not wait for a reply that is not there.
abbrev pub Ends : Run → Type 0
Ends (finished es s rs) = Unit
Ends (halted es s) = Unit
Ends (starved es s) = ⊥

log-Ends : (es : List Event) (run : Run) → Ends run → Ends (log es run)
log-Ends es (finished fs s rs) h = tt
log-Ends es (halted fs s) h = tt
log-Ends es (starved fs s) h = h

chain-Ends :
    (c : Config) (m : ℕ) (o : Outcome) (rest : Sweep → Run)
    → Progress c m o
    → ((s : Sweep) → s.resume_i ≡ none → iterations_left c s < m → Ends (rest s))
    → Ends (chain o rest)
chain-Ends c m (next es s) rest h keep = log-Ends es (rest s) (keep s h.0 h.1)
chain-Ends c m (stopped es s) rest h keep = tt

-- With every lock obtained and no diversion pending, a sweep of any policy ends, whatever the
-- queues hold, as soon as there are `iterations_left` replies: two for each of the at most 101
-- regular polls of each queue left and for each of the `max_loops` left, and one for a latency poll
-- that is due.
pub sweep-Ends :
    (c : Config) (rs : List Reply) (s : Sweep)
    → All (Obtained c) rs
    → s.resume_i ≡ none
    → iterations_left c s ≤ length rs
    → Ends (sweep c rs s)
unfolding sweep
sweep-Ends c [] s o e h = elim (Bool-cases (ltb s.i c.queue_end)) [
  | inl lt ↦ absurd (omega (arith, ltb→lt s.i c.queue_end lt))
  | inr ge ↦ rw (ge, sweep, Ends) tt
]
sweep-Ends c (r ∷ rs) s o e h = elim (Bool-cases (ltb s.i c.queue_end)) [
  | inl lt ↦
      rw (lt, sweep, Ends)
        (chain-Ends c (iterations_left c s) (iteration c r s) (sweep c rs)
          (iteration-Progress c r s o.0 (ltb→lt _ _ lt) e)
          (λ s' e' h'. sweep-Ends c rs s' o.1 e' (omega arith)))
  | inr ge ↦ rw (ge, sweep, Ends) tt
]
