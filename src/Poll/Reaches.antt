-- ===== src/Poll/Reaches.antt =====
-- nf-chain/src/main.c, `poll_loop`: a queue whose counter has run out is polled.
use native.Mathlib.Decide.{ℕ_discrete}
use queue_dpdk.Prelude.{ℕ, ◌+◌, ◌≤◌, ◌<◌, ◌≡◌, false, List, [], ◌∷◌, arith, All}
use queue_dpdk.Poll.Frame.{sweep-step}
use queue_dpdk.Poll.Termination.{Obtained}
use queue_dpdk.Poll.Visits.{times_polled, times_polled-append}
use queue_dpdk.Poll.Penalty.{counter, Aligned, Quiet, iteration-other, sweep-empty}
use queue_dpdk.Poll.{
  Config, Sweep, Reply, Outcome, Event, next, stopped, Run, finished, halted, starved, iteration,
  poll_queue, sweep, chain, log,
}

-- If the run finishes, it has polled queue `q`.
abbrev pub Reaches : ℕ → Run → Type 0
Reaches q (finished es s rs) = 1 ≤ times_polled q es
Reaches q (halted es s) = Unit
Reaches q (starved es s) = Unit

abbrev PollsNow : ℕ → Outcome → Type 0
PollsNow q (next es s) = 1 ≤ times_polled q es
PollsNow q (stopped es s) = Unit

iteration-PollsNow :
    (c : Config) (r : Reply) (s : Sweep)
    → Obtained c r
    → c.latency_mode ≡ false
    → c.penalty ≤ counter c s.i s
    → PollsNow s.i (iteration c r s)
unfolding iteration poll_queue
iteration-PollsNow c r s o l p = ground arith

chain-now : (q : ℕ) (o : Outcome) (rest : Sweep → Run) → PollsNow q o → Reaches q (chain o rest)
chain-now q (next es s) rest h = now (rest s)
  where
    now : (run : Run) → Reaches q (log es run)
    now (finished fs t rs) = rw (times_polled-append q es fs) (omega (arith, h))
    now (halted fs t) = tt
    now (starved fs t) = tt
chain-now q (stopped es s) rest h = tt

log-Reaches : (q : ℕ) (es : List Event) (run : Run) → Reaches q run → Reaches q (log es run)
log-Reaches q es (finished fs s rs) h = rw (times_polled-append q es fs) (omega (arith, h))
log-Reaches q es (halted fs s) h = tt
log-Reaches q es (starved fs s) h = tt

chain-Reaches :
    (c : Config) (q : ℕ) (from : Sweep) (o : Outcome) (rest : Sweep → Run)
    → Quiet c q 0 (counter c q from) from o
    → ((s : Sweep)
        → counter c q s ≡ counter c q from
        → from.i ≤ s.i
        → s.i ≤ from.i + 1
        → Reaches q (rest s))
    → Reaches q (chain o rest)
chain-Reaches c q from (next es s) rest h keep = log-Reaches q es (rest s) (keep s h.2 h.3 h.4)
chain-Reaches c q from (stopped es s) rest h keep = tt

-- Without the latency policy, a sweep that has queue `q` before it, finds its counter not below
-- the penalty and obtains its locks polls `q` if it finishes.
pub sweep-Reaches :
    (c : Config) (q : ℕ) (rs : List Reply) (s : Sweep)
    → All (Obtained c) rs
    → Aligned c
    → c.latency_mode ≡ false
    → c.queue_start ≤ s.i
    → s.i ≤ q
    → q < c.queue_end
    → c.penalty ≤ counter c q s
    → Reaches q (sweep c rs s)
sweep-Reaches c q [] s o a l k le lt p = rw (sweep-empty c s (omega arith)) tt
sweep-Reaches c q (r ∷ rs) s o a l k le lt p = elim (ℕ_discrete s.i q) [
  | yes e ↦
      rw (sweep-step c r rs s (omega arith), ← e)
        (chain-now s.i (iteration c r s) (sweep c rs) (iteration-PollsNow c r s o.0 l (rw e p)))
  | no ne ↦ rw (sweep-step c r rs s (omega arith)) (
      chain-Reaches c q s (iteration c r s) (sweep c rs)
        (iteration-other c r q s a l k (omega arith) ne)
        (λ s' e lo hi. sweep-Reaches c q rs s' o.1 a l (omega arith) (omega arith) lt (rw e p)))
]
