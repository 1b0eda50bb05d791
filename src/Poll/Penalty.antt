-- ===== src/Poll/Penalty.antt =====
-- nf-chain/src/main.c, `poll_loop`: the Penalty policy, within a sweep.
use native.Mathlib.Decide.{dec_lt, ℕ_discrete}
use queue_dpdk.Prelude.{
  update, lt→ltb, ℕ, ◌+◌, ◌-◌, ◌≤◌, ◌<◌, ◌≡◌, ◌≢◌, ◌⊎◌, refl, true, false, List, [], ◌∷◌, ◌++◌,
  arith, length, ◌==◌, if◌then◌else◌,
}
use queue_dpdk.Poll.Frame.{serve-Alike, count_burst-Alike, count_spin-Alike, sweep-end, sweep-step}
use queue_dpdk.Poll.Visits.{times_polled, times_polled-append, serve-times_polled}
use queue_dpdk.Poll.{
  acl_freed, Config, Sweep, Reply, Outcome, Event, skipped, busy, polled, sent, freed, next,
  stopped, Run, finished, halted, starved, serve, count_latency, settle, after_poll, complete,
  count_burst, poll_queue, iteration, sweep, chain, log, is_partitioned,
}

-- The counter of queue `q`.
abbrev pub counter : Config → ℕ → Sweep → ℕ
counter c q s = s.hit (q - c.queue_start)

-- Partitioned counts from the start of its slice; the other modes have slices that start at 0.
abbrev pub Aligned : Config → Type 0
Aligned c = (is_partitioned c.mode ≡ true) ⊎ (c.queue_start ≡ 0)

abbrev pub times_skipped : ℕ → List Event → ℕ
times_skipped q [] = 0
times_skipped q (skipped p ∷ es) = (if p == q then 1 else 0) + times_skipped q es
times_skipped q (polled port p pkts ∷ es) = times_skipped q es
times_skipped q (busy p ∷ es) = times_skipped q es
times_skipped q (sent txq pkts ∷ es) = times_skipped q es
times_skipped q (freed pkts ∷ es) = times_skipped q es
times_skipped q (acl_freed pkts ∷ es) = times_skipped q es

times_skipped-append :
    (q : ℕ) (es fs : List Event)
    → times_skipped q (es ++ fs) ≡ times_skipped q es + times_skipped q fs
times_skipped-append q [] fs = omega arith
times_skipped-append q (skipped p ∷ es) fs = omega (arith, times_skipped-append q es fs)
times_skipped-append q (polled port p pkts ∷ es) fs = times_skipped-append q es fs
times_skipped-append q (busy p ∷ es) fs = times_skipped-append q es fs
times_skipped-append q (sent txq pkts ∷ es) fs = times_skipped-append q es fs
times_skipped-append q (freed pkts ∷ es) fs = times_skipped-append q es fs
times_skipped-append q (acl_freed pkts ∷ es) fs = times_skipped-append q es fs

serve-times_skipped :
    (q : ℕ) (c : Config) (r : Reply) (s : Sweep) → times_skipped q (serve c r s).0 ≡ 0
unfolding serve
serve-times_skipped q c r s = ground arith

settle-counter :
    (c : Config) (q n : ℕ) (s : Sweep)
    → Aligned c
    → c.queue_start ≤ s.i
    → c.queue_start ≤ q
    → s.i ≢ q
    → (counter c q (settle c (s.i - c.queue_start) n s) ≡ counter c q s)
      × (s.i ≤ (settle c (s.i - c.queue_start) n s).i)
      × ((settle c (s.i - c.queue_start) n s).i ≤ s.i + 1)
unfolding settle
settle-counter c q n s a h k e = ground arith

complete-counter :
    (c : Config) (r : Reply) (q : ℕ) (s : Sweep)
    → Aligned c
    → c.latency_mode ≡ false
    → c.queue_start ≤ s.i
    → c.queue_start ≤ q
    → s.i ≢ q
    → (counter c q (complete c r (s.i - c.queue_start) s) ≡ counter c q s)
      × (s.i ≤ (complete c r (s.i - c.queue_start) s).i)
      × ((complete c r (s.i - c.queue_start) s).i ≤ s.i + 1)
unfolding complete after_poll count_latency
complete-counter c r q s a l h k e = ground (
  arith,
  serve-Alike c r s,
  count_spin-Alike c (length r.burst)
      (after_poll c (s.i - c.queue_start) (length r.burst) (serve c r s).1),
  settle-counter c q (length r.burst) (serve c r s).1,
)

-- The iteration does not poll `q`, adds `p` to the skips of `q`, and leaves its counter at `k`.
abbrev pub Quiet : Config → ℕ → ℕ → ℕ → Sweep → Outcome → Type 0
Quiet c q p k from (next es s) =
    (times_polled q es ≡ 0)
    × (times_skipped q es ≡ p)
    × (counter c q s ≡ k)
    × (from.i ≤ s.i)
    × (s.i ≤ from.i + 1)
Quiet c q p k from (stopped es s) = times_polled q es ≡ 0

pub iteration-other :
    (c : Config) (r : Reply) (q : ℕ) (s : Sweep)
    → Aligned c
    → c.latency_mode ≡ false
    → c.queue_start ≤ s.i
    → c.queue_start ≤ q
    → s.i ≢ q
    → Quiet c q 0 (counter c q s) s (iteration c r s)
unfolding iteration poll_queue
iteration-other c r q s a l h k e = ground (
  arith,
  count_burst-Alike c (length r.burst) s,
  serve-times_polled q c r (count_burst c (length r.burst) s),
  serve-times_skipped q c r (count_burst c (length r.burst) s),
  complete-counter c r q (count_burst c (length r.burst) s),
)

-- The state after queue `s.i` is skipped.
abbrev skip : Config → Sweep → Sweep
skip c s = record s { i = s.i + 1; hit = update s.hit (s.i - c.queue_start) (counter c s.i s + 1) }

skip-counter :
    (c : Config) (q : ℕ) (s : Sweep) → s.i ≡ q → counter c q (skip c s) ≡ counter c q s + 1
skip-counter c q s e = ground arith

iteration-skip :
    (c : Config) (r : Reply) (s : Sweep)
    → counter c s.i s < c.penalty
    → iteration c r s ≡ next (skipped s.i ∷ []) (skip c s)
unfolding iteration
iteration-skip c r s h = ground arith

-- The run does not poll `q`; if it finishes, it skipped `q` `p` times and left its counter at `k`.
abbrev pub Tally : Config → ℕ → ℕ → ℕ → Run → Type 0
Tally c q p k (finished es s rs) =
    (times_polled q es ≡ 0) × (times_skipped q es ≡ p) × (counter c q s ≡ k)
Tally c q p k (halted es s) = times_polled q es ≡ 0
Tally c q p k (starved es s) = times_polled q es ≡ 0

log-Tally :
    (c : Config) (q p p' total k : ℕ) (es : List Event) (run : Run)
    → times_polled q es ≡ 0
    → times_skipped q es ≡ p
    → p + p' ≡ total
    → Tally c q p' k run
    → Tally c q total k (log es run)
log-Tally c q p p' total k es (finished fs s rs) h j e t = (
  omega (arith, times_polled-append q es fs, t.0),
  omega (arith, times_skipped-append q es fs, t.1),
  t.2,
)
log-Tally c q p p' total k es (halted fs s) h j e t = omega (arith, times_polled-append q es fs)
log-Tally c q p p' total k es (starved fs s) h j e t = omega (arith, times_polled-append q es fs)

chain-Tally :
    (c : Config) (q p k : ℕ) (from : Sweep) (o : Outcome) (rest : Sweep → Run)
    → Quiet c q 0 (counter c q from) from o
    → ((s : Sweep)
        → counter c q s ≡ counter c q from
        → from.i ≤ s.i
        → s.i ≤ from.i + 1
        → Tally c q p k (rest s))
    → Tally c q p k (chain o rest)
chain-Tally c q p k from (next es s) rest h keep =
    log-Tally c q 0 p p k es (rest s) h.0 h.1 (omega arith) (keep s h.2 h.3 h.4)
chain-Tally c q p k from (stopped es s) rest h keep = h

pub sweep-empty : (c : Config) (s : Sweep) → s.i < c.queue_end → sweep c [] s ≡ starved [] s
unfolding sweep
sweep-empty c s h = rw (lt→ltb s.i c.queue_end h, sweep)

-- Past the queue its counter does not change.
sweep-past :
    (c : Config) (q : ℕ) (rs : List Reply) (s : Sweep)
    → Aligned c
    → c.latency_mode ≡ false
    → c.queue_start ≤ q
    → q < s.i
    → Tally c q 0 (counter c q s) (sweep c rs s)
sweep-past c q [] s a l k h = elim (dec_lt s.i c.queue_end) [
  | yes lt ↦ rw (sweep-empty c s lt) refl
  | no ge ↦ rw (sweep-end c [] s (omega arith)) (refl, refl, refl)
]
sweep-past c q (r ∷ rs) s a l k h = elim (dec_lt s.i c.queue_end) [
  | yes lt ↦ rw (sweep-step c r rs s lt) (
      chain-Tally c q 0 (counter c q s) s (iteration c r s) (sweep c rs)
        (iteration-other c r q s a l (omega arith) k (omega arith))
        (λ s' e lo hi. rw (← e) (sweep-past c q rs s' a l k (omega arith))))
  | no ge ↦ rw (sweep-end c (r ∷ rs) s (omega arith)) (refl, refl, refl)
]

-- Without the latency policy, a sweep that has queue `q` before it and finds its counter below the
-- penalty does not poll `q`, and if the sweep finishes it has skipped `q` once and raised the
-- counter by one.
pub sweep-skips :
    (c : Config) (q : ℕ) (rs : List Reply) (s : Sweep)
    → Aligned c
    → c.latency_mode ≡ false
    → c.queue_start ≤ s.i
    → s.i ≤ q
    → q < c.queue_end
    → counter c q s < c.penalty
    → Tally c q 1 (counter c q s + 1) (sweep c rs s)
sweep-skips c q [] s a l k le lt p = rw (sweep-empty c s (omega arith)) refl
sweep-skips c q (r ∷ rs) s a l k le lt p = elim (ℕ_discrete s.i q) [
  | yes e ↦
      rw (sweep-step c r rs s (omega arith), iteration-skip c r s (rw e p))
        (log-Tally c q 1 0 1 (counter c q s + 1) (skipped s.i ∷ []) (sweep c rs (skip c s)) refl
          (ground arith) refl
          (rw (skip-counter c q s e) at
            (sweep-past c q rs (skip c s) a l (omega arith) (omega arith))))
  | no ne ↦ rw (sweep-step c r rs s (omega arith)) (
      chain-Tally c q 1 (counter c q s + 1) s (iteration c r s) (sweep c rs)
        (iteration-other c r q s a l k (omega arith) ne)
        (λ s' e lo hi.
          rw (← e) (sweep-skips c q rs s' a l (omega arith) (omega arith) lt (omega arith))))
]
