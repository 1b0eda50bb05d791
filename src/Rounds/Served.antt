-- ===== src/Rounds/Served.antt =====
-- nf-chain/src/main.c, `poll_loop`: no queue waits for ever.
use native.Mathlib.Decide.{dec_lt}
use queue_dpdk.Prelude.{
  ℕ, ◌+◌, ◌-◌, ◌*◌, ◌≤◌, ◌<◌, ◌≡◌, refl, false, none, List, [], ◌∷◌, ◌++◌, arith, All, length,
}
use queue_dpdk.Poll.{Config, Run, Reply, Event, finished, halted, starved, sweep}
use queue_dpdk.Poll.Termination.{Obtained, iterations_left}
use queue_dpdk.Poll.Spends.{IsGood, Spends, sweep-Spends}
use queue_dpdk.Poll.Visits.{times_polled, times_polled-append}
use queue_dpdk.Poll.Penalty.{counter, Aligned, Tally, sweep-skips}
use queue_dpdk.Poll.Reaches.{Reaches, sweep-Reaches}
use queue_dpdk.Rounds.{
  log, Clock, Loop, Tick, Rounds, running, quits, stops, waits, measure, flush, begin_round,
  end_round, rounds,
}
use queue_dpdk.Rounds.Running.{
  round_iterations, rounds-IsRunning, IsRunning, begin_round-Untimed, measure-Untimed,
  begin_round-iterations,
}

-- The rounds are over with the loop still running, and have polled queue `q`.
abbrev pub Served : ℕ → Rounds → Type 0
Served q (running es l rs) = 1 ≤ times_polled q es
Served q (quits es l) = ⊥
Served q (stops es l) = ⊥
Served q (waits es l) = ⊥

log-now :
    (q : ℕ) (es : List Event) (r : Rounds)
    → 1 ≤ times_polled q es
    → IsRunning r
    → Served q (log es r)
log-now q es (running fs l rs) h i = rw (times_polled-append q es fs) (omega (arith, h))
log-now q es (quits fs l) h i = i
log-now q es (stops fs l) h i = i
log-now q es (waits fs l) h i = i

log-Served : (q : ℕ) (es : List Event) (r : Rounds) → Served q r → Served q (log es r)
log-Served q es (running fs l rs) h = rw (times_polled-append q es fs) (omega (arith, h))
log-Served q es (quits fs l) h = h
log-Served q es (stops fs l) h = h
log-Served q es (waits fs l) h = h

-- A round that polls the queue.
polling_round :
    (c : Config) (k : Clock) (t : Tick) (l : Loop) (q m n : ℕ) (run : Run)
    (rest : List Reply → Loop → Rounds)
    → Spends c m n run
    → Reaches q run
    → ((rs : List Reply) (l' : Loop)
        → n ≤ length rs + m
        → All (IsGood c) rs
        → l'.state.resume_i ≡ none
        → IsRunning (rest rs l'))
    → Served q (end_round c k t l run rest)
polling_round c k t l q m n (finished es s rs) rest h p keep =
    let l' = record l { state = s } in
    log-now q (es ++ flush c t.nb_tx s) (rest rs (measure c k t.tsc l'))
      (rw (times_polled-append q es (flush c t.nb_tx s)) (omega (arith, p)))
      (keep rs (measure c k t.tsc l') h.0 h.1 (rw ((measure-Untimed c k t.tsc l').resume) (h.2)))
polling_round c k t l q m n (halted es s) rest h p keep = absurd h
polling_round c k t l q m n (starved es s) rest h p keep = absurd h

-- A round that skips it.
skipping_round :
    (c : Config) (k : Clock) (t : Tick) (l : Loop) (q m n v : ℕ) (run : Run)
    (rest : List Reply → Loop → Rounds)
    → Spends c m n run
    → Tally c q 1 v run
    → ((rs : List Reply) (l' : Loop)
        → n ≤ length rs + m
        → All (IsGood c) rs
        → l'.state.resume_i ≡ none
        → counter c q l'.state ≡ v
        → Served q (rest rs l'))
    → Served q (end_round c k t l run rest)
skipping_round c k t l q m n v (finished es s rs) rest h p keep =
    let l' = record l { state = s } in
    let u = measure-Untimed c k t.tsc l' in
    log-Served q (es ++ flush c t.nb_tx s) (rest rs (measure c k t.tsc l'))
      (keep rs (measure c k t.tsc l') h.0 h.1 (rw (u.resume) (h.2)) (rw (counter, u.hit) (p.2)))
skipping_round c k t l q m n v (halted es s) rest h p keep = absurd h
skipping_round c k t l q m n v (starved es s) rest h p keep = absurd h

All-Obtained : (c : Config) (rs : List Reply) → All (IsGood c) rs → All (Obtained c) rs
All-Obtained c [] g = tt
All-Obtained c (r ∷ rs) g = (g.0.obtained, All-Obtained c rs g.1)

-- Without the latency policy and with every lock obtained, no stop packet, no `force_quit` and
-- enough replies for each sweep, a queue of the slice whose counter lacks at most `n` to the
-- penalty is polled within `n + 1` sweeps, whatever the queues hold, and the loop is still running.
pub rounds-Served :
    (c : Config) (k : Clock) (q n : ℕ) (ts : List Tick) (rs : List Reply) (l : Loop)
    → Aligned c
    → c.latency_mode ≡ false
    → c.queue_start ≤ q
    → q < c.queue_end
    → All (λ t. t.force_quit ≡ false) ts
    → All (IsGood c) rs
    → l.state.resume_i ≡ none
    → length ts ≡ n + 1
    → length ts * round_iterations c ≤ length rs
    → c.penalty ≤ counter c q l.state + n
    → Served q (rounds c k ts rs l)
unfolding rounds
rounds-Served c k q n [] rs l a z lo hi f g e len h p = absurd (omega (arith, len))
rounds-Served c k q n (t ∷ ts) rs l a z lo hi f g e len h p =
    let l' = begin_round c k t l in
    let u = begin_round-Untimed c k t l in
    let b = begin_round-iterations c k t l in
    let counter_same : counter c q l'.state ≡ counter c q l.state = rw (counter, u.hit) refl in
    let spends = sweep-Spends c rs l'.state g (rw (u.resume) e) (omega arith) in
    elim (dec_lt (counter c q l'.state) c.penalty) [
      | no ge ↦ rw (f.0) (
          polling_round c k t l' q (iterations_left c l'.state) (length rs) (sweep c rs l'.state)
            (rounds c k ts) spends
            (sweep-Reaches c q rs l'.state (All-Obtained c rs g) a z (omega arith) lo hi
              (omega arith))
            (λ rs' l'' n' g' e'. rounds-IsRunning c k ts rs' l'' f.1 g' e' (omega arith)))
      | yes lt ↦ rw (f.0) (
          skipping_round c k t l' q (iterations_left c l'.state) (length rs)
            (counter c q l'.state + 1) (sweep c rs l'.state) (rounds c k ts) spends
            (sweep-skips c q rs l'.state a z (omega arith) lo hi lt)
            (λ rs' l'' n' g' e' v.
              rounds-Served c k q (n - 1) ts rs' l'' a z lo hi f.1 g' e' (omega (arith, len))
                (omega (arith, len)) (omega (arith, lt, v, counter_same))))
    ]
