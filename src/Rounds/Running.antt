-- ===== src/Rounds/Running.antt =====
-- nf-chain/src/main.c, `poll_loop`: the outer loop goes on as long as it is given what it needs.
use queue_dpdk.Prelude.{ℕ, ◌+◌, ◌-◌, ◌*◌, ◌≤◌, ◌≡◌, false, none, List, [], ◌∷◌, arith, All, length}
use queue_dpdk.Poll.{
  Config, Sweep, Run, Reply, Event, finished, halted, starved, sweep, max_consecutive_polls,
}
use queue_dpdk.Poll.Termination.{iterations_left}
use queue_dpdk.Poll.Spends.{IsGood, Spends, sweep-Spends}
use queue_dpdk.Rounds.{
  log, Clock, Loop, Tick, Rounds, running, quits, stops, waits, measure, begin_round, end_round,
  rounds, print_stats, advance_timer,
}

-- What the timers leave of the state.
pub record Untimed (s t : Sweep) : Type 0 where
  pub resume : s.resume_i ≡ t.resume_i
  pub hit : s.hit ≡ t.hit

pub begin_round-Untimed :
    (c : Config) (k : Clock) (t : Tick) (l : Loop) → Untimed (begin_round c k t l).state l.state
unfolding advance_timer print_stats
begin_round-Untimed c k t l = ground arith

pub measure-Untimed :
    (c : Config) (k : Clock) (tsc : ℕ) (l : Loop) → Untimed (measure c k tsc l).state l.state
unfolding measure
measure-Untimed c k tsc l = ground arith

-- Enough iterations for a sweep over all queues.
abbrev pub round_iterations : Config → ℕ
round_iterations c =
    2 * ((max_consecutive_polls + 1) * (c.queue_end - c.queue_start) + max_consecutive_polls) + 1

pub begin_round-iterations :
    (c : Config) (k : Clock) (t : Tick) (l : Loop)
    → iterations_left c (begin_round c k t l).state ≤ round_iterations c
begin_round-iterations c k t l = ground arith

abbrev pub IsRunning : Rounds → Type 0
IsRunning (running es l rs) = Unit
IsRunning (quits es l) = ⊥
IsRunning (stops es l) = ⊥
IsRunning (waits es l) = ⊥

log-IsRunning : (es : List Event) (r : Rounds) → IsRunning r → IsRunning (log es r)
log-IsRunning es (running fs l rs) h = h
log-IsRunning es (quits fs l) h = h
log-IsRunning es (stops fs l) h = h
log-IsRunning es (waits fs l) h = h

end_round-IsRunning :
    (c : Config) (k : Clock) (t : Tick) (l : Loop) (m n : ℕ) (run : Run)
    (rest : List Reply → Loop → Rounds)
    → Spends c m n run
    → ((rs : List Reply) (l' : Loop)
        → n ≤ length rs + m
        → All (IsGood c) rs
        → l'.state.resume_i ≡ none
        → IsRunning (rest rs l'))
    → IsRunning (end_round c k t l run rest)
end_round-IsRunning c k t l m n (finished es s rs) rest h keep =
    let l' = record l { state = s } in
    log-IsRunning _ _
      (keep rs (measure c k t.tsc l') h.0 h.1 (rw ((measure-Untimed c k t.tsc l').resume) h.2))
end_round-IsRunning c k t l m n (halted es s) rest h keep = h
end_round-IsRunning c k t l m n (starved es s) rest h keep = h

-- The loop goes through all its ticks.
pub rounds-IsRunning :
    (c : Config) (k : Clock) (ts : List Tick) (rs : List Reply) (l : Loop)
    → All (λ t. t.force_quit ≡ false) ts
    → All (IsGood c) rs
    → l.state.resume_i ≡ none
    → length ts * round_iterations c ≤ length rs
    → IsRunning (rounds c k ts rs l)
unfolding rounds
rounds-IsRunning c k [] rs l q g e h = tt
rounds-IsRunning c k (t ∷ ts) rs l q g e h =
    let l' = begin_round c k t l in
    let b = begin_round-iterations c k t l in
    rw (q.0) (
      end_round-IsRunning c k t l' (iterations_left c l'.state) (length rs) (sweep c rs l'.state)
        (rounds c k ts)
        (sweep-Spends c rs l'.state g (rw ((begin_round-Untimed c k t l).resume) e) (omega arith))
        (λ rs' l'' n' g' e'. rounds-IsRunning c k ts rs' l'' q.1 g' e' (omega arith)))
