-- ===== src/Poll/Spends.antt =====
-- nf-chain/src/main.c, `poll_loop`: a sweep that obtains its locks and meets no stop packet.
use queue_dpdk.Prelude.{
  ℕ, ◌+◌, ◌≤◌, ◌<◌, ◌≡◌, Bool-cases, inl, inr, false, none, List, [], ◌∷◌, arith, All, length, ltb,
  ltb→lt, suc,
}
use queue_dpdk.Poll.{
  Config, Sweep, Run, Reply, Event, Outcome, next, stopped, finished, halted, starved, sweep,
  iteration, poll_queue, chain, log,
}
use queue_dpdk.Poll.Termination.{Obtained, iteration-Progress, Progress, iterations_left}

-- The lock of the queue is had, and the burst does not hold the stop packet.
pub record IsGood (c : Config) (r : Reply) : Type 0 where
  pub obtained : Obtained c r
  pub going : r.stop ≡ false

-- The sweep ends by itself, has used at most `m` of `n` replies, and leaves good ones.
abbrev pub Spends : Config → ℕ → ℕ → Run → Type 0
Spends c m n (finished es s rs) = (n ≤ length rs + m) × All (IsGood c) rs × (s.resume_i ≡ none)
Spends c m n (halted es s) = ⊥
Spends c m n (starved es s) = ⊥

log-Spends :
    (c : Config) (m n : ℕ) (es : List Event) (run : Run)
    → Spends c m n run
    → Spends c m n (log es run)
log-Spends c m n es (finished fs s rs) h = h
log-Spends c m n es (halted fs s) h = h
log-Spends c m n es (starved fs s) h = h

Spends-mono :
    (c : Config) (m m' n : ℕ) (run : Run) → m < m' → Spends c m n run → Spends c m' (suc n) run
Spends-mono c m m' n (finished fs s rs) l h = (omega (arith, h.0), h.1, h.2)
Spends-mono c m m' n (halted fs s) l h = h
Spends-mono c m m' n (starved fs s) l h = h

Goes : Outcome → Type 0
Goes (next es s) = Unit
Goes (stopped es s) = ⊥

iteration-Goes : (c : Config) (r : Reply) (s : Sweep) → r.stop ≡ false → Goes (iteration c r s)
unfolding iteration poll_queue Goes
iteration-Goes c r s h = ground arith

chain-Spends :
    (c : Config) (m n : ℕ) (o : Outcome) (rest : Sweep → Run)
    → Goes o
    → Progress c m o
    → ((s : Sweep)
        → s.resume_i ≡ none
        → iterations_left c s < m
        → Spends c (iterations_left c s) n (rest s))
    → Spends c m (suc n) (chain o rest)
unfolding Goes
chain-Spends c m n (next es s) rest g p keep =
    log-Spends c m (suc n) es (rest s)
      (Spends-mono c (iterations_left c s) m n (rest s) p.1 (keep s p.0 p.1))
chain-Spends c m n (stopped es s) rest g p keep = absurd g

pub sweep-Spends :
    (c : Config) (rs : List Reply) (s : Sweep)
    → All (IsGood c) rs
    → s.resume_i ≡ none
    → iterations_left c s ≤ length rs
    → Spends c (iterations_left c s) (length rs) (sweep c rs s)
unfolding sweep
sweep-Spends c [] s g e h = elim (Bool-cases (ltb s.i c.queue_end)) [
  | inl lt ↦ absurd (omega (arith, ltb→lt s.i c.queue_end lt))
  | inr ge ↦ rw (ge, sweep, Spends) (omega arith, tt, e)
]
sweep-Spends c (r ∷ rs) s g e h = elim (Bool-cases (ltb s.i c.queue_end)) [
  | inl lt ↦
      rw (lt, sweep)
        (chain-Spends c (iterations_left c s) (length rs) (iteration c r s) (sweep c rs)
          (iteration-Goes c r s g.0.going) (iteration-Progress c r s g.0.obtained (ltb→lt _ _ lt) e)
          (λ s' e' h'. sweep-Spends c rs s' g.1 e' (omega arith)))
  | inr ge ↦ rw (ge, sweep, Spends) (omega arith, g, e)
]
