-- ===== src/Poll/Shared.antt =====
-- nf-chain/src/main.c, `poll_loop`: the diversion to the latency queue, with and without its lock.
use queue_dpdk.Prelude.{Option, ℕ, ◌+◌, ◌-◌, ◌≤◌, ◌≡◌, true, false, some, none, arith, length}
use queue_dpdk.Poll.{
  Config, Sweep, Reply, Outcome, next, stopped, iteration, poll_queue, count_burst, divert,
  has_latency_queue, is_shared,
}
use queue_dpdk.Poll.Frame.{count_burst-Alike}
use queue_dpdk.Poll.Termination.{complete-latency}

-- A diversion is due at a queue that the penalty does not skip.
pub record IsDue (c : Config) (s : Sweep) : Type 0 where
  pub latency : c.latency_mode ≡ true
  pub in_slice : has_latency_queue c ≡ true
  pub injected : s.inject_queue ≡ true
  pub unpenalised : c.penalty ≤ s.hit (s.i - c.queue_start)

-- The iteration goes on at `i` with this queue to resume at.
abbrev pub GoesOn : ℕ → Option ℕ → Outcome → Type 0
GoesOn i resume (next es s) = (s.i ≡ i) × (s.resume_i ≡ resume)
GoesOn i resume (stopped es s) = ⊥

-- A diversion that obtains the lock of the latency queue and meets no stop packet comes back to
-- the queue it left. In Shared mode a diversion that does not obtain the lock does not come back:
-- the sweep goes on behind the latency queue and the queue it left stays in `resume_i`.
pub diversion_comes_back :
    (c : Config) (r : Reply) (s : Sweep)
    → IsDue c s
    → (is_shared c.mode ≡ true
        → r.locked ≡ true
        → r.stop ≡ false
        → GoesOn s.i none (iteration c r s))
      × (is_shared c.mode ≡ false → r.stop ≡ false → GoesOn s.i none (iteration c r s))
      × (is_shared c.mode ≡ true
          → r.locked ≡ false
          → GoesOn (c.latency_queue + 1) (some s.i) (iteration c r s))
unfolding iteration poll_queue
diversion_comes_back c r s d =
    (λ sh lk st. held sh lk st, λ sh st. free sh st, λ sh lk. ground arith)
  where
    held :
        is_shared c.mode ≡ true
        → r.locked ≡ true
        → r.stop ≡ false
        → GoesOn s.i none (iteration c r s)
    held sh lk st = ground (
      arith,
      count_burst-Alike c (length r.burst) (divert c s),
      complete-latency c r (s.i - c.queue_start) s.i (count_burst c (length r.burst) (divert c s)),
    )

    free : is_shared c.mode ≡ false → r.stop ≡ false → GoesOn s.i none (iteration c r s)
    free sh st = ground (
      arith,
      count_burst-Alike c (length r.burst) (divert c s),
      complete-latency c r (s.i - c.queue_start) s.i (count_burst c (length r.burst) (divert c s)),
    )
