-- ===== src/Poll/Frame.antt =====
-- nf-chain/src/main.c, `poll_loop`: the parts of an iteration that only send and count.
use queue_dpdk.Prelude.{lt→ltb, ◌∷◌, le→ltb, [], ◌<◌, ◌≤◌, List, ◌++◌, ◌≡◌, refl, ◌≡◌, ℕ, arith}
use queue_dpdk.Poll.{
  iteration, chain, sweep, Run, Event, log, finished, starved, halted, Config, Sweep, Reply, serve,
  count_burst, count_spin,
}

-- What the parts of an iteration that do no polling decision leave alone.
pub record Alike (s t : Sweep) : Type 0 where
  pub i : s.i ≡ t.i
  pub resume : s.resume_i ≡ t.resume_i
  pub loops : s.max_loops ≡ t.max_loops
  pub inject : s.inject_queue ≡ t.inject_queue
  pub count : s.latency_count ≡ t.latency_count
  pub hit : s.hit ≡ t.hit

pub serve-Alike : (c : Config) (r : Reply) (s : Sweep) → Alike (serve c r s).1 s
unfolding serve
serve-Alike c r s = ground arith

pub count_burst-Alike : (c : Config) (n : ℕ) (s : Sweep) → Alike (count_burst c n s) s
unfolding count_burst
count_burst-Alike c n s = ground arith

pub count_spin-Alike : (c : Config) (n : ℕ) (s : Sweep) → Alike (count_spin c n s) s
unfolding count_spin
count_spin-Alike c n s = ground arith

-- All that a run did.
abbrev pub events : Run → List Event
events (finished es s rs) = es
events (halted es s) = es
events (starved es s) = es

pub events-log : (es : List Event) (run : Run) → events (log es run) ≡ es ++ events run
events-log es (finished fs s rs) = refl
events-log es (halted fs s) = refl
events-log es (starved fs s) = refl

pub sweep-end :
    (c : Config) (rs : List Reply) (s : Sweep) → c.queue_end ≤ s.i → sweep c rs s ≡ finished [] s rs
unfolding sweep
sweep-end c [] s h = rw (le→ltb s.i c.queue_end h, sweep)
sweep-end c (r ∷ rs) s h = rw (le→ltb s.i c.queue_end h, sweep)

pub sweep-step :
    (c : Config) (r : Reply) (rs : List Reply) (s : Sweep)
    → s.i < c.queue_end
    → sweep c (r ∷ rs) s ≡ chain (iteration c r s) (sweep c rs)
unfolding sweep
sweep-step c r rs s h = rw (lt→ltb s.i c.queue_end h, sweep)
