-- ===== src/Mica/Loop/Same.antt =====
-- mica/main.c, `poll_loop`: the loop over the queues is that of nf-chain without its ACL stage.
use mathlib.Core.Path.{subst}
use native.Mathlib.Decide.{dec_lt}
use queue_dpdk.Poll.Frame.{sweep-end, sweep-step}
use queue_dpdk.Poll.Penalty.{sweep-empty}
use queue_dpdk.Prelude.{
  ◌<◌, ◌≤◌, ◌-◌, ◌&&◌, Bool-cases, inl, inr, sym, lt→ltb, le→ltb, ℕ, ◌≡◌, refl, true, List, [], ◌∷◌,
  ◌++◌, arith, ltb, length,
}
use queue_dpdk.Poll.{
  starved, halted, chain, log, finished, sweep, Run, complete, iteration, poll_queue, Config, Sweep,
  Reply, Event, Outcome, skipped, busy, polled, sent, freed, acl_freed, next, stopped, divert,
  serve, count_latency, settle, after_poll, count_spin, count_burst, poll_port,
}
use queue_dpdk.Mica.Loop.{
  lacking, broken, io_chain, io_log, swept, io_sweep, IoRun, Io, pass_over, io_iteration, io_poll,
  Turn, goes, breaks, inject, count_rx, tx_now, tx_later, respond, latency_turn, penalise, insist,
  policy_turn, count_idle,
}

-- The events without those of the ACL stage.
abbrev pub plain : List Event → List Event
plain [] = []
plain (acl_freed pkts ∷ es) = plain es
plain (skipped q ∷ es) = skipped q ∷ plain es
plain (busy q ∷ es) = busy q ∷ plain es
plain (polled port q pkts ∷ es) = polled port q pkts ∷ plain es
plain (sent txq pkts ∷ es) = sent txq pkts ∷ plain es
plain (freed pkts ∷ es) = freed pkts ∷ plain es

plain-append : (es fs : List Event) → plain (es ++ fs) ≡ plain es ++ plain fs
plain-append [] fs = refl
plain-append (acl_freed pkts ∷ es) fs = plain-append es fs
plain-append (skipped q ∷ es) fs = rw (plain-append es fs)
plain-append (busy q ∷ es) fs = rw (plain-append es fs)
plain-append (polled port q pkts ∷ es) fs = rw (plain-append es fs)
plain-append (sent txq pkts ∷ es) fs = rw (plain-append es fs)
plain-append (freed pkts ∷ es) fs = rw (plain-append es fs)

-- One port for all queues.
abbrev pub OnePort : Config → Type 0
OnePort c = (q : ℕ) → c.rx_queue_port q ≡ c.rx_portid

inject-divert : (c : Config) (w : Sweep) → inject c w ≡ divert c w
unfolding inject
inject-divert c w = ground arith

count_rx-count_burst : (c : Config) (n : ℕ) (w : Sweep) → count_rx c n w ≡ count_burst c n w
unfolding count_rx count_burst
count_rx-count_burst c n w = refl

count_idle-count_spin : (c : Config) (n : ℕ) (w : Sweep) → count_idle c n w ≡ count_spin c n w
unfolding count_idle count_spin
count_idle-count_spin c n w = ground arith

poll_port-OnePort : (c : Config) (q : ℕ) → OnePort c → poll_port c q ≡ c.rx_portid
poll_port-OnePort c q o = ground (arith, o q)

policy_turn-after_poll :
    (c : Config) (qi n : ℕ) (w : Sweep) → policy_turn c qi n w ≡ after_poll c qi n w
unfolding policy_turn latency_turn penalise insist after_poll settle count_latency
policy_turn-after_poll c qi n w = ground arith

respond-serve :
    (c : Config) (r : Reply) (w : Sweep)
    → OnePort c
    → ltb 0 (length r.burst) ≡ true
    → (respond c r w).0 ≡ plain (serve c r w).0 × ((respond c r w).1 ≡ (serve c r w).1)
unfolding respond tx_now tx_later serve
respond-serve c r w o h = rw (h, poll_port-OnePort c w.i o) (ground arith)

-- The same events, but those of the ACL stage, and the same variables.
abbrev SameTurn : Turn → Outcome → Type 0
SameTurn (goes es s) (next fs t) = (es ≡ plain fs) × (s.sweep ≡ t)
SameTurn (breaks es s) (stopped fs t) = (es ≡ plain fs) × (s.sweep ≡ t)
SameTurn _ _ = ⊥

io_poll-SameTurn :
    (c : Config) (r : Reply) (qi : ℕ) (s : Io)
    → OnePort c
    → SameTurn (io_poll c r qi s) (poll_queue c r qi s.sweep)
unfolding io_poll poll_queue complete serve
io_poll-SameTurn c r qi s o = ground (
  arith,
  poll_port-OnePort c s.sweep.i o,
  count_rx-count_burst c (length r.burst) s.sweep,
  respond-serve c r (count_burst c (length r.burst) s.sweep) o,
  policy_turn-after_poll c qi (length r.burst) (count_burst c (length r.burst) s.sweep),
  policy_turn-after_poll c qi (length r.burst)
      (serve c r (count_burst c (length r.burst) s.sweep)).1,
  count_idle-count_spin c (length r.burst)
      (after_poll c qi (length r.burst) (count_burst c (length r.burst) s.sweep)),
  count_idle-count_spin c (length r.burst)
      (after_poll c qi (length r.burst) (serve c r (count_burst c (length r.burst) s.sweep)).1),
)

io_iteration-SameTurn :
    (c : Config) (r : Reply) (s : Io)
    → OnePort c
    → SameTurn (io_iteration c r s) (iteration c r s.sweep)
unfolding io_iteration iteration pass_over
io_iteration-SameTurn c r s o =
    let qi = s.sweep.i - c.queue_start in
    elim (Bool-cases (ltb 0 c.penalty && ltb (s.sweep.hit qi) c.penalty)) [
      | inl e ↦ rw e (refl, refl)
      | inr e ↦ rw e (
          subst
            (λ w.
              SameTurn (io_poll c r qi (record s { sweep = inject c s.sweep }))
                (poll_queue c r qi w))
            (inject-divert c s.sweep)
            (io_poll-SameTurn c r qi (record s { sweep = inject c s.sweep }) o))
    ]

-- The same end, events but those of the ACL stage, variables and replies left.
abbrev pub SameRun : IoRun → Run → Type 0
SameRun (swept es s rs) (finished fs t qs) = (es ≡ plain fs) × (s.sweep ≡ t) × (rs ≡ qs)
SameRun (broken es s) (halted fs t) = (es ≡ plain fs) × (s.sweep ≡ t)
SameRun (lacking es s) (starved fs t) = (es ≡ plain fs) × (s.sweep ≡ t)
SameRun _ _ = ⊥

log-SameRun :
    (es fs : List Event) (a : IoRun) (b : Run)
    → es ≡ plain fs
    → SameRun a b
    → SameRun (io_log es a) (log fs b)
log-SameRun es fs (swept gs s rs) (finished hs t qs) e h =
    (rw (e, h.0) (sym (plain-append fs hs)), h.1, h.2)
log-SameRun es fs (broken gs s) (halted hs t) e h = (rw (e, h.0) (sym (plain-append fs hs)), h.1)
log-SameRun es fs (lacking gs s) (starved hs t) e h = (rw (e, h.0) (sym (plain-append fs hs)), h.1)
log-SameRun es fs (swept gs s rs) (halted hs t) e h = h
log-SameRun es fs (swept gs s rs) (starved hs t) e h = h
log-SameRun es fs (broken gs s) (finished hs t qs) e h = h
log-SameRun es fs (broken gs s) (starved hs t) e h = h
log-SameRun es fs (lacking gs s) (finished hs t qs) e h = h
log-SameRun es fs (lacking gs s) (halted hs t) e h = h

chain-SameRun :
    (a : Turn) (b : Outcome) (f : Io → IoRun) (g : Sweep → Run)
    → SameTurn a b
    → ((s : Io) → SameRun (f s) (g s.sweep))
    → SameRun (io_chain a f) (chain b g)
chain-SameRun (goes es s) (next fs t) f g h keep =
    log-SameRun es fs (f s) (g t) (h.0) (subst (λ w. SameRun (f s) (g w)) (h.1) (keep s))
chain-SameRun (breaks es s) (stopped fs t) f g h keep = h
chain-SameRun (goes es s) (stopped fs t) f g h keep = absurd h
chain-SameRun (breaks es s) (next fs t) f g h keep = absurd h

pub io_sweep-step :
    (c : Config) (r : Reply) (rs : List Reply) (s : Io)
    → s.sweep.i < c.queue_end
    → io_sweep c (r ∷ rs) s ≡ io_chain (io_iteration c r s) (io_sweep c rs)
unfolding io_sweep
io_sweep-step c r rs s h = rw (lt→ltb s.sweep.i c.queue_end h, io_sweep)

pub io_sweep-end :
    (c : Config) (rs : List Reply) (s : Io)
    → c.queue_end ≤ s.sweep.i
    → io_sweep c rs s ≡ swept [] s rs
unfolding io_sweep
io_sweep-end c [] s h = rw (le→ltb s.sweep.i c.queue_end h, io_sweep)
io_sweep-end c (r ∷ rs) s h = rw (le→ltb s.sweep.i c.queue_end h, io_sweep)

-- With one port for all queues, a sweep of the server and the sweep of nf-chain on the same replies
-- from the same variables end in the same way with the same variables and the same replies left,
-- and do the same to the device and the packets, except that the server frees no packet in an ACL
-- stage.
pub io_sweep-SameRun :
    (c : Config) (rs : List Reply) (s : Io)
    → OnePort c
    → SameRun (io_sweep c rs s) (sweep c rs s.sweep)
unfolding io_sweep
io_sweep-SameRun c [] s o = elim (dec_lt s.sweep.i c.queue_end) [
  | yes lt ↦ rw (sweep-empty c s.sweep lt, lt→ltb _ _ lt) (refl, refl)
  | no ge ↦
      rw (sweep-end c [] s.sweep (omega arith), le→ltb s.sweep.i c.queue_end (omega arith))
        (refl, refl, refl)
]
io_sweep-SameRun c (r ∷ rs) s o = elim (dec_lt s.sweep.i c.queue_end) [
  | yes lt ↦
      rw (sweep-step c r rs s.sweep lt, io_sweep-step c r rs s lt)
        (chain-SameRun (io_iteration c r s) (iteration c r s.sweep) (io_sweep c rs) (sweep c rs)
          (io_iteration-SameTurn c r s o) (λ s'. io_sweep-SameRun c rs s' o))
  | no ge ↦
      rw (sweep-end c (r ∷ rs) s.sweep (omega arith), io_sweep-end c (r ∷ rs) s (omega arith))
        (refl, refl, refl)
]
