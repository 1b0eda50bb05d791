-- ===== src/Mica/Loop/Conserve.antt =====
-- mica/main.c, `poll_loop`: no packet is lost or sent twice on the way to the TX queue.
use mathlib.Core.Path.{subst}
use native.Mathlib.Decide.{dec_lt}
use queue_dpdk.Prelude.{◌≡◌, ◌∙◌, refl, ap, List, [], ◌∷◌, ◌++◌, arith}
use queue_dpdk.Poll.{
  Config, Run, Reply, Event, Mbuf, finished, halted, starved, sweep, skipped, busy, polled, sent,
  freed, acl_freed,
}
use queue_dpdk.Poll.Batch.{RunConserves, sweep-Conserves, Unbatched}
use queue_dpdk.Poll.Packets.{EndsWith, last_burst, received, released}
use queue_dpdk.Mica.Loop.{
  Io, IoRun, swept, broken, lacking, io_chain, io_sweep, io_iteration, io_poll, inject, respond,
  tx_now, tx_later, policy_turn, latency_turn, penalise, insist, count_rx, count_idle, pass_over,
}
use queue_dpdk.Mica.Loop.Same.{io_sweep-step, io_sweep-end, SameRun, plain, io_sweep-SameRun}

-- The ACL stage neither receives nor sends.
received-plain : (es : List Event) → received (plain es) ≡ received es
received-plain [] = refl
received-plain (acl_freed pkts ∷ es) = received-plain es
received-plain (skipped q ∷ es) = received-plain es
received-plain (busy q ∷ es) = received-plain es
received-plain (polled port q pkts ∷ es) = ap (λ l. pkts ++ l) (received-plain es)
received-plain (sent txq pkts ∷ es) = received-plain es
received-plain (freed pkts ∷ es) = received-plain es

released-plain : (es : List Event) → released (plain es) ≡ released es
released-plain [] = refl
released-plain (acl_freed pkts ∷ es) = released-plain es
released-plain (skipped q ∷ es) = released-plain es
released-plain (busy q ∷ es) = released-plain es
released-plain (polled port q pkts ∷ es) = released-plain es
released-plain (sent txq pkts ∷ es) = ap (λ l. pkts ++ l) (released-plain es)
released-plain (freed pkts ∷ es) = ap (λ l. pkts ++ l) (released-plain es)

last_burst-plain :
    (acc : List Mbuf) (es : List Event) → last_burst acc (plain es) ≡ last_burst acc es
last_burst-plain acc [] = refl
last_burst-plain acc (acl_freed pkts ∷ es) = last_burst-plain acc es
last_burst-plain acc (skipped q ∷ es) = last_burst-plain acc es
last_burst-plain acc (busy q ∷ es) = last_burst-plain acc es
last_burst-plain acc (polled port q pkts ∷ es) = last_burst-plain pkts es
last_burst-plain acc (sent txq pkts ∷ es) = last_burst-plain acc es
last_burst-plain acc (freed pkts ∷ es) = last_burst-plain acc es

-- The server has one port; its code does not read a table of ports.
abbrev single_port : Config → Config
single_port c = record c { rx_queue_port = λ _. c.rx_portid }

io_iteration-single_port :
    (c : Config) (r : Reply) (s : Io) → io_iteration (single_port c) r s ≡ io_iteration c r s
unfolding io_iteration io_poll pass_over inject respond tx_now tx_later policy_turn latency_turn
    penalise insist count_rx count_idle
io_iteration-single_port c r s = refl

io_chain-ext : (o : _) (f g : Io → IoRun) → ((s : Io) → f s ≡ g s) → io_chain o f ≡ io_chain o g
io_chain-ext o f g h = ap (io_chain o) (λ i s. h s i)

io_sweep-single_port :
    (c : Config) (rs : List Reply) (s : Io) → io_sweep (single_port c) rs s ≡ io_sweep c rs s
unfolding io_sweep
io_sweep-single_port c [] s = refl
io_sweep-single_port c (r ∷ rs) s = elim (dec_lt s.sweep.i c.queue_end) [
  | yes lt ↦
      rw
        (
          io_sweep-step (single_port c) r rs s lt,
          io_sweep-step c r rs s lt,
          io_iteration-single_port c r s,
        )
        (io_chain-ext (io_iteration c r s) _ _ (io_sweep-single_port c rs))
  | no ge ↦
      rw
        (
          io_sweep-end (single_port c) (r ∷ rs) s (omega arith),
          io_sweep-end c (r ∷ rs) s (omega arith),
        )
        refl
]

-- All that the batch and the queues held is released or in the batch; a stop packet leaves the
-- burst that held it.
abbrev pub IoConserves : Config → IoRun → Type 0
IoConserves c (swept es s rs) =
    (received es ≡ released es ++ s.sweep.tx_batch) × Unbatched c s.sweep
IoConserves c (broken es s) =
    ((last : List Mbuf) × (received es ≡ released es ++ s.sweep.tx_batch ++ last)
      × EndsWith last es)
    × Unbatched c s.sweep
IoConserves c (lacking es s) = received es ≡ released es ++ s.sweep.tx_batch

SameRun-IoConserves :
    (c : Config) (a : IoRun) (b : Run) → SameRun a b → RunConserves c [] b → IoConserves c a
SameRun-IoConserves c (swept es s rs) (finished fs t qs) h k =
    rw (h.0, received-plain fs, released-plain fs, h.1) k
SameRun-IoConserves c (broken es s) (halted fs t) h ((last, k, e), u) =
    rw (h.0, received-plain fs, released-plain fs, h.1)
      ((last, k, λ acc. last_burst-plain acc fs ∙ e acc), u)
SameRun-IoConserves c (lacking es s) (starved fs t) h k =
    rw (h.0, received-plain fs, released-plain fs, h.1) k
SameRun-IoConserves c (swept es s rs) (halted fs t) h k = absurd h
SameRun-IoConserves c (swept es s rs) (starved fs t) h k = absurd h
SameRun-IoConserves c (broken es s) (finished fs t qs) h k = absurd h
SameRun-IoConserves c (broken es s) (starved fs t) h k = absurd h
SameRun-IoConserves c (lacking es s) (finished fs t qs) h k = absurd h
SameRun-IoConserves c (lacking es s) (halted fs t) h k = absurd h

-- A sweep from an empty batch.
pub io_sweep-IoConserves :
    (c : Config) (rs : List Reply) (s : Io)
    → s.sweep.tx_batch ≡ []
    → IoConserves c (io_sweep c rs s)
io_sweep-IoConserves c rs s e = subst (IoConserves c) (io_sweep-single_port c rs s) (
    SameRun-IoConserves c (io_sweep (single_port c) rs s) (sweep (single_port c) rs s.sweep)
      (io_sweep-SameRun (single_port c) rs s (λ q. refl))
      (subst (λ b. RunConserves (single_port c) b (sweep (single_port c) rs s.sweep)) e
        (sweep-Conserves (single_port c) rs s.sweep (λ _. e))))
