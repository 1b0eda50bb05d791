-- ===== src/Poll/Rejected.antt =====
-- nf-chain/src/main.c, `poll_loop`: what becomes of the packets that `prepare_acl_parameter` frees.
use mathlib.Core.List.{append_assoc, append-nil}
use native.Mathlib.Decide.{dec_lt}
use mathlib.Core.Bool.{not, ◌&&◌}
use queue_dpdk.Prelude.{
  Bool-cases, inl, inr, ltb, ◌-◌, ◌∙◌, sym, ap, Bool, ℕ, List, [], ◌∷◌, ◌++◌, ◌≡◌, refl, arith, ltb,
  select, length, true,
}
use queue_dpdk.Poll.{
  is_shared, divert, poll_queue, Outcome, Reply, next, stopped, finished, Mbuf, Config, Sweep,
  Reply, Outcome, Event, skipped, busy, polled, sent, freed, acl_freed, next, stopped, Run, serve,
  iteration, poll_queue, sweep, chain, divert, is_single,
}
use queue_dpdk.Poll.Frame.{events, events-log, sweep-step, sweep-end}
use queue_dpdk.Poll.Batch.{serve-received, RunConserves, sweep-Conserves}
use queue_dpdk.Poll.Packets.{received, released, received-append}

-- The packets that `prepare_acl_parameter` gave back to their pool, in order.
abbrev pub rejected : List Event → List Mbuf
rejected [] = []
rejected (acl_freed pkts ∷ es) = pkts ++ rejected es
rejected (sent txq pkts ∷ es) = rejected es
rejected (freed pkts ∷ es) = rejected es
rejected (polled port q pkts ∷ es) = rejected es
rejected (skipped p ∷ es) = rejected es
rejected (busy p ∷ es) = rejected es

select-append :
    (p : Mbuf → Bool) (xs ys : List Mbuf) → select p (xs ++ ys) ≡ select p xs ++ select p ys
select-append p [] ys = refl
select-append p (x ∷ xs) ys = ground (arith, select-append p xs ys)

rejected-append : (es fs : List Event) → rejected (es ++ fs) ≡ rejected es ++ rejected fs
rejected-append [] fs = refl
rejected-append (acl_freed pkts ∷ es) fs = rw (rejected-append es fs, append_assoc)
rejected-append (sent txq pkts ∷ es) fs = rejected-append es fs
rejected-append (freed pkts ∷ es) fs = rejected-append es fs
rejected-append (polled port q pkts ∷ es) fs = rejected-append es fs
rejected-append (skipped p ∷ es) fs = rejected-append es fs
rejected-append (busy p ∷ es) fs = rejected-append es fs

serve-rejected : (c : Config) (r : Reply) (s : Sweep) → rejected (serve c r s).0 ≡ []
unfolding serve
serve-rejected c r s = ground arith

abbrev Frees : Config → Outcome → Type 0
Frees c (next es s) = rejected es ≡ select c.rejects (received es)
Frees c (stopped es s) = rejected es ≡ select c.rejects (received es)

poll_queue-Frees : (c : Config) (r : Reply) (qi : ℕ) (s : Sweep) → Frees c (poll_queue c r qi s)
unfolding poll_queue
poll_queue-Frees c r qi s = elim (Bool-cases (is_shared c.mode && not r.locked)) [
  | inl b ↦ rw (b, Frees) refl
  | inr b ↦ elim (Bool-cases (ltb 0 (length r.burst) && r.stop)) [
    | inl st ↦ rw (b, st, Frees) (rw (append-nil, append-nil) refl)
    | inr st ↦ rw (b, st, Frees) (rw (serve-rejected, serve-received, append-nil, append-nil) refl)
  ]
]

iteration-Frees : (c : Config) (r : Reply) (s : Sweep) → Frees c (iteration c r s)
unfolding iteration
iteration-Frees c r s = ground (arith, poll_queue-Frees c r (s.i - c.queue_start) (divert c s))

chain-rejected :
    (c : Config) (o : Outcome) (rest : Sweep → Run)
    → Frees c o
    → ((s : Sweep) → rejected (events (rest s)) ≡ select c.rejects (received (events (rest s))))
    → rejected (events (chain o rest)) ≡ select c.rejects (received (events (chain o rest)))
chain-rejected c (next es s) rest h keep =
    rw
      (
        events-log es (rest s),
        rejected-append es (events (rest s)),
        received-append es (events (rest s)),
        select-append c.rejects (received es) (received (events (rest s))),
        h,
        keep s,
      )
      refl
chain-rejected c (stopped es s) rest h keep = h

-- The packets that `prepare_acl_parameter` frees in a sweep are the rejected ones among those
-- received, in order.
pub sweep-rejected :
    (c : Config) (rs : List Reply) (s : Sweep)
    → rejected (events (sweep c rs s)) ≡ select c.rejects (received (events (sweep c rs s)))
unfolding sweep
sweep-rejected c [] s = ground arith
sweep-rejected c (r ∷ rs) s = elim (dec_lt s.i c.queue_end) [
  | yes lt ↦ rw (sweep-step c r rs s lt) (
      chain-rejected c (iteration c r s) (sweep c rs) (iteration-Frees c r s)
        (λ s'. sweep-rejected c rs s'))
  | no ge ↦ rw (sweep-end c (r ∷ rs) s (omega arith)) refl
]

-- A single-core sweep that finishes hands over every packet that it received, also those that
-- `prepare_acl_parameter` has freed: the latter are the rejected ones among those handed over.
pub rejected_are_released :
    (c : Config) (rs rest : List Reply) (s t : Sweep) (es : List Event)
    → is_single c.mode ≡ true
    → s.tx_batch ≡ []
    → sweep c rs s ≡ finished es t rest
    → (released es ≡ received es) × (rejected es ≡ select c.rejects (released es))
rejected_are_released c rs rest s t es h b e = (all_out, rw all_out frees)
  where
    kept : RunConserves c s.tx_batch (finished es t rest)
    kept = rw e at (sweep-Conserves c rs s (λ _. b))

    frees : rejected es ≡ select c.rejects (received es)
    frees =
        ap (λ run. rejected (events run)) (sym e)
        ∙ sweep-rejected c rs s
        ∙ ap (λ run. select c.rejects (received (events run))) e

    all_out : released es ≡ received es
    all_out = ground (arith, kept.0, kept.1 h, append-nil (released es))
