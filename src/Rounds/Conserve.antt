-- ===== src/Rounds/Conserve.antt =====
-- nf-chain/src/main.c, `poll_loop`: no packet is lost by the TX path between the sweeps.
use mathlib.Core.List.{append_assoc, append-nil}
use queue_dpdk.Prelude.{
  ℕ, ◌≡◌, ◌∙◌, refl, sym, ap, Bool-cases, inl, inr, List, [], ◌∷◌, ◌++◌, arith,
}
use queue_dpdk.Poll.{Config, Sweep, Run, Reply, Event, Mbuf, finished, halted, starved, sweep}
use queue_dpdk.Poll.Batch.{transmit-released, RunConserves, sweep-Conserves, Unbatched}
use queue_dpdk.Poll.Packets.{
  EndsWith, append-EndsWith, last_burst, received, released, received-append, released-append,
}
use queue_dpdk.Rounds.{
  Clock, Loop, Tick, Rounds, running, quits, stops, waits, log, flush, measure, begin_round,
  end_round, rounds,
}

-- All packets received are released by the TX path, in order; what the end of a sweep leaves behind is named.
abbrev pub RoundsConserve : Rounds → Type 0
RoundsConserve (running es l rs) = received es ≡ released es
RoundsConserve (quits es l) = received es ≡ released es
RoundsConserve (stops es l) =
    (last : List Mbuf) × (received es ≡ released es ++ l.state.tx_batch ++ last) × EndsWith last es
RoundsConserve (waits es l) = received es ≡ released es ++ l.state.tx_batch

pub flush-received : (c : Config) (n : ℕ) (s : Sweep) → received (flush c n s) ≡ []
unfolding flush
flush-received c n s = ground arith

pub flush-last_burst :
    (c : Config) (n : ℕ) (s : Sweep) (acc : List Mbuf) → last_burst acc (flush c n s) ≡ acc
unfolding flush
flush-last_burst c n s acc = ground arith

pub flush-released :
    (c : Config) (n : ℕ) (s : Sweep) → Unbatched c s → released (flush c n s) ≡ s.tx_batch
unfolding flush
flush-released c n s u = ground (arith, transmit-released s.tx_batch n)

pub tail-Conserve :
    (es fs : List Event) (rest : List Mbuf)
    → received es ≡ released es
    → received fs ≡ released fs ++ rest
    → received (es ++ fs) ≡ released (es ++ fs) ++ rest
tail-Conserve es fs rest h k =
    received-append es fs
    ∙ ap (λ l. l ++ received fs) h
    ∙ ap (λ l. released es ++ l) k
    ∙ sym (append_assoc (released es) (released fs) rest)
    ∙ ap (λ l. l ++ rest) (sym (released-append es fs))

log-Conserve :
    (es : List Event) (r : Rounds)
    → received es ≡ released es
    → RoundsConserve r
    → RoundsConserve (log es r)
log-Conserve es (running fs l rs) h k =
    tail-Conserve es fs [] h (k ∙ sym (append-nil (released fs))) ∙ append-nil (released (es ++ fs))
log-Conserve es (quits fs l) h k =
    tail-Conserve es fs [] h (k ∙ sym (append-nil (released fs))) ∙ append-nil (released (es ++ fs))
log-Conserve es (stops fs l) h (last, k, e) = (
  last,
  tail-Conserve es fs (l.state.tx_batch ++ last) h
        (k ∙ append_assoc (released fs) l.state.tx_batch last)
      ∙ sym (append_assoc (released (es ++ fs)) l.state.tx_batch last),
  append-EndsWith last es fs e,
)
log-Conserve es (waits fs l) h k = tail-Conserve es fs l.state.tx_batch h k

end_round-Conserves :
    (c : Config) (k : Clock) (t : Tick) (l : Loop) (run : Run) (rest : List Reply → Loop → Rounds)
    → RunConserves c [] run
    → ((rs : List Reply) (l' : Loop) → RoundsConserve (rest rs l'))
    → RoundsConserve (end_round c k t l run rest)
end_round-Conserves c k t l (finished es s rs) rest h keep =
    log-Conserve (es ++ flush c t.nb_tx s) (rest rs (measure c k t.tsc (record l { state = s })))
      (received-append es (flush c t.nb_tx s)
        ∙ ap (λ m. received es ++ m) (flush-received c t.nb_tx s)
        ∙ append-nil (received es)
        ∙ h.0
        ∙ ap (λ m. released es ++ m) (sym (flush-released c t.nb_tx s h.1))
        ∙ sym (released-append es (flush c t.nb_tx s)))
      (keep rs (measure c k t.tsc (record l { state = s })))
end_round-Conserves c k t l (halted es s) rest h keep = h.0
end_round-Conserves c k t l (starved es s) rest h keep = h

-- From any state, over any number of sweeps, every packet received has been handed to the TX queue
-- or freed by the TX path once, in the order of arrival, when the loop is between two sweeps and
-- when it ends by `force_quit`. The stop packet leaves what is in the batch and the burst that held
-- it, the last one received. What the ACL stage frees besides is not counted.
pub rounds-Conserves :
    (c : Config) (k : Clock) (ts : List Tick) (rs : List Reply) (l : Loop)
    → RoundsConserve (rounds c k ts rs l)
unfolding rounds
rounds-Conserves c k [] rs l = refl
rounds-Conserves c k (t ∷ ts) rs l = elim (Bool-cases t.force_quit) [
  | inl q ↦ rw (q, RoundsConserve) refl
  | inr go ↦
      let l' = begin_round c k t l in
      rw go (
        end_round-Conserves c k t l' (sweep c rs l'.state) (rounds c k ts)
          (sweep-Conserves c rs l'.state (λ e. refl)) (λ rs' l''. rounds-Conserves c k ts rs' l''))
]
