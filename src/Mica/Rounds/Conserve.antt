-- ===== src/Mica/Rounds/Conserve.antt =====
-- mica/main.c, `poll_loop`: no packet is lost between the sweeps of the server.
use mathlib.Core.List.{append-nil}
use mathlib.Core.Path.{subst}
use queue_dpdk.Prelude.{
  ℕ, ◌≡◌, ◌∙◌, refl, sym, ap, true, false, Bool-cases, inl, inr, List, [], ◌∷◌, ◌++◌,
}
use queue_dpdk.Poll.{Config, Reply, Event, Mbuf}
use queue_dpdk.Poll.Batch.{Unbatched}
use queue_dpdk.Poll.Packets.{
  EndsWith, append-EndsWith, last_burst, last_burst-append, received, released, received-append,
  released-append,
}
use queue_dpdk.Rounds.{flush}
use queue_dpdk.Rounds.Conserve.{flush-received, flush-last_burst, flush-released, tail-Conserve}
use queue_dpdk.Mica.Loop.{Io, IoRun, swept, broken, lacking, io_sweep}
use queue_dpdk.Mica.Loop.Conserve.{IoConserves, io_sweep-IoConserves}
use queue_dpdk.Mica.Rounds.{
  Server, Pace, Round, Serving, going, quits, waits, serving_log, finish_round, serve_rounds, gauge,
  open_round,
}

-- All packets received are released, in order, but for the burst of a stop packet, which is the
-- last one received; `waits` is inside a sweep.
abbrev pub ServingConserves : Serving → Type 0
ServingConserves (going es l rs) = received es ≡ released es
ServingConserves (quits false es l) = received es ≡ released es
ServingConserves (quits true es l) =
    (last : List Mbuf) × (received es ≡ released es ++ last) × EndsWith last es
ServingConserves (waits es l) = received es ≡ released es ++ l.io.sweep.tx_batch

serving_log-Conserves :
    (es : List Event) (r : Serving)
    → received es ≡ released es
    → ServingConserves r
    → ServingConserves (serving_log es r)
serving_log-Conserves es (going fs l rs) h k =
    tail-Conserve es fs [] h (k ∙ sym (append-nil (released fs))) ∙ append-nil (released (es ++ fs))
serving_log-Conserves es (quits false fs l) h k =
    tail-Conserve es fs [] h (k ∙ sym (append-nil (released fs))) ∙ append-nil (released (es ++ fs))
serving_log-Conserves es (quits true fs l) h (last, k, e) =
    (last, tail-Conserve es fs last h k, append-EndsWith last es fs e)
serving_log-Conserves es (waits fs l) h k = tail-Conserve es fs l.io.sweep.tx_batch h k

-- The TX after a sweep gives away what the sweep has left.
flush_balances :
    (c : Config) (n : ℕ) (es : List Event) (s : Io) (rest : List Mbuf)
    → received es ≡ released es ++ s.sweep.tx_batch ++ rest
    → Unbatched c s.sweep
    → received (es ++ flush c n s.sweep) ≡ released (es ++ flush c n s.sweep) ++ rest
flush_balances c n es s rest h u =
    received-append es (flush c n s.sweep)
    ∙ ap (λ m. received es ++ m) (flush-received c n s.sweep)
    ∙ append-nil (received es)
    ∙ h
    ∙ ap (λ m. (released es ++ m) ++ rest) (sym (flush-released c n s.sweep u))
    ∙ ap (λ m. m ++ rest) (sym (released-append es (flush c n s.sweep)))

finish_round-Conserves :
    (c : Config) (k : Pace) (t : Round) (l : Server) (run : IoRun)
    (rest : List Reply → Server → Serving)
    → IoConserves c run
    → ((rs : List Reply) (l' : Server) → ServingConserves (rest rs l'))
    → ServingConserves (finish_round c k t l run rest)
finish_round-Conserves c k t l (swept es s rs) rest (h, u) keep =
    let l' = gauge c k t.tsc (record l { io = s }) in
    serving_log-Conserves (es ++ flush c t.nb_tx s.sweep) (rest rs l')
      (flush_balances c t.nb_tx es s [] (h ∙ sym (append-nil (released es ++ s.sweep.tx_batch))) u
        ∙ append-nil (released (es ++ flush c t.nb_tx s.sweep)))
      (keep rs l')
finish_round-Conserves c k t l (broken es s) rest ((last, h, e), u) keep =
    subst (λ fs. (last' : List Mbuf) × (received fs ≡ released fs ++ last') × EndsWith last' fs)
      (sym (append-nil (es ++ flush c t.nb_tx s.sweep)))
      (
        last,
        flush_balances c t.nb_tx es s last h u,
        λ acc.
            last_burst-append acc es (flush c t.nb_tx s.sweep)
            ∙ flush-last_burst c t.nb_tx s.sweep (last_burst acc es)
            ∙ e acc,
      )
finish_round-Conserves c k t l (lacking es s) rest h keep = h

-- From any state, over any number of sweeps, every packet that the server receives has been handed
-- to the TX queue or freed once, in the order of arrival, when the loop is between two sweeps and
-- when it ends by `force_quit`. The stop packet leaves the burst that held it, the last one
-- received, and no batch.
pub serve_rounds-Conserves :
    (c : Config) (k : Pace) (ts : List Round) (rs : List Reply) (l : Server)
    → ServingConserves (serve_rounds c k ts rs l)
unfolding serve_rounds
serve_rounds-Conserves c k [] rs l = refl
serve_rounds-Conserves c k (t ∷ ts) rs l = elim (Bool-cases t.force_quit) [
  | inl q ↦ rw (q, ServingConserves) refl
  | inr go ↦
      let l' = open_round c k t l in
      rw go (
        finish_round-Conserves c k t l' (io_sweep c rs l'.io) (serve_rounds c k ts)
          (io_sweep-IoConserves c rs l'.io refl) (λ rs' l''. serve_rounds-Conserves c k ts rs' l''))
]
