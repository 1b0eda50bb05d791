-- ===== src/Params/Deal.antt =====
-- nf-chain/src/main.c, `init_lcore_rx_queues`: which queues an lcore gets.
use native.Mathlib.Decide.{ℕ_discrete}
use mathlib.Core.Path.{subst}
use mathlib.Core.List.{append_assoc, append-nil}
use queue_dpdk.Prelude.{
  ℕ, suc, ◌+◌, ◌≤◌, ◌≡◌, ◌∙◌, sym, false, refl, arith, some, List, [], ◌∷◌, ◌++◌, map, select, ◌==◌,
  ==_iff, leb, update, length, length-append,
}
use queue_dpdk.Poll.{max_rx_queue_per_lcore}
use queue_dpdk.Params.{LcoreParams, LcoreRxQueue, LcoreConf, rx_queue, init_lcore_rx_queues}

-- The queues that the parameters name for an lcore, in their order.
abbrev pub queues_of : ℕ → List LcoreParams → List LcoreRxQueue
queues_of lcore ps = map rx_queue (select (λ p. p.lcore_id == lcore) ps)

-- The configuration once one more queue is given out.
abbrev given : LcoreParams → LcoreConf → LcoreConf
given p conf = update conf p.lcore_id (conf p.lcore_id ++ (rx_queue p ∷ []))

given-length :
    (p : LcoreParams) (conf : LcoreConf) (lcore : ℕ)
    → length (given p conf lcore) ≤ suc (length (conf lcore))
given-length p conf lcore = elim (ℕ_discrete lcore p.lcore_id) [
  | yes e ↦ rw e (ground (arith, length-append (conf p.lcore_id) (rx_queue p ∷ [])))
  | no ne ↦ ground (arith, ne)
]

given-queues :
    (p : LcoreParams) (ps : List LcoreParams) (conf : LcoreConf) (lcore : ℕ)
    → given p conf lcore ++ queues_of lcore ps ≡ conf lcore ++ queues_of lcore (p ∷ ps)
given-queues p ps conf lcore = elim (ℕ_discrete lcore p.lcore_id) [
  | yes e ↦
      subst (λ l. given p conf l ++ queues_of l ps ≡ conf l ++ queues_of l (p ∷ ps)) (sym e) own
  | no ne ↦
      let there : (lcore == p.lcore_id) ≡ false = ground (arith, ne) in
      let back : (p.lcore_id == lcore) ≡ false = ground (arith, ne) in rw (there, back)
]
  where
    own :
        given p conf p.lcore_id ++ queues_of p.lcore_id ps
        ≡ conf p.lcore_id ++ queues_of p.lcore_id (p ∷ ps)
    own =
        rw ((==_iff p.lcore_id p.lcore_id).1 refl)
          (append_assoc (conf p.lcore_id) (rx_queue p ∷ []) (queues_of p.lcore_id ps))

deal_all :
    (ps : List LcoreParams) (conf : LcoreConf)
    → ((lcore : ℕ) → length (conf lcore) + length ps ≤ max_rx_queue_per_lcore)
    → (conf' : LcoreConf) × (init_lcore_rx_queues ps conf ≡ some conf')
      × ((lcore : ℕ) → conf' lcore ≡ conf lcore ++ queues_of lcore ps)
unfolding init_lcore_rx_queues
deal_all [] conf h = (conf, refl, λ lcore. sym (append-nil (conf lcore)))
deal_all (p ∷ ps) conf h =
    let room : leb max_rx_queue_per_lcore (length (conf p.lcore_id)) ≡ false =
      ground (arith, h p.lcore_id) in
    let rest =
      deal_all ps (given p conf) (λ lcore. omega (arith, given-length p conf lcore, h lcore)) in
    (
      rest.0,
      rw (init_lcore_rx_queues, room) rest.1,
      λ lcore. rest.2 lcore ∙ given-queues p ps conf lcore,
    )

-- With at most 1024 parameters `init_lcore_rx_queues` succeeds, and each lcore gets the queues
-- that the parameters name for it, in their order, and no other.
pub init_lcore_rx_queues-deals :
    (ps : List LcoreParams)
    → length ps ≤ 1024
    → (conf : LcoreConf) × (init_lcore_rx_queues ps (λ _. []) ≡ some conf)
      × ((lcore : ℕ) → conf lcore ≡ queues_of lcore ps)
init_lcore_rx_queues-deals ps h = deal_all ps (λ _. []) (λ lcore. omega (arith, h))
