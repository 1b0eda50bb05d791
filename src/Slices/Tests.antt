-- ===== src/Slices/Tests.antt =====
-- The slices at concrete numbers of queues and lcores.
use queue_dpdk.Prelude.{◌≡◌, refl, arith, [], ◌∷◌}
use queue_dpdk.Slices.{get_lcore_for_queue, owner_from}
use queue_dpdk.Slices.Chain.{IsDeal, OwnsAlone, get_lcore_for_queue-OwnsAlone}
use queue_dpdk.Slices.Store.{IsActive}

abbrev deal : IsDeal 10 3
deal = record { queues_u16 = omega arith; lcores_u16 = omega arith; some_lcore = omega arith }

abbrev active : IsActive 10 3
active = record { queues_u16 = omega arith; some_lcore = omega arith; enough = omega arith }

-- Queue 5 is polled by the second of the lcores 4, 6 and 9.
owner_of_five : get_lcore_for_queue 5 10 3 4 (4 ∷ 6 ∷ 9 ∷ []) ≡ 6
unfolding get_lcore_for_queue owner_from
owner_of_five = refl

get_lcore_for_queue-OwnsAlone_example :
    OwnsAlone 5 10 3 (4 ∷ 6 ∷ 9 ∷ []) (get_lcore_for_queue 5 10 3 4 (4 ∷ 6 ∷ 9 ∷ []))
get_lcore_for_queue-OwnsAlone_example =
    get_lcore_for_queue-OwnsAlone 5 10 3 4 (4 ∷ 6 ∷ 9 ∷ []) deal refl (omega arith)
