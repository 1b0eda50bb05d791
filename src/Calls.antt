-- ===== src/Calls.antt =====
-- How `main` of nf-chain/src/main.c and of mica/main.c calls what sets the program up: one call after
-- another, until one fails.
pub mod Order
use queue_dpdk.Prelude.{ℕ, Bool, List, [], ◌∷◌, ◌++◌, if◌then◌else◌}
use queue_dpdk.Poll.{Mode}

-- `ended` is `rte_exit`, or the `return 0` on a wrong bitstream; `launched` is the launch of the
-- polling loop of a mode on every lcore. Both with the calls made.
pub data Start {ℓ} (C : Type ℓ) : Type ℓ where
  ended : List C → Start C
  launched : List C → Mode → Start C

module _ {ℓ} {C : Type ℓ} where
  abbrev pub after : C → Start C → Start C
  after c (ended cs) = ended (c ∷ cs)
  after c (launched cs m) = launched (c ∷ cs) m

  -- The calls one by one, until one fails.
  unfoldable pub run_calls : (C → Bool) → Mode → List C → Start C
  run_calls succeeds mode [] = launched [] mode
  run_calls succeeds mode (c ∷ cs) =
      let rest = run_calls succeeds mode cs in if succeeds c then after c rest else ended (c ∷ [])

  abbrev pub for_each : (ℕ → List C) → List ℕ → List C
  for_each f [] = []
  for_each f (x ∷ xs) = f x ++ for_each f xs
