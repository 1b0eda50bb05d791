-- ===== src/Options/Printed.antt =====
-- common/qflow.h: what `qflow_print` prints is what `qflow_parse_long_opt` reads.
use Prim.Native.String.{String}
use queue_dpdk.Prelude.{ℕ, ◌≡◌, ◌≢◌, true, false, Bool, refl}
use queue_dpdk.Poll.{Mode, single, partitioned, shared}
use queue_dpdk.Options.{
  Opts, parse_long_opt, parse_policy, parse_multicore, policy_name, mode_name, consumed,
}

-- The name of a policy and the name of a multicore mode, given as options, set what they name
-- and nothing else.
parse_long_opt-printed :
    (strtoul : String → ℕ × String) (o : Opts) (a p : Bool) (m : Mode)
    → m ≢ single
    → (parse_long_opt strtoul o "policy" (policy_name (record o { aggressive = a; penalty = p }))
        ≡ (consumed, record o { aggressive = a; penalty = p }))
      × (parse_long_opt strtoul o "multicore" (mode_name m) ≡ (consumed, record o { mode = m }))
unfolding parse_long_opt parse_policy parse_multicore policy_name mode_name
parse_long_opt-printed strtoul o a p m h = (policy a p, multicore m h)
  where
    policy :
        (a p : Bool)
        → parse_long_opt strtoul o "policy" (policy_name (record o { aggressive = a; penalty = p }))
          ≡ (consumed, record o { aggressive = a; penalty = p })
    policy true true = refl
    policy true false = refl
    policy false true = refl
    policy false false = refl

    multicore :
        (m : Mode)
        → m ≢ single
        → parse_long_opt strtoul o "multicore" (mode_name m) ≡ (consumed, record o { mode = m })
    multicore partitioned h = refl
    multicore shared h = refl
    multicore single h = absurd (h refl)
