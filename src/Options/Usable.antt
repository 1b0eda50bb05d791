-- ===== src/Options/Usable.antt =====
-- common/qflow.h: the options keep the numbers that the polling loop divides its time by positive.
use Prim.Native.String.{String}
use mathlib.Core.Path.{subst}
use queue_dpdk.Prelude.{ℕ, ◌<◌, ◌^◌, ◌≡◌, some, refl, arith, List, [], ◌∷◌, All}
use queue_dpdk.Options.{
  Opts, Parsed, consumed, not_ours, invalid, opts_init, parse_long_opt, parse_policy,
  parse_multicore, parse_penalty, parse_latency_queue, parse_latency_period, parse_uint, parse_args,
}

pub record IsUsable (o : Opts) : Type 0 where
  pub turns : 0 < o.penalty_turns
  pub period : (0 < o.latency_period) × (o.latency_period < 2 ^ 31)

opts_init-IsUsable : IsUsable opts_init
unfolding opts_init
opts_init-IsUsable = record { turns = omega arith; period = (omega arith, omega arith) }

-- The numbers on the command line fit an `int`.
abbrev pub IsSmall : (String → ℕ × String) → String → Type 0
IsSmall strtoul arg = (strtoul arg).0 < 2 ^ 31

module _ (strtoul : String → ℕ × String) where
  parse_penalty-IsUsable :
      (o : Opts) (arg : String)
      → IsSmall strtoul arg
      → IsUsable o
      → IsUsable (parse_penalty strtoul o arg).1
  unfolding parse_penalty parse_uint
  parse_penalty-IsUsable o arg w u = ground (arith, w)

  parse_latency_period-IsUsable :
      (o : Opts) (arg : String)
      → IsSmall strtoul arg
      → IsUsable o
      → IsUsable (parse_latency_period strtoul o arg).1
  unfolding parse_latency_period parse_uint
  parse_latency_period-IsUsable o arg w u = ground (arith, w)

  parse_latency_queue-IsUsable :
      (o : Opts) (arg : String) → IsUsable o → IsUsable (parse_latency_queue strtoul o arg).1
  unfolding parse_latency_queue
  parse_latency_queue-IsUsable o arg u = ground arith

  parse_policy-IsUsable : (o : Opts) (arg : String) → IsUsable o → IsUsable (parse_policy o arg).1
  unfolding parse_policy
  parse_policy-IsUsable o arg u = ground arith

  parse_multicore-IsUsable :
      (o : Opts) (arg : String) → IsUsable o → IsUsable (parse_multicore o arg).1
  unfolding parse_multicore
  parse_multicore-IsUsable o arg u = ground arith

  parse_long_opt-IsUsable :
      (o : Opts) (name arg : String)
      → IsSmall strtoul arg
      → IsUsable o
      → IsUsable (parse_long_opt strtoul o name arg).1
  unfolding parse_long_opt
  parse_long_opt-IsUsable o name arg w u = ground (
    arith,
    parse_policy-IsUsable o arg u,
    parse_penalty-IsUsable o arg w u,
    parse_latency_queue-IsUsable o arg u,
    parse_latency_period-IsUsable o arg w u,
    parse_multicore-IsUsable o arg u,
  )

  parse_args-keeps :
      (args : List (String × String)) (o o' : Opts)
      → All (λ a. IsSmall strtoul a.1) args
      → IsUsable o
      → parse_args strtoul o args ≡ some o'
      → IsUsable o'
  unfolding parse_args
  parse_args-keeps [] o o' w u e = let q : o ≡ o' = cc e in subst IsUsable q u
  parse_args-keeps (a ∷ args) o o' w u e = go (parse_long_opt strtoul o a.0 a.1).0 refl (λ k.
      parse_args-keeps args (parse_long_opt strtoul o a.0 a.1).1 o' w.1
        (parse_long_opt-IsUsable o a.0 a.1 w.0 u) k)
    where
      go :
          (r : Parsed)
          → (parse_long_opt strtoul o a.0 a.1).0 ≡ r
          → (parse_args strtoul (parse_long_opt strtoul o a.0 a.1).1 args ≡ some o' → IsUsable o')
          → IsUsable o'
      go consumed q rest = rest (rw (parse_args, q) at e)
      go not_ours q rest = rest (rw (parse_args, q) at e)
      go invalid q rest = cc (rw (parse_args, q) at e)

  -- The options that a command line sets, from the defaults on, have a positive penalty and a
  -- positive latency period, if its numbers are below 2^31.
  pub parse_args-IsUsable :
      (args : List (String × String)) (o : Opts)
      → All (λ a. IsSmall strtoul a.1) args
      → parse_args strtoul opts_init args ≡ some o
      → IsUsable o
  parse_args-IsUsable args o w e = parse_args-keeps args opts_init o w opts_init-IsUsable e
