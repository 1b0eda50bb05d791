-- ===== src/Params/Config/Printed.antt =====
-- nf-chain/src/main.c, `parse_config`: it reads what a user writes for a list of parameters.
use queue_dpdk.Prelude.{ℕ, ◌≤◌, ◌≡◌, Option, some, List, [], ◌∷◌, All, arith, length}
use queue_dpdk.Rules.{Line}
use queue_dpdk.Groups.{accepted}
use queue_dpdk.Groups.Printed.{Shows, print_groups, parse_groups-print_groups}
use queue_dpdk.Groups.Numerals.{Numerals, joined, read_numbers-joined, joined-plain, length-joined}
use queue_dpdk.Params.{LcoreParams}
use queue_dpdk.Params.Config.{param_of, read_param, parse_config}
use queue_dpdk.Params.Config.Dealt.{IsByte}

module _ (strtoul : Line → ℕ → Option (ℕ × Line)) (strsplit : ℕ → Line → List Line) (dec : ℕ → Line)
    (texts : Numerals strtoul strsplit dec) where
  abbrev pub show_param : LcoreParams → Line
  show_param p = joined (dec p.port_id ∷ dec p.queue_id ∷ dec p.lcore_id ∷ [])

  read_param-show_param :
      (p : LcoreParams) → IsByte p → read_param strtoul strsplit (show_param p) ≡ some p
  unfolding read_param param_of
  read_param-show_param p h =
      rw
        (read_numbers-joined strtoul strsplit dec texts 255
          (p.port_id ∷ p.queue_id ∷ p.lcore_id ∷ []) (omega arith) (h.0, (h.1, (h.2, tt))))
        (ground (arith, h))

  param-Shows : (p : LcoreParams) → IsByte p → Shows (read_param strtoul strsplit) 1024 show_param p
  param-Shows p h =
      let ns : List ℕ = p.port_id ∷ p.queue_id ∷ p.lcore_id ∷ [] in
      let bytes : All (λ n. n ≤ 255) ns = (h.0, (h.1, (h.2, tt))) in
      (
        joined-plain strtoul strsplit dec texts ns bytes,
        omega (arith, length-joined strtoul strsplit dec texts ns bytes),
        read_param-show_param p h,
      )

  -- When numbers below 256 are written in at most three characters, which `strtoul` reads back, and
  -- are no comma or parenthesis, and `rte_strsplit` parts a text at its commas: the text of up to
  -- 1024 parameters with fields below 256 is parsed into the same parameters.
  pub parse_config-print_groups :
      (ps : List LcoreParams)
      → All IsByte ps
      → length ps ≤ 1024
      → parse_config strtoul strsplit
          (print_groups (read_param strtoul strsplit) 1024 show_param ps)
        ≡ accepted ps
  unfolding parse_config
  parse_config-print_groups ps h room =
      parse_groups-print_groups (read_param strtoul strsplit) 1024 show_param ps (all ps h) room
    where
      all :
          (ps : List LcoreParams)
          → All IsByte ps
          → All (Shows (read_param strtoul strsplit) 1024 show_param) ps
      all [] h = tt
      all (p ∷ ps) h = (param-Shows p h.0, all ps h.1)
