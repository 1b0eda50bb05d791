-- ===== src/Params/Config/Tests.antt =====
-- Numbers of one character each.
use mathlib.Core.List.{append_assoc, append-nil}
use queue_dpdk.Prelude.{
  ℕ, zero, suc, ◌≡◌, ◌≢◌, refl, ◌∙◌, ap, false, List, [], ◌∷◌, ◌++◌, All, arith, length, ◌==◌,
  if◌then◌else◌,
}
use queue_dpdk.Rules.{Line}
use queue_dpdk.Parse.Samples.{one_char, read_char}
use queue_dpdk.Groups.{accepted}
use queue_dpdk.Groups.Printed.{print_groups}
use queue_dpdk.Groups.Numerals.{Numerals, joined}
use queue_dpdk.Params.{LcoreParams}
use queue_dpdk.Params.Config.{parse_config, read_param}
use queue_dpdk.Params.Config.Dealt.{Deals, parse_config-Deals}
use queue_dpdk.Params.Config.Printed.{show_param, parse_config-print_groups}

-- The parts of a text between commas.
abbrev parts : Line → Line → List Line
parts acc [] = acc ∷ []
parts acc (c ∷ cs) =
    let next = parts [] cs in
    let more = parts (acc ++ (c ∷ [])) cs in if c == 44 then acc ∷ next else more

abbrev split : ℕ → Line → List Line
split zero s = []
split (suc n) s = parts [] s

parts-word :
    (acc w : Line) (rest : Line)
    → All (λ x. (x ≢ 41) × (x ≢ 44)) w
    → parts acc (w ++ (44 ∷ rest)) ≡ (acc ++ w) ∷ parts [] rest
parts-word acc [] rest h = rw (append-nil acc) refl
parts-word acc (c ∷ w) rest h =
    let other : (c == 44) ≡ false = ground (arith, h.0) in
    rw other (parts-word (acc ++ (c ∷ [])) w rest h.1 ∙ rw (append_assoc acc (c ∷ []) w) refl)

parts-last : (acc w : Line) → All (λ x. (x ≢ 41) × (x ≢ 44)) w → parts acc w ≡ (acc ++ w) ∷ []
parts-last acc [] h = rw (append-nil acc) refl
parts-last acc (c ∷ w) h =
    let other : (c == 44) ≡ false = ground (arith, h.0) in
    rw other (parts-last (acc ++ (c ∷ [])) w h.1 ∙ rw (append_assoc acc (c ∷ []) w) refl)

parts-joined :
    (w : Line) (ws : List Line)
    → All (All (λ x. (x ≢ 41) × (x ≢ 44))) (w ∷ ws)
    → parts [] (joined (w ∷ ws)) ≡ w ∷ ws
parts-joined w [] h = parts-last [] w h.0
parts-joined w (v ∷ ws) h =
    parts-word [] w (joined (v ∷ ws)) h.0 ∙ ap (λ l. w ∷ l) (parts-joined v ws h.1)

split-joined :
    (ws : List Line) → All (All (λ x. (x ≢ 41) × (x ≢ 44))) ws → split (length ws) (joined ws) ≡ ws
split-joined [] h = refl
split-joined (w ∷ ws) h = parts-joined w ws h

one_char-Numerals : Numerals read_char split one_char
one_char-Numerals = record {
  read = λ n h. ground arith;
  digits = λ n h. (ground arith, tt);
  short = λ n h. omega arith;
  split = split-joined;
}

abbrev param : ℕ → ℕ → ℕ → LcoreParams
param port queue lcore = record { port_id = port; queue_id = queue; lcore_id = lcore }

abbrev params : List LcoreParams
params = param 0 0 2 ∷ param 1 255 3 ∷ []

parse_config-print_groups_example :
    parse_config read_char split (
      print_groups
        (read_param read_char split)
        1024
        (show_param read_char split one_char one_char-Numerals)
        params)
    ≡ accepted params
parse_config-print_groups_example =
    parse_config-print_groups read_char split one_char one_char-Numerals params
      ((omega arith, omega arith, omega arith), ((omega arith, omega arith, omega arith), tt))
      (omega arith)

-- The text `(0,0,2)`.
parse_config-Deals_example :
    Deals read_char split (parse_config read_char split (40 ∷ 100 ∷ 44 ∷ 100 ∷ 44 ∷ 102 ∷ 41 ∷ []))
parse_config-Deals_example =
    parse_config-Deals read_char split (40 ∷ 100 ∷ 44 ∷ 100 ∷ 44 ∷ 102 ∷ 41 ∷ [])
