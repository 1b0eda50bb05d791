-- ===== src/Groups.antt =====
-- A text with groups in parentheses, as `parse_config` of nf-chain/src/main.c and
-- `cms_parse_port_pair_config` of locality/main.c read it, by the same loop.
pub mod Accepted
pub mod Printed
pub mod Numerals
use mathlib.Core.Option
use queue_dpdk.Prelude.{
  ℕ, zero, suc, ◌+◌, Bool, true, false, Option, none, some, List, [], ◌∷◌, ◌++◌, ltb, leb, ◌==◌,
  if◌then◌else◌, length,
}
use queue_dpdk.Rules.{Line}

-- What follows the first `c`: one past the pointer that `strchr` gives.
pub past : ℕ → Line → Option Line
past c [] = none
past c (x ∷ xs) = let rest = past c xs in if x == c then some xs else rest

-- What stands before the first `c`, and the text from there on.
pub before : ℕ → Line → Option (Line × Line)
before c [] = none
before c (x ∷ xs) =
    let rest = Option.map (λ (r : Line × Line). (x ∷ r.0, r.1)) (before c xs) in
    if x == c then some ([], x ∷ xs) else rest

-- `accepted` is the return of 0 with what the array holds, `refused` the return of -1; `lacking` says
-- that the fuel ran out.
pub data Scan (A : Type 0) : Type 0 where
  accepted : List A → Scan A
  refused lacking : Scan A

-- The loop, on fuel: `read` reads a group, and the array has room for `max` of them.
module _ {A : Type 0} (read : Line → Option A) (max : ℕ) where
  pub groups : ℕ → Line → List A → Scan A
  groups zero p0 got = lacking
  groups (suc fuel) p0 got = elim (past 40 p0) [
    | none ↦ accepted got
    | some p ↦ elim (before 41 p) [
      | none ↦ refused
      | some (s, rest) ↦ if leb 256 (length s) then refused else elim (read s) [
        | none ↦ refused
        | some a ↦ elim (leb max (length got)) [
          | true ↦ refused
          | false ↦ groups fuel rest (got ++ (a ∷ []))
        ]
      ]
    ]
  ]

  -- Each round passes a parenthesis.
  pub parse_groups : Line → Scan A
  parse_groups q_arg = groups (suc (length q_arg)) q_arg []

-- `strtoul` gives the number and what follows it, or none where no number stands or it is too large
-- for an unsigned long; `rte_strsplit` gives at most so many parts between commas.
module _ (strtoul : Line → ℕ → Option (ℕ × Line)) (rte_strsplit : ℕ → Line → List Line) where
  -- The numbers of the parts, if none is above the limit.
  pub numbers : ℕ → List Line → Option (List ℕ)
  numbers limit [] = some []
  numbers limit (w ∷ ws) =
      let rest = numbers limit ws in
      elim (strtoul w 0) [
        | none ↦ none
        | some (n, end) ↦ if ltb limit n then none else Option.map (λ (ns : List ℕ). n ∷ ns) rest
      ]

  -- A group of `n` numbers.
  pub read_numbers : ℕ → ℕ → Line → Option (List ℕ)
  read_numbers n limit s =
      let parts = rte_strsplit n s in if length parts == n then numbers limit parts else none
