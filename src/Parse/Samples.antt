-- ===== src/Parse/Samples.antt =====
-- Rule lines with numbers of one character each, for the tests.
use queue_dpdk.Prelude.{
  ℕ, ◌+◌, ◌-◌, Option, none, some, List, [], ◌∷◌, ◌++◌, leb, ◌==◌, if◌then◌else◌,
}
use queue_dpdk.Rules.{Line}

-- The number n as the one character n + 100.
abbrev pub one_char : ℕ → Line
one_char n = (n + 100) ∷ []

abbrev pub read_char : Line → ℕ → Option (ℕ × Line)
read_char [] base = none
read_char (c ∷ cs) base = if leb 100 c then some (c - 100, cs) else none

-- The words of a text that ends in a space.
abbrev pub words : Line → Line → List Line
words acc [] = []
words acc (c ∷ cs) =
    let next = words [] cs in
    let more = words (acc ++ (c ∷ [])) cs in if c == 32 then acc ∷ next else more

-- A route to port 1: two networks, all ports, protocol 17.
abbrev pub route : Line
route =
    82 ∷ 110 ∷ 46 ∷ 100 ∷ 46 ∷ 100 ∷ 46 ∷ 101 ∷ 47 ∷ 132 ∷ 32 ∷ 110 ∷ 46 ∷ 100 ∷ 46 ∷ 100 ∷ 46 ∷ 102
    ∷ 47 ∷ 132 ∷ 32 ∷ 100 ∷ 32 ∷ 58 ∷ 32 ∷ 150 ∷ 32 ∷ 100 ∷ 32 ∷ 58 ∷ 32 ∷ 150 ∷ 32 ∷ 117 ∷ 47 ∷ 117
    ∷ 32 ∷ 101 ∷ 32 ∷ []

-- An IPv6 route to port 1, from one network to another.
abbrev pub route6 : Line
route6 =
    let address : Line =
      100 ∷ 58 ∷ 100 ∷ 58 ∷ 100 ∷ 58 ∷ 100 ∷ 58 ∷ 100 ∷ 58 ∷ 100 ∷ 58 ∷ 100 ∷ 58 ∷ 101 ∷ 47 ∷ 164
      ∷ 32 ∷ [] in
    (82 ∷ [])
    ++ (address
        ++ (address
            ++ (100 ∷ 32 ∷ 58 ∷ 32 ∷ 150 ∷ 32 ∷ 100 ∷ 32 ∷ 58 ∷ 32 ∷ 150 ∷ 32 ∷ 117 ∷ 47 ∷ 117 ∷ 32
                ∷ 101 ∷ 32 ∷ [])))
