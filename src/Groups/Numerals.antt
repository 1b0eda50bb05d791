-- ===== src/Groups/Numerals.antt =====
-- A printed group of numbers is read back.
use mathlib.Core.Path.{subst}
use queue_dpdk.Prelude.{
  ltb, false, true, ==_iff, All-append, map, ◌*◌, ap, ap, length-append, ◌≤◌, ℕ, suc, ◌≡◌, ◌≢◌,
  refl, true, false, Option, some, List, [], ◌∷◌, ◌++◌, All, arith, length, ◌==◌,
}
use queue_dpdk.Rules.{Line}
use queue_dpdk.Groups.{read_numbers, numbers}

-- Parts with commas between them.
abbrev pub joined : List Line → Line
joined [] = []
joined (w ∷ []) = w
joined (w ∷ v ∷ ws) = w ++ (44 ∷ joined (v ∷ ws))

-- `dec` is how a number below 256 is written; `rte_strsplit` parts a text at its commas.
pub record Numerals (strtoul : Line → ℕ → Option (ℕ × Line)) (rte_strsplit : ℕ → Line → List Line)
    (dec : ℕ → Line) : Type 0 where
  pub read : (n : ℕ) → n ≤ 255 → strtoul (dec n) 0 ≡ some (n, [])
  pub digits : (n : ℕ) → n ≤ 255 → All (λ x. (x ≢ 41) × (x ≢ 44)) (dec n)
  pub short : (n : ℕ) → n ≤ 255 → length (dec n) ≤ 3
  pub split :
      (ws : List Line)
      → All (All (λ x. (x ≢ 41) × (x ≢ 44))) ws
      → rte_strsplit (length ws) (joined ws) ≡ ws

module _ (strtoul : Line → ℕ → Option (ℕ × Line)) (strsplit : ℕ → Line → List Line) (dec : ℕ → Line)
    (texts : Numerals strtoul strsplit dec) where
  plain : (w : Line) → All (λ x. (x ≢ 41) × (x ≢ 44)) w → All (λ x. x ≢ 41) w
  plain [] a = tt
  plain (x ∷ w) a = (a.0.0, plain w a.1)

  numbers-map :
      (limit : ℕ) (ns : List ℕ)
      → limit ≤ 255
      → All (λ n. n ≤ limit) ns
      → numbers strtoul strsplit limit (map dec ns) ≡ some ns
  unfolding numbers
  numbers-map limit [] b h = refl
  numbers-map limit (n ∷ ns) b h =
      let fine : ltb limit n ≡ false = ground (arith, h.0) in
      rw (texts.read n (omega (arith, b, h.0)), numbers, fine, numbers-map limit ns b h.1) refl

  map-digits :
      (ns : List ℕ) → All (λ n. n ≤ 255) ns → All (All (λ x. (x ≢ 41) × (x ≢ 44))) (map dec ns)
  map-digits [] h = tt
  map-digits (n ∷ ns) h = (texts.digits n h.0, map-digits ns h.1)

  length-map : (ns : List ℕ) → length (map dec ns) ≡ length ns
  length-map [] = refl
  length-map (n ∷ ns) = ap suc (length-map ns)

  All-weaken :
      (limit : ℕ) (ns : List ℕ) → limit ≤ 255 → All (λ n. n ≤ limit) ns → All (λ n. n ≤ 255) ns
  All-weaken limit [] b h = tt
  All-weaken limit (n ∷ ns) b h = (omega (arith, b, h.0), All-weaken limit ns b h.1)

  -- A group of numbers is read back.
  pub read_numbers-joined :
      (limit : ℕ) (ns : List ℕ)
      → limit ≤ 255
      → All (λ n. n ≤ limit) ns
      → read_numbers strtoul strsplit (length ns) limit (joined (map dec ns)) ≡ some ns
  unfolding read_numbers
  read_numbers-joined limit ns b h =
      let parts : strsplit (length ns) (joined (map dec ns)) ≡ map dec ns =
        subst (λ k. strsplit k (joined (map dec ns)) ≡ map dec ns) (length-map ns)
          (texts.split (map dec ns) (map-digits ns (All-weaken limit ns b h))) in
      let as_many : (length (map dec ns) == length ns) ≡ true =
        (==_iff (length (map dec ns)) (length ns)).1 (length-map ns) in
      rw (parts, as_many) (numbers-map limit ns b h)

  -- It has no parenthesis, and four characters at most for each number.
  pub joined-plain : (ns : List ℕ) → All (λ n. n ≤ 255) ns → All (λ x. x ≢ 41) (joined (map dec ns))
  joined-plain [] h = tt
  joined-plain (n ∷ []) h = plain (dec n) (texts.digits n h.0)
  joined-plain (n ∷ m ∷ ns) h =
      All-append (λ x. x ≢ 41) (dec n) (44 ∷ joined (map dec (m ∷ ns)))
        (plain (dec n) (texts.digits n h.0)) (ground arith, joined-plain (m ∷ ns) h.1)

  pub length-joined :
      (ns : List ℕ) → All (λ n. n ≤ 255) ns → length (joined (map dec ns)) ≤ 4 * length ns
  length-joined [] h = omega arith
  length-joined (n ∷ []) h = omega (arith, texts.short n h.0)
  length-joined (n ∷ m ∷ ns) h = omega (
    arith,
    texts.short n h.0,
    length-joined (m ∷ ns) h.1,
    length-append (dec n) (44 ∷ joined (map dec (m ∷ ns))),
  )
