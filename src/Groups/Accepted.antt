-- ===== src/Groups/Accepted.antt =====
-- The loop over the groups of a text ends, and keeps to the array.
use mathlib.Core.Option
use mathlib.Core.Path.{subst}
use queue_dpdk.Prelude.{
  ap, ==_iff, IfSome, ℕ, zero, suc, ◌+◌, ◌<◌, ◌≤◌, ◌≡◌, refl, Bool-cases, inl, inr, Option, none,
  some, List, [], ◌∷◌, ◌++◌, All, All-append, arith, length, length-append, leb, ltb, ◌==◌,
}
use queue_dpdk.Rules.{Line}
use queue_dpdk.Groups.{
  past, before, Scan, accepted, refused, lacking, groups, parse_groups, numbers, read_numbers,
}

abbrev Shorter : Line → Option Line → Type 0
Shorter s none = Unit
Shorter s (some p) = length p < length s

Shorter-weaken : (x : ℕ) (xs : Line) (o : Option Line) → Shorter xs o → Shorter (x ∷ xs) o
Shorter-weaken x xs none h = tt
Shorter-weaken x xs (some p) h = omega (arith, h)

past-Shorter : (c : ℕ) (s : Line) → Shorter s (past c s)
unfolding past
past-Shorter c [] = tt
past-Shorter c (x ∷ xs) = elim (Bool-cases (x == c)) [
  | inl e ↦ rw (e, past) (omega arith)
  | inr e ↦ rw (e, past) (Shorter-weaken x xs (past c xs) (past-Shorter c xs))
]

-- A cut of a text.
abbrev Cuts : Line → Option (Line × Line) → Type 0
Cuts s none = Unit
Cuts s (some (g, rest)) = length g + length rest ≡ length s

Cuts-cons :
    (x : ℕ) (xs : Line) (o : Option (Line × Line))
    → Cuts xs o
    → Cuts (x ∷ xs) (Option.map (λ (r : Line × Line). (x ∷ r.0, r.1)) o)
Cuts-cons x xs none h = tt
Cuts-cons x xs (some (g, rest)) h = omega (arith, h)

before-Cuts : (c : ℕ) (s : Line) → Cuts s (before c s)
unfolding before
before-Cuts c [] = tt
before-Cuts c (x ∷ xs) = elim (Bool-cases (x == c)) [
  | inl e ↦ rw (e, before) (omega arith)
  | inr e ↦ rw (e, before) (Cuts-cons x xs (before c xs) (before-Cuts c xs))
]

module _ {A : Type 0} (P : A → Type 0) (read : Line → Option A) (max : ℕ)
    (sane : (s : Line) → IfSome P (read s)) where
  -- What the array holds when the text is accepted.
  abbrev pub Keeps : Scan A → Type 0
  Keeps (accepted got) = All P got × (length got ≤ max)
  Keeps refused = Unit
  Keeps lacking = ⊥

  groups-Keeps :
      (fuel : ℕ) (s : Line) (got : List A)
      → length s < fuel
      → All P got
      → length got ≤ max
      → Keeps (groups read max fuel s got)
  unfolding groups
  groups-Keeps zero s got f a b = absurd (omega (arith, f))
  groups-Keeps (suc fuel) s got f a b =
      opened (past 40 s) refl (past-Shorter 40 s) (λ rest got'. groups-Keeps fuel rest got')
    where
      whole : Scan A
      whole = groups read max (suc fuel) s got

      taken :
          (p g rest : Line)
          → past 40 s ≡ some p
          → before 41 p ≡ some (g, rest)
          → length rest < fuel
          → ((rest : Line) (got' : List A)
              → length rest < fuel
              → All P got'
              → length got' ≤ max
              → Keeps (groups read max fuel rest got'))
          → (o : Option A) → read g ≡ o
          → IfSome P o
          → Keeps whole
      taken p g rest e q l ih none r h = elim (Bool-cases (leb 256 (length g))) [
        | inl big ↦ rw (e, groups, q, big) tt
        | inr fine ↦ rw (e, groups, q, fine, r) tt
      ]
      taken p g rest e q l ih (some x) r h = elim (Bool-cases (leb 256 (length g))) [
        | inl big ↦ rw (e, groups, q, big) tt
        | inr fine ↦ elim (Bool-cases (leb max (length got))) [
          | inl full ↦ rw (e, groups, q, fine, r, full) tt
          | inr room ↦
              rw (e, groups, q, fine, r, room)
                (ih rest (got ++ (x ∷ [])) l (All-append P got (x ∷ []) a (h, tt))
                  (ground (arith, room, length-append got (x ∷ []))))
        ]
      ]

      closed :
          (p : Line)
          → past 40 s ≡ some p
          → length p < length s
          → ((rest : Line) (got' : List A)
              → length rest < fuel
              → All P got'
              → length got' ≤ max
              → Keeps (groups read max fuel rest got'))
          → (o : Option (Line × Line)) → before 41 p ≡ o
          → Cuts p o
          → Keeps whole
      closed p e l ih none q c = rw (e, groups, q) tt
      closed p e l ih (some (g, rest)) q c =
          taken p g rest e q (omega (arith, f, l, c)) ih (read g) refl (sane g)

      opened :
          (o : Option Line)
          → past 40 s ≡ o
          → Shorter s o
          → ((rest : Line) (got' : List A)
              → length rest < fuel
              → All P got'
              → length got' ≤ max
              → Keeps (groups read max fuel rest got'))
          → Keeps whole
      opened none e l ih = rw (e, groups) (a, b)
      opened (some p) e l ih = closed p e l ih (before 41 p) refl (before-Cuts 41 p)

  pub parse_groups-Keeps : (s : Line) → Keeps (parse_groups read max s)
  unfolding parse_groups
  parse_groups-Keeps s = groups-Keeps (suc (length s)) s [] (omega arith) tt (omega arith)

-- So many numbers, none above the limit.
abbrev pub Numbers : ℕ → ℕ → List ℕ → Type 0
Numbers n limit ns = (length ns ≡ n) × All (λ x. x ≤ limit) ns

module _ (strtoul : Line → ℕ → Option (ℕ × Line)) (strsplit : ℕ → Line → List Line)
    (limit : ℕ) where
  cons-Numbers :
      (n k : ℕ) (o : Option (List ℕ))
      → n ≤ limit
      → IfSome (Numbers k limit) o
      → IfSome (Numbers (suc k) limit) (Option.map (λ (ns : List ℕ). n ∷ ns) o)
  cons-Numbers n k none b h = tt
  cons-Numbers n k (some ns) b h = (ap suc h.0, (b, h.1))

  numbers-Numbers :
      (ws : List Line) → IfSome (Numbers (length ws) limit) (numbers strtoul strsplit limit ws)
  unfolding numbers
  numbers-Numbers [] = (refl, tt)
  numbers-Numbers (w ∷ ws) = go (strtoul w 0) refl (numbers-Numbers ws)
    where
      go :
          (o : Option (ℕ × Line))
          → strtoul w 0 ≡ o
          → IfSome (Numbers (length ws) limit) (numbers strtoul strsplit limit ws)
          → IfSome (Numbers (suc (length ws)) limit) (numbers strtoul strsplit limit (w ∷ ws))
      go none e h = rw (e, numbers) tt
      go (some (n, end)) e h = elim (Bool-cases (ltb limit n)) [
        | inl big ↦ rw (e, numbers, big) tt
        | inr fine ↦
            rw (e, numbers, fine)
              (cons-Numbers n (length ws) (numbers strtoul strsplit limit ws) (ground (arith, fine))
                h)
      ]

  pub read_numbers-Numbers :
      (n : ℕ) (s : Line) → IfSome (Numbers n limit) (read_numbers strtoul strsplit n limit s)
  unfolding read_numbers
  read_numbers-Numbers n s = elim (Bool-cases (length (strsplit n s) == n)) [
    | inl e ↦
        let same : length (strsplit n s) ≡ n = (==_iff (length (strsplit n s)) n).0 e in
        rw (e, read_numbers)
          (subst (λ k. IfSome (Numbers k limit) (numbers strtoul strsplit limit (strsplit n s)))
            same (numbers-Numbers (strsplit n s)))
    | inr e ↦ rw (e, read_numbers) tt
  ]
