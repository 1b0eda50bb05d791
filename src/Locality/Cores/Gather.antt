-- ===== src/Locality/Cores/Gather.antt =====
-- locality/main.c, `main`: the ports of the lcores, one lcore after another.
use native.Mathlib.Decide.{ℕ_discrete}
use mathlib.Core.List.{append_assoc, append-nil}
use queue_dpdk.Prelude.{
  Bool-cases, inr, inl, ℕ, zero, suc, ◌+◌, ◌*◌, ◌≤◌, ◌<◌, ◌≡◌, refl, sym, ap, Bool, true, false,
  List, [], ◌∷◌, ◌++◌, length, length-append, arith, ◌==◌, if◌then◌else◌, update,
}

-- The ports of `n` lcores from `i` on, in their order.
abbrev pub gather : (ℕ → List ℕ) → ℕ → ℕ → List ℕ
gather f i zero = []
gather f i (suc n) = f i ++ gather f (i + 1) n

-- How many of them are enabled.
abbrev pub enabled_lcores : (ℕ → Bool) → ℕ → ℕ → ℕ
enabled_lcores e i zero = 0
enabled_lcores e i (suc n) = let rest = enabled_lcores e (i + 1) n in if e i then suc rest else rest

-- What is gathered behind an lcore is not that of the lcore.
gather-update :
    (f : ℕ → List ℕ) (lcore i n : ℕ) (ps : List ℕ)
    → lcore < i
    → gather (update f lcore ps) i n ≡ gather f i n
gather-update f lcore i zero ps l = refl
gather-update f lcore i (suc n) ps l =
    let rest = gather-update f lcore (i + 1) n ps (omega (arith, l)) in
    let other : (i == lcore) ≡ false = ground (arith, l) in rw (other, rest)

pub gather-empty : (f : ℕ → List ℕ) (i n : ℕ) → ((j : ℕ) → i ≤ j → f j ≡ []) → gather f i n ≡ []
gather-empty f i zero h = refl
gather-empty f i (suc n) h =
    rw (h i (omega arith)) (gather-empty f (i + 1) n (λ j l. h j (omega (arith, l))))

-- A port goes behind all that is gathered, when the lcores behind its lcore have none.
pub gather-take_port :
    (f : ℕ → List ℕ) (lcore i n p : ℕ)
    → i ≤ lcore
    → lcore < i + n
    → ((j : ℕ) → lcore < j → f j ≡ [])
    → gather (update f lcore (f lcore ++ (p ∷ []))) i n ≡ gather f i n ++ (p ∷ [])
gather-take_port f lcore i zero p a b h = absurd (omega (arith, a, b))
gather-take_port f lcore i (suc n) p a b h = elim (ℕ_discrete i lcore) [
  | yes e ↦
      let here : (i == lcore) ≡ true = ground (arith, e) in
      let behind = gather-update f lcore (i + 1) n (f lcore ++ (p ∷ [])) (omega (arith, e)) in
      let none_behind = gather-empty f (i + 1) n (λ j l. h j (omega (arith, l, e))) in
      rw (here, behind, none_behind, ap f e, append-nil (f lcore ++ (p ∷ [])), append-nil (f lcore))
        refl
  | no ne ↦
      let other : (i == lcore) ≡ false = ground (arith, ne) in
      let rest = gather-take_port f lcore (i + 1) n p (omega (arith, a, ne)) (omega (arith, b)) h in
      rw (other, rest) (sym (append_assoc (f i) (gather f (i + 1) n) (p ∷ [])))
]

module _ (is_enabled : ℕ → Bool) (per_lcore : ℕ) where
  -- When every enabled lcore is full and the others have none.
  pub gather-full :
      (f : ℕ → List ℕ) (i n : ℕ)
      → ((j : ℕ) → j < i + n → is_enabled j ≡ true → length (f j) ≡ per_lcore)
      → ((j : ℕ) → is_enabled j ≡ false → f j ≡ [])
      → length (gather f i n) ≡ enabled_lcores is_enabled i n * per_lcore
  gather-full f i zero a b = omega arith
  gather-full f i (suc n) a b =
      let rest = gather-full f (i + 1) n (λ j l. a j (omega (arith, l))) b in
      elim (Bool-cases (is_enabled i)) [
        | inl e ↦
            rw e
              (omega (arith, length-append (f i) (gather f (i + 1) n), rest, a i (omega arith) e))
        | inr e ↦ rw (e, b i e) rest
      ]
