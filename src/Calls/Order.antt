-- ===== src/Calls/Order.antt =====
-- The order of the calls of a set-up, and where it ends.
use mathlib.Core.List.Memᴰ.{Memᴰ, head, tail, append_left, append_right}
use mathlib.Core.Option
use mathlib.Core.Path.{subst}
use queue_dpdk.Prelude.{
  ℕ, zero, suc, ◌≡◌, refl, sym, ap, Bool, true, false, Bool-cases, inl, inr, List, [], ◌∷◌, ◌++◌,
  map, All, some, get_elem?,
}
use queue_dpdk.Poll.{Mode}
use queue_dpdk.Calls.{Start, ended, launched, after, run_calls, for_each}

pub get_elem?-Mem : (l : List ℕ) (k a : ℕ) → get_elem? l k ≡ some a → Memᴰ a l
get_elem?-Mem [] k a e = cc e
get_elem?-Mem (x ∷ l) zero a e = head (sym (Option.some_inj.0 e))
get_elem?-Mem (x ∷ l) (suc k) a e = tail (get_elem?-Mem l k a e)

module _ {ℓ} {C : Type ℓ} where
  -- One call comes before another.
  abbrev pub Before : C → C → List C → Type ℓ
  Before a b cs = (xs : List C) × (ys : List C) × (cs ≡ xs ++ ys) × Memᴰ a xs × Memᴰ b ys

  pub map-Mem : (f : ℕ → C) (l : List ℕ) (a : ℕ) → Memᴰ a l → Memᴰ (f a) (map f l)
  map-Mem f [] a h = elim h [ ]
  map-Mem f (x ∷ l) a (head e) = head (ap f e)
  map-Mem f (x ∷ l) a (tail m) = tail (map-Mem f l a m)

  pub for_each-Mem :
      (f : ℕ → List C) (xs : List ℕ) (x : ℕ) (c : C)
      → Memᴰ x xs
      → Memᴰ c (f x)
      → Memᴰ c (for_each f xs)
  for_each-Mem f [] x c h k = elim h [ ]
  for_each-Mem f (y ∷ xs) x c (head e) k =
      append_left (for_each f xs) (subst (λ z. Memᴰ c (f z)) e k)
  for_each-Mem f (y ∷ xs) x c (tail m) k = append_right (f y) (for_each-Mem f xs x c m k)

  -- `main` runs through all its calls, or up to the first that fails.
  abbrev pub Stops : (C → Bool) → Mode → List C → Start C → Type ℓ
  Stops succeeds mode cs (launched done mode') =
      (done ≡ cs) × (mode' ≡ mode) × All (λ c. succeeds c ≡ true) cs
  Stops succeeds mode cs (ended done) =
      (before : List C) × (last : C) × (rest : List C) × (done ≡ before ++ (last ∷ []))
      × (cs ≡ before ++ (last ∷ rest))
      × All (λ c. succeeds c ≡ true) before
      × (succeeds last ≡ false)

  after-Stops :
      (succeeds : C → Bool) (mode : Mode) (c : C) (cs : List C) (s : Start C)
      → succeeds c ≡ true
      → Stops succeeds mode cs s
      → Stops succeeds mode (c ∷ cs) (after c s)
  after-Stops succeeds mode c cs (launched done mode') e h = (ap (λ l. c ∷ l) h.0, h.1, (e, h.2))
  after-Stops succeeds mode c cs (ended done) e h =
      (c ∷ h.0, h.1, h.2, ap (λ l. c ∷ l) h.3, ap (λ l. c ∷ l) h.4, (e, h.5), h.6)

  pub run_calls-Stops :
      (succeeds : C → Bool) (mode : Mode) (cs : List C)
      → Stops succeeds mode cs (run_calls succeeds mode cs)
  unfolding run_calls
  run_calls-Stops succeeds mode [] = (refl, refl, tt)
  run_calls-Stops succeeds mode (c ∷ cs) = elim (Bool-cases (succeeds c)) [
    | inl e ↦
        rw (e, run_calls)
          (after-Stops succeeds mode c cs (run_calls succeeds mode cs) e
            (run_calls-Stops succeeds mode cs))
    | inr e ↦ rw (e, run_calls) ([], c, cs, refl, refl, tt, e)
  ]

  pub run_calls-launched :
      (succeeds : C → Bool) (mode : Mode) (cs : List C)
      → All (λ c. succeeds c ≡ true) cs
      → run_calls succeeds mode cs ≡ launched cs mode
  unfolding run_calls
  run_calls-launched succeeds mode [] a = refl
  run_calls-launched succeeds mode (c ∷ cs) a =
      rw (a.0, run_calls) (ap (after c) (run_calls-launched succeeds mode cs a.1))

  -- Calls of one kind that all succeed.
  pub All-map :
      (succeeds : C → Bool) (f : ℕ → C) (xs : List ℕ)
      → ((x : ℕ) → succeeds (f x) ≡ true)
      → All (λ c. succeeds c ≡ true) (map f xs)
  All-map succeeds f [] h = tt
  All-map succeeds f (x ∷ xs) h = (h x, All-map succeeds f xs h)
