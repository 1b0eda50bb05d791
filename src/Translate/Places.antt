-- ===== src/Translate/Places.antt =====
-- nf-chain/src/nat_flowmanager.c: how many indices of an allocator are in use.
use native.Mathlib.Decide.{ℕ_discrete}
use queue_dpdk.Prelude.{
  ℕ, zero, suc, ◌+◌, ◌<◌, ◌≤◌, ◌≡◌, refl, Bool, true, false, ◌==◌, if◌then◌else◌, arith,
}

-- The indices below `n` that are marked.
abbrev pub count : (ℕ → Bool) → ℕ → ℕ
count f zero = 0
count f (suc n) = (if f n then 1 else 0) + count f n

count-le : (f : ℕ → Bool) (n : ℕ) → count f n ≤ n
count-le f zero = omega arith
count-le f (suc n) = ground (arith, count-le f n)

pub count_congr : (f g : ℕ → Bool) (n : ℕ) → ((i : ℕ) → i < n → f i ≡ g i) → count f n ≡ count g n
count_congr f g zero h = refl
count_congr f g (suc n) h =
    rw (h n (omega arith), count_congr f g n (λ i l. h i (omega (arith, l)))) refl

pub count_none : (f : ℕ → Bool) (n : ℕ) → ((i : ℕ) → i < n → f i ≡ false) → count f n ≡ 0
count_none f zero h = refl
count_none f (suc n) h =
    let rest = count_none f n (λ i l. h i (omega (arith, l))) in
    rw (h n (omega arith)) (omega (arith, rest))

-- With a free index, not all are in use.
pub count_free : (f : ℕ → Bool) (n i : ℕ) → i < n → f i ≡ false → count f n < n
count_free f zero i l e = absurd (omega (arith, l))
count_free f (suc n) i l e = elim (ℕ_discrete i n) [
  | yes q ↦ let free : f n ≡ false = rw (← q) e in rw free (omega (arith, count-le f n))
  | no ne ↦ ground (arith, count_free f n i (omega (arith, l, ne)) e)
]

-- Marking a free index makes one more.
pub count_mark :
    (f g : ℕ → Bool) (n i : ℕ)
    → i < n
    → f i ≡ false
    → ((j : ℕ) → j < n → g j ≡ (if i == j then true else f j))
    → count g n ≡ count f n + 1
count_mark f g zero i l e h = absurd (omega (arith, l))
count_mark f g (suc n) i l e h = elim (ℕ_discrete i n) [
  | yes q ↦
      let free : f n ≡ false = rw (← q) e in
      let taken : g n ≡ true = ground (arith, h n (omega arith), q) in
      let rest : count g n ≡ count f n =
        count_congr g f n (λ j k. ground (arith, h j (omega (arith, k)), q, k)) in
      rw (free, taken) (omega (arith, rest))
  | no ne ↦
      let same : g n ≡ f n = ground (arith, h n (omega arith), ne) in
      let rest = count_mark f g n i (omega (arith, l, ne)) e (λ j k. h j (omega (arith, k))) in
      rw same (omega (arith, rest))
]
