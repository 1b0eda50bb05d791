-- ===== src/Prelude/Bits.antt =====
-- The binary digits of a number, and what `&` and `|` do to them.
use Prim.Native.Nat.{
  ℕ, zero, suc, ◌+◌, ◌*◌, ◌/◌, ◌%◌, ◌^◌, ◌≤◌, ◌<◌, min, max, bit_and, bit_or, digits,
  bit_and-bitwise, bit_or-bitwise,
}
use mathlib.Core.Path.{◌≡◌, refl, ◌∙◌, ap}
use mathlib.Core.Logic.{◌≢◌}
use native.Mathlib.Nat.{pow-suc, mul_assoc}
use native.Mathlib.Omega.{arith}

abbrev pub bit : ℕ → ℕ → ℕ
bit x zero = x % 2
bit x (suc p) = bit (x / 2) p

digits_fuel :
    (f : ℕ → ℕ) (g : ℕ → ℕ → ℕ) (n m a b : ℕ) → a ≤ n → a ≤ m → digits f g n a b ≡ digits f g m a b
digits_fuel f g zero zero a b h k = refl
digits_fuel f g zero (suc m) zero b h k = refl
digits_fuel f g zero (suc m) (suc a) b h k = absurd (omega (arith, h))
digits_fuel f g (suc n) zero zero b h k = refl
digits_fuel f g (suc n) zero (suc a) b h k = absurd (omega (arith, k))
digits_fuel f g (suc n) (suc m) zero b h k = refl
digits_fuel f g (suc n) (suc m) (suc a) b h k =
    ap (λ t. t * 2 + g (suc a % 2) (b % 2))
      (digits_fuel f g n m (suc a / 2) (b / 2) (omega (arith, h)) (omega (arith, k)))

-- Both operations by their lowest digit.
bit_and_step : (a b : ℕ) → bit_and a b ≡ bit_and (a / 2) (b / 2) * 2 + min (a % 2) (b % 2)
bit_and_step zero b = omega (arith, bit_and-bitwise 0 b, bit_and-bitwise 0 (b / 2))
bit_and_step (suc a) b = omega (
  arith,
  bit_and-bitwise (suc a) b,
  bit_and-bitwise (suc a / 2) (b / 2),
  digits_fuel (λ b. 0) min a (suc a / 2) (suc a / 2) (b / 2) (omega arith) (omega arith),
)

bit_or_step : (a b : ℕ) → bit_or a b ≡ bit_or (a / 2) (b / 2) * 2 + max (a % 2) (b % 2)
bit_or_step zero b = omega (arith, bit_or-bitwise 0 b, bit_or-bitwise 0 (b / 2))
bit_or_step (suc a) b = omega (
  arith,
  bit_or-bitwise (suc a) b,
  bit_or-bitwise (suc a / 2) (b / 2),
  digits_fuel (λ b. b) max a (suc a / 2) (suc a / 2) (b / 2) (omega arith) (omega arith),
)

pub bit-bit_and : (x y p : ℕ) → bit (bit_and x y) p ≡ min (bit x p) (bit y p)
bit-bit_and x y zero = omega (arith, bit_and_step x y)
bit-bit_and x y (suc p) =
    let half : bit_and x y / 2 ≡ bit_and (x / 2) (y / 2) = omega (arith, bit_and_step x y) in
    ap (λ t. bit t p) half ∙ bit-bit_and (x / 2) (y / 2) p

pub bit-bit_or : (x y p : ℕ) → bit (bit_or x y) p ≡ max (bit x p) (bit y p)
bit-bit_or x y zero = omega (arith, bit_or_step x y)
bit-bit_or x y (suc p) =
    let half : bit_or x y / 2 ≡ bit_or (x / 2) (y / 2) = omega (arith, bit_or_step x y) in
    ap (λ t. bit t p) half ∙ bit-bit_or (x / 2) (y / 2) p

pub bit-zero : (p : ℕ) → bit 0 p ≡ 0
bit-zero zero = refl
bit-zero (suc p) = bit-zero p

pub bit-lt : (x p : ℕ) → bit x p < 2
bit-lt x zero = omega arith
bit-lt x (suc p) = bit-lt (x / 2) p

pow_half : (p : ℕ) → (2 ^ suc p / 2 ≡ 2 ^ p) × (2 ^ suc p % 2 ≡ 0)
pow_half p = (omega (arith, pow-suc 2 p), omega (arith, pow-suc 2 p))

-- 2^p has the digit p alone.
pub bit-pow_self : (p : ℕ) → bit (2 ^ p) p ≡ 1
bit-pow_self zero = refl
bit-pow_self (suc p) = ap (λ t. bit t p) (pow_half p).0 ∙ bit-pow_self p

pub bit-pow_other : (p q : ℕ) → p ≢ q → bit (2 ^ p) q ≡ 0
bit-pow_other zero zero n = absurd (n refl)
bit-pow_other zero (suc q) n = bit-zero q
bit-pow_other (suc p) zero n = (pow_half p).1
bit-pow_other (suc p) (suc q) n =
    ap (λ t. bit t q) (pow_half p).0 ∙ bit-pow_other p q (λ e. n (ap suc e))

bit_and-zero : (x n : ℕ) → x ≤ n → bit_and x 0 ≡ 0
bit_and-zero zero n h = omega (arith, bit_and-bitwise 0 0)
bit_and-zero (suc x) zero h = absurd (omega (arith, h))
bit_and-zero (suc x) (suc n) h =
    omega (arith, bit_and_step (suc x) 0, bit_and-zero (suc x / 2) n (omega (arith, h)))

-- What a mask and 2^p have in common.
pub bit_and-pow : (x p : ℕ) → bit_and x (2 ^ p) ≡ bit x p * 2 ^ p
bit_and-pow x zero = omega (arith, bit_and_step x 1, bit_and-zero (x / 2) (x / 2) (omega arith))
bit_and-pow x (suc p) =
    let half = pow_half p in
    let step : bit_and x (2 ^ suc p) ≡ bit_and (x / 2) (2 ^ p) * 2 =
      bit_and_step x (2 ^ suc p) ∙ rw (half.0, half.1) (omega arith) in
    step ∙ rw (bit_and-pow (x / 2) p) (simp (pow-suc) (mul_assoc (bit (x / 2) p) (2 ^ p) 2))
